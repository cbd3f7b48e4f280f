-- ===== src/Headers/Escape.antt =====
-- Every value can be written for expandEnv: the escapes and their expansion.
use kubio.Prelude.{
  ℕ, zero, suc, ◌<◌, ◌≡◌, refl, ap, sym, ◌∙◌, ==_iff, true, false, ◌&&◌, Option, [], ◌∷◌, ◌==◌,
  if◌then◌else◌, length, arith, ok, Bool-cases, inl, inr,
}
use kubio.Text.{Text, text, has_prefix, cut_prefix}
use kubio.Headers.{expand_from, expand_env}

-- A value with its backslashes doubled, and a backslash before each opening of a variable.
unfoldable pub escape : Text → Text
escape [] = []
escape (c ∷ s) =
    if c == 92
    then 92 ∷ 92 ∷ escape s
    else if c == b'$' && has_prefix s (text "{")
    then 92 ∷ b'$' ∷ escape s
    else c ∷ escape s

-- A value opens no variable after a dollar sign, nor do its escapes.
no_brace : (s : Text) → has_prefix s (text "{") ≡ false → has_prefix (escape s) (text "{") ≡ false
unfolding escape has_prefix cut_prefix
no_brace [] h = refl
no_brace (c ∷ s) h = ground arith

plain_byte :
    (lookup : Text → Option Text) (n c : ℕ) (t s : Text)
    → (c == 92) ≡ false
    → (c == b'$' && has_prefix t (text "{")) ≡ false
    → expand_from lookup n t ≡ ok s
    → expand_from lookup (suc n) (c ∷ t) ≡ ok (c ∷ s)
unfolding expand_from
plain_byte lookup n c t s a b h = rw (a, b, h) refl

backslash :
    (lookup : Text → Option Text) (n : ℕ) (t s : Text)
    → expand_from lookup n t ≡ ok s
    → expand_from lookup (suc n) (92 ∷ 92 ∷ t) ≡ ok (92 ∷ s)
unfolding expand_from has_prefix cut_prefix
backslash lookup n t s h = rw h refl

opening :
    (lookup : Text → Option Text) (n : ℕ) (t s : Text)
    → expand_from lookup n t ≡ ok s
    → expand_from lookup (suc n) (92 ∷ b'$' ∷ b'{' ∷ t) ≡ ok (b'$' ∷ b'{' ∷ s)
unfolding expand_from has_prefix cut_prefix
opening lookup n t s h = rw h refl

escape_back : (c : ℕ) (s : Text) → (c == 92) ≡ true → escape (c ∷ s) ≡ 92 ∷ 92 ∷ escape s
unfolding escape
escape_back c s h = rw h refl

escape_open : (s : Text) → escape (b'$' ∷ b'{' ∷ s) ≡ 92 ∷ b'$' ∷ b'{' ∷ escape s
unfolding escape has_prefix cut_prefix
escape_open s = refl

escape_plain :
    (c : ℕ) (s : Text)
    → (c == 92) ≡ false
    → (c == b'$' && has_prefix s (text "{")) ≡ false
    → escape (c ∷ s) ≡ c ∷ escape s
unfolding escape
escape_plain c s a b = rw (a, b) refl

still_plain :
    (c : ℕ) (s : Text)
    → (c == b'$' && has_prefix s (text "{")) ≡ false
    → (c == b'$' && has_prefix (escape s) (text "{")) ≡ false
still_plain c s h = ground (arith, no_brace s)

-- What opens a variable begins with a brace after the dollar sign.
is_opening :
    (c : ℕ) (s : Text)
    → (c == b'$' && has_prefix s (text "{")) ≡ true
    → (t : Text) × (c ∷ s ≡ b'$' ∷ b'{' ∷ t)
unfolding has_prefix cut_prefix
is_opening c [] h = absurd (ground arith)
is_opening c (d ∷ s) h = (s, ground arith)

expand_nothing :
    (lookup : Text → Option Text) (n : ℕ) → expand_from lookup (suc n) (escape []) ≡ ok []
unfolding expand_from escape
expand_nothing lookup n = refl

expand_from-escape :
    (lookup : Text → Option Text) (n : ℕ) (s : Text)
    → length (escape s) < n
    → expand_from lookup n (escape s) ≡ ok s
expand_from-escape lookup zero s h = absurd (omega arith)
expand_from-escape lookup (suc n) [] h = expand_nothing lookup n
expand_from-escape lookup (suc n) (c ∷ s) h = elim (Bool-cases (c == 92)) [
  | inl back ↦
      let shape = escape_back c s back in
      let is_back = (==_iff c 92).0 back in
      ap (expand_from lookup (suc n)) shape
      ∙ backslash lookup n (escape s) s
          (expand_from-escape lookup n s (ground (arith, ap length shape)))
      ∙ ap (λ b. ok (b ∷ s)) (sym is_back)
  | inr other ↦ elim (Bool-cases (c == b'$' && has_prefix s (text "{"))) [
    | inl opens ↦
        let (t, e) = is_opening c s opens in
        let shape = ap escape e ∙ escape_open t in
        ap (expand_from lookup (suc n)) shape
        ∙ opening lookup n (escape t) t
            (expand_from-escape lookup n t (ground (arith, ap length shape)))
        ∙ ap ok (sym e)
    | inr not_open ↦
        let shape = escape_plain c s other not_open in
        ap (expand_from lookup (suc n)) shape
        ∙ plain_byte lookup n c (escape s) s other (still_plain c s not_open)
            (expand_from-escape lookup n s (ground (arith, ap length shape)))
  ]
]

-- Whatever the environment holds: expandEnv turns the escapes of a value into the value, so that every
-- value can be written in a configuration.
pub expand_env-escape :
    (lookup : Text → Option Text) (s : Text) → expand_env lookup (escape s) ≡ ok s
unfolding expand_env
expand_env-escape lookup s = expand_from-escape lookup (suc (length (escape s))) s (omega arith)
