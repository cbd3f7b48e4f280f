-- ===== src/Path/Escape.antt =====
-- Escaping a path and reading it back.
use kubio.Prelude.{
  ℕ, ◌/◌, ◌%◌, ◌<◌, ◌≡◌, refl, true, false, Option, none, some, [], ◌∷◌, ◌++◌, arith, ◌==◌,
  Bool-cases, inl, inr, All, subst, ==_iff,
}
use kubio.Text.{Text}
use kubio.Url.{unhex, path_unescape, is_plain, hex_byte, escape, cons_some}
use kubio.Path.{escaped_path_byte}

abbrev pub IsBytes : Text → Type 0
IsBytes s = All (λ c. c < 256) s

unhex-hex_byte : (n : ℕ) → n < 16 → unhex (hex_byte n) ≡ some n
unfolding unhex
unhex-hex_byte n h = ground arith

escaped_byte :
    (c : ℕ) (t s : Text)
    → c < 256
    → path_unescape t ≡ some s
    → path_unescape (b'%' ∷ hex_byte (c / 16) ∷ hex_byte (c % 16) ∷ t) ≡ some (c ∷ s)
unfolding path_unescape
escaped_byte c t s h e =
    rw (unhex-hex_byte (c / 16) (omega arith), unhex-hex_byte (c % 16) (omega arith), e)
      (ground arith)

abbrev pub append_some : Text → Option Text → Option Text
append_some p none = none
append_some p (some s) = some (p ++ s)

abbrev pub then_unescape : Option (ℕ × Text) → Option Text
then_unescape none = none
then_unescape (some (value, next)) = cons_some value (path_unescape next)

-- Reading a path goes byte by byte, as escapedPathByte does.
pub path_unescape-escaped_path_byte :
    (a : ℕ) (s : Text) → path_unescape (a ∷ s) ≡ then_unescape (escaped_path_byte (a ∷ s))
unfolding path_unescape escaped_path_byte unhex
path_unescape-escaped_path_byte a [] = ground arith
path_unescape-escaped_path_byte a (b ∷ []) = ground arith
path_unescape-escaped_path_byte a (b ∷ c ∷ s) = ground arith

path_unescape_plain :
    (c : ℕ) (s : Text) → (c == b'%') ≡ false → path_unescape (c ∷ s) ≡ cons_some c (path_unescape s)
unfolding path_unescape
path_unescape_plain c [] h = rw h
path_unescape_plain c (b ∷ []) h = rw h
path_unescape_plain c (b ∷ d ∷ s) h = rw h

is_plain-ne-percent : (c : ℕ) → is_plain c ≡ true → (c == b'%') ≡ false
unfolding is_plain
is_plain-ne-percent c h = elim (Bool-cases (c == b'%')) [
  | inl same ↦
      let percent : is_plain b'%' ≡ true =
        subst (λ d. is_plain d ≡ true) ((==_iff c b'%').0 same) h in
      cc percent
  | inr other ↦ other
]

pub path_unescape_nil : path_unescape [] ≡ some []
unfolding path_unescape
path_unescape_nil = refl

-- A path whose bytes are bytes is read back from its escaped form.
pub path_unescape-escape : (s : Text) → IsBytes s → path_unescape (escape s) ≡ some s
unfolding escape
path_unescape-escape [] h = path_unescape_nil
path_unescape-escape (c ∷ s) (byte, h) = elim (Bool-cases (is_plain c)) [
  | inl plain ↦ rw (
    plain,
    path_unescape_plain c (escape s) (is_plain-ne-percent c plain),
    path_unescape-escape s h,
  )
  | inr special ↦ rw special (escaped_byte c (escape s) s byte (path_unescape-escape s h))
]
