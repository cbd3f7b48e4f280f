-- ===== src/Path/Pattern.antt =====
-- Which paths a pattern matches.
use kubio.Prelude.{
  ℕ, zero, suc, ◌<◌, ◌≡◌, refl, sym, ap, ◌∙◌, Bool, true, false, ◌||◌, ◌⊎◌, inl, inr, ◌↔◌, none,
  some, [], ◌∷◌, ◌++◌, arith, Bool-cases, if◌then◌else◌, append_assoc, get_or, take, drop, length,
}
use kubio.Text.{Text, text, text_eq, is_empty, has_prefix}
use kubio.Text.Laws.{text_eq_iff, has_prefix_iff}
use kubio.Path.{PathPattern, match}

-- An exact pattern matches its own path, a wildcard one its path and all below it.
abbrev pub Covers : PathPattern → Text → Type 0
Covers p path =
    ((p.wildcard ≡ false) × (p.path ≡ path))
    ⊎ ((p.wildcard ≡ true)
        × ((p.path ≡ []) ⊎ (p.path ≡ path) ⊎ ((rest : Text) × (path ≡ p.path ++ b'/' ∷ rest))))

slash_below :
    (p path : Text)
    → (has_prefix path (p ++ text "/") ≡ true) ↔ ((rest : Text) × (path ≡ p ++ b'/' ∷ rest))
slash_below p path =
    let (to, from) = has_prefix_iff path (p ++ text "/") in
    (
      λ h. let (rest, e) = to h in (rest, e ∙ append_assoc p (text "/") rest),
      λ (rest, e). from (rest, e ∙ sym (append_assoc p (text "/") rest)),
    )

empty_iff : (s : Text) → (is_empty s ≡ true) ↔ (s ≡ [])
empty_iff [] = ground arith
empty_iff (c ∷ s) = ground arith

some_if_iff :
    (b : Bool) (q prefix : Text)
    → ((if b then some q else none) ≡ some prefix) ↔ ((b ≡ true) × (prefix ≡ q))
some_if_iff b q prefix = ground arith

below_iff :
    (p path : Text)
    → ((is_empty p || text_eq path p || has_prefix path (p ++ text "/")) ≡ true)
      ↔ ((p ≡ []) ⊎ (p ≡ path) ⊎ ((rest : Text) × (path ≡ p ++ b'/' ∷ rest)))
below_iff p path = (to, from)
  where
    to :
        (is_empty p || text_eq path p || has_prefix path (p ++ text "/")) ≡ true
        → (p ≡ []) ⊎ (p ≡ path) ⊎ ((rest : Text) × (path ≡ p ++ b'/' ∷ rest))
    to h = elim (Bool-cases (is_empty p)) [
      | inl empty ↦ inl ((empty_iff p).0 empty)
      | inr some_path ↦ elim (Bool-cases (text_eq path p)) [
        | inl same ↦ inr (inl (sym ((text_eq_iff path p).0 same)))
        | inr other ↦ inr (inr ((slash_below p path).0 (rw (some_path, other) at h)))
      ]
    ]

    from :
        (p ≡ []) ⊎ (p ≡ path) ⊎ ((rest : Text) × (path ≡ p ++ b'/' ∷ rest))
        → (is_empty p || text_eq path p || has_prefix path (p ++ text "/")) ≡ true
    from (inl e) = ground (arith, (empty_iff p).1 e)
    from (inr (inl e)) = ground (arith, (text_eq_iff path p).1 (sym e))
    from (inr (inr below)) = ground (arith, (slash_below p path).1 below)

-- For every pattern, path and prefix: match returns the prefix exactly when the pattern covers the
-- path, which is its own path or, for a wildcard, one below it, and the prefix is its own path.
pub match_iff :
    (p : PathPattern) (path prefix : Text)
    → (match p path ≡ some prefix) ↔ (Covers p path × (prefix ≡ p.path))
unfolding match
match_iff p path prefix = elim (Bool-cases p.wildcard) [
  | inr exact ↦ rw exact (
    λ h.
        let (same, e) = (some_if_iff _ _ _).0 h in
        (inl (refl, sym ((text_eq_iff path p.path).0 same)), e),
    λ (covers, e). (some_if_iff _ _ _).1 (exact_of covers, e),
  )
  | inl wild ↦ rw wild (
    λ h.
        let (below, e) = (some_if_iff _ _ _).0 h in
        (inr (refl, (below_iff p.path path).0 below), e),
    λ (covers, e). (some_if_iff _ _ _).1 ((below_iff p.path path).1 (wild_of covers), e),
  )
]
  where
    exact_of :
        ((false ≡ false) × (p.path ≡ path))
          ⊎ ((false ≡ true)
              × ((p.path ≡ [])
                  ⊎ (p.path ≡ path)
                  ⊎ ((rest : Text) × (path ≡ p.path ++ b'/' ∷ rest))))
        → text_eq path p.path ≡ true
    exact_of (inl (w, e)) = (text_eq_iff path p.path).1 (sym e)
    exact_of (inr (w, e)) = cc

    wild_of :
        ((true ≡ false) × (p.path ≡ path))
          ⊎ ((true ≡ true)
              × ((p.path ≡ [])
                  ⊎ (p.path ≡ path)
                  ⊎ ((rest : Text) × (path ≡ p.path ++ b'/' ∷ rest))))
        → (p.path ≡ []) ⊎ (p.path ≡ path) ⊎ ((rest : Text) × (path ≡ p.path ++ b'/' ∷ rest))
    wild_of (inl (w, e)) = cc
    wild_of (inr (w, below)) = below

-- A path goes on with a slash after its first k bytes.
pub slash_at :
    (path : Text) (k : ℕ)
    → get_or path k 0 ≡ b'/'
    → (path ≡ take k path ++ b'/' ∷ drop (suc k) path) × (k < length path)
slash_at [] k e = absurd (omega arith)
slash_at (c ∷ path) zero e = (ap (λ d. d ∷ path) e, omega arith)
slash_at (c ∷ path) (suc k) e =
    let (whole, inside) = slash_at path k e in (ap (◌∷◌ c) whole, omega arith)

pub at_slash :
    (p rest : Text)
    → (take (length p) (p ++ b'/' ∷ rest) ≡ p)
      × (get_or (p ++ b'/' ∷ rest) (length p) 0 ≡ b'/')
      × (length p < length (p ++ b'/' ∷ rest))
at_slash [] rest = (refl, refl, omega arith)
at_slash (c ∷ p) rest =
    let (first, slash, inside) = at_slash p rest in (ap (◌∷◌ c) first, slash, omega arith)
