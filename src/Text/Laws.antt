-- ===== src/Text/Laws.antt =====
-- Laws of the texts.
use kubio.Prelude.{
  ◌≡◌, refl, ap, true, ◌↔◌, some, [], ◌∷◌, ◌++◌, length, take, drop, inl, inr, arith, Option-cases,
}
use kubio.Text.{Text, text_eq, cut_prefix, has_prefix}

text_eq_sound : (s t : Text) → text_eq s t ≡ true → s ≡ t
unfolding text_eq
text_eq_sound [] [] h = refl
text_eq_sound [] (y ∷ t) h = cc
text_eq_sound (x ∷ s) [] h = cc
text_eq_sound (x ∷ s) (y ∷ t) h = ground (arith, text_eq_sound s t)

pub text_eq_refl : (s : Text) → text_eq s s ≡ true
unfolding text_eq
text_eq_refl [] = refl
text_eq_refl (x ∷ s) = ground (arith, text_eq_refl s)

pub text_eq_iff : (s t : Text) → (text_eq s t ≡ true) ↔ (s ≡ t)
text_eq_iff s t = (text_eq_sound s t, λ e. rw e (text_eq_refl t))

pub cut_prefix-append : (p s : Text) → cut_prefix (p ++ s) p ≡ some s
unfolding cut_prefix
cut_prefix-append [] s = refl
cut_prefix-append (x ∷ p) s = ground (arith, cut_prefix-append p s)

pub cut_prefix_sound : (s p : Text) {r : Text} → cut_prefix s p ≡ some r → s ≡ p ++ r
unfolding cut_prefix
cut_prefix_sound s [] h = cc
cut_prefix_sound [] (x ∷ p) h = cc
cut_prefix_sound (c ∷ s) (x ∷ p) {r} h = ground (arith, cut_prefix_sound s p {r = r})

pub cut_prefix_iff : (s p r : Text) → (cut_prefix s p ≡ some r) ↔ (s ≡ p ++ r)
cut_prefix_iff s p r = (cut_prefix_sound s p, λ e. rw e (cut_prefix-append p r))

pub has_prefix_iff : (s p : Text) → (has_prefix s p ≡ true) ↔ ((r : Text) × (s ≡ p ++ r))
unfolding has_prefix
has_prefix_iff s p = (to, λ (r, e). rw (e, cut_prefix-append p r))
  where
    to : has_prefix s p ≡ true → (r : Text) × (s ≡ p ++ r)
    to h = elim (Option-cases (cut_prefix s p)) [
      | inl e ↦ absurd (ground arith)
      | inr (r, e) ↦ (r, cut_prefix_sound s p e)
    ]

drop-append : (s t : Text) → drop (length s) (s ++ t) ≡ t
drop-append [] t = refl
drop-append (x ∷ s) t = drop-append s t

take-append : (s t : Text) → take (length s) (s ++ t) ≡ s
take-append [] t = refl
take-append (x ∷ s) t = ap (◌∷◌ x) (take-append s t)
