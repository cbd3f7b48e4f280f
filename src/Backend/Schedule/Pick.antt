-- ===== src/Backend/Schedule/Pick.antt =====
-- The inner loop adds the weights and selects the first of the greatest values.
use kubio.Prelude.{
  ℕ, suc, ◌+◌, ◌≡◌, refl, ap, ◌∙◌, sym, none, some, List, [], ◌∷◌, arith, ◌⊎◌, inl, inr, get_elem?,
  All, Bool-cases, length,
}
use kubio.Prelude.Int.{ℤ, ◌+ℤ◌, ◌≤ℤ◌, ltb_ℤ}
use kubio.Backend.Schedule.{Selection, reselect, bump_from}

-- current[index] += weight, at every index.
abbrev pub add_weights : List ℤ → List ℤ → List ℤ
add_weights (weight ∷ weights) (value ∷ current) = (value +ℤ weight) ∷ add_weights weights current
add_weights weights current = current

-- The selection over a list of values.
pub pick_from : ℕ → List ℤ → Selection → Selection
pick_from index [] selection = selection
pick_from index (value ∷ values) selection =
    pick_from (suc index) values (reselect index value selection)

pub bump_from_lem :
    (index : ℕ) (weights current : List ℤ) (selection : Selection)
    → length weights ≡ length current
    → bump_from index weights current selection
      ≡ (add_weights weights current, pick_from index (add_weights weights current) selection)
unfolding bump_from pick_from
bump_from_lem index [] [] selection e = refl
bump_from_lem index [] (value ∷ current) selection e = absurd (omega arith)
bump_from_lem index (weight ∷ weights) [] selection e = absurd (omega arith)
bump_from_lem index (weight ∷ weights) (value ∷ current) selection e = rw (
    bump_from_lem (suc index) weights current (reselect index (value +ℤ weight) selection)
      (omega arith))

-- What is selected: the value stood there before, or stands in the list, and none is greater.
pub record IsPicked (index selected : ℕ) (best : ℤ) (values : List ℤ) (result : Selection)
    : Type 0 where
  pub winner : ℕ
  pub value : ℤ
  pub is : result ≡ some (winner, value)
  pub over : best ≤ℤ value
  pub top : All (λ v. v ≤ℤ value) values
  pub place :
      ((winner ≡ selected) × (value ≡ best))
      ⊎ ((j : ℕ) × (winner ≡ index + j) × (get_elem? values j ≡ some value))

pick_some :
    (index selected : ℕ) (best : ℤ) (values : List ℤ)
    → IsPicked index selected best values (pick_from index values (some (selected, best)))
unfolding pick_from reselect
pick_some index selected best [] = record {
  winner = selected;
  value = best;
  is = refl;
  over = omega arith;
  top = tt;
  place = inl (refl, refl);
}
pick_some index selected best (v ∷ values) = elim (Bool-cases (ltb_ℤ best v)) [
  | inl greater ↦ rw greater (take (pick_some (suc index) index v values) (ground arith))
  | inr other ↦ rw other (keep (pick_some (suc index) selected best values) (ground arith))
]
  where
    take :
        {r : Selection}
        → IsPicked (suc index) index v values r
        → best ≤ℤ v
        → IsPicked index selected best (v ∷ values) r
    take p h = record {
      winner = p.winner;
      value = p.value;
      is = p.is;
      over = omega (arith, p.over);
      top = (p.over, p.top);
      place = elim p.place [
        | inl (w, e) ↦ inr (0, omega arith, ap some (sym e))
        | inr (j, w, e) ↦ inr (suc j, omega arith, e)
      ];
    }

    keep :
        {r : Selection}
        → IsPicked (suc index) selected best values r
        → v ≤ℤ best
        → IsPicked index selected best (v ∷ values) r
    keep p h = record {
      winner = p.winner;
      value = p.value;
      is = p.is;
      over = p.over;
      top = (omega (arith, p.over), p.top);
      place = elim p.place [ inl same ↦ inl same | inr (j, w, e) ↦ inr (suc j, omega arith, e) ];
    }

-- The selection of the whole loop over at least one value.
pub pick-All :
    (v : ℤ) (values : List ℤ)
    → (winner : ℕ) × (value : ℤ) × (pick_from 0 (v ∷ values) none ≡ some (winner, value))
      × (get_elem? (v ∷ values) winner ≡ some value)
      × All (λ x. x ≤ℤ value) (v ∷ values)
unfolding pick_from reselect
pick-All v values =
    let p = pick_some 1 0 v values in (p.winner, p.value, p.is, at p.place, (p.over, p.top))
  where
    at :
        {w : ℕ} {x : ℤ}
        → ((w ≡ 0) × (x ≡ v)) ⊎ ((j : ℕ) × (w ≡ 1 + j) × (get_elem? values j ≡ some x))
        → get_elem? (v ∷ values) w ≡ some x
    at (inl (e, f)) = ap (get_elem? (v ∷ values)) e ∙ ap some (sym f)
    at (inr (j, e, f)) = let e' : _ ≡ suc j = omega (arith, e) in ap (get_elem? (v ∷ values)) e' ∙ f
