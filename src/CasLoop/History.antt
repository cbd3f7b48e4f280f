-- ===== src/CasLoop/History.antt =====
-- The history of a run in which nobody else stores into the pointer, and its clock.
use kubio.Prelude.{
  ℕ, ◌+◌, ◌≤◌, Bool, Option, List, [], ◌∷◌, All, ◌==◌, Option-cases, Bool-cases, inl, inr, count,
}
use kubio.CasLoop.{
  Thread, idle, loaded, returned, Action, load, attempt, store, Event, swapped, passed, stored,
  Machine, step, run, attempt_loaded, load_idle, swap,
}

-- The requests of a history that were admitted.
abbrev pub admitted_in {ℓ} : {A : Type ℓ} → List (Event A) → ℕ
admitted_in [] = 0
admitted_in (swapped t now ok ∷ earlier) = count ok + admitted_in earlier
admitted_in (passed t now b ∷ earlier) = 1 + admitted_in earlier
admitted_in (stored b ∷ earlier) = admitted_in earlier

-- The actions whose reading of the clock and whose stored value are allowed.
abbrev pub Allowed {ℓ} : {A : Type ℓ} → (ℕ → Type 0) → (A → Type 0) → Action A → Type 0
Allowed timely stores (load t) = Unit
Allowed timely stores (attempt t now) = timely now
Allowed timely stores (store a) = stores a

-- What each event keeps of a history, a run of such actions keeps.
module _ {ℓ κ} {A : Type ℓ} (next : A → ℕ → Option (A × Bool)) (timely : ℕ → Type 0)
    (stores : A → Type 0) (Q : List (Event A) → Type κ)
    (at_swap : (t now : ℕ) (ok : Bool) (h : List (Event A))
      → timely now
      → Q h
      → Q (swapped t now ok ∷ h))
    (at_pass : (t now : ℕ) (b : A) (h : List (Event A)) → Q h → Q (passed t now b ∷ h))
    (at_store : (a : A) (h : List (Event A)) → stores a → Q h → Q (stored a ∷ h)) where
  load-history :
      (m : Machine A) (t : ℕ) (s : Thread A) → Q m.history → Q (load_idle next m t s).history
  unfolding load_idle
  load-history m t idle h = h
  load-history m t (loaded v a) h = h
  load-history m t (returned ok) h = h

  attempt-history :
      (m : Machine A) (t now : ℕ) (s : Thread A)
      → timely now
      → Q m.history
      → Q (attempt_loaded next m t now s).history
  unfolding attempt_loaded swap
  attempt-history m t now idle w h = h
  attempt-history m t now (returned ok) w h = h
  attempt-history m t now (loaded v a) w h = elim (Option-cases (next a now)) [
    | inl skip ↦ rw (skip, attempt_loaded) (at_pass t now a m.history h)
    | inr ((b, ok), e) ↦ elim (Bool-cases (v == m.version)) [
      | inl won ↦ rw (e, attempt_loaded, won) (at_swap t now ok m.history w h)
      | inr lost ↦ rw (e, attempt_loaded, lost) h
    ]
  ]

  step-history :
      (m : Machine A) (x : Action A)
      → Allowed timely stores x
      → Q m.history
      → Q (step next m x).history
  unfolding step
  step-history m (load t) w h = load-history m t (m.threads t) h
  step-history m (attempt t now) w h = attempt-history m t now (m.threads t) w h
  step-history m (store a) w h = at_store a m.history w h

  pub run-history :
      (m : Machine A) (xs : List (Action A))
      → All (Allowed timely stores) xs
      → Q m.history
      → Q (run next m xs).history
  unfolding run
  run-history m [] ws h = h
  run-history m (x ∷ xs) (w, ws) h = run-history (step next m x) xs ws (step-history m x w h)

abbrev pub InWindow : ℕ → ℕ → ℕ → Type 0
InWindow first last now = (first ≤ now) × (now ≤ last)

-- The clock is read within the window, and nobody else stores into the pointer.
abbrev pub Timely {ℓ} : {A : Type ℓ} → ℕ → ℕ → Action A → Type 0
Timely first last = Allowed (InWindow first last) (λ a. ⊥)

abbrev pub Within {ℓ} : {A : Type ℓ} → ℕ → ℕ → Event A → Type 0
Within first last (swapped t now ok) = InWindow first last now
Within first last (passed t now b) = Unit
Within first last (stored b) = ⊥

pub run-Within {ℓ} :
    {A : Type ℓ} (next : A → ℕ → Option (A × Bool)) (first last : ℕ) (m : Machine A)
    (xs : List (Action A))
    → All (Timely first last) xs
    → All (Within first last) m.history
    → All (Within first last) (run next m xs).history
run-Within next first last =
    run-history next (InWindow first last) (λ a. ⊥) (All (Within first last))
      (λ t now ok h w rest. (w, rest)) (λ t now b h rest. (tt, rest)) (λ a h w rest. absurd w)
