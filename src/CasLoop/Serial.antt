-- ===== src/CasLoop/Serial.antt =====
-- However the threads interleave, the pointer goes through the values of one run in series.
use kubio.Prelude.{
  ℕ, suc, ◌≤◌, ◌≡◌, refl, ◌∙◌, Bool, true, Option, none, some, List, [], ◌∷◌, ◌==◌, arith,
  Bool-cases, Option-cases, subst, inl, inr, ◌⊎◌, ==_iff,
}
use kubio.CasLoop.{
  Thread, idle, loaded, returned, Action, load, attempt, store, Event, swapped, passed, stored,
  Machine, update, step, run, start, swap, attempt_loaded, load_idle,
}

abbrev pub first {ℓ} : {A : Type ℓ} → A → Option (A × Bool) → A
first a none = a
first a (some (b, ok)) = b

module _ {ℓ} {A : Type ℓ} (next : A → ℕ → Option (A × Bool)) where
  -- The value after a history, newest event first, one event at a time.
  unfoldable pub replay : A → List (Event A) → A
  replay a [] = a
  replay a (swapped t now ok ∷ earlier) = first (replay a earlier) (next (replay a earlier) now)
  replay a (passed t now b ∷ earlier) = replay a earlier
  replay a (stored b ∷ earlier) = b

  -- Each verdict in the history is the one that the run in series gives.
  abbrev pub Agrees : A → List (Event A) → Type ℓ
  Agrees a [] = Unit
  Agrees a (swapped t now ok ∷ earlier) =
      (next (replay a earlier) now ≡ some (replay a (swapped t now ok ∷ earlier), ok))
      × Agrees a earlier
  Agrees a (passed t now b ∷ earlier) = (next b now ≡ none) × Agrees a earlier
  Agrees a (stored b ∷ earlier) = Agrees a earlier

-- The verdict of a thread stands in the history.
abbrev pub Logged {ℓ} : {A : Type ℓ} → ℕ → Bool → List (Event A) → Type 0
Logged t ok [] = ⊥
Logged t ok (swapped u now b ∷ earlier) = ((t ≡ u) × (ok ≡ b)) ⊎ Logged t ok earlier
Logged t ok (passed u now b ∷ earlier) = ((t ≡ u) × (ok ≡ true)) ⊎ Logged t ok earlier
Logged t ok (stored b ∷ earlier) = Logged t ok earlier

module _ {ℓ} {A : Type ℓ} (next : A → ℕ → Option (A × Bool)) (a₀ : A) where
  -- A loaded pointer is not newer than the stored one; where it is the same, so is the value.
  abbrev IsFresh : ℕ → A → Thread A → Type ℓ
  IsFresh version value idle = Unit
  IsFresh version value (returned ok) = Unit
  IsFresh version value (loaded v b) = (v ≤ version) × (v ≡ version → b ≡ value)

  abbrev IsLogged : List (Event A) → ℕ → Thread A → Type 0
  IsLogged h t idle = Unit
  IsLogged h t (loaded v b) = Unit
  IsLogged h t (returned ok) = Logged t ok h

  pub record Inv (m : Machine A) : Type ℓ where
    pub value : m.value ≡ replay next a₀ m.history
    pub agrees : Agrees next a₀ m.history
    pub fresh : (t : ℕ) → IsFresh m.version m.value (m.threads t)
    pub logged : (t : ℕ) → IsLogged m.history t (m.threads t)

  IsFresh-suc :
      (version : ℕ) (a b : A) (s : Thread A) → IsFresh version a s → IsFresh (suc version) b s
  IsFresh-suc version a b idle h = tt
  IsFresh-suc version a b (returned ok) h = tt
  IsFresh-suc version a b (loaded v c) h = (omega arith, λ e. absurd (omega arith))

  Logged-cons :
      (t : ℕ) (ok : Bool) (e : Event A) (h : List (Event A)) → Logged t ok h → Logged t ok (e ∷ h)
  Logged-cons t ok (swapped u now b) h l = inr l
  Logged-cons t ok (passed u now b) h l = inr l
  Logged-cons t ok (stored b) h l = l

  IsLogged-cons :
      (e : Event A) (h : List (Event A)) (t : ℕ) (s : Thread A)
      → IsLogged h t s
      → IsLogged (e ∷ h) t s
  IsLogged-cons e h t idle l = tt
  IsLogged-cons e h t (loaded v b) l = tt
  IsLogged-cons e h t (returned ok) l = Logged-cons t ok e h l

  update-all {κ} :
      (P : ℕ → Thread A → Type κ) (threads : ℕ → Thread A) (t : ℕ) (s : Thread A)
      → P t s
      → ((u : ℕ) → P u (threads u))
      → (u : ℕ) → P u (update threads t s u)
  update-all P threads t s p ps u = elim (Bool-cases (t == u)) [
    | inl same ↦ rw same (subst (λ v. P v s) ((==_iff t u).0 same) p)
    | inr other ↦ rw other (ps u)
  ]

  load-Inv : (m : Machine A) (t : ℕ) (s : Thread A) → Inv m → Inv (load_idle next m t s)
  unfolding load_idle
  load-Inv m t (loaded v b) i = i
  load-Inv m t (returned ok) i = i
  load-Inv m t idle i = record {
    value = i.value;
    agrees = i.agrees;
    fresh =
        update-all (λ u. IsFresh m.version m.value) m.threads t (loaded m.version m.value)
          (omega arith, λ e. refl) i.fresh;
    logged = update-all (IsLogged m.history) m.threads t (loaded m.version m.value) tt i.logged;
  }

  swap-Inv :
      (m : Machine A) (t now v : ℕ) (a : A) (b : A) (ok : Bool)
      → IsFresh m.version m.value (loaded v a)
      → next a now ≡ some (b, ok)
      → Inv m
      → Inv (swap next m t now v (b, ok))
  unfolding swap replay
  swap-Inv m t now v a b ok (old, same) e i = elim (Bool-cases (v == m.version)) [
    | inl won ↦
        let at_value : next (replay next a₀ m.history) now ≡ some (b, ok) =
          subst (λ c. next c now ≡ some (b, ok)) (same ((==_iff v m.version).0 won) ∙ i.value) e in
        rw won (record {
          value = rw at_value;
          agrees = (rw at_value, i.agrees);
          fresh =
              update-all (λ u. IsFresh (suc m.version) b) m.threads t (returned ok) tt
                (λ u. IsFresh-suc m.version m.value b (m.threads u) (i.fresh u));
          logged =
              update-all (IsLogged (swapped t now ok ∷ m.history)) m.threads t (returned ok)
                (inl (refl, refl))
                (λ u. IsLogged-cons (swapped t now ok) m.history u (m.threads u) (i.logged u));
        })
    | inr lost ↦ rw lost (record {
      value = i.value;
      agrees = i.agrees;
      fresh = update-all (λ u. IsFresh m.version m.value) m.threads t idle tt i.fresh;
      logged = update-all (IsLogged m.history) m.threads t idle tt i.logged;
    })
  ]

  attempt-Inv :
      (m : Machine A) (t now : ℕ) (s : Thread A)
      → IsFresh m.version m.value s
      → Inv m
      → Inv (attempt_loaded next m t now s)
  unfolding attempt_loaded replay
  attempt-Inv m t now idle f i = i
  attempt-Inv m t now (returned ok) f i = i
  attempt-Inv m t now (loaded v a) f i = elim (Option-cases (next a now)) [
    | inl skip ↦
        rw (skip, attempt_loaded)
          (record {
            value = i.value;
            agrees = (skip, i.agrees);
            fresh =
                update-all (λ u. IsFresh m.version m.value) m.threads t (returned true) tt i.fresh;
            logged =
                update-all (IsLogged (passed t now a ∷ m.history)) m.threads t (returned true)
                  (inl (refl, refl))
                  (λ u. IsLogged-cons (passed t now a) m.history u (m.threads u) (i.logged u));
          })
    | inr ((b, ok), e) ↦ rw (e, attempt_loaded) (swap-Inv m t now v a b ok f e i)
  ]

  step-Inv : (m : Machine A) (x : Action A) → Inv m → Inv (step next m x)
  unfolding step replay
  step-Inv m (load t) i = load-Inv m t (m.threads t) i
  step-Inv m (attempt t now) i = attempt-Inv m t now (m.threads t) (i.fresh t) i
  step-Inv m (store a) i = record {
    value = refl;
    agrees = i.agrees;
    fresh = λ u. IsFresh-suc m.version m.value a (m.threads u) (i.fresh u);
    logged = λ u. IsLogged-cons (stored a) m.history u (m.threads u) (i.logged u);
  }

  run-Inv : (m : Machine A) (xs : List (Action A)) → Inv m → Inv (run next m xs)
  unfolding run
  run-Inv m [] i = i
  run-Inv m (x ∷ xs) i = run-Inv (step next m x) xs (step-Inv m x i)

  -- Whatever the threads do in between, the stored value is that of the swaps run in series, every
  -- verdict of a swap is the one of that run, and what a thread has returned is in the history.
  pub run-start-Inv : (xs : List (Action A)) → Inv (run next (start a₀) xs)
  unfolding start replay
  run-start-Inv xs =
      run-Inv (start a₀) xs
        (record { value = refl; agrees = tt; fresh = λ u. tt; logged = λ u. tt })
