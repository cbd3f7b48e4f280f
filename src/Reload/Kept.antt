-- ===== src/Reload/Kept.antt =====
-- The requests that the limiter admits leave the router and the certificate of a reload in place.
use kubio.Prelude.{ℕ, ◌≡◌, refl, ap, ◌∙◌, Bool, Option, none, some, List, [], ◌∷◌}
use kubio.CasLoop.{
  Action, load, attempt, store, Event, swapped, passed, stored, Machine, run, start, step,
}
use kubio.CasLoop.Serial.{first, replay, run-start-Inv}
use kubio.CasLoop.History.{Allowed, run-history}
use kubio.RateLimit.{LimitConfig}
use kubio.Reload.{limit_of, RuntimeGeneration, admit_limited, admit_next}

-- The generation that was stored last by some actions.
abbrev pub last_stored {ℓ} : {A : Type ℓ} → A → List (Action A) → A
last_stored a [] = a
last_stored a (load t ∷ later) = last_stored a later
last_stored a (attempt t now ∷ later) = last_stored a later
last_stored a (store b ∷ later) = last_stored b later

-- The same of a history, newest event first.
newest_stored {ℓ} : {A : Type ℓ} → A → List (Event A) → A
newest_stored a [] = a
newest_stored a (swapped t now ok ∷ earlier) = newest_stored a earlier
newest_stored a (passed t now b ∷ earlier) = newest_stored a earlier
newest_stored a (stored b ∷ earlier) = b

module _ {ℓ} {A : Type ℓ} (next : A → ℕ → Option (A × Bool)) (a₀ : A) where
  -- An action that does not store leaves what was stored last.
  newest-step :
      (m : Machine A) (x : Action A)
      → Allowed (λ now. Unit) (λ a. ⊥) x
      → newest_stored a₀ (step next m x).history ≡ newest_stored a₀ m.history
  unfolding run newest_stored
  newest-step m x allowed =
      run-history next (λ now. Unit) (λ a. ⊥) (λ h. newest_stored a₀ h ≡ newest_stored a₀ m.history)
        (λ t now ok h w e. e) (λ t now b h e. e) (λ a h w e. absurd w) m (x ∷ []) (allowed, tt) refl

  newest-run :
      (m : Machine A) (xs : List (Action A))
      → newest_stored a₀ (run next m xs).history ≡ last_stored (newest_stored a₀ m.history) xs
  unfolding run newest_stored step
  newest-run m [] = refl
  newest-run m (load t ∷ xs) =
      newest-run (step next m (load t)) xs ∙ ap (λ a. last_stored a xs) (newest-step m (load t) tt)
  newest-run m (attempt t now ∷ xs) =
      newest-run (step next m (attempt t now)) xs
      ∙ ap (λ a. last_stored a xs) (newest-step m (attempt t now) tt)
  newest-run m (store b ∷ xs) = newest-run (step next m (store b)) xs

module _ {C : Type 0} where
  -- What a reload sets and a request leaves.
  abbrev pub Serves : RuntimeGeneration C → RuntimeGeneration C → Type 0
  Serves g h = (g.router ≡ h.router) × (g.certificate ≡ h.certificate)

  admit-Serves :
      (g h : RuntimeGeneration C) (now : ℕ) (limit : Option LimitConfig)
      → Serves g h
      → Serves (first g (admit_limited g now limit)) h
  unfolding admit_limited
  admit-Serves g h now none same = same
  admit-Serves g h now (some limit) same = same

  replay-Serves :
      (g₀ : RuntimeGeneration C) (history : List (Event (RuntimeGeneration C)))
      → Serves (replay admit_next g₀ history) (newest_stored g₀ history)
  unfolding replay newest_stored admit_next
  replay-Serves g₀ [] = (refl, refl)
  replay-Serves g₀ (swapped t now ok ∷ earlier) =
      admit-Serves (replay admit_next g₀ earlier) (newest_stored g₀ earlier) now
        (limit_of (replay admit_next g₀ earlier).router) (replay-Serves g₀ earlier)
  replay-Serves g₀ (passed t now b ∷ earlier) = replay-Serves g₀ earlier
  replay-Serves g₀ (stored b ∷ earlier) = (refl, refl)

  -- However many threads admit requests and however they interleave with reloads: the router and the
  -- certificate of the current generation are those of the last reload, or the first ones if there
  -- was none; no swap of admitGeneration brings older ones back.
  pub run-Serves :
      (g₀ : RuntimeGeneration C) (actions : List (Action (RuntimeGeneration C)))
      → Serves (run admit_next (start g₀) actions).value (last_stored g₀ actions)
  unfolding start newest_stored
  run-Serves g₀ actions =
      let m = run admit_next (start g₀) actions in
      let i = run-start-Inv admit_next g₀ actions in
      let (router, certificate) = replay-Serves g₀ m.history in
      let newest = newest-run admit_next g₀ (start g₀) actions in
      (
        ap (λ g. g.router) i.value ∙ router ∙ ap (λ g. g.router) newest,
        ap (λ g. g.certificate) i.value ∙ certificate ∙ ap (λ g. g.certificate) newest,
      )
