-- ===== src/Backend/Attempts/Charged.antt =====
-- What the attempts ask of the budget.
use kubio.Prelude.{ℕ, zero, suc, List, [], ◌∷◌}
use kubio.Backend.Attempts.{World}

module _ {ℓ} {E : Type ℓ} where
  -- The times at which the attempts from one on may ask.
  abbrev pub times_from : World E → ℕ → ℕ → List ℕ
  times_from world attempt zero = []
  times_from world attempt (suc left) = world.now attempt ∷ times_from world (suc attempt) left
