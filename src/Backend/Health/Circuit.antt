-- ===== src/Backend/Health/Circuit.antt =====
-- The circuit of a target opens at the configured number of failures in a row, and closes again.
use kubio.Prelude.{
  ℕ, suc, ◌+◌, ◌<◌, ◌≡◌, refl, ap, ◌∙◌, List, [], ◌∷◌, ◌++◌, arith, Bool, true, false, length, leb,
}
use kubio.Backend.Health.{
  HealthConfig, TargetHealth, reset_target_health, available, add_failure, observe_failure, observe,
  observe_probe,
}

-- What one event does to a target: an attempt ends, a probe ends, or its availability is asked for.
pub data HealthEvent : Type 0 where
  attempt : ℕ → Bool → Bool → HealthEvent
  probe : ℕ → Bool → Bool → Bool → HealthEvent
  ask : ℕ → HealthEvent

abbrev pub happen : HealthConfig → HealthEvent → TargetHealth → TargetHealth
happen config (attempt now succeeded done) target = observe config now succeeded done target
happen config (probe now over done healthy) target =
    observe_probe config now over done healthy target
happen config (ask now) target = (available now target).1

abbrev pub happen_all : HealthConfig → List HealthEvent → TargetHealth → TargetHealth
happen_all config [] target = target
happen_all config (e ∷ events) target = happen_all config events (happen config e target)

-- Failures one after the other, at the given times.
abbrev pub failed_at : List ℕ → List HealthEvent
failed_at [] = []
failed_at (now ∷ times) = attempt now false false ∷ failed_at times

-- The counter stays below the limit, and an open circuit has no failures counted.
abbrev pub IsCircuit : HealthConfig → TargetHealth → Type 0
IsCircuit config target = (target.failures < config.fail) × (0 < target.until → target.failures ≡ 0)

observe_failure-IsCircuit :
    (config : HealthConfig) (now : ℕ) (target : TargetHealth)
    → 0 < config.fail
    → IsCircuit config target
    → IsCircuit config (observe_failure config now target)
unfolding observe_failure add_failure
observe_failure-IsCircuit config now target p (l, z) = (ground arith, λ h. ground arith)

happen-IsCircuit :
    (config : HealthConfig) (e : HealthEvent) (target : TargetHealth)
    → 0 < config.fail
    → IsCircuit config target
    → IsCircuit config (happen config e target)
unfolding observe observe_probe available
happen-IsCircuit config (attempt now true done) target p c = (p, λ h. refl)
happen-IsCircuit config (attempt now false true) target p c = c
happen-IsCircuit config (attempt now false false) target p c =
    observe_failure-IsCircuit config now target p c
happen-IsCircuit config (probe now true done healthy) target p c = c
happen-IsCircuit config (probe now false true true) target p c =
    observe_failure-IsCircuit config now target p c
happen-IsCircuit config (probe now false true false) target p c =
    observe_failure-IsCircuit config now target p c
happen-IsCircuit config (probe now false false true) target p c = (p, λ h. refl)
happen-IsCircuit config (probe now false false false) target p c =
    observe_failure-IsCircuit config now target p c
happen-IsCircuit config (ask now) target p (l, z) = (ground arith, λ h. ground arith)

-- After any events the count of failures is below the limit, and 0 while the circuit is open, when
-- the limit is positive and it was so before them.
pub happen_all-IsCircuit :
    (config : HealthConfig) (events : List HealthEvent) (target : TargetHealth)
    → 0 < config.fail
    → IsCircuit config target
    → IsCircuit config (happen_all config events target)
happen_all-IsCircuit config [] target p c = c
happen_all-IsCircuit config (e ∷ events) target p c =
    happen_all-IsCircuit config events (happen config e target) p
      (happen-IsCircuit config e target p c)

one_failure :
    (config : HealthConfig) (now n : ℕ)
    → suc n < config.fail
    → observe_failure config now (record { failures = n; until = 0 })
      ≡ record { failures = suc n; until = 0 }
unfolding observe_failure add_failure
one_failure config now n h = ground arith

last_failure :
    (config : HealthConfig) (now n : ℕ)
    → suc n ≡ config.fail
    → observe_failure config now (record { failures = n; until = 0 })
      ≡ record { failures = 0; until = now + config.cool }
unfolding observe_failure add_failure
last_failure config now n h = ground arith

few_failures :
    (config : HealthConfig) (times : List ℕ) (n : ℕ)
    → n + length times < config.fail
    → happen_all config (failed_at times) (record { failures = n; until = 0 })
      ≡ record { failures = n + length times; until = 0 }
unfolding observe
few_failures config [] n h = ground arith
few_failures config (now ∷ times) n h =
    ap (happen_all config (failed_at times)) (one_failure config now n (omega arith))
    ∙ (few_failures config times (suc n) (omega arith)
        ∙ ap (λ x. record { failures = x; until = 0 }) (omega arith))

all_failures :
    (config : HealthConfig) (times : List ℕ) (now n : ℕ)
    → n + suc (length times) ≡ config.fail
    → happen_all config (failed_at (times ++ now ∷ [])) (record { failures = n; until = 0 })
      ≡ record { failures = 0; until = now + config.cool }
unfolding observe
all_failures config [] now n h = last_failure config now n (omega arith)
all_failures config (t ∷ times) now n h =
    ap (happen_all config (failed_at (times ++ now ∷ []))) (one_failure config t n (omega arith))
    ∙ all_failures config times now (suc n) (omega arith)

-- For a target in the state of a reset that fails at times one after the other: after one failure
-- fewer than the limit it is available at every time; and after one more, at a time now, it is
-- available exactly from now plus the cool-down on, when that is not the zero time.
pub failures-available :
    (config : HealthConfig) (times : List ℕ) (now later : ℕ)
    → 0 < now + config.cool
    → suc (length times) ≡ config.fail
    → ((available later (happen_all config (failed_at times) reset_target_health)).0 ≡ true)
      × ((available later (happen_all config (failed_at (times ++ now ∷ [])) reset_target_health)).0
          ≡ leb (now + config.cool) later)
unfolding available
failures-available config times now later p full = (
  rw (few_failures config times 0 (omega arith)) refl,
  rw (all_failures config times now 0 (omega arith)) (ground arith),
)
