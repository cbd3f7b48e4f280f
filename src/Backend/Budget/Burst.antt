-- ===== src/Backend/Budget/Burst.antt =====
-- How many retries the budget admits in a span of time.
use kubio.Prelude.{
  ℕ, suc, ◌+◌, ◌-◌, ◌*◌, ◌≤◌, ◌<◌, ◌≡◌, List, [], ◌∷◌, arith, true, false, All, count, ◌⊎◌, inl,
  inr,
}
use native.Mathlib.Decide.{dec_lt}
use kubio.Backend.Budget.{BudgetConfig, RetryBudget, open_window, use_window, reserve_open}

-- The retries admitted among those asked for at the given times.
abbrev pub admitted : BudgetConfig → List ℕ → RetryBudget → ℕ
admitted config [] budget = 0
admitted config (now ∷ times) budget =
    let (granted, budget') = reserve_open config now budget in
    count granted + admitted config times budget'

-- A request in the window.
granted_in :
    (config : BudgetConfig) (now : ℕ) (budget : RetryBudget)
    → 0 < budget.started
    → now - budget.started < config.window
    → budget.used < config.max
    → reserve_open config now budget
      ≡ (true, record { started = budget.started; used = suc (budget.used) })
unfolding reserve_open open_window use_window
granted_in config now budget p w l = ground arith

refused_in :
    (config : BudgetConfig) (now : ℕ) (budget : RetryBudget)
    → 0 < budget.started
    → now - budget.started < config.window
    → config.max ≤ budget.used
    → reserve_open config now budget ≡ (false, budget)
unfolding reserve_open open_window use_window
refused_in config now budget p w l = ground arith

-- A request after it.
renewed :
    (config : BudgetConfig) (now : ℕ) (budget : RetryBudget)
    → 0 < now
    → 0 < config.window
    → (budget.started ≡ 0) ⊎ (config.window ≤ now - budget.started)
    → reserve_open config now budget ≡ reserve_open config now (record { started = now; used = 0 })
unfolding reserve_open open_window
renewed config now budget p w (inl e) = ground arith
renewed config now budget p w (inr l) = ground arith

in_window :
    (config : BudgetConfig) (times : List ℕ) (started used : ℕ)
    → 0 < started
    → 0 < config.window
    → used ≤ config.max
    → All (λ now. now < started + config.window) times
    → used + admitted config times (record { started = started; used = used }) ≤ config.max
in_window config [] started used p w u h = omega arith
in_window config (now ∷ times) started used p w u (h, hs) = elim (dec_lt used (config.max)) [
  | yes l ↦
      rw (granted_in config now (record { started = started; used = used }) p (omega arith) l)
        (omega (arith, in_window config times started (suc used) p w l hs))
  | no l ↦
      rw
        (refused_in config now (record { started = started; used = used }) p (omega arith)
          (omega arith))
        (omega (arith, in_window config times started used p w u hs))
]

-- However the requests are spread over a span shorter than the window, which begins after the zero
-- time, at most twice the maximum is admitted, the retries counted before among them: what is left
-- of the window at its start, and one window more.
pub reserve_open-burst :
    (config : BudgetConfig) (times : List ℕ) (start : ℕ) (budget : RetryBudget)
    → 0 < start
    → budget.used ≤ config.max
    → All (λ now. (start ≤ now) × (now < start + config.window)) times
    → budget.used + admitted config times budget ≤ 2 * config.max
reserve_open-burst config [] start budget p u h = omega arith
reserve_open-burst config (now ∷ times) start budget p u ((a, b), h) =
    elim (dec_lt 0 (budget.started)) [
      | no z ↦ fresh (inl (omega arith))
      | yes q ↦ elim (dec_lt (now - budget.started) (config.window)) [
        | no over ↦ fresh (inr (omega arith))
        | yes within ↦ elim (dec_lt (budget.used) (config.max)) [
          | yes l ↦ rw (granted_in config now budget q within l) (
              omega (
                arith,
                reserve_open-burst config times start
                    (record { started = budget.started; used = suc (budget.used) }) p l h,
              ))
          | no l ↦
              rw (refused_in config now budget q within (omega arith))
                (omega (arith, reserve_open-burst config times start budget p u h))
        ]
      ]
    ]
  where
    later :
        (times : List ℕ)
        → start ≤ now
        → All (λ x. (start ≤ x) × (x < start + config.window)) times
        → All (λ x. x < now + config.window) times
    later [] l hs = tt
    later (x ∷ xs) l ((c, d), hs) = (omega arith, later xs l hs)

    fresh :
        (budget.started ≡ 0) ⊎ (config.window ≤ now - budget.started)
        → budget.used + admitted config (now ∷ times) budget ≤ 2 * config.max
    fresh old = rw (renewed config now budget (omega arith) (omega arith) old) (
        omega (
          arith,
          in_window config (now ∷ times) now 0 (omega arith) (omega arith) (omega arith)
              (omega arith, later times a h),
        ))
