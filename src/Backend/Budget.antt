-- ===== src/Backend/Budget.antt =====
-- proxy.go: the budget of a backend's retries. A time is a number of nanoseconds, 0 the zero
-- time.Time, and a difference of times does not saturate.
pub mod Burst
use kubio.Prelude.{
  ℕ, suc, ◌-◌, Bool, true, false, ◌||◌, leb, ◌==◌, if◌then◌else◌, Option, none, some,
}

-- The fields max and window of retryBudget.
pub record BudgetConfig : Type 0 where
  pub max : ℕ
  pub window : ℕ

-- Its fields started and used.
pub record RetryBudget : Type 0 where
  pub started : ℕ
  pub used : ℕ

pub data Reservation {ℓ} (E : Type ℓ) : Type ℓ where
  reserved exhausted : Reservation E
  context_error : E → Reservation E

-- A new window starts when there is none or the last one is over.
unfoldable pub open_window : BudgetConfig → ℕ → RetryBudget → RetryBudget
open_window config now budget =
    if budget.started == 0 || leb (config.window) (now - budget.started)
    then record { started = now; used = 0 }
    else budget

unfoldable pub use_window : BudgetConfig → RetryBudget → Bool × RetryBudget
use_window config budget =
    if leb (config.max) (budget.used)
    then (false, budget)
    else (true, record { started = budget.started; used = suc (budget.used) })

-- retryBudget.reserve with a context that is not done: whether the retry is admitted.
unfoldable pub reserve_open : BudgetConfig → ℕ → RetryBudget → Bool × RetryBudget
unfolding open_window use_window
reserve_open config now budget = use_window config (open_window config now budget)

-- retryBudget.reserve: the context's error before the lock and under it.
unfoldable pub reserve {ℓ} :
    {E : Type ℓ}
    → BudgetConfig
    → ℕ
    → Option E
    → Option E
    → RetryBudget
    → Reservation E × RetryBudget
reserve config now (some e) locked budget = (context_error e, budget)
reserve config now none (some e) budget = (context_error e, budget)
reserve config now none none budget =
    let (granted, budget') = reserve_open config now budget in
    (if granted then reserved else exhausted, budget')
