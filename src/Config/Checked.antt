-- ===== src/Config/Checked.antt =====
-- What the checks of decodeConfig guarantee of a configuration that it accepts.
use kubio.Prelude.{ℕ, ◌≤◌, ◌<◌, ◌≡◌, Option, none, some, arith, ok}
use kubio.Prelude.Int.{ℤ, pos, pos_part}
use kubio.Text.{Text}
use kubio.Config.Json.{Json, null, number, boolean, array, object, str}
use kubio.Config.Values.{Decoded, optional, decode_duration}
use kubio.Config.Objects.{RawLimit, decode_limit, max_limit_rate, max_limit_burst, ConfigEnv}
use kubio.Config.Objects.{max_retry_budget, max_retry_body_bytes, max_health_failures, one_day}
use kubio.Config.Retry.{
  RetryBackoff, decode_retry_backoff, RetryBudgetConfig, decode_retry_budget, decode_retry_body,
  ProbeConfig, decode_probe, BackendHealth, decode_health, RawRetry, decode_retry,
}

abbrev pub Between : ℕ → ℕ → ℤ → Type 0
Between low high n = (low ≤ pos_part n) × (pos_part n ≤ high) × (n ≡ pos (pos_part n))

pub decode_limit-Between :
    (v : Json) (l : RawLimit)
    → decode_limit v ≡ ok l
    → Between 1 max_limit_rate l.rate × Between 1 max_limit_burst l.burst
unfolding decode_limit
decode_limit-Between v l h = (ground arith, ground arith)

duration_positive :
    (parse : Text → Option ℤ) (o : Option Json) (d : ℕ)
    → optional (decode_duration parse) o ≡ ok (some d)
    → 0 < d
unfolding decode_duration
duration_positive parse none d h = absurd cc
duration_positive parse (some null) d h = absurd cc
duration_positive parse (some (number n)) d h = absurd cc
duration_positive parse (some (boolean n)) d h = absurd cc
duration_positive parse (some (array n)) d h = absurd cc
duration_positive parse (some (object n)) d h = absurd cc
duration_positive parse (some (str n)) d h = ground arith

abbrev pub IsBackoff : RetryBackoff → Type 0
IsBackoff b = (0 < b.base) × (b.base ≤ b.cap)

decode_retry_backoff-IsBackoff :
    (env : ConfigEnv) (v : Json) (b : RetryBackoff)
    → decode_retry_backoff env v ≡ ok b
    → IsBackoff b
unfolding decode_retry_backoff
decode_retry_backoff-IsBackoff env v b h = (grind (arith, duration_positive), ground arith)

abbrev pub IsBudget : RetryBudgetConfig → Type 0
IsBudget b = Between 1 max_retry_budget b.max × (0 < b.window)

decode_retry_budget-IsBudget :
    (env : ConfigEnv) (v : Json) (b : RetryBudgetConfig)
    → decode_retry_budget env v ≡ ok b
    → IsBudget b
unfolding decode_retry_budget
decode_retry_budget-IsBudget env v b h =
    ((ground arith, ground arith, ground arith), grind (arith, duration_positive))

decode_body :
    (v : Json) (max : ℤ) → decode_retry_body v ≡ ok max → Between 1 max_retry_body_bytes max
unfolding decode_retry_body
decode_body v max h = (ground arith, ground arith, ground arith)

abbrev pub IsProbe : ProbeConfig → Type 0
IsProbe p = (0 < p.timeout) × (p.timeout ≤ p.every) × (p.every ≤ one_day)

decode_probe-IsProbe :
    (env : ConfigEnv) (v : Json) (p : ProbeConfig) → decode_probe env v ≡ ok p → IsProbe p
unfolding decode_probe
decode_probe-IsProbe env v p h = (grind (arith, duration_positive), ground arith, ground arith)

-- What a setting satisfies where it is set.
abbrev pub Every {ℓ κ} : {A : Type ℓ} → (A → Type κ) → Option A → Type (ℓ ⊔ κ)
Every {A = A} P o = (a : A) → o ≡ some a → P a

pub optional_every :
    {A : Type 0} (P : A → Type 0) (decode : Json → Decoded A)
    → ((v : Json) (a : A) → decode v ≡ ok a → P a)
    → (o : Option Json) (a : A) → optional decode o ≡ ok (some a)
    → P a
optional_every P decode good none a h = absurd cc
optional_every P decode good (some v) a h = good v a (ground arith)

optional-IsProbe :
    (env : ConfigEnv) (o : Option Json) (p : ProbeConfig)
    → optional (decode_probe env) o ≡ ok (some p)
    → IsProbe p
optional-IsProbe env = optional_every IsProbe (decode_probe env) (decode_probe-IsProbe env)

abbrev pub IsHealth : BackendHealth → Type 0
IsHealth health =
    Between 1 max_health_failures health.fail
    × (0 < health.cool)
    × (health.cool ≤ one_day)
    × Every IsProbe health.probe

pub decode_health-IsHealth :
    (env : ConfigEnv) (v : Json) (health : BackendHealth)
    → decode_health env v ≡ ok health
    → IsHealth health
unfolding decode_health
decode_health-IsHealth env v health h = (
  (ground arith, ground arith, ground arith),
  grind (arith, duration_positive),
  ground arith,
  λ p e. (
    grind (arith, optional-IsProbe),
    grind (arith, optional-IsProbe),
    grind (arith, optional-IsProbe),
  ),
)

-- What the methods of a backend's retry guarantee.
abbrev pub IsRawRetry : RawRetry → Type 0
IsRawRetry raw =
    Every (Between 1 max_retry_body_bytes) raw.body
    × Every IsBackoff raw.backoff
    × Every IsBudget raw.budget
    × Every (λ d. 0 < d) raw.deadline

optional-IsBackoff :
    (env : ConfigEnv) (o : Option Json) (b : RetryBackoff)
    → optional (decode_retry_backoff env) o ≡ ok (some b)
    → IsBackoff b
optional-IsBackoff env =
    optional_every IsBackoff (decode_retry_backoff env) (decode_retry_backoff-IsBackoff env)

optional-IsBudget :
    (env : ConfigEnv) (o : Option Json) (b : RetryBudgetConfig)
    → optional (decode_retry_budget env) o ≡ ok (some b)
    → IsBudget b
optional-IsBudget env =
    optional_every IsBudget (decode_retry_budget env) (decode_retry_budget-IsBudget env)

optional_body :
    (o : Option Json) (max : ℤ)
    → optional decode_retry_body o ≡ ok (some max)
    → Between 1 max_retry_body_bytes max
optional_body = optional_every (Between 1 max_retry_body_bytes) decode_retry_body decode_body

budget_window :
    (env : ConfigEnv) (v : Json) (b : RetryBudgetConfig)
    → decode_retry_budget env v ≡ ok b
    → 0 < b.window
budget_window env v b h = (decode_retry_budget-IsBudget env v b h).1

pub decode_retry-IsRawRetry :
    (env : ConfigEnv) (v : Json) (raw : RawRetry) → decode_retry env v ≡ ok raw → IsRawRetry raw
unfolding decode_retry
decode_retry-IsRawRetry env v raw h = (
  (λ max e. (grind (arith, decode_body), grind (arith, decode_body), grind (arith, decode_body))),
  (λ b e. (
    grind (arith, decode_retry_backoff-IsBackoff),
    grind (arith, decode_retry_backoff-IsBackoff),
  )),
  (λ b e. (
    (
      grind (arith, decode_retry_budget-IsBudget),
      grind (arith, decode_retry_budget-IsBudget),
      grind (arith, decode_retry_budget-IsBudget),
    ),
    grind (arith, budget_window),
  )),
  λ d e. grind (arith, duration_positive),
)
