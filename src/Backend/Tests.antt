-- ===== src/Backend/Tests.antt =====
-- proxy.go: the theorems on backends at concrete ones.
use kubio.Prelude.{
  ℕ, zero, suc, ◌+◌, ◌*◌, ◌^◌, ◌≤◌, ◌<◌, ◌≡◌, refl, true, false, none, some, List, [], ◌∷◌, ◌++◌,
  arith, ok, min, get_elem?, leb,
}
use kubio.Prelude.Int.{ℤ, pos, ◌+ℤ◌, ◌-ℤ◌}
use kubio.Text.{Text, text}
use kubio.Backend.Schedule.{validate_target_weights, build_target_schedule}
use kubio.Backend.Schedule.Turns.{occurrences, build_target_schedule-occurrences}
use kubio.Backend.Health.{HealthConfig, TargetHealth, available, reset_target_health}
use kubio.Backend.Health.Circuit.{
  HealthEvent, attempt, probe, ask, happen_all, failed_at, IsCircuit, happen_all-IsCircuit,
  failures-available,
}
use kubio.Backend.Budget.{BudgetConfig}
use kubio.Backend.Budget.Burst.{admitted, reserve_open-burst}
use kubio.Backend.Targets.{Backend, retry_target_index}
use kubio.Backend.Targets.Choice.{is_available, retry_target_index-available}
use kubio.Backend.Backoff.{
  BackoffConfig, build_backoff_delays, validate_backoff, build_backoff_delays-get_elem?,
}
use kubio.Backend.Attempts.{World, RetryConfig, Shared}
use kubio.Backend.Attempts.Bodies.{sends, bodies, closes, handed, gives_up}
use kubio.Backend.Attempts.Plain.{round_trip, round_trip-bounded}
use kubio.Backend.ReplayBody.{Reader, eof, prepare_retry_body}
use kubio.Backend.ReplayBody.Buffered.{IsPrepared, prepare_retry_body-IsPrepared}
use kubio.Backend.Retryable.{
  RetryRequest, retryable_backend_request, retryable_bodyless_request, upgrade_request,
  is_default_method, allowed, is_nil, is_zero, retryable_backend_request-safe,
}

abbrev weights : List ℤ
weights = pos 5 ∷ pos 1 ∷ pos 2 ∷ []

accepted : validate_target_weights weights 3 ≡ ok tt
unfolding validate_target_weights ◌-ℤ◌ ◌+ℤ◌
accepted = refl

build_target_schedule-occurrences_example :
    pos (occurrences 2 (build_target_schedule weights)) ≡ pos 2
build_target_schedule-occurrences_example =
    build_target_schedule-occurrences weights 3 2 (pos 2) accepted refl

abbrev after_two : HealthConfig
after_two = record { fail = 2; cool = 10 }

failures-available_example :
    ((available 7 (happen_all after_two (failed_at (5 ∷ [])) reset_target_health)).0 ≡ true)
    × ((available 7 (happen_all after_two (failed_at ((5 ∷ []) ++ 6 ∷ [])) reset_target_health)).0
        ≡ leb (6 + 10) 7)
failures-available_example = failures-available after_two (5 ∷ []) 6 7 (omega arith) refl

abbrev some_events : List HealthEvent
some_events =
    attempt 5 false false ∷ probe 6 false false false ∷ attempt 7 false false ∷ ask 30 ∷ []

happen_all-IsCircuit_example :
    IsCircuit after_two (happen_all after_two some_events reset_target_health)
happen_all-IsCircuit_example =
    happen_all-IsCircuit after_two some_events reset_target_health (omega arith)
      (omega arith, λ h. refl)

abbrev one_in_ten : BudgetConfig
one_in_ten = record { max = 1; window = 10 }

reserve_open-burst_example :
    0 + admitted one_in_ten (5 ∷ 6 ∷ 14 ∷ []) (record { started = 0; used = 0 }) ≤ 2 * 1
reserve_open-burst_example =
    reserve_open-burst one_in_ten (5 ∷ 6 ∷ 14 ∷ []) 5 (record { started = 0; used = 0 })
      (omega arith) (omega arith)
      ((omega arith, omega arith), ((omega arith, omega arith), ((omega arith, omega arith), tt)))

-- The first of two targets is out until 50.
abbrev two_targets : List TargetHealth
two_targets = record { failures = 0; until = 50 } ∷ reset_target_health ∷ []

abbrev pair_backend : Backend
pair_backend = record { targets = 2; schedule = []; next_index = 0; health = some two_targets }

second_available : (n : ℕ) → is_available 7 two_targets 1 ≡ true
unfolding available
second_available n = refl

retry_target_index-available_example :
    (n : ℕ) × (is_available 7 two_targets (retry_target_index (λ n. 7) pair_backend 1 1).0 ≡ true)
retry_target_index-available_example =
    retry_target_index-available (λ n. 7) pair_backend two_targets 1 1 1 refl (omega arith)
      second_available

abbrev backoff : BackoffConfig
backoff = record { base = 10; cap = 35 }

good_backoff : validate_backoff (some backoff) ≡ ok tt
unfolding validate_backoff
good_backoff = refl

build_backoff_delays-get_elem?_example :
    get_elem? (build_backoff_delays backoff 4) 2 ≡ some (min 35 (10 * 2 ^ 2))
build_backoff_delays-get_elem?_example =
    build_backoff_delays-get_elem? backoff 4 2 good_backoff (omega arith)

-- A backend that answers 503 once and 200 then.
abbrev recovering : World Text
recovering = record {
  transport = λ n. elim n [
    | zero ↦ ok (record { status_code = 503; body = true })
    | suc m ↦ ok (record { status_code = 200; body = true })
  ];
  informational = λ n. false;
  context = λ n moment. none;
  clone = λ n. none;
  clock = λ n m. 7;
  now = λ n. 7;
  random = λ n m. 0;
}

abbrev three_tries : RetryConfig
three_tries = record {
  tries = 3;
  retry_statuses = 503 ∷ [];
  has_deadline = false;
  backoff_delays = some (10 ∷ 20 ∷ []);
  backoff_jitter = false;
  budget = none;
  health = after_two;
}

abbrev shared : Shared
shared = record { backend = pair_backend; retry_budget = record { started = 0; used = 0 } }

-- One retry in a window that is longer than the request.
abbrev one_retry : BudgetConfig
one_retry = record { max = 1; window = 1_000 }

abbrev with_budget : RetryConfig
with_budget = record three_tries { budget = some one_retry }

round_trip-bounded_example :
    let (outcome, actions, s) =
      round_trip three_tries recovering
        (some (record { start = 1; retry = true }))
        none
        recovering
        none
        shared in
    (sends actions ≤ 3)
    × (bodies actions ≡ closes actions + handed outcome)
    × (gives_up outcome ≡ 0)
round_trip-bounded_example =
    round_trip-bounded three_tries recovering (some (record { start = 1; retry = true })) none
      recovering none shared (omega arith)

-- A body of two reads.
abbrev two_reads : Reader Text
two_reads = record {
  read = λ n size. elim n [ zero ↦ (text "ab", none) | suc m ↦ (text "c", some eof) ];
  at_start = none;
  at_length = none;
  before = λ n. none;
  after = λ n. none;
}

prepare_retry_body-IsPrepared_example : IsPrepared two_reads 8 3 (prepare_retry_body two_reads 8 3)
prepare_retry_body-IsPrepared_example = prepare_retry_body-IsPrepared two_reads 8 3

abbrev plain_get : RetryRequest
plain_get = record {
  method = text "GET";
  header = [];
  has_body = false;
  content_length = some 0;
  transfer_encoding = [];
  trailer = [];
}

retried : retryable_backend_request plain_get none 0 ≡ true
unfolding retryable_backend_request retryable_bodyless_request is_default_method upgrade_request
retried = refl

retryable_backend_request-safe_example :
    (allowed none plain_get.method ≡ true)
    × (upgrade_request plain_get ≡ false)
    × (is_nil plain_get.trailer ≡ true)
    × (plain_get.has_body ≡ true → 0 < 0)
    × (plain_get.has_body ≡ false
        → (is_zero plain_get.content_length ≡ true) × (is_nil plain_get.transfer_encoding ≡ true))
retryable_backend_request-safe_example = retryable_backend_request-safe plain_get none 0 retried
