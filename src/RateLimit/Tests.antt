-- ===== src/RateLimit/Tests.antt =====
-- rate_limit.go: the theorems at concrete limits and times.
use kubio.Prelude.{◌+◌, ◌-◌, ◌*◌, ◌≤◌, ◌≡◌, Option, none, some, List, [], ◌∷◌, arith}
use kubio.CasLoop.{Action, load, attempt, run, start}
use kubio.CasLoop.History.{admitted_in}
use kubio.RateLimit.{RateLimitState, nanotokens_per_token, reserve_next, reserve_bucket}
use kubio.RateLimit.Bucket.{
  limit_config, IsLimit, capacity_of, Bucket, to_state, reserve, reserve_bucket-to_state,
}
use kubio.RateLimit.Window.{admissions, admissions-Spaced}
use kubio.RateLimit.Concurrent.{concurrent_bound}

two_and_one : IsLimit 2 1
two_and_one = record {
  rate_low = omega arith;
  rate_high = omega arith;
  burst_low = omega arith;
  burst_high = omega arith;
}

abbrev full_bucket : Bucket
full_bucket = record { tokens = 1_000_000_000; last = 5 }

-- Thread 1 loses its first swap to thread 0, and tries again.
abbrev two_threads : List (Action (Option RateLimitState))
two_threads = load 0 ∷ load 1 ∷ attempt 0 5 ∷ attempt 1 6 ∷ load 1 ∷ attempt 1 7 ∷ []

concurrent_bound_example :
    admitted_in (run (reserve_next (some (limit_config 7 2 1))) (start none) two_threads).history
      * nanotokens_per_token
    ≤ capacity_of 1 + 2 * (9 - 1)
concurrent_bound_example = concurrent_bound 7 2 1 1 9 two_and_one (omega arith) two_threads (
  tt,
  (
    tt,
    (
      (omega arith, omega arith),
      ((omega arith, omega arith), (tt, ((omega arith, omega arith), tt))),
    ),
  ),
)

admissions-Spaced_example :
    admissions
      (to_state 7 2 1 full_bucket)
      (some (limit_config 7 2 1))
      (500_000_005 ∷ 1_000_000_005 ∷ [])
    ≡ 2
admissions-Spaced_example =
    admissions-Spaced 2 1 two_and_one 7 500_000_000 full_bucket (500_000_005 ∷ 1_000_000_005 ∷ [])
      (omega arith) (omega arith) (omega arith, (omega arith, tt))

reserve_bucket-to_state_example :
    reserve_bucket (to_state 7 2 1 full_bucket) (some (limit_config 7 2 1)) 6
    ≡ (to_state 7 2 1 (reserve 2 1 full_bucket 6).0, (reserve 2 1 full_bucket 6).1)
reserve_bucket-to_state_example =
    reserve_bucket-to_state 2 1 two_and_one 7 full_bucket 6 (omega arith)
