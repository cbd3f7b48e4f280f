-- ===== src/Backend/Attempts/Bodies.antt =====
-- What the attempts do to the outside: how often they send, and what becomes of the bodies.
use kubio.Prelude.{
  ℕ, zero, suc, ◌+◌, ◌≤◌, ◌<◌, ◌≡◌, refl, Bool, false, Option, none, some, List, [], ◌∷◌, ◌++◌,
  arith, count, ◌==◌, Result, ok, err,
}
use kubio.Backend.Budget.{RetryBudget}
use kubio.Backend.Targets.{retry_target_index}
use kubio.Backend.Attempts.{
  Response, World, RetryConfig, Shared, Action, sent, received, closed, waited, Outcome, returned,
  failed, attempts_exhausted, Decision, finish, again, close_body, observe_attempt,
  wait_retry_backoff, on_error, close_and_wait, on_response, attempt_once, go_on, attempts_from,
  round_trip_with_status_retry,
}

-- The requests sent, the bodies received and those closed.
abbrev pub sends : List Action → ℕ
sends [] = 0
sends (sent target ∷ actions) = suc (sends actions)
sends (received body ∷ actions) = sends actions
sends (closed ∷ actions) = sends actions
sends (waited delay ∷ actions) = sends actions

abbrev pub bodies : List Action → ℕ
bodies [] = 0
bodies (sent target ∷ actions) = bodies actions
bodies (received body ∷ actions) = count body + bodies actions
bodies (closed ∷ actions) = bodies actions
bodies (waited delay ∷ actions) = bodies actions

abbrev pub closes : List Action → ℕ
closes [] = 0
closes (sent target ∷ actions) = closes actions
closes (received body ∷ actions) = closes actions
closes (closed ∷ actions) = suc (closes actions)
closes (waited delay ∷ actions) = closes actions

closed_once :
    (response : Response)
    → (sends (close_body response) ≡ 0)
      × (bodies (close_body response) ≡ 0)
      × (closes (close_body response) ≡ count (response.body))
unfolding close_body
closed_once response = (ground arith, ground arith, ground arith)

pub sums :
    (xs ys : List Action)
    → (sends (xs ++ ys) ≡ sends xs + sends ys)
      × (bodies (xs ++ ys) ≡ bodies xs + bodies ys)
      × (closes (xs ++ ys) ≡ closes xs + closes ys)
sums [] ys = (omega arith, omega arith, omega arith)
sums (sent t ∷ xs) ys = let (a, b, c) = sums xs ys in (omega arith, omega arith, omega arith)
sums (received t ∷ xs) ys = let (a, b, c) = sums xs ys in (omega arith, omega arith, omega arith)
sums (closed ∷ xs) ys = let (a, b, c) = sums xs ys in (omega arith, omega arith, omega arith)
sums (waited t ∷ xs) ys = let (a, b, c) = sums xs ys in (omega arith, omega arith, omega arith)

module _ {ℓ} {E : Type ℓ} where
  -- The body that the caller is handed.
  abbrev pub handed : Outcome E → ℕ
  handed (returned response) = count (response.body)
  handed (failed e) = 0
  handed attempts_exhausted = 0

  abbrev pub handed_by : Decision E → ℕ
  handed_by (finish outcome) = handed outcome
  handed_by again = 0

  -- Whether a next attempt follows.
  abbrev pub goes_on : Decision E → ℕ
  goes_on (finish outcome) = 0
  goes_on again = 1

  -- The loop ran out of attempts.
  abbrev pub gives_up : Outcome E → ℕ
  gives_up (returned response) = 0
  gives_up (failed e) = 0
  gives_up attempts_exhausted = 1

  abbrev pub gives_up_by : Decision E → ℕ
  gives_up_by (finish outcome) = gives_up outcome
  gives_up_by again = 0

  -- What holds of one attempt's actions.
  abbrev pub Fair : Bool → ℕ → Decision E → List Action → Type 0
  Fair last held decision actions =
      (sends actions ≡ 0)
      × (held + bodies actions ≡ closes actions + handed_by decision)
      × (count last + goes_on decision ≤ 1)
      × (gives_up_by decision ≡ 0)

  wait_quiet :
      (config : RetryConfig) (world : World E) (attempt : ℕ)
      → (sends (wait_retry_backoff config world attempt).1 ≡ 0)
        × (bodies (wait_retry_backoff config world attempt).1 ≡ 0)
        × (closes (wait_retry_backoff config world attempt).1 ≡ 0)
        × (handed_by (wait_retry_backoff config world attempt).0 ≡ 0)
        × (gives_up_by (wait_retry_backoff config world attempt).0 ≡ 0)
        × (goes_on (wait_retry_backoff config world attempt).0 ≤ 1)
  unfolding wait_retry_backoff
  wait_quiet config world attempt =
      (ground arith, ground arith, ground arith, ground arith, ground arith, ground arith)

  on_error-Fair :
      (config : RetryConfig) (world : World E) (attempt : ℕ) (last : Bool) (e : E)
      (retry_budget : RetryBudget)
      → let (decision, actions, b) = on_error config world attempt last e retry_budget in
        Fair last 0 decision actions
  unfolding on_error
  on_error-Fair config world attempt last e retry_budget =
      let (w0, w1, w2, w3, w4, w5) = wait_quiet config world attempt in
      (ground arith, ground arith, ground arith, ground arith)

  close_and_wait-Fair :
      (config : RetryConfig) (world : World E) (attempt : ℕ) (response : Response)
      → let (decision, actions) = close_and_wait config world attempt response in
        Fair false (count (response.body)) decision actions
  unfolding close_and_wait
  close_and_wait-Fair config world attempt response =
      let (w0, w1, w2, w3, w4, w5) = wait_quiet config world attempt in
      let (c0, c1, c2) = closed_once response in
      let (s0, s1, s2) = sums (close_body response) (wait_retry_backoff config world attempt).1 in
      (ground arith, ground arith, ground arith, ground arith)

  on_response-Fair :
      (config : RetryConfig) (world : World E) (attempt : ℕ) (last : Bool) (response : Response)
      (retry_budget : RetryBudget)
      → let (decision, actions, b) = on_response config world attempt last response retry_budget in
        Fair last (count (response.body)) decision actions
  unfolding on_response
  on_response-Fair config world attempt last response retry_budget =
      let (w0, w1, w2, w3) = close_and_wait-Fair config world attempt response in
      let (c0, c1, c2) = closed_once response in
      (ground arith, ground arith, ground arith, ground arith)

  pub attempt_once-Fair :
      (config : RetryConfig) (world : World E) (attempt : ℕ) (last : Bool)
      (retry_budget : RetryBudget)
      → let (decision, actions, b) = attempt_once config world attempt last retry_budget in
        Fair last 0 decision actions
  unfolding attempt_once
  attempt_once-Fair config world attempt last retry_budget = by_reply (world.transport attempt) refl
    where
      by_reply :
          (reply : Result E Response)
          → world.transport attempt ≡ reply
          → let (decision, actions, b) = attempt_once config world attempt last retry_budget in
            Fair last 0 decision actions
      by_reply (err e) is =
          rw (is, attempt_once) (on_error-Fair config world attempt last e retry_budget)
      by_reply (ok response) is =
          rw (is, attempt_once)
            (let (w0, w1, w2, w3) =
                on_response-Fair config world attempt last response retry_budget in
              (w0, omega arith, w2, w3))

  -- What holds of the actions of a loop with the attempts left.
  abbrev Sound : ℕ → Outcome E → List Action → Type 0
  Sound left outcome actions =
      (sends actions ≤ left)
      × (bodies actions ≡ closes actions + handed outcome)
      × (0 < left → gives_up outcome ≡ 0)

  go_on-Sound :
      (left target : ℕ) (decision : Decision E) (actions : List Action) (shared : Shared)
      (clone_error : Option E) (rest : Outcome E × List Action × Shared)
      → Fair (left == 0) 0 decision actions
      → Sound left rest.0 rest.1
      → let (outcome, all_actions, s) =
          go_on left decision (sent target ∷ actions) shared clone_error rest in
        Sound (suc left) outcome all_actions
  unfolding go_on
  go_on-Sound left target (finish outcome) actions shared clone_error rest (w0, w1, w2, w3) r =
      (omega arith, omega arith, λ p. omega arith)
  go_on-Sound zero target again actions shared clone_error rest (w0, w1, w2, w3) r =
      absurd (ground arith)
  go_on-Sound (suc left) target again actions shared (some e) rest (w0, w1, w2, w3) r =
      (omega arith, omega arith, λ p. omega arith)
  go_on-Sound (suc left) target again actions shared none (outcome, more, s) (w0, w1, w2, w3)
        (r0, r1, r2) =
      let (s0, s1, s2) = sums actions more in
      let r3 = r2 (omega arith) in (omega arith, omega arith, λ p. omega arith)

  attempts_from-Sound :
      (config : RetryConfig) (world : World E) (start left attempt target : ℕ) (shared : Shared)
      → let (outcome, actions, s) = attempts_from config world start left attempt target shared in
        Sound left outcome actions
  unfolding attempts_from
  attempts_from-Sound config world start zero attempt target shared =
      (omega arith, omega arith, λ p. absurd (omega arith))
  attempts_from-Sound config world start (suc left) attempt target shared =
      let b = observe_attempt config world attempt target (shared.backend) in
      let next = retry_target_index (world.clock attempt) b start (suc attempt) in
      let once = attempt_once config world attempt (left == 0) (shared.retry_budget) in
      let rest : Shared = record { backend = next.1; retry_budget = once.2 } in
      go_on-Sound left target once.0 once.1 (record { backend = b; retry_budget = once.2 })
        (world.clone (suc attempt))
        (attempts_from config world start left (suc attempt) next.0 rest)
        (attempt_once-Fair config world attempt (left == 0) (shared.retry_budget))
        (attempts_from-Sound config world start left (suc attempt) next.0 rest)

  -- With at least one try: roundTripWithStatusRetry sends no more than the configured tries; each body
  -- that it received it has closed, or handed to its caller; and it does not run out of its loop.
  pub round_trip_with_status_retry-bounded :
      (config : RetryConfig) (world : World E) (start : ℕ) (shared : Shared)
      → 0 < config.tries
      → let (outcome, actions, s) = round_trip_with_status_retry config world start shared in
        (sends actions ≤ config.tries)
        × (bodies actions ≡ closes actions + handed outcome)
        × (gives_up outcome ≡ 0)
  unfolding round_trip_with_status_retry
  round_trip_with_status_retry-bounded config world start shared p =
      let (a, b, c) = attempts_from-Sound config world start (config.tries) 0 start shared in
      (a, b, c p)
