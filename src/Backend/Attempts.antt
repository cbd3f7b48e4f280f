-- ===== src/Backend/Attempts.antt =====
-- proxy.go: the attempts of a request that is retried on errors and on statuses. What the code
-- cannot decide is a World: the transport's replies, the context's error at each check, 1xx
-- responses, the clocks. What it does to the outside is a list of actions.
pub mod Bodies
pub mod Charged
pub mod Plain
use kubio.Prelude.{
  ℕ, zero, suc, ◌+◌, Bool, true, false, ◌||◌, not, Option, none, some, List, [], ◌∷◌, ◌++◌, any,
  set, get_or, ◌==◌, leb, if◌then◌else◌, Result, ok, err,
}
use kubio.Text.{is_some}
use kubio.Backend.Health.{HealthConfig, TargetHealth, observe, reset_target_health}
use kubio.Backend.Budget.{
  BudgetConfig, RetryBudget, Reservation, reserved, exhausted, context_error, reserve,
}
use kubio.Backend.Targets.{Backend, retry_target_index}

-- A response: its status, and whether its Body is not nil.
pub record Response : Type 0 where
  pub status_code : ℕ
  pub body : Bool

-- The checks of the context's error in one attempt, in the order of the code.
pub data Moment : Type 0 where
  after_reply before_return before_lock locked before_close after_close after_wait : Moment

pub record World {ℓ} (E : Type ℓ) : Type ℓ where
  pub transport : ℕ → Result E Response
  pub informational : ℕ → Bool
  pub context : ℕ → Moment → Option E
  pub clone : ℕ → Option E
  pub clock : ℕ → ℕ → ℕ
  pub now : ℕ → ℕ
  pub random : ℕ → ℕ → ℕ

-- The fields of backend that stand for its configuration.
pub record RetryConfig : Type 0 where
  pub tries : ℕ
  pub retry_statuses : List ℕ
  pub has_deadline : Bool
  pub backoff_delays : Option (List ℕ)
  pub backoff_jitter : Bool
  pub budget : Option BudgetConfig
  pub health : HealthConfig

-- What the attempts change: the backend's targets and the budget.
pub record Shared : Type 0 where
  pub backend : Backend
  pub retry_budget : RetryBudget

pub data Action : Type 0 where
  sent : ℕ → Action
  received : Bool → Action
  closed : Action
  waited : ℕ → Action

pub data Outcome {ℓ} (E : Type ℓ) : Type ℓ where
  returned : Response → Outcome E
  failed : E → Outcome E
  attempts_exhausted : Outcome E

-- What one attempt comes to: the end, or the next attempt.
pub data Decision {ℓ} (E : Type ℓ) : Type ℓ where
  finish : Outcome E → Decision E
  again : Decision E

-- response.Body.Close() where there is a body
unfoldable pub close_body : Response → List Action
close_body response = if response.body then closed ∷ [] else []

module _ {ℓ} {E : Type ℓ} where
  -- backend.reserveRetry
  unfoldable pub reserve_retry :
      RetryConfig → World E → ℕ → RetryBudget → Reservation E × RetryBudget
  reserve_retry config world attempt retry_budget = elim (config.budget) [
    | none ↦ (reserved, retry_budget)
    | some budget ↦
        reserve budget (world.now attempt) (world.context attempt before_lock)
          (world.context attempt locked) retry_budget
  ]

  -- backend.observeAttempt
  unfoldable pub observe_attempt : RetryConfig → World E → ℕ → ℕ → Backend → Backend
  observe_attempt config world attempt index b = elim (b.health) [
    | none ↦ b
    | some targets ↦
        let answered : Bool = elim (world.transport attempt) [ ok r ↦ true | err e ↦ false ] in
        let target =
          observe (config.health) (world.now attempt) (world.informational attempt || answered)
            (is_some (world.context attempt after_reply))
            (get_or targets index reset_target_health) in
        record b { health = some (set targets index target) }
  ]

  -- waitRetryBackoff, where there are delays
  unfoldable pub wait_retry_backoff : RetryConfig → World E → ℕ → Decision E × List Action
  wait_retry_backoff config world attempt = elim (config.backoff_delays) [
    | none ↦ (again, [])
    | some delays ↦
        let delay =
          if config.backoff_jitter
          then world.random attempt (get_or delays attempt 0)
          else get_or delays attempt 0 in
        let decision : Decision E = elim (world.context attempt after_wait) [
          | some e ↦ finish (failed e)
          | none ↦ again
        ] in
        (decision, waited delay ∷ [])
  ]

  -- The branch of an error.
  unfoldable pub on_error :
      RetryConfig → World E → ℕ → Bool → E → RetryBudget → Decision E × List Action × RetryBudget
  on_error config world attempt last e retry_budget =
      let rest = reserve_retry config world attempt retry_budget in
      if world.informational attempt || is_some (world.context attempt after_reply) || last
      then (
        finish (elim (world.context attempt before_return) [
          | none ↦ failed e
          | some c ↦ if config.has_deadline || is_some (config.budget) then failed c else failed e
        ]),
        [],
        retry_budget,
      )
      else elim (rest.0) [
        | context_error c ↦ (finish (failed c), [], rest.1)
        | exhausted ↦ (finish (failed e), [], rest.1)
        | reserved ↦
            let (decision, actions) = wait_retry_backoff config world attempt in
            (decision, actions, rest.1)
      ]

  -- The body is closed, the context checked, and the delay waited for.
  unfoldable pub close_and_wait : RetryConfig → World E → ℕ → Response → Decision E × List Action
  close_and_wait config world attempt response = elim (world.context attempt after_close) [
    | some c ↦ (finish (failed c), close_body response)
    | none ↦
        let (decision, actions) = wait_retry_backoff config world attempt in
        (decision, close_body response ++ actions)
  ]

  -- The branch of a response.
  unfoldable pub on_response :
      RetryConfig
      → World E
      → ℕ
      → Bool
      → Response
      → RetryBudget
      → Decision E × List Action × RetryBudget
  on_response config world attempt last response retry_budget =
      let rest = reserve_retry config world attempt retry_budget in
      if last
        || world.informational attempt
        || not (any (λ status. status == response.status_code) (config.retry_statuses))
      then (finish (returned response), [], retry_budget)
      else elim (world.context attempt before_close) [
        | some c ↦ (finish (failed c), close_body response, retry_budget)
        | none ↦ elim (rest.0) [
          | context_error c ↦ (finish (failed c), close_body response, rest.1)
          | exhausted ↦ (finish (returned response), [], rest.1)
          | reserved ↦
              let (decision, actions) = close_and_wait config world attempt response in
              (decision, actions, rest.1)
        ]
      ]

  -- One attempt with its transport's reply.
  unfoldable pub attempt_once :
      RetryConfig → World E → ℕ → Bool → RetryBudget → Decision E × List Action × RetryBudget
  attempt_once config world attempt last retry_budget = elim (world.transport attempt) [
    | err e ↦ on_error config world attempt last e retry_budget
    | ok response ↦
        let (decision, actions, retry_budget') =
          on_response config world attempt last response retry_budget in
        (decision, received (response.body) ∷ actions, retry_budget')
  ]

  -- After an attempt: the end, or the rest of the loop, which begins with the clone of the request.
  unfoldable pub go_on :
      ℕ
      → Decision E
      → List Action
      → Shared
      → Option E
      → Outcome E × List Action × Shared
      → Outcome E × List Action × Shared
  go_on left (finish outcome) actions shared clone_error rest = (outcome, actions, shared)
  go_on zero again actions shared clone_error rest = (attempts_exhausted, actions, shared)
  go_on (suc left) again actions shared (some e) rest = (failed e, actions, shared)
  go_on (suc left) again actions shared none (outcome, more, shared') =
      (outcome, actions ++ more, shared')

  -- The loop from an attempt on, with the attempts left and the target of this one.
  unfoldable pub attempts_from :
      RetryConfig → World E → ℕ → ℕ → ℕ → ℕ → Shared → Outcome E × List Action × Shared
  attempts_from config world start zero attempt target shared = (attempts_exhausted, [], shared)
  attempts_from config world start (suc left) attempt target shared =
      let b = observe_attempt config world attempt target (shared.backend) in
      let (decision, actions, retry_budget) =
        attempt_once config world attempt (left == 0) (shared.retry_budget) in
      let (next, b') = retry_target_index (world.clock attempt) b start (suc attempt) in
      let rest =
        attempts_from config world start left (suc attempt) next
          (record { backend = b'; retry_budget = retry_budget }) in
      go_on left decision (sent target ∷ actions)
        (record { backend = b; retry_budget = retry_budget }) (world.clone (suc attempt)) rest

  -- backend.roundTripWithStatusRetry
  unfoldable pub round_trip_with_status_retry :
      RetryConfig → World E → ℕ → Shared → Outcome E × List Action × Shared
  unfolding attempts_from
  round_trip_with_status_retry config world start shared =
      attempts_from config world start (config.tries) 0 start shared
