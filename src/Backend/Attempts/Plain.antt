-- ===== src/Backend/Attempts/Plain.antt =====
-- proxy.go: RoundTrip, with the loop that retries on errors only. It closes and hands over each
-- body like the loop of round_trip_with_status_retry. Of the request that a retry sends, only the
-- target is kept.
use kubio.Prelude.{
  ℕ, zero, suc, ◌+◌, ◌-◌, ◌≤◌, ◌<◌, ◌≡◌, refl, Bool, true, false, ◌||◌, not, Option, none, some,
  List, [], ◌∷◌, ◌++◌, arith, ◌==◌, if◌then◌else◌, Result, ok, err, length, Bool-cases, inl, inr,
}
use kubio.Text.{is_some}
use kubio.Backend.Targets.{retry_target_index}
use kubio.Backend.Attempts.{
  Response, World, RetryConfig, Shared, Action, sent, received, Outcome, returned, failed,
  attempts_exhausted, after_reply, observe_attempt, round_trip_with_status_retry,
}
use kubio.Backend.Attempts.Bodies.{
  sends, bodies, closes, handed, gives_up, round_trip_with_status_retry-bounded,
}

-- backendRetryState, without informational
pub record RetryState : Type 0 where
  pub start : ℕ
  pub retry : Bool

module _ {ℓ} {E : Type ℓ} where
  unfoldable pub of_reply : Result E Response → Outcome E
  of_reply (ok response) = returned response
  of_reply (err e) = failed e

  unfoldable pub actions_of : ℕ → Result E Response → List Action
  actions_of target (ok response) = sent target ∷ received (response.body) ∷ []
  actions_of target (err e) = sent target ∷ []

  -- Whether the loop stops after a reply: a response, a 1xx response or a context that is done.
  unfoldable pub stops : World E → ℕ → Bool
  stops world attempt = elim (world.transport attempt) [
    | ok response ↦ true
    | err e ↦ world.informational attempt || is_some (world.context attempt after_reply)
  ]

  -- The first attempt of RoundTrip where there are no statuses, and its loop over the others.
  unfoldable pub plain_from :
      RetryConfig → World E → ℕ → ℕ → ℕ → ℕ → Shared → Outcome E × List Action × Shared
  plain_from config world start zero attempt target shared = (
    of_reply (world.transport attempt),
    actions_of target (world.transport attempt),
    record shared { backend = observe_attempt config world attempt target (shared.backend) },
  )
  plain_from config world start (suc left) attempt target shared =
      let b = observe_attempt config world attempt target (shared.backend) in
      let (next, b') = retry_target_index (world.clock attempt) b start (suc attempt) in
      let (outcome, more, shared') =
        plain_from config world start left (suc attempt) next (record shared { backend = b' }) in
      if stops world attempt
      then (
        of_reply (world.transport attempt),
        actions_of target (world.transport attempt),
        record shared { backend = b },
      )
      else (outcome, actions_of target (world.transport attempt) ++ more, shared')

  -- What RoundTrip makes of the outcome under its own deadline.
  unfoldable pub under_deadline : Option E → Outcome E → Outcome E
  under_deadline deadline_error (returned response) = returned response
  under_deadline none (failed e) = failed e
  under_deadline (some c) (failed e) = failed c
  under_deadline none attempts_exhausted = attempts_exhausted
  under_deadline (some c) attempts_exhausted = failed c

  -- The loop's result with the deadline that RoundTrip sets, and without.
  unfoldable pub with_deadline :
      Bool
      → Option E
      → Outcome E × List Action × Shared
      → Outcome E × List Action × Shared
      → Outcome E × List Action × Shared
  with_deadline true deadline_error (outcome, actions, shared) without =
      (under_deadline deadline_error outcome, actions, shared)
  with_deadline false deadline_error timed without = without

  -- backend.RoundTrip: the request's retry state, the error of prepareRetryBody where the body is
  -- to be replayed, the world under the deadline, and that context's error at the end.
  unfoldable pub round_trip :
      RetryConfig
      → World E
      → Option RetryState
      → Option E
      → World E
      → Option E
      → Shared
      → Outcome E × List Action × Shared
  round_trip config world none prepared timed deadline_error shared =
      (of_reply (world.transport 0), actions_of 0 (world.transport 0), shared)
  round_trip config world (some state) prepared timed deadline_error shared =
      if not (state.retry)
      then (
        of_reply (world.transport 0),
        actions_of (state.start) (world.transport 0),
        record shared { backend = observe_attempt config world 0 (state.start) (shared.backend) },
      )
      else if length (config.retry_statuses) == 0
      then plain_from config world (state.start) (config.tries - 1) 0 (state.start) shared
      else elim prepared [
        | some e ↦ (failed e, [], shared)
        | none ↦
            with_deadline (config.has_deadline) deadline_error
              (round_trip_with_status_retry config timed (state.start) shared)
              (round_trip_with_status_retry config world (state.start) shared)
      ]

  reply_fair :
      (target : ℕ) (reply : Result E Response)
      → (sends (actions_of target reply) ≡ 1)
        × (bodies (actions_of target reply)
            ≡ closes (actions_of target reply) + handed (of_reply reply))
        × (gives_up (of_reply reply) ≡ 0)
  unfolding of_reply actions_of
  reply_fair target (ok response) = (refl, omega arith, refl)
  reply_fair target (err e) = (refl, refl, refl)

  -- A loop that goes on has received no body.
  goes_on_error :
      (world : World E) (attempt target : ℕ)
      → stops world attempt ≡ false
      → actions_of target (world.transport attempt) ≡ sent target ∷ []
  unfolding stops actions_of
  goes_on_error world attempt target h = ground arith

  plain_from-Fair :
      (config : RetryConfig) (world : World E) (start left attempt target : ℕ) (shared : Shared)
      → let (outcome, actions, s) = plain_from config world start left attempt target shared in
        (sends actions ≤ suc left)
        × (bodies actions ≡ closes actions + handed outcome)
        × (gives_up outcome ≡ 0)
  unfolding plain_from
  plain_from-Fair config world start zero attempt target shared =
      let (a, b, c) = reply_fair target (world.transport attempt) in (omega arith, b, c)
  plain_from-Fair config world start (suc left) attempt target shared =
      let b = observe_attempt config world attempt target (shared.backend) in
      let next = retry_target_index (world.clock attempt) b start (suc attempt) in
      let (i0, i1, i2) =
        plain_from-Fair config world start left (suc attempt) next.0
          (record shared { backend = next.1 }) in
      let (a, bs, c) = reply_fair target (world.transport attempt) in
      elim (Bool-cases (stops world attempt)) [
        | inl yes_stop ↦ rw yes_stop (omega arith, bs, c)
        | inr no_stop ↦
            rw (no_stop, goes_on_error world attempt target no_stop) (omega arith, i1, i2)
      ]

  under_deadline-handed :
      (deadline_error : Option E) (outcome : Outcome E)
      → gives_up outcome ≡ 0
      → (handed (under_deadline deadline_error outcome) ≡ handed outcome)
        × (gives_up (under_deadline deadline_error outcome) ≡ 0)
  unfolding under_deadline
  under_deadline-handed deadline_error (returned response) h = (refl, refl)
  under_deadline-handed none (failed e) h = (refl, refl)
  under_deadline-handed (some c) (failed e) h = (refl, refl)
  under_deadline-handed deadline_error attempts_exhausted h = absurd (omega arith)

  abbrev Kept : RetryConfig → Outcome E → List Action → Type 0
  Kept config outcome actions =
      (sends actions ≤ config.tries)
      × (bodies actions ≡ closes actions + handed outcome)
      × (gives_up outcome ≡ 0)

  with_deadline-Kept :
      (config : RetryConfig) (has : Bool) (deadline_error : Option E)
      (timed without : Outcome E × List Action × Shared)
      → Kept config timed.0 timed.1
      → Kept config without.0 without.1
      → let (outcome, actions, s) = with_deadline has deadline_error timed without in
        Kept config outcome actions
  unfolding with_deadline
  with_deadline-Kept config true deadline_error (outcome, actions, s) without (a, b, g) k =
      let (h, r) = under_deadline-handed deadline_error outcome g in (a, omega arith, r)
  with_deadline-Kept config false deadline_error timed without k k' = k'

  -- On every branch of RoundTrip with at least one try configured: it sends no more requests than
  -- the tries, each body that it received it has closed, or handed to its caller, and its outcome
  -- is a response or an error of its environment, not the exhaustion of its loop.
  pub round_trip-bounded :
      (config : RetryConfig) (world : World E) (state : Option RetryState) (prepared : Option E)
      (timed : World E) (deadline_error : Option E) (shared : Shared)
      → 0 < config.tries
      → let (outcome, actions, s) =
          round_trip config world state prepared timed deadline_error shared in
        (sends actions ≤ config.tries)
        × (bodies actions ≡ closes actions + handed outcome)
        × (gives_up outcome ≡ 0)
  unfolding round_trip
  round_trip-bounded config world none prepared timed deadline_error shared p =
      let (a, b, c) = reply_fair 0 (world.transport 0) in (omega arith, b, c)
  round_trip-bounded config world (some state) prepared timed deadline_error shared p =
      elim (Bool-cases (state.retry)) [
        | inr plain ↦
            rw plain
              (let (a, b, c) = reply_fair (state.start) (world.transport 0) in (omega arith, b, c))
        | inl retried ↦ rw retried (elim (Bool-cases (length (config.retry_statuses) == 0)) [
          | inl no_status ↦ rw no_status (
              let (a, b, c) =
                plain_from-Fair config world (state.start) (config.tries - 1) 0 (state.start)
                  shared in
              (omega arith, b, c))
          | inr statuses ↦ rw statuses (with_statuses prepared)
        ])
      ]
    where
      with_statuses :
          (ready : Option E)
          → let (outcome, actions, s) = (elim ready as (λ x. Outcome E × List Action × Shared) [
            | some e ↦ (failed e, [], shared)
            | none ↦
                with_deadline
                  (config.has_deadline)
                  deadline_error
                  (round_trip_with_status_retry config timed (state.start) shared)
                  (round_trip_with_status_retry config world (state.start) shared)
          ]) in
            Kept config outcome actions
      with_statuses (some e) = (omega arith, refl, refl)
      with_statuses none =
          let (a, b, g) =
            round_trip_with_status_retry-bounded config timed (state.start) shared p in
          let (a', b', g') =
            round_trip_with_status_retry-bounded config world (state.start) shared p in
          with_deadline-Kept config (config.has_deadline) deadline_error
            (round_trip_with_status_retry config timed (state.start) shared)
            (round_trip_with_status_retry config world (state.start) shared) (a, b, g) (a', b', g')
