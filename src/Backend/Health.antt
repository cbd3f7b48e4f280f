-- ===== src/Backend/Health.antt =====
-- proxy.go: the health of one target of a backend. A time is a number of nanoseconds and 0 is the
-- zero time.Time; the target's mutex makes each operation one step.
pub mod Circuit
use kubio.Prelude.{ℕ, suc, ◌+◌, Bool, true, false, ◌||◌, ◌&&◌, not, ltb, leb, ◌==◌, if◌then◌else◌}

-- The fields of backendHealth that the operations read.
pub record HealthConfig : Type 0 where
  pub fail : ℕ
  pub cool : ℕ

-- targetHealth
pub record TargetHealth : Type 0 where
  pub failures : ℕ
  pub until : ℕ

-- resetTargetHealth
abbrev pub reset_target_health : TargetHealth
reset_target_health = record { failures = 0; until = 0 }

-- backendHealth.available: the answer, and the target after it.
unfoldable pub available : ℕ → TargetHealth → Bool × TargetHealth
available now target =
    if target.until == 0
    then (true, target)
    else if ltb now (target.until)
    then (false, target)
    else (true, reset_target_health)

-- The increment of failures and the opening of the circuit at the end of observeFailureLocked.
unfoldable pub add_failure : HealthConfig → ℕ → ℕ → TargetHealth
add_failure config now failures =
    if leb (config.fail) (suc failures)
    then record { failures = 0; until = now + config.cool }
    else record { failures = suc failures; until = 0 }

-- backendHealth.observeFailureLocked
unfoldable pub observe_failure : HealthConfig → ℕ → TargetHealth → TargetHealth
observe_failure config now target =
    if target.until == 0
    then add_failure config now (target.failures)
    else if ltb now (target.until)
    then record { failures = target.failures; until = target.until + config.cool }
    else add_failure config now 0

-- backendHealth.observe: whether there was a response or no error, and whether the context is done.
unfoldable pub observe : HealthConfig → ℕ → Bool → Bool → TargetHealth → TargetHealth
observe config now succeeded context_done target =
    if succeeded
    then reset_target_health
    else if context_done
    then target
    else observe_failure config now target

-- backendHealth.observeProbe: whether the generation is over, whether the probe's context is done,
-- and whether the response was healthy.
unfoldable pub observe_probe : HealthConfig → ℕ → Bool → Bool → Bool → TargetHealth → TargetHealth
observe_probe config now generation_over probe_done healthy target =
    if generation_over
    then target
    else if healthy && not probe_done
    then reset_target_health
    else observe_failure config now target
