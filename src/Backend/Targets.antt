-- ===== src/Backend/Targets.antt =====
-- proxy.go: the target of an attempt. The counter is the atomic uint64, each Add one step; the
-- readings of the clock are a function of the number of the reading.
pub mod Choice
use kubio.Prelude.{
  ℕ, zero, suc, ◌+◌, ◌-◌, ◌%◌, ◌^◌, Bool, true, false, Option, none, some, List, [], ◌∷◌, length,
  get_or, set, ◌==◌, leb, if◌then◌else◌,
}
use kubio.Backend.Health.{HealthConfig, TargetHealth, reset_target_health, available}

-- The fields of backend that the choice of a target reads; the health is that of each target.
pub record Backend : Type 0 where
  pub targets : ℕ
  pub schedule : List ℕ
  pub next_index : ℕ
  pub health : Option (List TargetHealth)

-- int(current % uint64(count)); Go panics where the count is 0, and no backend is without targets.
unfoldable pub remainder : ℕ → ℕ → ℕ
remainder current zero = 0
remainder current (suc n) = current % suc n

-- The count of nextScheduledTargetIndex and nextHealthyTargetIndex.
unfoldable pub rotation : Backend → ℕ
rotation b = if leb 1 (length (b.schedule)) then length (b.schedule) else b.targets

-- The target at an index of the rotation.
unfoldable pub scheduled : Backend → ℕ → ℕ
scheduled b index = if leb 1 (length (b.schedule)) then get_or (b.schedule) index 0 else index

-- backend.nextScheduledTargetIndex: the target and the backend with its counter moved on.
unfoldable pub next_scheduled_target_index : Backend → ℕ × Backend
unfolding remainder rotation scheduled
next_scheduled_target_index b = if rotation b == 1 then (scheduled b 0, b) else (
  scheduled b (remainder (b.next_index) (rotation b)),
  record b { next_index = (b.next_index + 1) % 2 ^ 64 },
)

-- backendHealth.available on the target of an index.
unfoldable pub available_at : ℕ → List TargetHealth → ℕ → Bool × List TargetHealth
unfolding available
available_at now targets index =
    let (yes_or_no, target) = available now (get_or targets index reset_target_health) in
    (yes_or_no, set targets index target)

-- The loop of nextHealthyTargetIndex after its first test.
unfoldable pub next_healthy_from : (ℕ → ℕ) → ℕ → ℕ → List TargetHealth → Backend → ℕ × Backend
unfolding next_scheduled_target_index available_at
next_healthy_from clock zero first targets b = (first, record b { health = some targets })
next_healthy_from clock (suc attempts) first targets b =
    let (index, b') = next_scheduled_target_index b in
    let (found, targets') = available_at (clock attempts) targets index in
    let rest = next_healthy_from clock attempts first targets' b' in
    if found then (index, record b' { health = some targets' }) else rest

-- backend.nextTargetIndex with nextHealthyTargetIndex
unfoldable pub next_target_index : (ℕ → ℕ) → Backend → ℕ × Backend
unfolding next_healthy_from next_scheduled_target_index available_at
next_target_index clock b =
    let (first, b') = next_scheduled_target_index b in
    elim (b.health) [
      | none ↦ (first, b')
      | some targets ↦
          let (found, targets') = available_at (clock (rotation b)) targets first in
          if found
          then (first, record b' { health = some targets' })
          else next_healthy_from clock (rotation b - 1) first targets' b'
    ]

-- index++ with the return to 0 in the loop of retryTargetIndex.
unfoldable pub following : ℕ → ℕ → ℕ
following count index = if suc index == count then 0 else suc index

-- The loop of retryTargetIndex.
unfoldable pub retry_scan : (ℕ → ℕ) → ℕ → ℕ → ℕ → ℕ → List TargetHealth → ℕ × List TargetHealth
retry_scan clock count zero index first targets = (first, targets)
retry_scan clock count (suc rounds) index first targets =
    let (found, targets') = available_at (clock rounds) targets index in
    let rest = retry_scan clock count rounds (following count index) first targets' in
    if found then (index, targets') else rest

-- backend.retryTargetIndex
unfoldable pub retry_target_index : (ℕ → ℕ) → Backend → ℕ → ℕ → ℕ × Backend
retry_target_index clock b start attempt =
    let index = remainder (start + attempt) (b.targets) in
    elim (b.health) [
      | none ↦ (index, b)
      | some targets ↦
          let (found, targets') = retry_scan clock (b.targets) (b.targets) index index targets in
          (found, record b { health = some targets' })
    ]
