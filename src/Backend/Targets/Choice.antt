-- ===== src/Backend/Targets/Choice.antt =====
-- The target of a retry is an available one whenever there is one.
use kubio.Prelude.{
  ℕ, zero, suc, ◌+◌, ◌≤◌, ◌<◌, ◌≡◌, refl, ap, List, [], ◌∷◌, arith, Bool, true, false, get_or, set,
  some, Bool-cases, inl, inr, ◌⊎◌, ◌≢◌,
}
use native.Mathlib.Decide.{dec_lt}
use kubio.Backend.Health.{TargetHealth, reset_target_health, available}
use kubio.Backend.Targets.{
  Backend, remainder, available_at, following, retry_scan, retry_target_index,
}

-- Whether the target of an index would be found available at a time.
abbrev pub is_available : ℕ → List TargetHealth → ℕ → Bool
is_available now targets index = (available now (get_or targets index reset_target_health)).0

set-same : {A : Type 0} (xs : List A) (i : ℕ) (d : A) → set xs i (get_or xs i d) ≡ xs
set-same [] i d = refl
set-same (x ∷ xs) zero d = refl
set-same (x ∷ xs) (suc i) d = ap (◌∷◌ x) (set-same xs i d)

unavailable-same :
    (now : ℕ) (t : TargetHealth) → (available now t).0 ≡ false → (available now t).1 ≡ t
unfolding available
unavailable-same now t h = ground arith

-- A target found not available is left as it is.
available_at-false :
    (now : ℕ) (targets : List TargetHealth) (index : ℕ)
    → is_available now targets index ≡ false
    → available_at now targets index ≡ (false, targets)
unfolding available_at
available_at-false now targets index h =
    rw
      (
        h,
        unavailable-same now (get_or targets index reset_target_health) h,
        set-same targets index reset_target_health,
      )
      refl

available_at-true :
    (now : ℕ) (targets : List TargetHealth) (index : ℕ)
    → is_available now targets index ≡ true
    → (available_at now targets index).0 ≡ true
unfolding available_at
available_at-true now targets index h = h

scan_here :
    (clock : ℕ → ℕ) (count rounds index first : ℕ) (targets : List TargetHealth)
    → is_available (clock rounds) targets index ≡ true
    → (retry_scan clock count (suc rounds) index first targets).0 ≡ index
unfolding retry_scan
scan_here clock count rounds index first targets h =
    rw (available_at-true (clock rounds) targets index h) refl

scan_on :
    (clock : ℕ → ℕ) (count rounds index first : ℕ) (targets : List TargetHealth)
    → is_available (clock rounds) targets index ≡ false
    → retry_scan clock count (suc rounds) index first targets
      ≡ retry_scan clock count rounds (following count index) first targets
unfolding retry_scan
scan_on clock count rounds index first targets h =
    rw (available_at-false (clock rounds) targets index h) refl

following_lem :
    (count index : ℕ)
    → index < count
    → ((following count index ≡ suc index) × (suc index < count))
      ⊎ ((following count index ≡ 0) × (suc index ≡ count))
unfolding following
following_lem count index h = elim (dec_lt (suc index) count) [
  | yes l ↦ inl (ground arith, l)
  | no l ↦ inr (ground arith, omega arith)
]

-- The targets that the remaining rounds come to, from an index on.
abbrev Ahead : ℕ → ℕ → ℕ → ℕ → Type 0
Ahead count rounds index j = ((index ≤ j) × (j < index + rounds)) ⊎ (j + count < index + rounds)

Ahead-following :
    (count rounds index j : ℕ)
    → index < count
    → j < count
    → suc rounds ≤ count
    → j ≢ index
    → Ahead count (suc rounds) index j
    → (following count index < count) × Ahead count rounds (following count index) j
Ahead-following count rounds index j i l r other near = elim (following_lem count index i) [
  | inl (e, s) ↦ rw e (s, ahead near)
  | inr (e, s) ↦ rw e (omega arith, inl (omega arith, round near s))
]
  where
    ahead : Ahead count (suc rounds) index j → Ahead count rounds (suc index) j
    ahead (inl (a, b)) = inl (omega arith, omega arith)
    ahead (inr a) = inr (omega arith)

    round : Ahead count (suc rounds) index j → suc index ≡ count → j < 0 + rounds
    round (inl (a, b)) e = absurd (other (omega arith))
    round (inr a) e = omega arith

scan_finds :
    (clock : ℕ → ℕ) (count rounds index first j : ℕ) (targets : List TargetHealth)
    → index < count
    → j < count
    → rounds ≤ count
    → Ahead count rounds index j
    → ((n : ℕ) → is_available (clock n) targets j ≡ true)
    → (n : ℕ) × (is_available
          (clock n)
          targets
          (retry_scan clock count rounds index first targets).0
        ≡ true)
scan_finds clock count zero index first j targets i l r (inl (a, b)) h = absurd (omega arith)
scan_finds clock count zero index first j targets i l r (inr a) h = absurd (omega arith)
scan_finds clock count (suc rounds) index first j targets i l r near h =
    elim (Bool-cases (is_available (clock rounds) targets index)) [
      | inl here ↦ (rounds, rw (scan_here clock count rounds index first targets here) here)
      | inr passed ↦
          let other : j ≢ index = λ e. cc (passed, h rounds, e) in
          let (inside, ahead) = Ahead-following count rounds index j i l r other near in
          rw (scan_on clock count rounds index first targets passed) (
            scan_finds clock count rounds (following count index) first j targets inside l
              (omega arith) ahead h)
    ]

remainder_bound : (current count : ℕ) → 0 < count → remainder current count < count
unfolding remainder
remainder_bound current zero p = absurd (omega arith)
remainder_bound current (suc n) p = omega arith

-- When a backend with health checks has a target that is available at every reading of the clock,
-- the target that retryTargetIndex returns is one that is available at one of the readings, for
-- every start and every attempt.
pub retry_target_index-available :
    (clock : ℕ → ℕ) (b : Backend) (targets : List TargetHealth) (start attempt j : ℕ)
    → b.health ≡ some targets
    → j < b.targets
    → ((n : ℕ) → is_available (clock n) targets j ≡ true)
    → (n : ℕ) × (is_available (clock n) targets (retry_target_index clock b start attempt).0 ≡ true)
unfolding retry_target_index
retry_target_index-available clock b targets start attempt j healthy inside h =
    let index = remainder (start + attempt) (b.targets) in
    let below : index < b.targets = remainder_bound (start + attempt) (b.targets) (omega arith) in
    rw healthy (
      scan_finds clock (b.targets) (b.targets) index index j targets below inside (omega arith) near
        h)
  where
    near : Ahead (b.targets) (b.targets) (remainder (start + attempt) (b.targets)) j
    near = elim (dec_lt j (remainder (start + attempt) (b.targets))) [
      | yes l ↦ inr (omega arith)
      | no l ↦ inl (omega arith, omega arith)
    ]
