-- ===== src/RateLimit/Bucket.antt =====
-- The plain bucket over numbers that reserveBucket implements, and the refinement.
use kubio.Prelude.{
  ℕ, ◌+◌, ◌-◌, ◌*◌, ◌≤◌, ◌≡◌, Bool, true, false, arith, min, ltb, leb, some, if◌then◌else◌,
  Bool-cases, inl, inr, ◌==◌,
}
use kubio.Prelude.Int.{pos, ltb_ℤ, ◌-ℤ◌, wrap64}
use kubio.RateLimit.{
  same_config, LimitConfig, RateLimitState, max_int64, nanotokens_per_token, saturating_add,
  saturating_multiply, time_sub, refill, take_token, reserve_bucket, new_rate_limit_state_value,
}
use kubio.RateLimit.Arith.{saturating_add_nonneg, saturating_multiply_nonneg}

-- A configuration as decoding accepts it: both numbers lie between one and a million.
abbrev pub limit_config : ℕ → ℕ → ℕ → LimitConfig
limit_config address rate burst = record { address = address; rate = pos rate; burst = pos burst }

pub record IsLimit (rate burst : ℕ) : Type 0 where
  pub rate_low : 1 ≤ rate
  pub rate_high : rate ≤ 1_000_000
  pub burst_low : 1 ≤ burst
  pub burst_high : burst ≤ 1_000_000

abbrev pub capacity_of : ℕ → ℕ
capacity_of burst = burst * nanotokens_per_token

pub record Bucket : Type 0 where
  pub tokens : ℕ
  pub last : ℕ

-- What is in the bucket at a time: a clock that runs backwards adds nothing.
unfoldable pub level : ℕ → ℕ → Bucket → ℕ → ℕ
level rate burst b now =
    if ltb now b.last then b.tokens else min (capacity_of burst) (b.tokens + (now - b.last) * rate)

abbrev pub latest : ℕ → ℕ → ℕ
latest last now = if ltb now last then last else now

-- The plain bucket: one token is taken if the level allows it.
unfoldable pub reserve : ℕ → ℕ → Bucket → ℕ → Bucket × Bool
unfolding level
reserve rate burst b now =
    let t = level rate burst b now in
    if leb nanotokens_per_token t
    then (record { tokens = t - nanotokens_per_token; last = latest b.last now }, true)
    else (record { tokens = t; last = latest b.last now }, false)

abbrev pub to_state : ℕ → ℕ → ℕ → Bucket → RateLimitState
to_state address rate burst b = record {
  config = some (limit_config address rate burst);
  rate = pos rate;
  capacity = pos (capacity_of burst);
  tokens = pos b.tokens;
  last = b.last;
}

time_sub_nonneg : (t u : ℕ) → u ≤ t → time_sub t u ≡ pos (min max_int64 (t - u))
unfolding time_sub
time_sub_nonneg t u h = ground arith

module _ (rate burst : ℕ) (v : IsLimit rate burst) where
  saturated :
      (t e : ℕ)
      → t ≤ capacity_of burst
      → min (capacity_of burst) (min max_int64 (t + min max_int64 (min max_int64 e * rate)))
        ≡ min (capacity_of burst) (t + e * rate)
  saturated t e h = grind arith

  refilled :
      (t e : ℕ)
      → t ≤ capacity_of burst
      → let tokens =
          saturating_add (pos t) (saturating_multiply (pos (min max_int64 e)) (pos rate)) in
        (if ltb_ℤ (pos (capacity_of burst)) tokens then pos (capacity_of burst) else tokens)
        ≡ pos (min (capacity_of burst) (t + e * rate))
  refilled t e h =
      rw
        (saturating_multiply_nonneg (min max_int64 e) rate (omega arith)
          (omega (arith, v.rate_high)))
        (rw
          (saturating_add_nonneg t (min max_int64 (min max_int64 e * rate))
            (omega (arith, v.burst_high)) (omega arith))
          (ground (arith, saturated t e h)))

  refill-to_state :
      (address : ℕ) (b : Bucket) (now : ℕ)
      → b.tokens ≤ capacity_of burst
      → refill (to_state address rate burst b) now
        ≡ to_state address rate burst
            (record { tokens = level rate burst b now; last = latest b.last now })
  unfolding refill level
  refill-to_state address b now h = elim (Bool-cases (ltb now b.last)) [
    | inl back ↦ rw back
    | inr on ↦
        rw (on, time_sub_nonneg now b.last (ground arith)) (rw (refilled b.tokens (now - b.last) h))
  ]

  take_token-to_state :
      (address t last : ℕ)
      → t ≤ capacity_of burst
      → take_token (to_state address rate burst (record { tokens = t; last = last })) ≡ (
          if leb nanotokens_per_token t
          then (
            to_state address rate burst (record { tokens = t - nanotokens_per_token; last = last }),
            true,
          )
          else (to_state address rate burst (record { tokens = t; last = last }), false))
  unfolding take_token wrap64 ◌-ℤ◌
  take_token-to_state address t last h = ground (arith, v.burst_high)

  level-le :
      (b : Bucket) (now : ℕ)
      → b.tokens ≤ capacity_of burst
      → level rate burst b now ≤ capacity_of burst
  unfolding level
  level-le b now h = ground arith

  -- On a state that stands for a plain bucket within its capacity under the same configuration, with
  -- a rate and a burst between 1 and 1000000, the int64 arithmetic of reserveBucket makes exactly
  -- the step of the plain bucket over unbounded numbers.
  pub reserve_bucket-to_state :
      (address : ℕ) (b : Bucket) (now : ℕ)
      → b.tokens ≤ capacity_of burst
      → reserve_bucket (to_state address rate burst b) (some (limit_config address rate burst)) now
        ≡ (to_state address rate burst (reserve rate burst b now).0, (reserve rate burst b now).1)
  unfolding reserve_bucket reserve
  reserve_bucket-to_state address b now h = elim (Bool-cases (address == address)) [
    | inl same ↦
        rw (same, refill-to_state address b now h)
          (rw
            (take_token-to_state address (level rate burst b now) (latest b.last now)
              (level-le b now h))
            (ground arith))
    | inr other ↦ absurd (ground arith)
  ]

  -- The plain step keeps the bucket within its capacity.
  pub reserve-bounded :
      (b : Bucket) (now : ℕ)
      → b.tokens ≤ capacity_of burst
      → (reserve rate burst b now).0.tokens ≤ capacity_of burst
  unfolding reserve
  reserve-bounded b now h = ground (arith, level-le b now h)

  -- The first request under a configuration, the bucket full: it is admitted.
  pub reserve_bucket-fresh :
      (address : ℕ) (s : RateLimitState) (now : ℕ)
      → same_config s.config (some (limit_config address rate burst)) ≡ false
      → reserve_bucket s (some (limit_config address rate burst)) now ≡ (
        to_state address rate burst
            (record { tokens = capacity_of burst - nanotokens_per_token; last = now }),
        true,
      )
  unfolding reserve_bucket new_rate_limit_state_value ◌-ℤ◌
  reserve_bucket-fresh address s now e = rw e (ground (arith, v.burst_low, v.burst_high))

  -- A new bucket is full.
  pub new_rate_limit_state_value-to_state :
      (address now : ℕ)
      → new_rate_limit_state_value (some (limit_config address rate burst)) now
        ≡ to_state address rate burst (record { tokens = capacity_of burst; last = now })
  unfolding new_rate_limit_state_value
  new_rate_limit_state_value-to_state address now = ground (arith, v.burst_low, v.burst_high)
