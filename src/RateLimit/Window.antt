-- ===== src/RateLimit/Window.antt =====
-- A sequence of requests through reserveBucket: how many of them can be admitted.
use kubio.Prelude.{
  ℕ, ◌+◌, ◌-◌, ◌*◌, ◌≤◌, ◌≡◌, refl, true, List, [], ◌∷◌, All, some, Option, arith, length, ap,
  subst, sym, count,
}
use kubio.RateLimit.{LimitConfig, RateLimitState, nanotokens_per_token, reserve_bucket}
use kubio.RateLimit.Bucket.{
  limit_config, IsLimit, capacity_of, Bucket, reserve, to_state, reserve_bucket-to_state,
  reserve-bounded,
}

-- The number of requests that are admitted, one request at each of the times.
pub admissions : RateLimitState → Option LimitConfig → List ℕ → ℕ
admissions s config [] = 0
admissions s config (now ∷ later) =
    count (reserve_bucket s config now).1 + admissions (reserve_bucket s config now).0 config later

-- The same over the plain bucket.
admitted : ℕ → ℕ → Bucket → List ℕ → ℕ
admitted rate burst b [] = 0
admitted rate burst b (now ∷ later) =
    count (reserve rate burst b now).1 + admitted rate burst (reserve rate burst b now).0 later

-- Each time lies at least `gap` after the one before it.
abbrev pub Spaced : ℕ → ℕ → List ℕ → Type 0
Spaced gap last [] = Unit {0}
Spaced gap last (now ∷ later) = (last + gap ≤ now) × Spaced gap now later

inflow :
    (rate last now end : ℕ)
    → last ≤ now
    → now ≤ end
    → (now - last) * rate + rate * (end - now) ≡ rate * (end - last)
inflow rate last now end h k = grind arith

-- After one refill interval the bucket holds a token, whatever it held before.
full_interval :
    (rate gap last now : ℕ)
    → nanotokens_per_token ≤ gap * rate
    → last + gap ≤ now
    → nanotokens_per_token ≤ (now - last) * rate
full_interval rate gap last now h k = grind arith

module _ (rate burst : ℕ) (v : IsLimit rate burst) where
  admissions-to_state :
      (address : ℕ) (b : Bucket) (times : List ℕ)
      → b.tokens ≤ capacity_of burst
      → admissions (to_state address rate burst b) (some (limit_config address rate burst)) times
        ≡ admitted rate burst b times
  unfolding admissions admitted
  admissions-to_state address b [] h = refl
  admissions-to_state address b (now ∷ later) h =
      rw (reserve_bucket-to_state rate burst v address b now h) (
        ap (◌+◌ (count (reserve rate burst b now).1)) (
          admissions-to_state address (reserve rate burst b now).0 later
            (reserve-bounded rate burst v b now h)))

  -- What is taken and what is left come from what was there and what flowed in.
  pub reserve_balance :
      (b : Bucket) (now end : ℕ)
      → b.last ≤ end
      → now ≤ end
      → (count (reserve rate burst b now).1 * nanotokens_per_token
            + (reserve rate burst b now).0.tokens
            + rate * (end - (reserve rate burst b now).0.last)
          ≤ b.tokens + rate * (end - b.last))
        × ((reserve rate burst b now).0.last ≤ end)
  unfolding reserve
  reserve_balance b now end h k = ground (arith, inflow rate b.last now end)

  admitted_bound :
      (b : Bucket) (times : List ℕ) (end : ℕ)
      → b.last ≤ end
      → All (λ now. now ≤ end) times
      → admitted rate burst b times * nanotokens_per_token ≤ b.tokens + rate * (end - b.last)
  unfolding admitted
  admitted_bound b [] end h k = omega arith
  admitted_bound b (now ∷ later) end h (k, ks) =
      let (balance, before) = reserve_balance b now end h k in
      omega (arith, admitted_bound (reserve rate burst b now).0 later end before ks, balance)

  reserve_spaced :
      (gap : ℕ) (b : Bucket) (now : ℕ)
      → nanotokens_per_token ≤ gap * rate
      → b.last + gap ≤ now
      → ((reserve rate burst b now).1 ≡ true) × ((reserve rate burst b now).0.last ≡ now)
  unfolding reserve
  reserve_spaced gap b now h k = ground (arith, full_interval rate gap b.last now h k, v.burst_low)

  admitted-Spaced :
      (gap : ℕ) (b : Bucket) (times : List ℕ)
      → nanotokens_per_token ≤ gap * rate
      → Spaced gap b.last times
      → admitted rate burst b times ≡ length times
  unfolding admitted
  admitted-Spaced gap b [] h k = refl
  admitted-Spaced gap b (now ∷ later) h (k, ks) =
      let (allowed, moved) = reserve_spaced gap b now h k in
      rw allowed (
        omega (
          arith,
          admitted-Spaced gap (reserve rate burst b now).0 later h
              (subst (λ t. Spaced gap t later) (sym moved) ks),
        ))

  -- From a bucket within its capacity, with a rate and a burst between 1 and 1000000, and for
  -- requests at any times, in any order, up to an end that is not before the bucket's own time: the
  -- requests that reserveBucket admits, counted in nanotokens, are at most the bucket's tokens and
  -- those that flow in up to the end.
  pub admissions_bound :
      (address : ℕ) (b : Bucket) (times : List ℕ) (end : ℕ)
      → b.tokens ≤ capacity_of burst
      → b.last ≤ end
      → All (λ now. now ≤ end) times
      → admissions (to_state address rate burst b) (some (limit_config address rate burst)) times
          * nanotokens_per_token
        ≤ b.tokens + rate * (end - b.last)
  admissions_bound address b times end h k l =
      rw (admissions-to_state address b times h) (admitted_bound b times end k l)

  -- From a bucket within its capacity, with a rate and a burst between 1 and 1000000: requests of
  -- which each comes at least a gap after the one before, and the first after the bucket's time, are
  -- all admitted, when a gap refills a token.
  pub admissions-Spaced :
      (address gap : ℕ) (b : Bucket) (times : List ℕ)
      → b.tokens ≤ capacity_of burst
      → nanotokens_per_token ≤ gap * rate
      → Spaced gap b.last times
      → admissions (to_state address rate burst b) (some (limit_config address rate burst)) times
        ≡ length times
  admissions-Spaced address gap b times h k l =
      rw (admissions-to_state address b times h) (admitted-Spaced gap b times k l)
