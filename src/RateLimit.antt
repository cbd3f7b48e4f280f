-- ===== src/RateLimit.antt =====
-- rate_limit.go: the token bucket of the limiter. An int64 is an integer that is brought back into
-- range after each operation; a time is a number of nanoseconds; a pointer to a configuration is
-- the configuration with its address, and two pointers are compared by their addresses.
pub mod Arith
pub mod Bucket
pub mod Window
pub mod Concurrent
mod Tests
use kubio.Prelude.{
  ℕ, ◌+◌, ◌*◌, ◌/◌, ◌≤◌, ◌≡◌, Bool, true, false, ◌||◌, Option, none, some, leb, ltb, ◌==◌, not,
  if◌then◌else◌,
}
use kubio.Prelude.Int.{
  ℤ, pos, negsuc, pos_part, neg_part, ◌+ℤ◌, ◌-ℤ◌, ◌*ℤ◌, ltb_ℤ, leb_ℤ, sub_ℕ, wrap64,
}

-- nanotokensPerToken
abbrev pub nanotokens_per_token : ℕ
nanotokens_per_token = 1_000_000_000

-- maxInt64
abbrev pub max_int64 : ℕ
max_int64 = 9_223_372_036_854_775_807

-- *limitConfig
pub record LimitConfig : Type 0 where
  pub address : ℕ
  pub rate : ℤ
  pub burst : ℤ

-- rateLimitState
pub record RateLimitState : Type 0 where
  pub config : Option LimitConfig
  pub rate : ℤ
  pub capacity : ℤ
  pub tokens : ℤ
  pub last : ℕ

-- The comparison of two pointers to a configuration, nil among them.
abbrev pub same_config : Option LimitConfig → Option LimitConfig → Bool
same_config none none = true
same_config none (some d) = false
same_config (some c) none = false
same_config (some c) (some d) = c.address == d.address

-- The zero value of the struct.
abbrev pub zero_state : RateLimitState
zero_state = record { config = none; rate = pos 0; capacity = pos 0; tokens = pos 0; last = 0 }

-- newRateLimitStateValue
unfoldable pub new_rate_limit_state_value : Option LimitConfig → ℕ → RateLimitState
unfolding wrap64 ◌*ℤ◌
new_rate_limit_state_value none now = zero_state
new_rate_limit_state_value (some c) now =
    let capacity = wrap64 (c.burst *ℤ pos nanotokens_per_token) in
    record { config = some c; rate = c.rate; capacity = capacity; tokens = capacity; last = now }

-- newRateLimitState
unfoldable pub new_rate_limit_state : Option LimitConfig → ℕ → Option RateLimitState
new_rate_limit_state none now = none
new_rate_limit_state (some c) now = some (new_rate_limit_state_value (some c) now)

-- saturatingAdd
unfoldable pub saturating_add : ℤ → ℤ → ℤ
saturating_add left right =
    if ltb_ℤ (wrap64 (pos max_int64 -ℤ left)) right then pos max_int64 else wrap64 (left +ℤ right)

-- saturatingMultiply; where the quotient is taken, `right` is positive.
unfoldable pub saturating_multiply : ℤ → ℤ → ℤ
saturating_multiply left right =
    if leb_ℤ left (pos 0) || leb_ℤ right (pos 0)
    then pos 0
    else if ltb_ℤ (pos (max_int64 / pos_part right)) left
    then pos max_int64
    else wrap64 (left *ℤ right)

-- time.Time.Sub, whose result stays in the range of a duration.
unfoldable pub time_sub : ℕ → ℕ → ℤ
time_sub t u =
    let d = sub_ℕ t u in
    if ltb_ℤ (pos max_int64) d
    then pos max_int64
    else if ltb_ℤ d (negsuc max_int64)
    then negsuc max_int64
    else d

-- The refill that reserveBucket makes before it looks at the tokens.
unfoldable pub refill : RateLimitState → ℕ → RateLimitState
refill previous now =
    if not (ltb now previous.last)
    then (let elapsed = time_sub now previous.last in
        let tokens = saturating_add previous.tokens (saturating_multiply elapsed previous.rate) in
        record previous {
          tokens = if ltb_ℤ previous.capacity tokens then previous.capacity else tokens;
          last = now;
        })
    else previous

-- The end of reserveBucket: a token is taken if there is one.
unfoldable pub take_token : RateLimitState → RateLimitState × Bool
take_token next =
    let allowed = leb_ℤ (pos nanotokens_per_token) next.tokens in
    if allowed
    then (record next { tokens = wrap64 (next.tokens -ℤ pos nanotokens_per_token) }, allowed)
    else (next, allowed)

-- reserveBucket
unfoldable pub reserve_bucket : RateLimitState → Option LimitConfig → ℕ → RateLimitState × Bool
reserve_bucket previous config now =
    if not (same_config previous.config config)
    then (let next = new_rate_limit_state_value config now in
        (record next { tokens = wrap64 (next.tokens -ℤ pos nanotokens_per_token) }, true))
    else take_token (refill previous now)

-- The body of the loop of reserve, which a compare-and-swap ends: a nil pointer is the zero value.
unfoldable pub reserve_next :
    Option LimitConfig → Option RateLimitState → ℕ → Option (Option RateLimitState × Bool)
reserve_next config none now =
    let (next, allowed) = reserve_bucket zero_state config now in some (some next, allowed)
reserve_next config (some previous) now =
    let (next, allowed) = reserve_bucket previous config now in some (some next, allowed)
