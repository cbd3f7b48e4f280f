-- ===== src/Backend/Backoff.antt =====
-- proxy.go: the delays between the attempts, in nanoseconds; no delay exceeds the cap, so that no
-- doubling overflows.
use kubio.Prelude.{
  ℕ, zero, suc, ◌-◌, ◌*◌, ◌/◌, ◌^◌, ◌<◌, min, ◌≡◌, Option, none, some, List, [], ◌∷◌, arith,
  get_elem?, leb, ltb, if◌then◌else◌, Result, ok, ◌>>◌, reject_if, ◌∙◌, ap,
}

-- backendBackoffConfig, without its jitter
pub record BackoffConfig : Type 0 where
  pub base : ℕ
  pub cap : ℕ

pub data BackoffError : Type 0 where
  base_not_positive cap_below_base : BackoffError

-- validateBackoff
unfoldable pub validate_backoff : Option BackoffConfig → Result BackoffError (Unit {0})
validate_backoff none = ok tt
validate_backoff (some backoff) = do
  reject_if (leb (backoff.base) 0) base_not_positive
  reject_if (ltb (backoff.cap) (backoff.base)) cap_below_base

-- The delay after a delay, in the loop of buildBackoffDelays.
unfoldable pub next_delay : ℕ → ℕ → ℕ
next_delay cap delay =
    if leb cap delay then delay else if ltb (cap / 2) delay then cap else delay * 2

unfoldable pub delays_from : ℕ → ℕ → ℕ → List ℕ
delays_from cap zero delay = []
delays_from cap (suc n) delay = delay ∷ delays_from cap n (next_delay cap delay)

-- buildBackoffDelays
unfoldable pub build_backoff_delays : BackoffConfig → ℕ → List ℕ
unfolding delays_from next_delay
build_backoff_delays backoff tries = delays_from (backoff.cap) (tries - 1) (backoff.base)

next_delay-min : (cap x : ℕ) → next_delay cap (min cap x) ≡ min cap (2 * x)
unfolding next_delay
next_delay-min cap x = ground arith

double_power : (base k : ℕ) → 2 * (base * 2 ^ k) ≡ base * 2 ^ suc k
double_power base k = grind arith

delays_from-get :
    (cap n x k : ℕ)
    → k < n
    → get_elem? (delays_from cap n (min cap x)) k ≡ some (min cap (x * 2 ^ k))
unfolding delays_from
delays_from-get cap zero x k h = absurd (omega arith)
delays_from-get cap (suc n) x zero h = ap (λ y. some (min cap y)) (omega arith)
delays_from-get cap (suc n) x (suc k) h =
    rw (next_delay-min cap x)
      (delays_from-get cap n (2 * x) k (omega arith) ∙ ap (λ y. some (min cap y)) (shift x k))
  where
    shift : (x k : ℕ) → 2 * x * 2 ^ k ≡ x * 2 ^ suc k
    shift x k = grind arith

-- When validateBackoff accepts the configuration, the delay after attempt k, counted from 0, is
-- the base doubled k times and at most the cap, for each k below tries - 1.
pub build_backoff_delays-get_elem? :
    (backoff : BackoffConfig) (tries k : ℕ)
    → validate_backoff (some backoff) ≡ ok tt
    → suc k < tries
    → get_elem? (build_backoff_delays backoff tries) k
      ≡ some (min (backoff.cap) (backoff.base * 2 ^ k))
unfolding build_backoff_delays validate_backoff
build_backoff_delays-get_elem? backoff tries k valid h =
    let below : backoff.base ≡ min (backoff.cap) (backoff.base) = ground arith in
    ap (λ x. get_elem? (delays_from (backoff.cap) (tries - 1) x) k) below
    ∙ delays_from-get (backoff.cap) (tries - 1) (backoff.base) k (omega arith)
