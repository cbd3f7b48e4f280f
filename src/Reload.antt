-- ===== src/Reload.antt =====
-- main.go and rate_limit.go: the generation that serves, its reload, and the limiter of requests over
-- it. All generations share one limiter, which is bound to the pointer of the current one; the swap of
-- a reload is a store of the machine in CasLoop.
pub mod Kept
pub mod Limited
pub mod Watch
pub mod Stored
pub mod Serve
mod Tests
use kubio.Prelude.{
  ℕ, Bool, true, false, ◌&&◌, ◌||◌, not, Option, none, some, List, [], ◌∷◌, ◌==◌, if◌then◌else◌,
}
use kubio.RateLimit.{LimitConfig, RateLimitState, new_rate_limit_state_value, reserve_bucket}
use kubio.CasLoop.{Action, load, attempt, store, start}

-- What ServeHTTP and the limiter read of a *router, with its address.
pub record Router : Type 0 where
  pub address : ℕ
  pub limit : Option LimitConfig
  pub request_id : Bool

-- runtimeGeneration, over the type of a certificate
pub record RuntimeGeneration (C : Type 0) : Type 0 where
  pub router : Option Router
  pub certificate : C
  pub bucket : RateLimitState

abbrev pub limit_of : Option Router → Option LimitConfig
limit_of none = none
limit_of (some router) = router.limit

module _ {C : Type 0} where
  -- The body of the loop of admitGeneration on a generation that is not nil: nothing where it returns
  -- without a swap, the request admitted.
  unfoldable pub admit_limited :
      RuntimeGeneration C → ℕ → Option LimitConfig → Option (RuntimeGeneration C × Bool)
  admit_limited generation now none = none
  admit_limited generation now (some limit) =
      let (bucket, allowed) = reserve_bucket generation.bucket (some limit) now in
      some (record generation { bucket = bucket }, allowed)

  -- admitGeneration
  unfoldable pub admit_next : RuntimeGeneration C → ℕ → Option (RuntimeGeneration C × Bool)
  admit_next generation now = admit_limited generation now (limit_of generation.router)

  -- The generation that newReloadableRouter stores first, and StoreGeneration later.
  unfoldable pub new_generation : Router → C → ℕ → RuntimeGeneration C
  new_generation next certificate now = record {
    router = some next;
    certificate = certificate;
    bucket = new_rate_limit_state_value next.limit now;
  }

  -- What StoreGeneration does: the action on the pointer, and whether it closes the old router.
  unfoldable pub store_generation :
      RuntimeGeneration C → Router → C → ℕ → Action (RuntimeGeneration C) × Bool
  store_generation old next certificate now = (
    store (new_generation next certificate now),
    elim old.router [ none ↦ false | some router ↦ not (router.address == next.address) ],
  )
