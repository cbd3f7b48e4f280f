-- ===== src/RateLimit/Concurrent.antt =====
-- The limiter under concurrent requests: the loop of reserve over its atomic pointer.
use kubio.Prelude.{
  ℕ, ◌+◌, ◌-◌, ◌*◌, ◌≤◌, ◌≡◌, refl, Bool, true, Option, none, some, List, [], ◌∷◌, All, arith, ◌⊎◌,
  inl, inr, subst, sym, ◌∙◌, ◌≢◌,
}
use kubio.CasLoop.{Action, Event, swapped, passed, stored, run, start}
use kubio.CasLoop.Serial.{replay, Agrees, run-start-Inv}
use kubio.CasLoop.History.{admitted_in, Timely, Within, run-Within}
use kubio.RateLimit.{RateLimitState, nanotokens_per_token, reserve_next, zero_state}
use kubio.RateLimit.Bucket.{
  limit_config, IsLimit, capacity_of, Bucket, reserve, to_state, reserve_bucket-to_state,
  reserve-bounded, reserve_bucket-fresh,
}
use kubio.RateLimit.Window.{reserve_balance}

module _ (address rate burst first last : ℕ) (v : IsLimit rate burst) (ordered : first ≤ last) where
  abbrev next : Option RateLimitState → ℕ → Option (Option RateLimitState × Bool)
  next = reserve_next (some (limit_config address rate burst))

  next-ne-none : (s : Option RateLimitState) (now : ℕ) → next s now ≢ none
  unfolding reserve_next
  next-ne-none none now e = cc
  next-ne-none (some s) now e = cc

  -- What was admitted and what is left come from the capacity and what flowed in.
  abbrev Balance : List (Event (Option RateLimitState)) → Option RateLimitState → Type 0
  Balance h s =
      ((admitted_in h ≡ 0) × (s ≡ none))
      ⊎ ((b : Bucket) × (s ≡ some (to_state address rate burst b))
          × (b.tokens ≤ capacity_of burst)
          × (b.last ≤ last)
          × (admitted_in h * nanotokens_per_token + b.tokens + rate * (last - b.last)
              ≤ capacity_of burst + rate * (last - first)))

  fresh_balance :
      (now : ℕ)
      → first ≤ now
      → nanotokens_per_token + (capacity_of burst - nanotokens_per_token) + rate * (last - now)
        ≤ capacity_of burst + rate * (last - first)
  fresh_balance now h = grind (arith, v.burst_low)

  next_fresh :
      (now : ℕ)
      → next none now
        ≡ some (
          some (
              to_state address rate burst
                (record { tokens = capacity_of burst - nanotokens_per_token; last = now })),
          true,
        )
  unfolding reserve_next
  next_fresh now = rw (reserve_bucket-fresh rate burst v address zero_state now refl)

  next_later :
      (b : Bucket) (now : ℕ)
      → b.tokens ≤ capacity_of burst
      → next (some (to_state address rate burst b)) now
        ≡ some (
          some (to_state address rate burst (reserve rate burst b now).0),
          (reserve rate burst b now).1,
        )
  unfolding reserve_next
  next_later b now h = rw (reserve_bucket-to_state rate burst v address b now h)

  swap-Balance :
      (h : List (Event (Option RateLimitState))) (t now : ℕ) (ok : Bool)
      (s u : Option RateLimitState)
      → (first ≤ now) × (now ≤ last)
      → next s now ≡ some (u, ok)
      → Balance h s
      → Balance (swapped t now ok ∷ h) u
  swap-Balance h t now ok s u (after, before) e (inl (none_yet, nothing)) =
      let made = sym (subst (λ x. next x now ≡ some (u, ok)) nothing e) ∙ next_fresh now in
      inr (
        record { tokens = capacity_of burst - nanotokens_per_token; last = now },
        ground arith,
        omega arith,
        before,
        ground (arith, fresh_balance now after),
      )
  swap-Balance h t now ok s u (after, before) e (inr (b, is_b, full, past, balance)) =
      let made = sym (subst (λ x. next x now ≡ some (u, ok)) is_b e) ∙ next_later b now full in
      let (kept, moved) = reserve_balance rate burst v b now last past before in
      inr (
        (reserve rate burst b now).0,
        ground arith,
        reserve-bounded rate burst v b now full,
        moved,
        ground arith,
      )

  history-Balance :
      (h : List (Event (Option RateLimitState)))
      → Agrees next none h
      → All (Within first last) h
      → Balance h (replay next none h)
  unfolding replay
  history-Balance [] a w = inl (refl, refl)
  history-Balance (swapped t now ok ∷ h) (e, a) (w, ws) =
      swap-Balance h t now ok (replay next none h) _ w e (history-Balance h a ws)
  history-Balance (passed t now none ∷ h) (e, a) (w, ws) = absurd (next-ne-none none now e)
  history-Balance (passed t now (some s) ∷ h) (e, a) (w, ws) = absurd (next-ne-none (some s) now e)
  history-Balance (stored b ∷ h) a (w, ws) = absurd w

  admitted_of_Balance :
      (h : List (Event (Option RateLimitState))) (s : Option RateLimitState)
      → Balance h s
      → admitted_in h * nanotokens_per_token ≤ capacity_of burst + rate * (last - first)
  admitted_of_Balance h s (inl (none_yet, e)) = omega arith
  admitted_of_Balance h s (inr (b, is_b, full, past, balance)) = omega arith

  -- However many threads call the limiter's reserve and however they interleave, from the nil
  -- pointer on: when every reading of the clock lies in a window, nobody else stores into the
  -- pointer, and the rate and the burst lie between 1 and 1000000, the requests admitted, counted in
  -- nanotokens, are at most the burst and what flows in during the window.
  pub concurrent_bound :
      (actions : List (Action (Option RateLimitState)))
      → All (Timely first last) actions
      → admitted_in (run next (start none) actions).history * nanotokens_per_token
        ≤ capacity_of burst + rate * (last - first)
  unfolding start
  concurrent_bound actions w =
      let m = run next (start none) actions in
      let i = run-start-Inv next none actions in
      admitted_of_Balance m.history _
        (history-Balance m.history i.agrees (run-Within next first last (start none) actions w tt))
