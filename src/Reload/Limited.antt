-- ===== src/Reload/Limited.antt =====
-- After a reload, the limiter admits no more than the new limit allows.
use kubio.Prelude.{
  ℕ, ◌+◌, ◌-◌, ◌*◌, ◌≤◌, ◌≡◌, refl, sym, ◌∙◌, subst, Bool, Option, some, List, [], ◌∷◌, ◌++◌, All,
  count, arith,
}
use kubio.CasLoop.{Action, store, Event, swapped, passed, stored, Machine, run, start, step}
use kubio.CasLoop.Serial.{replay, Agrees, run-start-Inv}
use kubio.CasLoop.History.{Timely, InWindow, run-history}
use kubio.RateLimit.{nanotokens_per_token}
use kubio.RateLimit.Bucket.{
  limit_config, IsLimit, capacity_of, Bucket, reserve, to_state, reserve_bucket-to_state,
  reserve-bounded, new_rate_limit_state_value-to_state,
}
use kubio.RateLimit.Window.{reserve_balance}
use kubio.Reload.{Router, RuntimeGeneration, admit_limited, admit_next, new_generation}

-- The requests that swaps have admitted since the last reload.
abbrev pub admitted_since {ℓ} : {A : Type ℓ} → List (Event A) → ℕ
admitted_since [] = 0
admitted_since (swapped t now ok ∷ earlier) = count ok + admitted_since earlier
admitted_since (passed t now b ∷ earlier) = admitted_since earlier
admitted_since (stored b ∷ earlier) = 0

-- The router of a reload with a limit.
abbrev pub limited_router : Router → ℕ → ℕ → ℕ → Router
limited_router router address rate burst = record router {
  limit = some (limit_config address rate burst);
}

run-append {ℓ} :
    {A : Type ℓ} (next : A → ℕ → Option (A × Bool)) (m : Machine A) (xs ys : List (Action A))
    → run next m (xs ++ ys) ≡ run next (run next m xs) ys
unfolding run
run-append next m [] ys = refl
run-append next m (x ∷ xs) ys = run-append next (step next m x) xs ys

module _ {C : Type 0} (router : Router) (address rate burst first_time last_time : ℕ)
    (certificate : C) (v : IsLimit rate burst) where
  -- The generation that serves since the reload, with its bucket.
  abbrev serving : Bucket → RuntimeGeneration C
  serving b = record {
    router = some (limited_router router address rate burst);
    certificate = certificate;
    bucket = to_state address rate burst b;
  }

  new_generation-serving :
      (now : ℕ)
      → new_generation (limited_router router address rate burst) certificate now
        ≡ serving (record { tokens = capacity_of burst; last = now })
  unfolding new_generation
  new_generation-serving now =
      rw (new_rate_limit_state_value-to_state rate burst v address now) refl

  admit_next-serving :
      (b : Bucket) (now : ℕ)
      → b.tokens ≤ capacity_of burst
      → admit_next (serving b) now
        ≡ some (serving (reserve rate burst b now).0, (reserve rate burst b now).1)
  unfolding admit_next admit_limited
  admit_next-serving b now h = rw (reserve_bucket-to_state rate burst v address b now h) refl

  -- A history whose last reload stored a new generation within the window, and whose swaps since then
  -- read the clock within it.
  OnTop : List (Event (RuntimeGeneration C)) → Type 0
  OnTop [] = ⊥
  OnTop (swapped t now ok ∷ earlier) = InWindow first_time last_time now × OnTop earlier
  OnTop (passed t now b ∷ earlier) = OnTop earlier
  OnTop (stored b ∷ earlier) =
      (now : ℕ) × InWindow first_time last_time now
      × (b ≡ new_generation (limited_router router address rate burst) certificate now)

  -- What was admitted since then and what is left come from the capacity and what flowed in.
  abbrev Balance : List (Event (RuntimeGeneration C)) → RuntimeGeneration C → Type 0
  Balance h g =
      (b : Bucket) × (g ≡ serving b)
      × (b.tokens ≤ capacity_of burst)
      × (b.last ≤ last_time)
      × (admitted_since h * nanotokens_per_token + b.tokens + rate * (last_time - b.last)
          ≤ capacity_of burst + rate * (last_time - first_time))

  swap-Balance :
      (h : List (Event (RuntimeGeneration C))) (t now : ℕ) (ok : Bool) (g u : RuntimeGeneration C)
      → InWindow first_time last_time now
      → admit_next g now ≡ some (u, ok)
      → Balance h g
      → Balance (swapped t now ok ∷ h) u
  swap-Balance h t now ok g u (after, before) e (b, is_b, full, past, balance) =
      let made =
        sym (subst (λ x. admit_next x now ≡ some (u, ok)) is_b e) ∙ admit_next-serving b now full in
      let (kept, moved) = reserve_balance rate burst v b now last_time past before in
      (
        (reserve rate burst b now).0,
        ground arith,
        reserve-bounded rate burst v b now full,
        moved,
        ground arith,
      )

  replay-Balance :
      (g₀ : RuntimeGeneration C) (h : List (Event (RuntimeGeneration C)))
      → Agrees admit_next g₀ h
      → OnTop h
      → Balance h (replay admit_next g₀ h)
  unfolding replay OnTop
  replay-Balance g₀ [] a top = absurd top
  replay-Balance g₀ (swapped t now ok ∷ h) (e, a) (w, top) =
      swap-Balance h t now ok (replay admit_next g₀ h) _ w e (replay-Balance g₀ h a top)
  replay-Balance g₀ (passed t now b ∷ h) (e, a) top = replay-Balance g₀ h a top
  replay-Balance g₀ (stored b ∷ h) a (now, (after, before), new) = (
    record { tokens = capacity_of burst; last = now },
    new ∙ new_generation-serving now,
    omega arith,
    before,
    grind arith,
  )

  reload-OnTop :
      (m : Machine (RuntimeGeneration C)) (later : List (Action (RuntimeGeneration C))) (now : ℕ)
      → InWindow first_time last_time now
      → All (Timely first_time last_time) later
      → OnTop
          (run admit_next m (
            store (new_generation (limited_router router address rate burst) certificate now)
            ∷ later)).history
  unfolding run OnTop step
  reload-OnTop m later now w ws =
      run-history admit_next (InWindow first_time last_time) (λ a. ⊥) OnTop
        (λ t at ok h w top. (w, top)) (λ t at b h top. top) (λ a h w top. absurd w)
        (step admit_next m
          (store (new_generation (limited_router router address rate burst) certificate now)))
        later ws (now, w, refl)

  -- After any requests and reloads, at a reload with a limit of 1 to 1000000 for the rate and the
  -- burst, and during any requests after it whose clock is read within a window from the reload on,
  -- whatever the threads had loaded before it: the requests that swaps admit after the reload,
  -- counted in nanotokens, are at most the new burst and what flows in at the new rate during the window.
  pub reload_bound :
      (g₀ : RuntimeGeneration C) (before later : List (Action (RuntimeGeneration C))) (now : ℕ)
      → InWindow first_time last_time now
      → All (Timely first_time last_time) later
      → admitted_since
            (run admit_next (start g₀) (
              before
              ++ (store (new_generation (limited_router router address rate burst) certificate now)
                  ∷ later))).history
          * nanotokens_per_token
        ≤ capacity_of burst + rate * (last_time - first_time)
  reload_bound g₀ before later now w ws =
      let reload =
        store (new_generation (limited_router router address rate burst) certificate now) in
      let actions = before ++ (reload ∷ later) in
      let top =
        subst (λ m. OnTop m.history)
          (sym (run-append admit_next (start g₀) before (reload ∷ later)))
          (reload-OnTop (run admit_next (start g₀) before) later now w ws) in
      let (b, is_b, full, past, balance) =
        replay-Balance g₀ (run admit_next (start g₀) actions).history
          (run-start-Inv admit_next g₀ actions).agrees top in
      omega (arith, balance)
