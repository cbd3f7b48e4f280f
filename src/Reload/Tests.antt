-- ===== src/Reload/Tests.antt =====
-- main.go on concrete generations and ticks.
use kubio.Prelude.{
  ℕ, ◌+◌, ◌*◌, ◌-◌, ◌≤◌, refl, true, false, none, some, List, [], ◌∷◌, ◌++◌, All, arith,
}
use kubio.Text.{text}
use kubio.CasLoop.{Action, load, attempt, store, run, start}
use kubio.RateLimit.{nanotokens_per_token, zero_state}
use kubio.RateLimit.Bucket.{IsLimit, capacity_of}
use kubio.Reload.{Router, RuntimeGeneration, admit_next, new_generation}
use kubio.Reload.Kept.{last_stored, Serves, run-Serves}
use kubio.Reload.Limited.{admitted_since, limited_router, reload_bound}
use kubio.Reload.Watch.{FileState, found, failed, Loaded, Tick, watch_config}
use kubio.Net.{Values}
use kubio.RequestId.{request_id_for}
use kubio.Reload.Serve.{serve_http, OnlyWithId, serve_http-OnlyWithId}
use kubio.Reload.Stored.{Fits, watch_config-Fits}

-- A certificate is a number here.
abbrev unlimited : RuntimeGeneration ℕ
unlimited = record {
  router = some (record { address = 1; limit = none; request_id = true });
  certificate = 10;
  bucket = zero_state;
}

abbrev second : Router
second = record { address = 2; limit = none; request_id = true }

abbrev reloaded : RuntimeGeneration ℕ
reloaded = new_generation (limited_router second 20 5 2) 11 1_000

abbrev requests : List (Action (RuntimeGeneration ℕ))
requests =
    load 0
    ∷ load 1
    ∷ store reloaded
    ∷ attempt 0 1_500
    ∷ attempt 1 1_500
    ∷ load 1
    ∷ attempt 1 2_000
    ∷ []

run-Serves_example :
    Serves (run admit_next (start unlimited) requests).value (last_stored unlimited requests)
run-Serves_example = run-Serves unlimited requests

five_and_two : IsLimit 5 2
five_and_two = record {
  rate_low = omega arith;
  rate_high = omega arith;
  burst_low = omega arith;
  burst_high = omega arith;
}

reload_bound_example :
    admitted_since
        (run admit_next (start unlimited) (
          (load 0 ∷ load 1 ∷ [])
          ++ (store reloaded ∷ attempt 0 1_500 ∷ load 1 ∷ attempt 1 2_000 ∷ []))).history
      * nanotokens_per_token
    ≤ capacity_of 2 + 5 * (3_000 - 1_000)
reload_bound_example =
    reload_bound second 20 5 2 1_000 3_000 11 five_and_two unlimited (load 0 ∷ load 1 ∷ [])
      (attempt 0 1_500 ∷ load 1 ∷ attempt 1 2_000 ∷ []) 1_000 (omega arith, omega arith)
      ((omega arith, omega arith), (tt, ((omega arith, omega arith), tt)))

abbrev old_file : FileState
old_file = record { exists = true; size = 100; mod_time = 1 }

abbrev good : Loaded ℕ
good = record { listen = text ":80"; has_tls = false; generation = some 7 }

abbrev moved : Loaded ℕ
moved = record { listen = text ":81"; has_tls = false; generation = some 8 }

abbrev ticks : List (Tick ℕ)
ticks =
    record { stat = found 100 1; load = some good }
    ∷ record { stat = found 120 2; load = some good }
    ∷ record { stat = failed; load = none }
    ∷ record { stat = found 130 3; load = some moved }
    ∷ []

watch_config-Fits_example :
    All (Fits (text ":80") false) (watch_config (text ":80") false old_file ticks).1
watch_config-Fits_example = watch_config-Fits (text ":80") false old_file ticks

abbrev client : Values
client = (text "x-request-id", text "abc" ∷ []) ∷ []

serve_http-OnlyWithId_example :
    OnlyWithId second
      (some (limited_router second 20 5 2))
      true
      (request_id_for (some (1 ∷ 2 ∷ [])) client)
      (serve_http
        (some second)
        (some (limited_router second 20 5 2))
        (some (1 ∷ 2 ∷ []))
        true
        client
        [])
serve_http-OnlyWithId_example =
    serve_http-OnlyWithId second (some (limited_router second 20 5 2)) (some (1 ∷ 2 ∷ [])) true
      client [] refl
