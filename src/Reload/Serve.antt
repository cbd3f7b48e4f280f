-- ===== src/Reload/Serve.antt =====
-- main.go and router.go: ServeHTTP of the reloadable router, up to the call of the router that serves
-- and from its return on, and serveRejected. An access log, where there is one, hands the calls of its
-- writer on, and is left out.
use kubio.Prelude.{
  ℕ, ◌≡◌, ◌≢◌, subst, sym, refl, ◌⊎◌, Bool, true, false, Option, none, some, List, [], ◌∷◌,
  if◌then◌else◌, Bool-cases, inl, inr, All,
}
use kubio.Text.{Text}
use kubio.Net.{Values}
use kubio.RateLimit.{LimitConfig}
use kubio.RequestId.{
  set_request_id, request_id_for, RequestIdWriter, new_request_id_writer, enforce, Call,
  write_header, step, run_calls,
}
use kubio.RequestId.Trailers.{IsTagged, tagged-IsTagged}
use kubio.RequestId.Writer.{ids_in, run_calls-IsTagged, run_calls-id}
use kubio.RequestId.Chosen.{ids_in-set_request_id}
use kubio.Reload.{Router}

-- What ServeHTTP does with a request: nothing, an error for an id that cannot be made, a rejection by
-- the limiter with its status, the request's header, the headers that were sent with the status and
-- the response's header at the end, or a call of the router's serveResolved with the request's header,
-- the response's writer being the server's or one that keeps an id.
pub data Served : Type 0 where
  nothing id_failure : Served
  rejected : ℕ → Values → List Values → Values → Served
  resolved : Router → Values → Option RequestIdWriter → Served

-- The limit of the latest generation asks the limiter.
abbrev pub allowed_by : Option LimitConfig → Bool → Bool
allowed_by none verdict = true
allowed_by (some limit) verdict = verdict

-- The end of ServeHTTP and of serveRejected where the router has an id: a response that is not
-- committed is tagged.
unfoldable pub finish_response : RequestIdWriter → RequestIdWriter
finish_response w = if w.committed then w else enforce w

-- router.serveRejected, with the id where there is one.
unfoldable pub serve_rejected : Option Text → Values → Values → Served
serve_rejected none header response = rejected 429 header (response ∷ []) response
serve_rejected (some id) header response =
    let (w, sent) = run_calls (new_request_id_writer response id) (write_header 429 ∷ []) in
    rejected 429 (set_request_id header id) sent (finish_response w).header

-- The part of ServeHTTP from the second load on, with the id where there is one. `verdict` is what
-- admitGeneration answers where it is called.
unfoldable pub serve_latest : Router → Option Router → Bool → Option Text → Values → Values → Served
serve_latest router none verdict id header response = nothing
serve_latest router (some latest) verdict none header response =
    if allowed_by latest.limit verdict
    then resolved router header none
    else serve_rejected none header response
serve_latest router (some latest) verdict (some id) header response =
    if allowed_by latest.limit verdict
    then resolved router (set_request_id header id) (some (new_request_id_writer response id))
    else serve_rejected (some id) header response

-- ServeHTTP of the generations that the two loads return.
unfoldable pub serve_http :
    Option Router → Option Router → Option (List ℕ) → Bool → Values → Values → Served
serve_http none latest random verdict header response = nothing
serve_http (some router) latest random verdict header response =
    if router.request_id
    then elim (request_id_for random header) [
      | none ↦ id_failure
      | some id ↦ serve_latest router latest verdict (some id) header response
    ]
    else serve_latest router latest verdict none header response

-- A request that is served with its id: the handler sees the id alone, and so does the client, in each
-- header that is sent, and at the end in that of a response that is not committed.
abbrev pub CarriesId : Text → Values → Option RequestIdWriter → Type 0
CarriesId id header none = ⊥
CarriesId id header (some writer) =
    (ids_in header ≡ id ∷ [])
    × ((calls : List Call)
        → let (last, sent) = run_calls writer calls in
          All (IsTagged id) sent
          × ((last.committed ≡ true) ⊎ IsTagged id (finish_response last).header))

-- When ServeHTTP of a router with ids does what, by the id that was made, the router of the second load
-- and the limiter's verdict.
abbrev pub OnlyWithId : Router → Option Router → Bool → Option Text → Served → Type 0
OnlyWithId router latest verdict made nothing = (made ≢ none) × (latest ≡ none)
OnlyWithId router latest verdict made id_failure = made ≡ none
OnlyWithId router latest verdict made (rejected status header sent final) =
    (id : Text) × (now : Router) × (made ≡ some id)
    × (latest ≡ some now)
    × (now.limit ≢ none)
    × (verdict ≡ false)
    × (status ≡ 429)
    × (ids_in header ≡ id ∷ [])
    × ((only : Values) × (sent ≡ only ∷ []) × IsTagged id only)
    × IsTagged id final
OnlyWithId router latest verdict made (resolved serving header writer) =
    (id : Text) × (now : Router) × (made ≡ some id)
    × (latest ≡ some now)
    × ((now.limit ≡ none) ⊎ (verdict ≡ true))
    × (serving ≡ router)
    × CarriesId id header writer

finish_response-IsTagged :
    (w : RequestIdWriter) → (w.committed ≡ true) ⊎ IsTagged w.id (finish_response w).header
unfolding finish_response enforce
finish_response-IsTagged w = elim (Bool-cases w.committed) [
  | inl committed ↦ inl committed
  | inr open_yet ↦ rw open_yet (inr (tagged-IsTagged w.id w.header))
]

new_writer-CarriesId :
    (header response : Values) (id : Text)
    → CarriesId id (set_request_id header id) (some (new_request_id_writer response id))
unfolding new_request_id_writer enforce
new_writer-CarriesId header response id =
    let w = new_request_id_writer response id in
    (
      ids_in-set_request_id header id,
      λ calls. (
        run_calls-IsTagged w calls,
        subst
            (λ i.
              ((run_calls w calls).0.committed ≡ true)
              ⊎ IsTagged i (finish_response (run_calls w calls).0).header)
            (run_calls-id w calls) (finish_response-IsTagged (run_calls w calls).0),
      ),
    )

allowed_iff :
    (limit : Option LimitConfig) (verdict : Bool)
    → ((allowed_by limit verdict ≡ true) × ((limit ≡ none) ⊎ (verdict ≡ true)))
      ⊎ ((allowed_by limit verdict ≡ false) × (limit ≢ none) × (verdict ≡ false))
allowed_iff none verdict = inl (refl, inl refl)
allowed_iff (some limit) true = inl (refl, inr refl)
allowed_iff (some limit) false = inr (refl, λ e. absurd cc, refl)

serve_latest-OnlyWithId :
    (router : Router) (latest : Option Router) (verdict : Bool) (id : Text)
    (header response : Values)
    → OnlyWithId router latest verdict
        (some id)
        (serve_latest router latest verdict (some id) header response)
unfolding serve_latest serve_rejected run_calls step new_request_id_writer enforce finish_response
serve_latest-OnlyWithId router none verdict id header response = (λ e. absurd cc, refl)
serve_latest-OnlyWithId router (some latest) verdict id header response =
    elim (allowed_iff latest.limit verdict) [
      | inl (admitted, why) ↦
          rw admitted (id, latest, refl, refl, why, refl, new_writer-CarriesId header response id)
      | inr (denied, has_limit, refused) ↦
          let tags = tagged-IsTagged id (new_request_id_writer response id).header in
          rw denied (
            id,
            latest,
            refl,
            refl,
            has_limit,
            refused,
            refl,
            ids_in-set_request_id header id,
            (_, refl, tags),
            tags,
          )
    ]

-- ServeHTTP where the router of the first load has ids on, whatever headers the client sends and
-- whatever the handler calls. It answers with an error just when no id can be made. With an id, it does
-- nothing just when the second load finds no router. It rejects just when the router of the second
-- load has a limit and the limiter refuses: with status 429 and one header sent, which holds the id
-- alone, as does the header at the end, and with the id as the only value by a name of the id in the
-- request's header. Else the router of the first load serves the request, whose header has the id as
-- its only such value; every header of the response that the handler's calls send holds the id alone,
-- and so does, at the end, that of a response that is not committed.
pub serve_http-OnlyWithId :
    (router : Router) (latest : Option Router) (random : Option (List ℕ)) (verdict : Bool)
    (header response : Values)
    → router.request_id ≡ true
    → OnlyWithId router latest verdict
        (request_id_for random header)
        (serve_http (some router) latest random verdict header response)
unfolding serve_http
serve_http-OnlyWithId router latest random verdict header response on =
    subst
      (λ with_ids. OnlyWithId router latest verdict (request_id_for random header) (
        if with_ids
        then elim (request_id_for random header) [
          | none ↦ id_failure
          | some id ↦ serve_latest router latest verdict (some id) header response
        ]
        else serve_latest router latest verdict none header response))
      (sym on) (by_id (request_id_for random header))
  where
    by_id :
        (made : Option Text)
        → OnlyWithId router latest verdict made (elim made [
          | none ↦ id_failure
          | some id ↦ serve_latest router latest verdict (some id) header response
        ])
    by_id none = refl
    by_id (some id) = serve_latest-OnlyWithId router latest verdict id header response
