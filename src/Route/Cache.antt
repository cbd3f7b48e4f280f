-- ===== src/Route/Cache.antt =====
-- The parsed query and the client's address are kept between the routes of one request: the
-- verdict on a route is the one that a fresh state gives.
use kubio.Prelude.{
  ◌≡◌, refl, Bool, true, false, ◌&&◌, ◌||◌, none, some, List, Bool-cases, Option-cases, inl, inr,
  all, any,
}
use kubio.Net.{Net, Request, Values, values_of}
use kubio.ClientIp.{effective_client_ip}
use kubio.Route.{
  Route, RouteMatchState, fresh_state, parsed_query, parsed_client, matches_client_ip,
  matches_query, matches, matches_method, matches_request_header, matches_any, is_nil,
}

module _ (n : Net) (req : Request) (trust_proxies : List n.Prefix) where
  open n use {Prefix}

  -- What is marked as parsed is what parsing gives.
  pub record IsCached (m : RouteMatchState n) : Type 0 where
    pub query_kept :
        m.query_parsed ≡ true → m.query ≡ (parsed_query n req trust_proxies (fresh_state n)).query
    pub valid_kept :
        m.query_parsed ≡ true
        → m.query_valid ≡ (parsed_query n req trust_proxies (fresh_state n)).query_valid
    pub client_kept :
        m.client_parsed ≡ true
        → m.client_ip ≡ (parsed_client n req trust_proxies (fresh_state n)).client_ip
    pub client_valid_kept :
        m.client_parsed ≡ true
        → m.client_valid ≡ (parsed_client n req trust_proxies (fresh_state n)).client_valid

  pub fresh_state-IsCached : IsCached (fresh_state n)
  fresh_state-IsCached = record {
    query_kept = λ e. cc;
    valid_kept = λ e. cc;
    client_kept = λ e. cc;
    client_valid_kept = λ e. cc;
  }

  abbrev SameQuery : RouteMatchState n → RouteMatchState n → Type 0
  SameQuery m k = (m.query ≡ k.query) × (m.query_valid ≡ k.query_valid)

  abbrev SameClient : RouteMatchState n → RouteMatchState n → Type 0
  SameClient m k = (m.client_ip ≡ k.client_ip) × (m.client_valid ≡ k.client_valid)

  parsed_query_old :
      (m : RouteMatchState n) → m.query_parsed ≡ true → parsed_query n req trust_proxies m ≡ m
  unfolding parsed_query
  parsed_query_old m e = rw e

  parsed_client_old :
      (m : RouteMatchState n) → m.client_parsed ≡ true → parsed_client n req trust_proxies m ≡ m
  unfolding parsed_client
  parsed_client_old m e = rw e

  parsed_query_new :
      (m : RouteMatchState n)
      → m.query_parsed ≡ false
      → parsed_query n req trust_proxies m ≡ record m {
        query = (parsed_query n req trust_proxies (fresh_state n)).query;
        query_valid = (parsed_query n req trust_proxies (fresh_state n)).query_valid;
        query_parsed = true;
      }
  unfolding parsed_query
  parsed_query_new m e = elim (Option-cases (n.parse_query req.raw_query)) [
    | inl failed ↦ rw (e, failed)
    | inr (values, parsed) ↦ rw (e, parsed)
  ]

  parsed_client_new :
      (m : RouteMatchState n)
      → m.client_parsed ≡ false
      → parsed_client n req trust_proxies m ≡ record m {
        client_ip = (parsed_client n req trust_proxies (fresh_state n)).client_ip;
        client_valid = (parsed_client n req trust_proxies (fresh_state n)).client_valid;
        client_parsed = true;
      }
  unfolding parsed_client
  parsed_client_new m e = elim (Option-cases (effective_client_ip n req trust_proxies)) [
    | inl failed ↦ rw (e, failed)
    | inr (address, parsed) ↦ rw (e, parsed)
  ]

  parsed_query_lem :
      (m : RouteMatchState n)
      → IsCached m
      → SameQuery
          (parsed_query n req trust_proxies m)
          (parsed_query n req trust_proxies (fresh_state n))
        × IsCached (parsed_query n req trust_proxies m)
  parsed_query_lem m v = elim (Bool-cases m.query_parsed) [
    | inl old ↦ rw (parsed_query_old m old) ((v.query_kept old, v.valid_kept old), v)
    | inr new ↦ rw (parsed_query_new m new) (
      (refl, refl),
      record {
        query_kept = λ e. refl;
        valid_kept = λ e. refl;
        client_kept = v.client_kept;
        client_valid_kept = v.client_valid_kept;
      },
    )
  ]

  parsed_client_lem :
      (m : RouteMatchState n)
      → IsCached m
      → SameClient
          (parsed_client n req trust_proxies m)
          (parsed_client n req trust_proxies (fresh_state n))
        × IsCached (parsed_client n req trust_proxies m)
  parsed_client_lem m v = elim (Bool-cases m.client_parsed) [
    | inl old ↦ rw (parsed_client_old m old) ((v.client_kept old, v.client_valid_kept old), v)
    | inr new ↦ rw (parsed_client_new m new) (
      (refl, refl),
      record {
        query_kept = v.query_kept;
        valid_kept = v.valid_kept;
        client_kept = λ e. refl;
        client_valid_kept = λ e. refl;
      },
    )
  ]

  -- The verdict on a route, read off the request alone: its conditions on the query,
  pub query_verdict : Route Prefix → Bool
  query_verdict r = is_nil r.match.query || elim (n.parse_query req.raw_query) [
    | none ↦ false
    | some values ↦ all (λ c. matches_any (values_of c.name values) c.alternatives) r.match.query
  ]

  -- on the client's address,
  pub client_verdict : Route Prefix → Bool
  client_verdict r = is_nil r.match.ip || elim (effective_client_ip n req trust_proxies) [
    | none ↦ false
    | some address ↦ any (λ prefix. n.contains prefix address) r.match.ip
  ]

  -- and all four together.
  pub verdict : Route Prefix → Bool
  verdict r =
      matches_method r req.method
      && all (matches_request_header req) r.match.header
      && query_verdict r
      && client_verdict r

  parsed_query_fresh :
      (f : Values → Bool)
      → (parsed_query n req trust_proxies (fresh_state n)).query_valid
          && f (parsed_query n req trust_proxies (fresh_state n)).query
        ≡ elim (n.parse_query req.raw_query) [ none ↦ false | some values ↦ f values ]
  unfolding parsed_query
  parsed_query_fresh f = elim (Option-cases (n.parse_query req.raw_query)) [
    | inl failed ↦ rw failed
    | inr (values, parsed) ↦ rw parsed
  ]

  parsed_client_fresh :
      (f : n.Addr → Bool)
      → (parsed_client n req trust_proxies (fresh_state n)).client_valid
          && f (parsed_client n req trust_proxies (fresh_state n)).client_ip
        ≡ elim (effective_client_ip n req trust_proxies) [ none ↦ false | some a ↦ f a ]
  unfolding parsed_client
  parsed_client_fresh f = elim (Option-cases (effective_client_ip n req trust_proxies)) [
    | inl failed ↦ rw failed
    | inr (address, parsed) ↦ rw parsed
  ]

  matches_query_lem :
      (m : RouteMatchState n) (r : Route Prefix)
      → IsCached m
      → ((matches_query n req trust_proxies m r).0 ≡ query_verdict r)
        × IsCached (matches_query n req trust_proxies m r).1
  unfolding matches_query query_verdict
  matches_query_lem m r v = elim (Bool-cases (is_nil r.match.query)) [
    | inl free ↦ rw free (refl, v)
    | inr asked ↦
        let ((query, valid), kept) = parsed_query_lem m v in
        rw asked (
          rw (query, valid)
              (parsed_query_fresh (λ values.
                all (λ c. matches_any (values_of c.name values) c.alternatives) r.match.query)),
          kept,
        )
  ]

  matches_client_lem :
      (m : RouteMatchState n) (r : Route Prefix)
      → IsCached m
      → is_nil r.match.ip ≡ false
      → ((matches_client_ip n req trust_proxies m r).0 ≡ client_verdict r)
        × IsCached (matches_client_ip n req trust_proxies m r).1
  unfolding matches_client_ip client_verdict
  matches_client_lem m r v asked =
      let ((address, valid), kept) = parsed_client_lem m v in
      rw asked (
        rw (address, valid)
            (parsed_client_fresh (λ a. any (λ prefix. n.contains prefix a) r.match.ip)),
        kept,
      )

  client_verdict_free : (r : Route Prefix) → is_nil r.match.ip ≡ true → client_verdict r ≡ true
  unfolding client_verdict
  client_verdict_free r e = rw e

  -- When what a routeMatchState marks as parsed is what parsing gives: matches returns the verdict on
  -- the route that is read off the request alone, and what is marked as parsed afterwards is again
  -- what parsing gives.
  pub matches-verdict :
      (m : RouteMatchState n) (r : Route Prefix)
      → IsCached m
      → ((matches n req trust_proxies m r).0 ≡ verdict r)
        × IsCached (matches n req trust_proxies m r).1
  unfolding matches verdict
  matches-verdict m r v =
      let (q, kept) = matches_query_lem m r v in
      elim (Bool-cases (matches_method r req.method)) [
        | inr other ↦ rw other (refl, v)
        | inl same ↦ elim (Bool-cases (all (matches_request_header req) r.match.header)) [
          | inr missing ↦ rw (same, missing) (refl, v)
          | inl present ↦ elim (Bool-cases (matches_query n req trust_proxies m r).0) [
            | inr failed ↦ rw (same, present, ← q, failed) (refl, kept)
            | inl met ↦ elim (Bool-cases (is_nil r.match.ip)) [
              | inl free ↦
                  rw (same, present, ← q, met, free, client_verdict_free r free) (refl, kept)
              | inr asked ↦
                  rw (same, present, ← q, met, asked)
                    (matches_client_lem (matches_query n req trust_proxies m r).1 r kept asked)
            ]
          ]
        ]
      ]
