-- ===== src/Site/Select.antt =====
-- The index of a site selects the route that the scan of all routes selects.
use kubio.Prelude.{
  ℕ, zero, suc, ◌+◌, ◌-◌, ◌≤◌, ◌<◌, ◌≡◌, refl, sym, ap, ◌∙◌, true, false, not, ◌⊎◌, inl, inr, ◌↔◌,
  Option, none, some, List, [], ◌∷◌, ◌++◌, arith, Bool-cases, Option-cases, get_or, take, drop,
  length, get_elem?, subst, ltb,
}
use native.Mathlib.Decide.{dec_le}
use kubio.Text.{Text, is_some}
use kubio.Net.{Net, Request, values_of}
use kubio.Path.{match}
use kubio.Path.Pattern.{Covers, match_iff, slash_at, at_slash}
use kubio.Route.{Route, RouteCandidate, RouteMatchState, PathIndex, route_candidate, better_route}
use kubio.Route.Cache.{verdict, fresh_state-IsCached}
use kubio.Route.Rank.{better_route_exact}
use kubio.Site.{
  route_index_threshold, build_route_index, finish_site, scan_positions, scan_routes,
  select_wildcard, select_indexed, select_scanned, select_route, nothing_yet,
}
use kubio.Site.Best.{IsCandidate, IsBest, IsBest-unique}
use kubio.Site.Scan.{
  Listed, AtSlash, IsGood, IsGood-iff, scan_positions-IsGood, scan_prefixes-IsGood,
}
use kubio.Site.ScanAll.{Between, scan_routes-IsGood}
use kubio.Site.Index.{exact_index_iff, wildcard_index_iff}

module _ (n : Net) (req : Request) (trust_proxies : List n.Prefix)
    (routes : List (Route n.Prefix)) where
  open n use {Prefix}

  abbrev Cand : Type 0
  Cand = RouteCandidate Prefix

  abbrev Is : Cand → Type 0
  Is c = IsCandidate n req trust_proxies routes c

  abbrev Met : Cand → Type 0
  Met c = verdict n req trust_proxies c.route ≡ true

  abbrev Good : (Cand → Type 0) → Option Cand × RouteMatchState n → Type 0
  Good Q found = IsGood n req trust_proxies routes Q found

  -- The route matches the path and the request.
  abbrev pub Hit : Text → Cand → Type 0
  Hit path c = Covers c.route.pattern path × Met c

  Is-parts :
      (c : Cand)
      → Is c
      → (get_elem? routes c.index ≡ some c.route) × (c.exact ≡ not c.route.pattern.wildcard)
  unfolding route_candidate
  Is-parts c is = ground arith

  Covers-iff :
      (c : Cand) (path : Text)
      → (is_some (match c.route.pattern path) ≡ true) ↔ Covers c.route.pattern path
  Covers-iff c path = (to, from)
    where
      to : is_some (match c.route.pattern path) ≡ true → Covers c.route.pattern path
      to h = elim (Option-cases (match c.route.pattern path)) [
        | inl unmatched ↦ cc (ap is_some unmatched)
        | inr (prefix, e) ↦ ((match_iff c.route.pattern path prefix).0 e).0
      ]

      from : Covers c.route.pattern path → is_some (match c.route.pattern path) ≡ true
      from h = ap is_some ((match_iff c.route.pattern path c.route.pattern.path).1 (h, refl))

  get_elem?-lt :
      {A : Type 0} (xs : List A) (i : ℕ) {a : A} → get_elem? xs i ≡ some a → i < length xs
  get_elem?-lt [] i e = cc
  get_elem?-lt (x ∷ xs) zero e = omega arith
  get_elem?-lt (x ∷ xs) (suc i) e = omega (arith, get_elem?-lt xs i e)

  start : Good (λ c. ⊥) (nothing_yet n req trust_proxies routes)
  start = (λ c is q. q, fresh_state-IsCached n req trust_proxies)

  select_scanned-IsBest :
      (path : Text)
      → IsBest n req trust_proxies routes
          (Hit path)
          (select_scanned n req trust_proxies routes path)
  unfolding select_scanned
  select_scanned-IsBest path =
      (IsGood-iff n req trust_proxies routes
        (λ c. ⊥ ⊎ Between n req trust_proxies routes path (length routes) 0 c) (Hit path)
        (scan_routes n req trust_proxies routes path (length routes) 0
          (nothing_yet n req trust_proxies routes))
        (λ c is q. to c q) (λ c is h. from c is h)
        (scan_routes-IsGood n req trust_proxies routes (λ c. ⊥) path (length routes) 0
          (nothing_yet n req trust_proxies routes) start)).0
    where
      to : (c : Cand) → ⊥ ⊎ Between n req trust_proxies routes path (length routes) 0 c → Hit path c
      to c (inl q) = absurd q
      to c (inr (low, high, m, v)) = ((Covers-iff c path).0 m, v)

      from :
          (c : Cand)
          → Is c
          → Hit path c
          → ⊥ ⊎ Between n req trust_proxies routes path (length routes) 0 c
      from c is (m, v) = inr (
        omega arith,
        omega (arith, get_elem?-lt routes c.index (Is-parts c is).0),
        (Covers-iff c path).1 m,
        v,
      )

  abbrev Slashed : PathIndex → Text → ℕ → ℕ → Cand → Type 0
  Slashed m path rounds index c = AtSlash n req trust_proxies routes m path rounds index c

  abbrev Lists : List ℕ → Cand → Type 0
  Lists positions c = Listed n req trust_proxies routes positions c

  Slashed-of :
      (m : PathIndex) (path : Text) (k rounds index : ℕ) (c : Cand)
      → index ≤ k
      → k < index + rounds
      → get_or path k 0 ≡ b'/'
      → Lists (values_of (take k path) m) c
      → Slashed m path rounds index c
  Slashed-of m path k zero index c low high e l = absurd (omega arith)
  Slashed-of m path k (suc rounds) index c low high e l = elim (dec_le (suc index) k) [
    | yes later ↦ inr (Slashed-of m path k rounds (suc index) c later (omega arith) e l)
    | no now ↦
        let here : k ≡ index = omega arith in
        inl
          (subst (λ i. (get_or path i 0 ≡ b'/') × Lists (values_of (take i path) m) c) here (e, l))
  ]

  Slashed-to :
      (m : PathIndex) (path : Text) (rounds index : ℕ) (c : Cand)
      → Slashed m path rounds index c
      → (k : ℕ) × (get_or path k 0 ≡ b'/') × Lists (values_of (take k path) m) c
  Slashed-to m path zero index c h = absurd h
  Slashed-to m path (suc rounds) index c (inl (e, l)) = (index, e, l)
  Slashed-to m path (suc rounds) index c (inr h) = Slashed-to m path rounds (suc index) c h

  abbrev exact : PathIndex
  exact = (build_route_index routes).0

  abbrev wildcard : PathIndex
  wildcard = (build_route_index routes).1

  exact_listed :
      (path : Text) (c : Cand)
      → Is c
      → Lists (values_of path exact) c
        ↔ ((c.route.pattern.wildcard ≡ false) × (c.route.pattern.path ≡ path) × Met c)
  exact_listed path c is =
      let (to, from) = exact_index_iff path routes c.index c.route (Is-parts c is).0 in
      (λ (l, v). ((to l).0, (to l).1, v), λ (w, e, v). (from (w, e), v))

  wildcard_listed :
      (path : Text) (c : Cand)
      → Is c
      → Lists (values_of path wildcard) c
        ↔ ((c.route.pattern.wildcard ≡ true) × (c.route.pattern.path ≡ path) × Met c)
  wildcard_listed path c is =
      let (to, from) = wildcard_index_iff path routes c.index c.route (Is-parts c is).0 in
      (λ (l, v). ((to l).0, (to l).1, v), λ (w, e, v). (from (w, e), v))

  -- What the three scans of wildcard routes have seen after the exact ones.
  abbrev Seen : Text → Cand → Type 0
  Seen path c =
      (((⊥ ⊎ Lists (values_of path exact) c) ⊎ Lists (values_of [] wildcard) c)
        ⊎ Slashed wildcard path (length path - 1) 1 c)
      ⊎ Lists (values_of path wildcard) c

  Hit-of-Seen : (path : Text) (c : Cand) → Is c → Seen path c → Hit path c
  Hit-of-Seen path c is (inl (inl (inl (inl q)))) = absurd q
  Hit-of-Seen path c is (inl (inl (inl (inr l)))) =
      let (w, e, v) = (exact_listed path c is).0 l in (inl (w, e), v)
  Hit-of-Seen path c is (inl (inl (inr l))) =
      let (w, e, v) = (wildcard_listed [] c is).0 l in (inr (w, inl e), v)
  Hit-of-Seen path c is (inl (inr s)) =
      let (k, slash, l) = Slashed-to wildcard path (length path - 1) 1 c s in
      let (w, e, v) = (wildcard_listed (take k path) c is).0 l in
      (
        inr (
          w,
          inr (
              inr (
                drop (suc k) path,
                (slash_at path k slash).0 ∙ ap (λ p. p ++ b'/' ∷ drop (suc k) path) (sym e),
              )),
        ),
        v,
      )
  Hit-of-Seen path c is (inr l) =
      let (w, e, v) = (wildcard_listed path c is).0 l in (inr (w, inr (inl e)), v)

  Seen-below :
      (p rest : Text) (c : Cand)
      → Is c
      → c.route.pattern.wildcard ≡ true
      → c.route.pattern.path ≡ p
      → Met c
      → Seen (p ++ b'/' ∷ rest) c
  Seen-below [] rest c is w e v = inl (inl (inr ((wildcard_listed [] c is).1 (w, e, v))))
  Seen-below (d ∷ p) rest c is w e v =
      let (first, slash, inside) = at_slash (d ∷ p) rest in
      inl (
        inr (
          Slashed-of wildcard ((d ∷ p) ++ b'/' ∷ rest) (length (d ∷ p)) _ 1 c (omega arith)
            (omega arith) slash
            ((wildcard_listed (take (length (d ∷ p)) ((d ∷ p) ++ b'/' ∷ rest)) c is).1
              (w, e ∙ sym first, v))))

  Seen-of-Hit : (path : Text) (c : Cand) → Is c → Hit path c → Seen path c
  Seen-of-Hit path c is (inl (w, e), v) =
      inl (inl (inl (inr ((exact_listed path c is).1 (w, e, v)))))
  Seen-of-Hit path c is (inr (w, inl e), v) =
      inl (inl (inr ((wildcard_listed [] c is).1 (w, e, v))))
  Seen-of-Hit path c is (inr (w, inr (inl e)), v) = inr ((wildcard_listed path c is).1 (w, e, v))
  Seen-of-Hit path c is (inr (w, inr (inr (rest, e))), v) =
      subst (λ s. Seen s c) (sym e) (Seen-below c.route.pattern.path rest c is w refl v)

  abbrev exact_found : Text → Option Cand × RouteMatchState n
  exact_found path =
      scan_positions n req trust_proxies routes (values_of path exact)
        (nothing_yet n req trust_proxies routes)

  exact_found-Good :
      (path : Text) → Good (λ c. ⊥ ⊎ Lists (values_of path exact) c) (exact_found path)
  exact_found-Good path =
      scan_positions-IsGood n req trust_proxies routes (λ c. ⊥) (values_of path exact)
        (nothing_yet n req trust_proxies routes) start

  select_wildcard-IsBest :
      (path : Text)
      → IsBest n req trust_proxies routes
          (Hit path)
          (select_wildcard n req trust_proxies routes wildcard path (exact_found path)).0
  unfolding select_wildcard
  select_wildcard-IsBest path =
      (IsGood-iff n req trust_proxies routes (Seen path) (Hit path) _ (Hit-of-Seen path)
        (Seen-of-Hit path)
        (scan_positions-IsGood n req trust_proxies routes _ (values_of path wildcard) _ (
          scan_prefixes-IsGood n req trust_proxies routes _ wildcard path (length path - 1) 1 _ (
            scan_positions-IsGood n req trust_proxies routes _ (values_of [] wildcard) _
              (exact_found-Good path))))).0

  -- The best exact route is better than any wildcard one.
  exact-IsBest :
      (path : Text) (b : Cand)
      → IsBest n req trust_proxies routes (λ c. ⊥ ⊎ Lists (values_of path exact) c) (some b)
      → IsBest n req trust_proxies routes (Hit path) (some b)
  exact-IsBest path b (is, inl q, best) = absurd q
  exact-IsBest path b (is, inr l, best) = (is, (inl (w, e), v), all_others)
    where
      w : b.route.pattern.wildcard ≡ false
      w = ((exact_listed path b is).0 l).0

      e : b.route.pattern.path ≡ path
      e = ((exact_listed path b is).0 l).1

      v : Met b
      v = ((exact_listed path b is).0 l).2

      all_others : (c : Cand) → Is c → Hit path c → (c ≡ b) ⊎ (better_route b c ≡ true)
      all_others c isc (inl (wc, ec), vc) =
          best c isc (inr ((exact_listed path c isc).1 (wc, ec, vc)))
      all_others c isc (inr (wc, ec), vc) =
          inr
            (better_route_exact b c ((Is-parts b is).1 ∙ ap not w) ((Is-parts c isc).1 ∙ ap not wc))

  select_indexed-IsBest :
      (path : Text)
      → IsBest n req trust_proxies routes
          (Hit path)
          (select_indexed n req trust_proxies routes (build_route_index routes) path)
  unfolding select_indexed
  select_indexed-IsBest path = go (exact_found path).0 refl
    where
      go :
          (o : Option Cand)
          → (exact_found path).0 ≡ o
          → IsBest n req trust_proxies routes (Hit path) (elim (exact_found path).0 [
            | some candidate ↦ some candidate
            | none ↦ (select_wildcard n req trust_proxies routes wildcard path (exact_found path)).0
          ])
      go none r = rw r (select_wildcard-IsBest path)
      go (some b) r = rw r (
          exact-IsBest path b (
            subst
              (λ o. IsBest n req trust_proxies routes (λ c. ⊥ ⊎ Lists (values_of path exact) c) o) r
              (exact_found-Good path).0))

  -- For every list of routes and every path, the selection through the two maps of buildRouteIndex
  -- is that of the scan of all routes.
  pub select_indexed-select_scanned :
      (path : Text)
      → select_indexed n req trust_proxies routes (build_route_index routes) path
        ≡ select_scanned n req trust_proxies routes path
  select_indexed-select_scanned path =
      IsBest-unique n req trust_proxies routes (Hit path) _ _ (select_indexed-IsBest path)
        (select_scanned-IsBest path)

-- However many routes a site has, and whether or not it keeps an index, selectRoute returns the best
-- of the routes that cover the path and whose conditions the request meets; it returns none
-- exactly when there is no such route.
pub select_route-IsBest :
    (n : Net) (routes : List (Route n.Prefix)) (trust_proxies : List n.Prefix) (req : Request)
    → IsBest n req trust_proxies routes
        (Hit n req trust_proxies routes req.url.path)
        (select_route n (finish_site routes trust_proxies) req)
unfolding select_route finish_site
select_route-IsBest n routes trust_proxies req =
    elim (Bool-cases (ltb route_index_threshold (length routes))) [
      | inl many ↦ rw many (select_indexed-IsBest n req trust_proxies routes req.url.path)
      | inr few ↦ rw few (select_scanned-IsBest n req trust_proxies routes req.url.path)
    ]
