-- ===== src/Site.antt =====
-- router.go: the routes of a site and the choice among them. A site with more than eight routes
-- keeps two maps from paths to positions of routes; else every route is tried.
pub mod Best
pub mod Scan
pub mod ScanAll
pub mod Index
pub mod Select
mod Tests
use kubio.Prelude.{
  ℕ, zero, suc, ◌+◌, ◌-◌, Bool, true, false, ◌&&◌, not, Option, none, some, List, [], ◌∷◌, ◌++◌,
  ltb, ◌==◌, if◌then◌else◌, length, get_or, take,
}
use kubio.Text.{Text, text_eq}
use kubio.Net.{Net, Request, values_of}
use kubio.Path.{match}
use kubio.Route.{
  Route, RouteCandidate, RouteMatchState, PathIndex, fresh_state, matches, better_route,
  route_candidate,
}

-- routeIndexThreshold
abbrev pub route_index_threshold : ℕ
route_index_threshold = 8

-- What route selection reads of a site: `none` stands for maps that were not made.
pub record Site (Prefix : Type 0) : Type 0 where
  pub routes : List (Route Prefix)
  pub trust_proxies : List Prefix
  pub index : Option (PathIndex × PathIndex)

-- m[path] = append(m[path], index)
unfoldable pub append_at : Text → ℕ → PathIndex → PathIndex
unfolding text_eq
append_at path index [] = (path, index ∷ []) ∷ []
append_at path index ((key, positions) ∷ rest) =
    if text_eq key path
    then (key, positions ++ index ∷ []) ∷ rest
    else (key, positions) ∷ append_at path index rest

-- One round of buildRouteIndex, over the map of exact and the map of wildcard routes.
unfoldable pub index_step :
    {P : Type 0} → ℕ → Route P → PathIndex × PathIndex → PathIndex × PathIndex
index_step index r maps =
    if r.pattern.wildcard
    then (maps.0, append_at r.pattern.path index maps.1)
    else (append_at r.pattern.path index maps.0, maps.1)

-- The loop of buildRouteIndex.
unfoldable pub index_from :
    {P : Type 0} → ℕ → List (Route P) → PathIndex × PathIndex → PathIndex × PathIndex
index_from index [] maps = maps
index_from index (r ∷ routes) maps = index_from (suc index) routes (index_step index r maps)

-- buildRouteIndex
unfoldable pub build_route_index : {P : Type 0} → List (Route P) → PathIndex × PathIndex
unfolding index_from
build_route_index routes = index_from 0 routes ([], [])

-- The end of newSite: the maps are made above the threshold.
unfoldable pub finish_site : {P : Type 0} → List (Route P) → List P → Site P
unfolding build_route_index
finish_site routes trust_proxies = record {
  routes = routes;
  trust_proxies = trust_proxies;
  index =
      if ltb route_index_threshold (length routes) then some (build_route_index routes) else none;
}

module _ (n : Net) (req : Request) (trust_proxies : List n.Prefix) where
  open n use {Prefix}

  abbrev pub Selected : Type 0
  Selected = Option (RouteCandidate Prefix)

  -- if selected.route == nil || betterRoute(candidate, selected) { selected = candidate }
  unfoldable pub keep_better : RouteCandidate Prefix → Selected → Selected
  keep_better candidate none = some candidate
  keep_better candidate (some selected) =
      if better_route candidate selected then some candidate else some selected

  -- The candidate is kept where its route matches.
  unfoldable pub consider :
      RouteCandidate Prefix → Selected × RouteMatchState n → Selected × RouteMatchState n
  consider candidate (selected, state) =
      let (met, state') = matches n req trust_proxies state candidate.route in
      (if met then keep_better candidate selected else selected, state')

  module _ (routes : List (Route Prefix)) where
    -- One round of the scan of all routes.
    unfoldable pub consider_path :
        Text → ℕ → Selected × RouteMatchState n → Selected × RouteMatchState n
    consider_path path index found = elim (route_candidate routes index) [
      | none ↦ found
      | some candidate ↦ elim (match candidate.route.pattern path) [
        | none ↦ found
        | some prefix ↦ consider (record candidate { prefix = prefix }) found
      ]
    ]

    -- for index := range s.routes
    unfoldable pub scan_routes :
        Text → ℕ → ℕ → Selected × RouteMatchState n → Selected × RouteMatchState n
    scan_routes path zero index found = found
    scan_routes path (suc rounds) index found =
        scan_routes path rounds (suc index) (consider_path path index found)

    -- for _, index := range positions
    unfoldable pub scan_positions :
        List ℕ → Selected × RouteMatchState n → Selected × RouteMatchState n
    scan_positions [] found = found
    scan_positions (index ∷ positions) found = elim (route_candidate routes index) [
      | none ↦ scan_positions positions found
      | some candidate ↦ scan_positions positions (consider candidate found)
    ]

    -- for index := 1; index < len(path); index++, where a slash stands at the index
    unfoldable pub scan_prefixes :
        PathIndex → Text → ℕ → ℕ → Selected × RouteMatchState n → Selected × RouteMatchState n
    scan_prefixes wildcard path zero index found = found
    scan_prefixes wildcard path (suc rounds) index found =
        scan_prefixes wildcard path rounds (suc index) (
          if get_or path index 0 == b'/'
          then scan_positions (values_of (take index path) wildcard) found
          else found)

    abbrev pub nothing_yet : Selected × RouteMatchState n
    nothing_yet = (none, fresh_state n)

    -- The wildcard routes of an indexed site.
    unfoldable pub select_wildcard :
        PathIndex → Text → Selected × RouteMatchState n → Selected × RouteMatchState n
    select_wildcard wildcard path found = scan_positions (values_of path wildcard) (
        scan_prefixes wildcard path (length path - 1) 1
          (scan_positions (values_of [] wildcard) found))

    -- The two ways of selectRoute.
    unfoldable pub select_indexed : PathIndex × PathIndex → Text → Selected
    select_indexed (exact, wildcard) path =
        let found = scan_positions (values_of path exact) nothing_yet in
        elim found.0 [
          | some candidate ↦ some candidate
          | none ↦ (select_wildcard wildcard path found).0
        ]

    unfoldable pub select_scanned : Text → Selected
    select_scanned path = (scan_routes path (length routes) 0 nothing_yet).0

-- selectRoute
unfoldable pub select_route : (n : Net) → Site n.Prefix → Request → Option (RouteCandidate n.Prefix)
select_route n s req = elim s.index [
  | none ↦ select_scanned n req s.trust_proxies s.routes req.url.path
  | some maps ↦ select_indexed n req s.trust_proxies s.routes maps req.url.path
]
