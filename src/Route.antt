-- ===== src/Route.antt =====
-- router.go: the routes of a site, whether a request meets a route's conditions, and the choice of
-- the best route, by a scan of all routes or through the index of a site with many.
pub mod Cache
pub mod Rank
mod Tests
use kubio.Prelude.{
  ℕ, zero, suc, ◌+◌, ◌-◌, Bool, true, false, ◌&&◌, ◌||◌, not, Option, none, some, List, [], ◌∷◌,
  ◌++◌, ltb, ◌==◌, if◌then◌else◌, length, get_elem?, take, any, all,
}
use kubio.Text.{Text, text, text_eq, is_empty, equal_fold}
use kubio.Net.{Net, Request, Values, values_of}
use kubio.Path.{PathPattern, match}
use kubio.ClientIp.{effective_client_ip}

-- routeCondition
pub record RouteCondition : Type 0 where
  pub name : Text
  pub alternatives : List Text

-- routeMatch, over the type of prefixes
pub record RouteMatch (Prefix : Type 0) : Type 0 where
  pub header : List RouteCondition
  pub query : List RouteCondition
  pub ip : List Prefix
  pub alternatives : ℕ

-- generatedResponse, as a route keeps it
pub record GeneratedResponse : Type 0 where
  pub status : ℕ
  pub body : Text
  pub prepared : Values

-- route; a proxy is known by its number.
pub record Route (Prefix : Type 0) : Type 0 where
  pub pattern : PathPattern
  pub methods : List Text
  pub match : RouteMatch Prefix
  pub proxy : ℕ
  pub respond : Option GeneratedResponse
  pub strip : Bool

-- A map from paths to positions of routes.
abbrev pub PathIndex : Type 0
PathIndex = List (Text × List ℕ)

-- routeCandidate
pub record RouteCandidate (Prefix : Type 0) : Type 0 where
  pub route : Route Prefix
  pub prefix : Text
  pub exact : Bool
  pub depth : ℕ
  pub index : ℕ

abbrev pub one_if {ℓ} : {A : Type ℓ} → List A → ℕ
one_if [] = 0
one_if (x ∷ xs) = 1

abbrev pub is_nil {ℓ} : {A : Type ℓ} → List A → Bool
is_nil [] = true
is_nil (x ∷ xs) = false

abbrev pub bool_eq : Bool → Bool → Bool
bool_eq true b = b
bool_eq false b = not b

-- conditionCount
unfoldable pub condition_count : {P : Type 0} → Route P → ℕ
condition_count r =
    length r.match.header + length r.match.query + one_if r.match.ip + one_if r.methods

-- alternativeCount
unfoldable pub alternative_count : {P : Type 0} → Route P → ℕ
alternative_count r = length r.methods + r.match.alternatives

-- The order of betterRoute on what it compares.
unfoldable pub better_key : Bool → ℕ → ℕ → ℕ → ℕ → Bool → ℕ → ℕ → ℕ → ℕ → Bool
better_key exact depth conditions alternatives index exact' depth' conditions' alternatives'
      index' =
    if not (bool_eq exact exact')
    then exact
    else if not (depth == depth')
    then ltb depth' depth
    else if not (conditions == conditions')
    then ltb conditions' conditions
    else if not (alternatives == alternatives')
    then ltb alternatives alternatives'
    else ltb index' index

-- betterRoute
unfoldable pub better_route : {P : Type 0} → RouteCandidate P → RouteCandidate P → Bool
unfolding better_key
better_route candidate current =
    better_key candidate.exact candidate.depth (condition_count candidate.route)
      (alternative_count candidate.route) candidate.index current.exact current.depth
      (condition_count current.route) (alternative_count current.route) current.index

-- site.routeCandidate; `none` stands for a position past the end, which Go would refuse.
unfoldable pub route_candidate : {P : Type 0} → List (Route P) → ℕ → Option (RouteCandidate P)
route_candidate routes index = elim (get_elem? routes index) [
  | none ↦ none
  | some r ↦ some (record {
    route = r;
    prefix = r.pattern.path;
    exact = not r.pattern.wildcard;
    depth = r.pattern.depth;
    index = index;
  })
]

-- matchesValue
unfoldable pub matches_value : Text → List Text → Bool
unfolding text_eq
matches_value value alternatives = any (text_eq value) alternatives

-- matchesAny
unfoldable pub matches_any : List Text → List Text → Bool
unfolding matches_value
matches_any values alternatives = any (λ value. matches_value value alternatives) values

-- matchesMethod
unfoldable pub matches_method : {P : Type 0} → Route P → Text → Bool
unfolding matches_value
matches_method r method = is_nil r.methods || matches_value method r.methods

-- matchesRequestHeader
unfoldable pub matches_request_header : Request → RouteCondition → Bool
unfolding text_eq matches_value matches_any values_of equal_fold
matches_request_header req condition =
    if text_eq condition.name (text "Host")
    then not (is_empty req.host) && matches_value req.host condition.alternatives
    else if matches_any (values_of condition.name req.header) condition.alternatives
    then true
    else any
        (λ entry.
          not (text_eq entry.0 condition.name)
          && equal_fold entry.0 condition.name
          && matches_any entry.1 condition.alternatives)
        req.header

module _ (n : Net) where
  open n use {Addr, Prefix, zero_addr, contains, parse_query}

  -- routeMatchState, less the request and the trusted proxies, which do not change
  pub record RouteMatchState : Type 0 where
    pub query : Values
    pub query_parsed : Bool
    pub query_valid : Bool
    pub client_ip : Addr
    pub client_valid : Bool
    pub client_parsed : Bool

  -- The state before anything was parsed.
  abbrev pub fresh_state : RouteMatchState
  fresh_state = record {
    query = [];
    query_parsed = false;
    query_valid = false;
    client_ip = zero_addr;
    client_valid = false;
    client_parsed = false;
  }

  module _ (req : Request) (trust_proxies : List Prefix) where
    -- The query is parsed once; the values of one that does not parse, which are not read, are left out.
    unfoldable pub parsed_query : RouteMatchState → RouteMatchState
    parsed_query m = if m.query_parsed then m else elim (parse_query req.raw_query) [
      | none ↦ record m { query = []; query_valid = false; query_parsed = true }
      | some values ↦ record m { query = values; query_valid = true; query_parsed = true }
    ]

    -- So is the address of the client.
    unfoldable pub parsed_client : RouteMatchState → RouteMatchState
    parsed_client m =
        if m.client_parsed then m else elim (effective_client_ip n req trust_proxies) [
          | none ↦ record m { client_ip = zero_addr; client_valid = false; client_parsed = true }
          | some a ↦ record m { client_ip = a; client_valid = true; client_parsed = true }
        ]

    -- matchesClientIP
    unfoldable pub matches_client_ip : RouteMatchState → Route Prefix → Bool × RouteMatchState
    matches_client_ip m r =
        let m' = parsed_client m in
        (m'.client_valid && any (λ prefix. contains prefix m'.client_ip) r.match.ip, m')

    -- The part of matches that reads the query.
    unfoldable pub matches_query : RouteMatchState → Route Prefix → Bool × RouteMatchState
    matches_query m r =
        if is_nil r.match.query
        then (true, m)
        else (let m' = parsed_query m in
            (
              m'.query_valid
                  && all (λ c. matches_any (values_of c.name m'.query) c.alternatives)
                      r.match.query,
              m',
            ))

    -- routeMatchState.matches
    unfoldable pub matches : RouteMatchState → Route Prefix → Bool × RouteMatchState
    matches m r =
        if not (matches_method r req.method)
        then (false, m)
        else if not (all (matches_request_header req) r.match.header)
        then (false, m)
        else (let (met, m') = matches_query m r in
            if not met
            then (false, m')
            else if is_nil r.match.ip
            then (true, m')
            else matches_client_ip m' r)
