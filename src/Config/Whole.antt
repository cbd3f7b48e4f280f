-- ===== src/Config/Whole.antt =====
-- What decodeConfig guarantees of a whole configuration that it accepts.
use kubio.Prelude.{
  ◌<◌, ◌≡◌, refl, Bool, true, false, ◌||◌, ◌&&◌, not, Option, none, some, List, [], ◌∷◌, subst, ap,
  sym, ◌∙◌, arith, ok, err, ◌>>=◌, length, All, bound, ok-injective,
}
use kubio.Text.{Text, text, is_empty, is_some, or_else, trim_space}
use kubio.Headers.{HeaderEnv, is_empty_list}
use kubio.Config.Json.{Json, Fields, field_of}
use kubio.Config.Values.{Decoded, optional}
use kubio.Config.Objects.{ConfigEnv, RawLimit, decode_limit, max_limit_rate, max_limit_burst}
use kubio.Config.Backends.{unless_null, RawBackend, decode_backends, resolve_backends}
use kubio.Config.Sites.{RawRoute, RawSite, RawRespond, decode_struct}
use kubio.Config.Decode.{
  Generated, RouteConfig, SiteConfig, Config, RawConfig, resolve_respond, has_upstream_fields,
  uses_backend, resolve_route, resolve_routes, resolve_site, resolve_sites, decode_root,
  resolve_config, decode_config,
}
use kubio.Config.Checked.{Between, Every, decode_limit-Between, optional_every}
use kubio.Config.Accepted.{
  IsBackend, IsRawBackend, decode_backends-IsRawBackend, resolve_backends-IsBackend,
  positive_length,
}

-- A limit of requests in range.
abbrev pub IsLimit : RawLimit → Type 0
IsLimit l = Between 1 max_limit_rate l.rate × Between 1 max_limit_burst l.burst

module _ {P : Type 0} where
  -- Whether a route's requests go to a backend of several targets.
  abbrev pub goes_to_backend : Bool → RouteConfig P → Bool
  goes_to_backend site_backend r = not (is_empty r.backend) || (is_empty r.target && site_backend)

  -- A route that the router can serve: a path, one destination at most, a rewrite or a strip, a
  -- generated response with no destination, and a timeout of its own only without a backend.
  abbrev pub IsRoute : Bool → RouteConfig P → Type 0
  IsRoute site_backend r =
      (is_empty r.path ≡ false)
      × ((is_empty r.target || is_empty r.backend) ≡ true)
      × ((not (is_empty r.rewrite) && r.strip) ≡ false)
      × ((is_some r.respond
            && (not (is_empty r.target)
                || not (is_empty r.backend)
                || is_some r.timeout
                || not (is_empty r.rewrite)
                || r.strip))
          ≡ false)
      × ((is_some r.timeout && goes_to_backend site_backend r) ≡ false)

  -- A site with a host and one destination.
  abbrev pub IsSite : SiteConfig P → Type 0
  IsSite s =
      (is_empty_list s.hosts ≡ false)
      × (is_empty s.target ≡ not (is_empty s.backend))
      × ((is_some s.timeout && not (is_empty s.backend)) ≡ false)
      × All (IsRoute (not (is_empty s.backend))) s.routes

  abbrev pub IsConfig : Config P → Type 0
  IsConfig c =
      (is_empty (trim_space c.listen) ≡ false)
      × Every IsLimit c.limit
      × All (λ entry. IsBackend entry.1) c.backends
      × (0 < length c.sites)
      × All IsSite c.sites

module _ {P : Type 0} (parse_prefixes : List Text → Decoded (List P)) (env : HeaderEnv) where
  respond_excludes :
      (raw : RawRoute) (o : Option RawRespond) (g : Option Generated)
      → resolve_respond env raw o ≡ ok g
      → (is_some g && has_upstream_fields raw) ≡ false
  unfolding resolve_respond
  respond_excludes raw none g h = ground arith
  respond_excludes raw (some r) g h = ground arith

  route_respond :
      (site_backend : Bool) (raw : RawRoute) (r : RouteConfig P)
      → resolve_route parse_prefixes env site_backend raw ≡ ok r
      → resolve_respond env raw raw.respond ≡ ok r.respond
  unfolding resolve_route
  route_respond site_backend raw r h = ground arith

  route_excludes :
      (site_backend : Bool) (raw : RawRoute) (r : RouteConfig P)
      → resolve_route parse_prefixes env site_backend raw ≡ ok r
      → (is_some r.respond && has_upstream_fields raw) ≡ false
      → (is_some r.respond
          && (not (is_empty r.target)
              || not (is_empty r.backend)
              || is_some r.timeout
              || not (is_empty r.rewrite)
              || r.strip))
        ≡ false
  unfolding resolve_route has_upstream_fields
  route_excludes site_backend raw r h e = ground arith

  resolve_route-IsRoute :
      (site_backend : Bool) (raw : RawRoute) (r : RouteConfig P)
      → resolve_route parse_prefixes env site_backend raw ≡ ok r
      → IsRoute site_backend r
  unfolding resolve_route has_upstream_fields uses_backend
  resolve_route-IsRoute site_backend raw r h = (
    ground arith,
    ground arith,
    ground arith,
    route_excludes site_backend raw r h
        (respond_excludes raw raw.respond r.respond (route_respond site_backend raw r h)),
    ground arith,
  )

  resolve_routes-IsRoute :
      (site_backend : Bool) (raw : List RawRoute) (routes : List (RouteConfig P))
      → resolve_routes parse_prefixes env site_backend raw ≡ ok routes
      → All (IsRoute site_backend) routes
  unfolding resolve_routes
  resolve_routes-IsRoute site_backend [] routes h =
      subst (All (IsRoute site_backend)) (ok-injective [] _ h) tt
  resolve_routes-IsRoute site_backend (raw ∷ rest) routes h =
      let (r, e, h1) =
        bound (resolve_route parse_prefixes env site_backend raw)
          (λ r. resolve_routes parse_prefixes env site_backend rest >>= λ more. ok (r ∷ more))
          routes h in
      let (more, e2, h2) =
        bound (resolve_routes parse_prefixes env site_backend rest) (λ more. ok (r ∷ more)) routes
          h1 in
      subst (All (IsRoute site_backend)) (ok-injective _ _ h2) (
        resolve_route-IsRoute site_backend raw r e,
        resolve_routes-IsRoute site_backend rest more e2,
      )

  site_routes :
      (raw : RawSite) (s : SiteConfig P)
      → resolve_site parse_prefixes env raw ≡ ok s
      → (resolve_routes parse_prefixes env (is_some raw.backend) raw.routes ≡ ok s.routes)
        × (is_some raw.backend ≡ not (is_empty s.backend))
  unfolding resolve_site
  site_routes raw s h = (ground arith, ground arith)

  resolve_site-IsSite :
      (raw : RawSite) (s : SiteConfig P) → resolve_site parse_prefixes env raw ≡ ok s → IsSite s
  unfolding resolve_site
  resolve_site-IsSite raw s h = (
    ground arith,
    ground arith,
    ground arith,
    (let (routes, uses) = site_routes raw s h in
        subst (λ b. All (IsRoute b) s.routes) uses
          (resolve_routes-IsRoute (is_some raw.backend) raw.routes s.routes routes)),
  )

  resolve_sites-IsSite :
      (raw : List RawSite) (sites : List (SiteConfig P))
      → resolve_sites parse_prefixes env raw ≡ ok sites
      → All IsSite sites × (length raw ≡ length sites)
  unfolding resolve_sites
  resolve_sites-IsSite [] sites h =
      let e = ok-injective [] _ h in (subst (All IsSite) e tt, ap length e)
  resolve_sites-IsSite (raw ∷ rest) sites h =
      let (s, e, h1) =
        bound (resolve_site parse_prefixes env raw)
          (λ s. resolve_sites parse_prefixes env rest >>= λ more. ok (s ∷ more)) sites h in
      let (more, e2, h2) =
        bound (resolve_sites parse_prefixes env rest) (λ more. ok (s ∷ more)) sites h1 in
      let (good, n) = resolve_sites-IsSite rest more e2 in
      (subst (All IsSite) (ok-injective _ _ h2) (resolve_site-IsSite raw s e, good), ground arith)

  -- What decodeConfig makes of the sections of a configuration.
  resolve_config_parts :
      (raw : RawConfig) (c : Config P)
      → resolve_config parse_prefixes env raw ≡ ok c
      → (is_empty (trim_space c.listen) ≡ false)
        × (c.limit ≡ raw.limit)
        × (resolve_backends raw.backends ≡ ok c.backends)
        × (resolve_sites parse_prefixes env (or_else raw.sites []) ≡ ok c.sites)
        × (is_empty_list (or_else raw.sites []) ≡ false)
  unfolding resolve_config
  resolve_config_parts raw c h =
      (ground arith, ground arith, ground arith, ground arith, ground arith)

optional-IsLimit :
    (o : Option Json) (l : RawLimit) → optional decode_limit o ≡ ok (some l) → IsLimit l
optional-IsLimit = optional_every IsLimit decode_limit decode_limit-Between

optional-IsRawBackend :
    (env : ConfigEnv) (o : Option Json) (b : Option (List (Text × RawBackend)))
    → optional (decode_backends env) o ≡ ok b
    → All (λ entry. IsRawBackend entry.1) (or_else b [])
optional-IsRawBackend env o none h = tt
optional-IsRawBackend env o (some b) h =
    optional_every (All (λ entry. IsRawBackend entry.1)) (decode_backends env)
      (decode_backends-IsRawBackend env) o b h

-- The limit and the backends of the object that is decoded.
root_limit :
    (env : ConfigEnv) (fields : Fields) (raw : RawConfig)
    → decode_root env (Json.object fields) ≡ ok raw
    → optional decode_limit (field_of (text "limit") fields) ≡ ok raw.limit
unfolding decode_root decode_struct
root_limit env fields raw h = ground arith

root_backends :
    (env : ConfigEnv) (fields : Fields) (raw : RawConfig)
    (m : Decoded (Option (List (Text × RawBackend))))
    → decode_root env (Json.object fields) ≡ ok raw
    → optional (decode_backends env) (field_of (text "backends") fields) ≡ m
    → All (λ entry. IsRawBackend entry.1) raw.backends
unfolding decode_root decode_struct
root_backends env fields raw (ok b) h e =
    subst (All (λ entry. IsRawBackend entry.1)) (ground arith)
      (optional-IsRawBackend env (field_of (text "backends") fields) b e)
root_backends env fields raw (err x) h e = absurd (ground arith)

decode_root_lem :
    (env : ConfigEnv) (v : Json) (raw : RawConfig)
    → decode_root env v ≡ ok raw
    → Every IsLimit raw.limit × All (λ entry. IsRawBackend entry.1) raw.backends
unfolding decode_root decode_struct field_of unless_null
decode_root_lem env (Json.object fields) raw h = (
  (λ l e.
      optional-IsLimit (field_of (text "limit") fields) l (root_limit env fields raw h ∙ ap ok e)),
  root_backends env fields raw _ h refl,
)
decode_root_lem env Json.null raw h = (
  (λ l e. absurd (ground arith)),
  subst (All (λ entry. IsRawBackend entry.1)) (ap (λ r. r.backends) (ok-injective _ raw h)) tt,
)
decode_root_lem env (Json.array items) raw h = absurd cc
decode_root_lem env (Json.str s) raw h = absurd cc
decode_root_lem env (Json.number s) raw h = absurd cc
decode_root_lem env (Json.boolean s) raw h = absurd cc

-- Whatever the document and whatever the functions of the libraries answer: a configuration that
-- decodeConfig returns has a limit of 1 to 1000000 for the rate and the burst if it has one, and at
-- least one site; each backend has a target, 1 to as many tries as targets, weights that
-- validateTargetWeights accepts, and settings of retries and of health in their ranges, retries only
-- with at least two tries; each site has a host and one destination; each route has a path, at most
-- one destination, not both a rewrite and a strip, no destination where its response is generated,
-- and a timeout only where its requests do not go to a backend.
pub decode_config-IsConfig :
    {P : Type 0} (env : ConfigEnv) (parse_prefixes : List Text → Decoded (List P))
    (headers : HeaderEnv) (v : Json) (c : Config P)
    → decode_config env parse_prefixes headers v ≡ ok c
    → IsConfig c
unfolding decode_config
decode_config-IsConfig env parse_prefixes headers v c h =
    let (raw, e, h1) =
      bound (decode_root env v) (λ raw. resolve_config parse_prefixes headers raw) c h in
    let (limit, backends) = decode_root_lem env v raw e in
    let (listen, same, b, s, nonempty) = resolve_config_parts parse_prefixes headers raw c h1 in
    let (sites, n) = resolve_sites-IsSite parse_prefixes headers (or_else raw.sites []) c.sites s in
    (
      listen,
      (λ l e. limit l (sym same ∙ e)),
      resolve_backends-IsBackend raw.backends c.backends backends b,
      subst (λ k. 0 < k) n (positive_length (or_else raw.sites []) nonempty),
      sites,
    )
