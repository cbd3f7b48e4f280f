-- ===== src/Config/Decode.antt =====
-- config.go: decodeConfig on the value that the bytes parse to.
use kubio.Prelude.{
  Bool, false, ◌&&◌, ◌||◌, not, Option, none, some, List, [], ◌∷◌, if◌then◌else◌, ok, ◌>>=◌, ◌>>◌,
  reject_if,
}
use kubio.Prelude.Int.{ℤ}
use kubio.Text.{Text, text, is_empty, is_some, or_else, trim_space}
use kubio.Headers.{HeaderEnv, ResponseHeaderPolicy, resolve_response_headers, validate_methods}
use kubio.Config.Json.{Json, field_of}
use kubio.Config.Values.{
  missing, must_not_be_empty, not_allowed, bad_headers, wrap, Decoded, optional, decode_string,
  decode_string_array, decode_bool, decode_all,
}
use kubio.Config.Objects.{
  ConfigEnv, require, set_nil, set_empty, RawLimit, decode_limit, TlsConfig, decode_tls,
  UpstreamTls, resolve_upstream_tls, DirectTimeout,
}
use kubio.Config.Backends.{
  unless_null, BackendSettings, RawBackend, decode_backends, resolve_backends,
}
use kubio.Config.Sites.{
  RawRespond, RawRouteMatch, RawRoute, RawSite, is_empty_policy, empty_policy, decode_site,
  decode_struct, decode_array,
}

-- generatedResponse
pub record Generated : Type 0 where
  pub status : ℤ
  pub body : Text
  pub headers : ResponseHeaderPolicy

-- routeConfig, over the type of a match's prefixes; an unset text is empty.
pub record RouteConfig (P : Type 0) : Type 0 where
  pub path : Text
  pub rewrite : Text
  pub respond : Option Generated
  pub methods : List Text
  pub match : Option (RawRouteMatch × List P)
  pub target : Text
  pub backend : Text
  pub timeout : Option DirectTimeout
  pub tls : Option UpstreamTls
  pub headers : List (Text × Text)
  pub response : ResponseHeaderPolicy
  pub strip : Bool

-- siteConfig
pub record SiteConfig (P : Type 0) : Type 0 where
  pub hosts : List Text
  pub target : Text
  pub backend : Text
  pub timeout : Option DirectTimeout
  pub tls : Option UpstreamTls
  pub headers : List (Text × Text)
  pub response : ResponseHeaderPolicy
  pub routes : List (RouteConfig P)

abbrev pub check_route_methods : Option (List Text) → Decoded (Unit {0})
check_route_methods none = ok tt
check_route_methods (some methods) = wrap bad_headers (validate_methods methods)

-- Whether a field is set that a generated response excludes.
unfoldable pub has_upstream_fields : RawRoute → Bool
has_upstream_fields raw =
    is_some raw.target
    || is_some raw.backend
    || is_some raw.timeout
    || is_some raw.tls
    || is_some raw.headers
    || not (is_empty_policy raw.response)
    || is_some raw.rewrite
    || raw.strip

-- A route's generated response.
unfoldable pub resolve_respond :
    HeaderEnv → RawRoute → Option RawRespond → Decoded (Option Generated)
resolve_respond env raw none = ok none
resolve_respond env raw (some r) = do
  reject_if (has_upstream_fields raw) not_allowed
  headers ←
      wrap bad_headers
        (resolve_response_headers env (record empty_policy { set_values = r.headers }))
  ok (some (record { status = r.status; body = r.body; headers = headers }))

-- Whether a route's requests go to a backend, given whether its site's do.
unfoldable pub uses_backend : RawRoute → Bool → Bool
uses_backend raw site_backend = is_some raw.backend || (not (is_some raw.target) && site_backend)

module _ {P : Type 0} (parse_prefixes : List Text → Decoded (List P)) where
  unfoldable pub resolve_match : Option RawRouteMatch → Decoded (Option (RawRouteMatch × List P))
  resolve_match none = ok none
  resolve_match (some m) = parse_prefixes (or_else m.ip []) >>= λ prefixes. ok (some (m, prefixes))

  -- One round of the loop over the routes of a site.
  unfoldable pub resolve_route : HeaderEnv → Bool → RawRoute → Decoded (RouteConfig P)
  resolve_route env site_backend raw = do
    path ← require raw.path missing
    reject_if (is_empty path) must_not_be_empty
    check_route_methods raw.methods
    reject_if (set_empty raw.rewrite) must_not_be_empty
    reject_if (is_some raw.rewrite && raw.strip) not_allowed
    respond ← resolve_respond env raw raw.respond
    reject_if (is_some raw.target && is_some raw.backend) not_allowed
    reject_if (set_empty raw.target) must_not_be_empty
    reject_if (set_empty raw.backend) must_not_be_empty
    reject_if (is_some raw.timeout && uses_backend raw site_backend) not_allowed
    match_of ← resolve_match raw.match
    ok (record {
      path = path;
      rewrite = or_else raw.rewrite [];
      respond = respond;
      methods = or_else raw.methods [];
      match = match_of;
      target = or_else raw.target [];
      backend = if is_some raw.target then [] else or_else raw.backend [];
      timeout = raw.timeout;
      tls = resolve_upstream_tls raw.tls;
      headers = or_else raw.headers [];
      response = raw.response;
      strip = raw.strip;
    })

  unfoldable pub resolve_routes : HeaderEnv → Bool → List RawRoute → Decoded (List (RouteConfig P))
  resolve_routes env site_backend [] = ok []
  resolve_routes env site_backend (raw ∷ rest) = do
    route ← resolve_route env site_backend raw
    routes ← resolve_routes env site_backend rest
    ok (route ∷ routes)

  -- One round of the loop over the sites.
  unfoldable pub resolve_site : HeaderEnv → RawSite → Decoded (SiteConfig P)
  resolve_site env raw = do
    hosts ← require raw.hosts missing
    reject_if (set_nil (some hosts)) must_not_be_empty
    reject_if
        ((is_some raw.target && is_some raw.backend)
          || not (is_some raw.target || is_some raw.backend))
        not_allowed
    reject_if (set_empty raw.target) must_not_be_empty
    reject_if (set_empty raw.backend) must_not_be_empty
    reject_if (is_some raw.backend && is_some raw.timeout) not_allowed
    routes ← resolve_routes env (is_some raw.backend) raw.routes
    ok (record {
      hosts = hosts;
      target = or_else raw.target [];
      backend = or_else raw.backend [];
      timeout = raw.timeout;
      tls = resolve_upstream_tls raw.tls;
      headers = raw.headers;
      response = raw.response;
      routes = routes;
    })

  unfoldable pub resolve_sites : HeaderEnv → List RawSite → Decoded (List (SiteConfig P))
  resolve_sites env [] = ok []
  resolve_sites env (raw ∷ rest) = do
    site ← resolve_site env raw
    sites ← resolve_sites env rest
    ok (site ∷ sites)

-- config
pub record Config (P : Type 0) : Type 0 where
  pub listen : Text
  pub log : Bool
  pub request_id : Bool
  pub limit : Option RawLimit
  pub tls : Option TlsConfig
  pub trust_proxies : List Text
  pub backends : List (Text × BackendSettings)
  pub sites : List (SiteConfig P)

-- rawConfig
pub record RawConfig : Type 0 where
  pub listen : Option Text
  pub log : Bool
  pub request_id : Bool
  pub limit : Option RawLimit
  pub tls : Option TlsConfig
  pub trust_proxies : List Text
  pub backends : List (Text × RawBackend)
  pub sites : Option (List RawSite)

unfoldable pub decode_sites : ConfigEnv → Json → Decoded (List RawSite)
decode_sites env v = decode_array v >>= λ items. decode_all (decode_site env) items

unfoldable pub decode_root : ConfigEnv → Json → Decoded RawConfig
decode_root env v = do
  fields ← decode_struct v
  listen ← optional decode_string (unless_null (field_of (text "listen") fields))
  log ← optional decode_bool (field_of (text "log") fields)
  request_id ← optional decode_bool (field_of (text "id") fields)
  limit ← optional decode_limit (field_of (text "limit") fields)
  tls ← optional decode_tls (field_of (text "tls") fields)
  trust_proxies ← optional decode_string_array (field_of (text "trustProxies") fields)
  backends ← optional (decode_backends env) (field_of (text "backends") fields)
  sites ← optional (decode_sites env) (unless_null (field_of (text "sites") fields))
  ok (record {
    listen = listen;
    log = or_else log false;
    request_id = or_else request_id false;
    limit = limit;
    tls = tls;
    trust_proxies = or_else trust_proxies [];
    backends = or_else backends [];
    sites = sites;
  })

-- The part of decodeConfig after the decoder.
unfoldable pub resolve_config :
    {P : Type 0} → (List Text → Decoded (List P)) → HeaderEnv → RawConfig → Decoded (Config P)
resolve_config parse_prefixes env raw = do
  listen ← require raw.listen missing
  reject_if (is_empty (trim_space listen)) must_not_be_empty
  raw_sites ← require raw.sites missing
  reject_if (set_nil (some raw_sites)) must_not_be_empty
  backends ← resolve_backends raw.backends
  sites ← resolve_sites parse_prefixes env raw_sites
  ok (record {
    listen = listen;
    log = raw.log;
    request_id = raw.request_id;
    limit = raw.limit;
    tls = raw.tls;
    trust_proxies = raw.trust_proxies;
    backends = backends;
    sites = sites;
  })

-- decodeConfig, on a document whose keys have been checked
unfoldable pub decode_config :
    {P : Type 0}
    → ConfigEnv
    → (List Text → Decoded (List P))
    → HeaderEnv
    → Json
    → Decoded (Config P)
decode_config env parse_prefixes headers v =
    decode_root env v >>= λ raw. resolve_config parse_prefixes headers raw
