-- ===== src/Config/Sites.antt =====
-- config.go: the sites and routes of decodeConfig. netip.Prefix is a parameter.
use kubio.Prelude.{
  Bool, false, ◌&&◌, ◌||◌, not, Option, List, [], ltb, length, ok, err, ◌>>=◌, ◌>>◌, reject_if,
}
use kubio.Prelude.Int.{ℤ}
use kubio.Text.{Text, text, is_empty, is_some, or_else}
use kubio.Headers.{is_empty_list, ResponseHeaderPolicy}
use kubio.Config.Json.{Json, Fields, field_of, items_of, null, array, object}
use kubio.Config.Values.{
  missing, out_of_range, must_not_be_empty, must_be_array, must_be_object, not_allowed, Decoded,
  optional, decode_string, decode_string_array, decode_int, decode_bool, decode_object, decode_all,
  decode_header_map, decode_header_values, decode_respond_headers, decode_condition_values,
}
use kubio.Config.Objects.{
  ConfigEnv, require, outside, set_nil, RawUpstreamTls, decode_upstream_tls, DirectTimeout,
  decode_direct_timeout, max_generated_body_bytes,
}
use kubio.Config.Backends.{unless_null}

-- rawRespond
pub record RawRespond : Type 0 where
  pub status : ℤ
  pub body : Text
  pub headers : List (Text × List Text)

abbrev pub is_bodyless : ℤ → Bool
is_bodyless status = not (outside status 204 205) || not (outside status 304 304)

unfoldable pub decode_respond : Json → Decoded RawRespond
decode_respond v = do
  fields ← decode_object v
  set_status ← optional decode_int (field_of (text "status") fields)
  set_body ← optional decode_string (field_of (text "body") fields)
  headers ← optional decode_respond_headers (field_of (text "headers") fields)
  status ← require set_status missing
  reject_if (outside status 200 599) out_of_range
  reject_if (ltb max_generated_body_bytes (length (or_else set_body []))) out_of_range
  reject_if (is_bodyless status && not (is_empty (or_else set_body []))) not_allowed
  ok (record { status = status; body = or_else set_body []; headers = or_else headers [] })

-- rawRouteMatch
pub record RawRouteMatch : Type 0 where
  pub header : Option (List (Text × List Text))
  pub query : Option (List (Text × List Text))
  pub ip : Option (List Text)

unfoldable pub decode_route_match : Json → Decoded RawRouteMatch
decode_route_match v = do
  fields ← decode_object v
  header ← optional decode_condition_values (field_of (text "header") fields)
  query ← optional decode_condition_values (field_of (text "query") fields)
  ip ← optional decode_string_array (field_of (text "ip") fields)
  reject_if (not (is_some header || is_some query || is_some ip)) missing
  reject_if (set_nil header) must_not_be_empty
  reject_if (set_nil query) must_not_be_empty
  reject_if (set_nil ip) must_not_be_empty
  ok (record { header = header; query = query; ip = ip })

-- responseHeaderPolicy
unfoldable pub decode_policy : Json → Decoded ResponseHeaderPolicy
decode_policy v = do
  fields ← decode_object v
  set ← optional decode_header_values (field_of (text "set") fields)
  add ← optional decode_header_values (field_of (text "add") fields)
  remove ← optional decode_string_array (field_of (text "remove") fields)
  reject_if (not (is_some set || is_some add || is_some remove)) missing
  reject_if (set_nil set) must_not_be_empty
  reject_if (set_nil add) must_not_be_empty
  reject_if (set_nil remove) must_not_be_empty
  ok (record {
    set_values = or_else set [];
    add_values = or_else add [];
    remove_names = or_else remove [];
  })

abbrev pub empty_policy : ResponseHeaderPolicy
empty_policy = record { set_values = []; add_values = []; remove_names = [] }

-- emptyResponseHeaderPolicy
unfoldable pub is_empty_policy : ResponseHeaderPolicy → Bool
is_empty_policy policy =
    is_empty_list policy.set_values
    && is_empty_list policy.add_values
    && is_empty_list policy.remove_names

-- rawRouteConfig
pub record RawRoute : Type 0 where
  pub path : Option Text
  pub rewrite : Option Text
  pub respond : Option RawRespond
  pub methods : Option (List Text)
  pub match : Option RawRouteMatch
  pub target : Option Text
  pub backend : Option Text
  pub timeout : Option DirectTimeout
  pub tls : Option RawUpstreamTls
  pub headers : Option (List (Text × Text))
  pub response : ResponseHeaderPolicy
  pub strip : Bool

-- A null in the array of routes is the zero value, whose path is not set.
unfoldable pub decode_struct : Json → Decoded Fields
decode_struct null = ok Fields.close
decode_struct (object fields) = ok fields
decode_struct (array items) = err must_be_object
decode_struct (Json.str s) = err must_be_object
decode_struct (Json.number n) = err must_be_object
decode_struct (Json.boolean b) = err must_be_object

unfoldable pub decode_route : ConfigEnv → Json → Decoded RawRoute
decode_route env v = do
  fields ← decode_struct v
  path ← optional decode_string (unless_null (field_of (text "path") fields))
  rewrite ← optional decode_string (field_of (text "rewrite") fields)
  respond ← optional decode_respond (field_of (text "respond") fields)
  methods ← optional decode_string_array (field_of (text "methods") fields)
  match_of ← optional decode_route_match (field_of (text "match") fields)
  target ← optional decode_string (field_of (text "target") fields)
  backend ← optional decode_string (field_of (text "backend") fields)
  timeout ← optional (decode_direct_timeout env) (field_of (text "timeout") fields)
  tls ← optional (decode_upstream_tls env) (field_of (text "tls") fields)
  headers ← optional decode_header_map (field_of (text "headers") fields)
  response ← optional decode_policy (field_of (text "response") fields)
  strip ← optional decode_bool (field_of (text "strip") fields)
  ok (record {
    path = path;
    rewrite = rewrite;
    respond = respond;
    methods = methods;
    match = match_of;
    target = target;
    backend = backend;
    timeout = timeout;
    tls = tls;
    headers = headers;
    response = or_else response empty_policy;
    strip = or_else strip false;
  })

unfoldable pub decode_array : Json → Decoded (List Json)
decode_array (array items) = ok (items_of items)
decode_array null = err must_be_array
decode_array (object fields) = err must_be_array
decode_array (Json.str s) = err must_be_array
decode_array (Json.number n) = err must_be_array
decode_array (Json.boolean b) = err must_be_array

-- rawSiteConfig, its routes from rawRoutes
pub record RawSite : Type 0 where
  pub hosts : Option (List Text)
  pub target : Option Text
  pub backend : Option Text
  pub timeout : Option DirectTimeout
  pub tls : Option RawUpstreamTls
  pub headers : List (Text × Text)
  pub response : ResponseHeaderPolicy
  pub routes : List RawRoute

unfoldable pub decode_routes : ConfigEnv → Json → Decoded (List RawRoute)
decode_routes env v = decode_array v >>= λ items. decode_all (decode_route env) items

unfoldable pub decode_site : ConfigEnv → Json → Decoded RawSite
decode_site env v = do
  fields ← decode_struct v
  hosts ← optional decode_string_array (unless_null (field_of (text "hosts") fields))
  target ← optional decode_string (field_of (text "target") fields)
  backend ← optional decode_string (field_of (text "backend") fields)
  timeout ← optional (decode_direct_timeout env) (field_of (text "timeout") fields)
  tls ← optional (decode_upstream_tls env) (field_of (text "tls") fields)
  headers ← optional decode_header_map (field_of (text "headers") fields)
  response ← optional decode_policy (field_of (text "response") fields)
  routes ← optional (decode_routes env) (field_of (text "routes") fields)
  ok (record {
    hosts = hosts;
    target = target;
    backend = backend;
    timeout = timeout;
    tls = tls;
    headers = or_else headers [];
    response = or_else response empty_policy;
    routes = or_else routes [];
  })
