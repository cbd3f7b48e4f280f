-- ===== src/Config/Tests.antt =====
-- config.go: a small configuration, decoded.
use kubio.Prelude.{◌≡◌, refl, false, none, some, List, [], ◌∷◌, ok}
use kubio.Prelude.Int.{pos}
use kubio.Text.{Text, text, trim_space}
use kubio.Headers.{HeaderEnv}
use kubio.Config.Json.{Json, number, str, array, object, Items, end, item, close, entry, field_of}
use kubio.Config.Values.{Decoded}
use kubio.Config.Objects.{ConfigEnv}
use kubio.Config.Backends.{unless_null, BackendSettings}
use kubio.Config.Sites.{empty_policy}
use kubio.Config.Decode.{Config, decode_config}
use kubio.Text.{text_eq}
use kubio.Config.Values.{
  decode_string, decode_object, decode_int, int_of, digits, decode_string_array, decode_int_array,
}
use kubio.Config.Objects.{decode_limit, resolve_upstream_tls}
use kubio.Config.Backends.{
  decode_backends, decode_backend, resolve_backends, resolve_backend, resolve_weights,
  resolve_tries, resolve_retry, check_methods,
}
use kubio.Config.Retry.{decode_retry}
use kubio.Config.Sites.{decode_struct, decode_routes, decode_route, decode_array, decode_site}
use kubio.Config.Decode.{
  decode_root, decode_sites, resolve_config, resolve_sites, resolve_site, resolve_routes,
  resolve_route, resolve_respond, uses_backend, resolve_match,
}
use kubio.Backend.Schedule.{validate_target_weights, validate_weights_from}
use kubio.Backend.Retryable.{validate_retry_statuses, validate_statuses_from}
use kubio.Prelude.Int.{◌+ℤ◌, ◌-ℤ◌}
use kubio.Config.Whole.{IsConfig, decode_config-IsConfig}

abbrev env : ConfigEnv
env = record {
  parse_duration = λ s. some (pos 1_000);
  parse_request_uri = λ s. some (s, false);
  address_zone = λ s. none;
}

abbrev headers : HeaderEnv
headers = record { canonical = λ s. s; lookup = λ s. none }

abbrev no_prefixes : List Text → Decoded (List Text)
no_prefixes prefixes = ok prefixes

abbrev strings : List Text → Items
strings [] = end
strings (s ∷ rest) = item (str s) (strings rest)

abbrev pool : Json
pool = object (
    entry (text "targets") (array (strings (text "http://a" ∷ text "http://b" ∷ []))) (
      entry (text "weights") (array (item (number (text "3")) (item (number (text "1")) end))) (
        entry (text "tries") (number (text "2")) (
          entry (text "retry")
            (object (entry (text "status") (array (item (number (text "503")) end)) close))
            close))))

abbrev web : Json
web = object (
    entry (text "hosts") (array (strings (text "a.example" ∷ []))) (
      entry (text "backend") (str (text "pool")) (
        entry (text "routes")
          (array (item (object (entry (text "path") (str (text "/api/*")) close)) end)) close)))

abbrev document : Json
document = object (
    entry (text "listen") (str (text ":80")) (
      entry (text "limit")
        (object (
          entry (text "rate") (number (text "10"))
            (entry (text "burst") (number (text "20")) close)))
        (entry (text "backends") (object (entry (text "pool") pool close))
          (entry (text "sites") (array (item web end)) close))))

abbrev pool_settings : BackendSettings
pool_settings = record {
  targets = text "http://a" ∷ text "http://b" ∷ [];
  weights = some (pos 3 ∷ pos 1 ∷ []);
  tries = pos 2;
  dial = 0;
  header = 0;
  tls = none;
  health = none;
  retry = some (record {
    status = pos 503 ∷ [];
    methods = none;
    body = none;
    backoff = none;
    deadline = 0;
    budget = none;
  });
}

abbrev configuration : Config Text
configuration = record {
  listen = text ":80";
  log = false;
  request_id = false;
  limit = some (record { rate = pos 10; burst = pos 20 });
  tls = none;
  trust_proxies = [];
  backends = (text "pool", pool_settings) ∷ [];
  sites =
      record {
        hosts = text "a.example" ∷ [];
        target = [];
        backend = text "pool";
        timeout = none;
        tls = none;
        headers = [];
        response = empty_policy;
        routes =
            record {
              path = text "/api/*";
              rewrite = [];
              respond = none;
              methods = [];
              match = none;
              target = [];
              backend = [];
              timeout = none;
              tls = none;
              headers = [];
              response = empty_policy;
              strip = false;
            }
            ∷ [];
      }
      ∷ [];
}

decoded : decode_config env no_prefixes headers document ≡ ok configuration
unfolding decode_config unless_null field_of text_eq trim_space decode_string decode_object
    decode_int int_of digits decode_string_array decode_int_array decode_limit resolve_upstream_tls
    decode_backends decode_backend resolve_backends resolve_backend resolve_weights resolve_tries
    resolve_retry check_methods decode_retry decode_struct decode_routes decode_route decode_array
    decode_site decode_root decode_sites resolve_config resolve_sites resolve_site resolve_routes
    resolve_route resolve_respond uses_backend resolve_match validate_target_weights
    validate_weights_from validate_retry_statuses validate_statuses_from ◌+ℤ◌ ◌-ℤ◌
decoded = refl

decode_config-IsConfig_example : IsConfig configuration
decode_config-IsConfig_example =
    decode_config-IsConfig env no_prefixes headers document configuration decoded
