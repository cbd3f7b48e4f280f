-- ===== src/Config/Objects.antt =====
-- config.go: the UnmarshalJSON methods of the objects in a configuration, and the values that
-- decodeConfig makes of them. The keys have been checked against the schema. A duration that is not
-- set is 0, as in the code. url.ParseRequestURI, time.ParseDuration and netip.ParseAddr are parameters.
use kubio.Prelude.{
  ℕ, ◌*◌, Bool, false, ◌&&◌, ◌||◌, not, Option, none, some, List, [], ◌∷◌, ltb, leb, ◌==◌,
  if◌then◌else◌, all, length, ok, err, ◌>>=◌, ◌>>◌, reject_if, get_or,
}
use kubio.Prelude.Int.{ℤ, pos, ltb_ℤ}
use kubio.Text.{Text, text, is_empty, has_suffix, contains_byte, split_byte, is_some, or_else}
use kubio.Headers.{is_empty_list, is_letter, is_digit}
use kubio.Config.Json.{Json, field_of}
use kubio.Config.Values.{
  ConfigError, missing, out_of_range, must_not_be_empty, not_allowed, Decoded, optional,
  decode_string, decode_int, decode_duration, decode_object,
}

abbrev pub max_retry_body_bytes : ℕ
max_retry_body_bytes = 64 * 1_048_576

abbrev pub max_retry_budget : ℕ
max_retry_budget = 1_000_000

abbrev pub max_health_failures : ℕ
max_health_failures = 1_000

-- 24 hours: maxHealthCooldown, maxHealthProbeDuration, maxDirectTimeout
abbrev pub one_day : ℕ
one_day = 24 * 3_600_000_000_000

abbrev pub max_health_probe_path_bytes : ℕ
max_health_probe_path_bytes = 2_048

abbrev pub max_generated_body_bytes : ℕ
max_generated_body_bytes = 64 * 1_048_576

abbrev pub max_limit_rate : ℕ
max_limit_rate = 1_000_000

abbrev pub max_limit_burst : ℕ
max_limit_burst = 1_000_000

-- The library functions that the decoding uses. A parsed target is its path and query, and whether
-- it is absolute or has a host, a fragment or an opaque part; an address has a zone or not.
pub record ConfigEnv : Type 0 where
  pub parse_duration : Text → Option ℤ
  pub parse_request_uri : Text → Option (Text × Bool)
  pub address_zone : Text → Option Bool

abbrev pub require {ℓ} : {A : Type ℓ} → Option A → ConfigError → Decoded A
require none e = err e
require (some a) e = ok a

abbrev pub outside : ℤ → ℕ → ℕ → Bool
outside n low high = ltb_ℤ n (pos low) || ltb_ℤ (pos high) n

abbrev pub set_empty : Option Text → Bool
set_empty none = false
set_empty (some s) = is_empty s

abbrev pub set_nil {ℓ} : {A : Type ℓ} → Option (List A) → Bool
set_nil none = false
set_nil (some xs) = is_empty_list xs

abbrev pub or_zero : Option ℕ → ℕ
or_zero none = 0
or_zero (some d) = d

abbrev pub above : Option ℕ → ℕ → Bool
above none limit = false
above (some d) limit = ltb limit d

-- rawLimit
pub record RawLimit : Type 0 where
  pub rate : ℤ
  pub burst : ℤ

unfoldable pub decode_limit : Json → Decoded RawLimit
decode_limit v = do
  fields ← decode_object v
  set_rate ← optional decode_int (field_of (text "rate") fields)
  set_burst ← optional decode_int (field_of (text "burst") fields)
  rate ← require set_rate missing
  burst ← require set_burst missing
  reject_if (outside rate 1 max_limit_rate) out_of_range
  reject_if (outside burst 1 max_limit_burst) out_of_range
  ok (record { rate = rate; burst = burst })

-- rawTLSConfig
pub record TlsConfig : Type 0 where
  pub cert : Text
  pub key : Text

unfoldable pub decode_tls : Json → Decoded TlsConfig
decode_tls v = do
  fields ← decode_object v
  set_cert ← optional decode_string (field_of (text "cert") fields)
  set_key ← optional decode_string (field_of (text "key") fields)
  cert ← require set_cert missing
  reject_if (is_empty cert) must_not_be_empty
  key ← require set_key missing
  reject_if (is_empty key) must_not_be_empty
  ok (record { cert = cert; key = key })

-- The labels of validateUpstreamServerName.
unfoldable pub valid_server_label : Text → Bool
valid_server_label [] = false
valid_server_label (c ∷ s) =
    leb (length (c ∷ s)) 63
    && not (c == b'-')
    && not (get_or (c ∷ s) (length s) 0 == b'-')
    && all (λ b. is_letter b || is_digit b || b == b'-') (c ∷ s)

-- validateUpstreamServerName: whether the name is accepted.
unfoldable pub valid_upstream_server_name : ConfigEnv → Text → Bool
valid_upstream_server_name env name = elim (env.address_zone name) [
  | some zone ↦ not (zone || contains_byte name b'%')
  | none ↦
      not (ltb 253 (length name) || has_suffix name (text "."))
      && all valid_server_label (split_byte name b'.')
]

-- rawUpstreamTLS
pub record RawUpstreamTls : Type 0 where
  pub ca : Option Text
  pub name : Option Text
  pub cert : Option Text
  pub key : Option Text

abbrev pub bad_name : ConfigEnv → Option Text → Bool
bad_name env none = false
bad_name env (some name) = not (valid_upstream_server_name env name)

unfoldable pub decode_upstream_tls : ConfigEnv → Json → Decoded RawUpstreamTls
decode_upstream_tls env v = do
  fields ← decode_object v
  ca ← optional decode_string (field_of (text "ca") fields)
  name ← optional decode_string (field_of (text "name") fields)
  cert ← optional decode_string (field_of (text "cert") fields)
  key ← optional decode_string (field_of (text "key") fields)
  reject_if (not (is_some ca || is_some name || is_some cert || is_some key)) missing
  reject_if (set_empty ca) must_not_be_empty
  reject_if (set_empty name) must_not_be_empty
  reject_if (bad_name env name) not_allowed
  reject_if (not (is_some cert && is_some key) && (is_some cert || is_some key)) not_allowed
  reject_if (set_empty cert) must_not_be_empty
  reject_if (set_empty key) must_not_be_empty
  ok (record { ca = ca; name = name; cert = cert; key = key })

-- decodeUpstreamTLS, the paths of an unset field being empty
pub record UpstreamTls : Type 0 where
  pub ca_path : Text
  pub server_name : Text
  pub cert_path : Text
  pub key_path : Text

unfoldable pub resolve_upstream_tls : Option RawUpstreamTls → Option UpstreamTls
resolve_upstream_tls none = none
resolve_upstream_tls (some raw) = some (record {
  ca_path = or_else raw.ca [];
  server_name = or_else raw.name [];
  cert_path = or_else raw.cert [];
  key_path = if is_some raw.cert then or_else raw.key [] else [];
})

-- rawBackendTimeout
pub record RawTimeout : Type 0 where
  pub dial : Option ℕ
  pub header : Option ℕ

unfoldable pub decode_backend_timeout : ConfigEnv → Json → Decoded RawTimeout
decode_backend_timeout env v = do
  fields ← decode_object v
  dial ← optional (decode_duration env.parse_duration) (field_of (text "dial") fields)
  header ← optional (decode_duration env.parse_duration) (field_of (text "header") fields)
  reject_if (not (is_some dial || is_some header)) missing
  ok (record { dial = dial; header = header })

-- rawDirectTimeout with decodeDirectTimeout
pub record DirectTimeout : Type 0 where
  pub dial : ℕ
  pub header : ℕ
  pub body : ℕ

unfoldable pub decode_direct_timeout : ConfigEnv → Json → Decoded DirectTimeout
decode_direct_timeout env v = do
  fields ← decode_object v
  dial ← optional (decode_duration env.parse_duration) (field_of (text "dial") fields)
  header ← optional (decode_duration env.parse_duration) (field_of (text "header") fields)
  body ← optional (decode_duration env.parse_duration) (field_of (text "body") fields)
  reject_if (not (is_some dial || is_some header || is_some body)) missing
  reject_if (above dial one_day) out_of_range
  reject_if (above header one_day) out_of_range
  reject_if (above body one_day) out_of_range
  ok (record { dial = or_zero dial; header = or_zero header; body = or_zero body })
