-- ===== src/Config/Backends.antt =====
-- config.go: the backends of decodeConfig.
use kubio.Prelude.{
  ℕ, ◌||◌, not, Option, none, some, List, [], ◌∷◌, length, map, ok, ◌>>=◌, ◌>>◌, reject_if,
}
use kubio.Prelude.Int.{ℤ, pos, pos_part, leb_ℤ}
use kubio.Text.{Text, text, is_empty, is_some}
use kubio.Headers.{validate_retry_methods}
use kubio.Backend.Schedule.{validate_target_weights}
use kubio.Backend.Retryable.{validate_retry_statuses}
use kubio.Config.Json.{Json, field_of, fields_of, null}
use kubio.Config.Values.{
  missing, out_of_range, must_not_be_empty, not_allowed, bad_headers, bad_weights, bad_statuses,
  wrap, Decoded, optional, decode_string_array, decode_int, decode_int_array, decode_object,
  decode_entries,
}
use kubio.Config.Objects.{
  ConfigEnv, require, outside, set_nil, or_zero, RawUpstreamTls, UpstreamTls, decode_upstream_tls,
  resolve_upstream_tls, RawTimeout, decode_backend_timeout,
}
use kubio.Config.Retry.{
  RawRetry, decode_retry, RetryBackoff, RetryBudgetConfig, BackendHealth, decode_health,
}

-- rawBackendConfig
pub record RawBackend : Type 0 where
  pub targets : Option (List Text)
  pub weights : Option (List ℤ)
  pub tries : Option ℤ
  pub timeout : Option RawTimeout
  pub tls : Option RawUpstreamTls
  pub health : Option BackendHealth
  pub retry : Option RawRetry

-- The null of a field that is a pointer leaves the pointer nil.
unfoldable pub unless_null : Option Json → Option Json
unless_null none = none
unless_null (some null) = none
unless_null (some (Json.boolean b)) = some (Json.boolean b)
unless_null (some (Json.number n)) = some (Json.number n)
unless_null (some (Json.str s)) = some (Json.str s)
unless_null (some (Json.array items)) = some (Json.array items)
unless_null (some (Json.object fields)) = some (Json.object fields)

unfoldable pub decode_backend : ConfigEnv → Json → Decoded RawBackend
decode_backend env v = do
  fields ← decode_object v
  targets ← optional decode_string_array (unless_null (field_of (text "targets") fields))
  weights ← optional decode_int_array (field_of (text "weights") fields)
  tries ← optional decode_int (field_of (text "tries") fields)
  timeout ← optional (decode_backend_timeout env) (field_of (text "timeout") fields)
  tls ← optional (decode_upstream_tls env) (field_of (text "tls") fields)
  health ← optional (decode_health env) (field_of (text "health") fields)
  retry ← optional (decode_retry env) (field_of (text "retry") fields)
  ok (record {
    targets = targets;
    weights = weights;
    tries = tries;
    timeout = timeout;
    tls = tls;
    health = health;
    retry = retry;
  })

-- rawBackends
unfoldable pub decode_backends : ConfigEnv → Json → Decoded (List (Text × RawBackend))
decode_backends env v =
    decode_object v >>= λ fields. decode_entries (decode_backend env) (fields_of fields)

-- backendRetryConfig; no deadline is 0.
pub record RetrySettings : Type 0 where
  pub status : List ℤ
  pub methods : Option (List Text)
  pub body : Option ℤ
  pub backoff : Option RetryBackoff
  pub deadline : ℕ
  pub budget : Option RetryBudgetConfig

-- backendConfig; an unset duration is 0.
pub record BackendSettings : Type 0 where
  pub targets : List Text
  pub weights : Option (List ℤ)
  pub tries : ℤ
  pub dial : ℕ
  pub header : ℕ
  pub tls : Option UpstreamTls
  pub health : Option BackendHealth
  pub retry : Option RetrySettings

-- The tries of a backend: 1 where they are not set.
unfoldable pub resolve_tries : Option ℤ → ℕ → Decoded ℤ
resolve_tries none targets = ok (pos 1)
resolve_tries (some tries) targets = do reject_if (outside tries 1 targets) out_of_range; ok tries

-- The weights.
unfoldable pub resolve_weights : Option (List ℤ) → ℕ → Decoded (Option (List ℤ))
resolve_weights none targets = ok none
resolve_weights (some weights) targets = do
  wrap bad_weights (validate_target_weights weights targets)
  ok (some weights)

-- The methods that are retried.
unfoldable pub check_methods : Option (List Text) → Decoded (Unit {0})
check_methods none = ok tt
check_methods (some methods) = wrap bad_headers (validate_retry_methods methods)

-- The settings of retries. A negative status is below 400 like 0.
unfoldable pub resolve_retry : Option RawRetry → Option ℤ → ℤ → Decoded (Option RetrySettings)
resolve_retry none set_tries tries = ok none
resolve_retry (some raw) set_tries tries = do
  reject_if (not (is_some set_tries) || leb_ℤ tries (pos 1)) not_allowed
  wrap bad_statuses (validate_retry_statuses (map pos_part raw.status))
  check_methods raw.methods
  ok (
      some (record {
        status = raw.status;
        methods = raw.methods;
        body = raw.body;
        backoff = raw.backoff;
        deadline = or_zero raw.deadline;
        budget = raw.budget;
      }))

abbrev pub dial_of : Option RawTimeout → ℕ
dial_of none = 0
dial_of (some t) = or_zero t.dial

abbrev pub header_of : Option RawTimeout → ℕ
header_of none = 0
header_of (some t) = or_zero t.header

-- One round of the loop over the backends in decodeConfig.
unfoldable pub resolve_backend : Text → RawBackend → Decoded BackendSettings
resolve_backend name raw = do
  reject_if (is_empty name) must_not_be_empty
  targets ← require raw.targets missing
  reject_if (set_nil (some targets)) must_not_be_empty
  weights ← resolve_weights raw.weights (length targets)
  tries ← resolve_tries raw.tries (length targets)
  retry ← resolve_retry raw.retry raw.tries tries
  ok (record {
    targets = targets;
    weights = weights;
    tries = tries;
    dial = dial_of raw.timeout;
    header = header_of raw.timeout;
    tls = resolve_upstream_tls raw.tls;
    health = raw.health;
    retry = retry;
  })

unfoldable pub resolve_backends : List (Text × RawBackend) → Decoded (List (Text × BackendSettings))
resolve_backends [] = ok []
resolve_backends ((name, raw) ∷ rest) = do
  backend ← resolve_backend name raw
  backends ← resolve_backends rest
  ok ((name, backend) ∷ backends)
