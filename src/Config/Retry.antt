-- ===== src/Config/Retry.antt =====
-- config.go: the UnmarshalJSON methods of a backend's retry and health.
use kubio.Prelude.{
  ℕ, Bool, ◌&&◌, ◌||◌, not, Option, some, List, ltb, leb, ◌==◌, any, length, ok, ◌>>=◌, ◌>>◌,
  reject_if,
}
use kubio.Prelude.Int.{ℤ}
use kubio.Text.{Text, text, text_eq, is_empty, has_prefix, contains_byte, or_else}
use kubio.Config.Json.{Json, field_of}
use kubio.Config.Values.{
  missing, out_of_range, must_not_be_empty, not_allowed, Decoded, optional, decode_string,
  decode_string_array, decode_int, decode_int_array, decode_duration, decode_object,
}
use kubio.Config.Objects.{
  ConfigEnv, require, outside, set_nil, above, max_retry_body_bytes, max_retry_budget,
  max_health_failures, one_day, max_health_probe_path_bytes,
}

-- rawBackendBody: the limit
unfoldable pub decode_retry_body : Json → Decoded ℤ
decode_retry_body v = do
  fields ← decode_object v
  set_max ← optional decode_int (field_of (text "max") fields)
  max ← require set_max missing
  reject_if (outside max 1 max_retry_body_bytes) out_of_range
  ok max

-- backendBudgetConfig
pub record RetryBudgetConfig : Type 0 where
  pub max : ℤ
  pub window : ℕ

-- rawBackendBudget
unfoldable pub decode_retry_budget : ConfigEnv → Json → Decoded RetryBudgetConfig
decode_retry_budget env v = do
  fields ← decode_object v
  set_max ← optional decode_int (field_of (text "max") fields)
  set_window ← optional (decode_duration env.parse_duration) (field_of (text "window") fields)
  max ← require set_max missing
  reject_if (outside max 1 max_retry_budget) out_of_range
  window ← require set_window missing
  ok (record { max = max; window = window })

-- backendBackoffConfig
pub record RetryBackoff : Type 0 where
  pub base : ℕ
  pub cap : ℕ
  pub jitter : Bool

-- rawBackendBackoff
unfoldable pub decode_retry_backoff : ConfigEnv → Json → Decoded RetryBackoff
decode_retry_backoff env v = do
  fields ← decode_object v
  set_base ← optional (decode_duration env.parse_duration) (field_of (text "base") fields)
  set_cap ← optional (decode_duration env.parse_duration) (field_of (text "cap") fields)
  set_jitter ← optional decode_string (field_of (text "jitter") fields)
  base ← require set_base missing
  cap ← require set_cap missing
  reject_if (ltb cap base) out_of_range
  reject_if
      (not (text_eq (or_else set_jitter (text "none")) (text "none"))
        && not (text_eq (or_else set_jitter (text "none")) (text "full")))
      not_allowed
  ok (record {
    base = base;
    cap = cap;
    jitter = text_eq (or_else set_jitter (text "none")) (text "full");
  })

-- rawBackendRetry
pub record RawRetry : Type 0 where
  pub status : List ℤ
  pub methods : Option (List Text)
  pub body : Option ℤ
  pub backoff : Option RetryBackoff
  pub deadline : Option ℕ
  pub budget : Option RetryBudgetConfig

unfoldable pub decode_retry : ConfigEnv → Json → Decoded RawRetry
decode_retry env v = do
  fields ← decode_object v
  set_status ← optional decode_int_array (field_of (text "status") fields)
  methods ← optional decode_string_array (field_of (text "methods") fields)
  body ← optional decode_retry_body (field_of (text "body") fields)
  backoff ← optional (decode_retry_backoff env) (field_of (text "backoff") fields)
  deadline ← optional (decode_duration env.parse_duration) (field_of (text "deadline") fields)
  budget ← optional (decode_retry_budget env) (field_of (text "budget") fields)
  status ← require set_status missing
  reject_if (set_nil (some status)) must_not_be_empty
  ok (record {
    status = status;
    methods = methods;
    body = body;
    backoff = backoff;
    deadline = deadline;
    budget = budget;
  })

-- parseHealthProbePath: the target as it parses, whose second part tells of a scheme, a host, a
-- fragment or an opaque part.
unfoldable pub parse_health_probe_path : ConfigEnv → Text → Decoded Text
parse_health_probe_path env raw = do
  reject_if (is_empty raw) must_not_be_empty
  reject_if (ltb max_health_probe_path_bytes (length raw)) out_of_range
  reject_if
      (not (has_prefix raw (text "/")) || has_prefix raw (text "//") || contains_byte raw b'#')
      not_allowed
  reject_if (any (λ c. leb c 32 || c == 0x7f) raw) not_allowed
  parsed ← require (env.parse_request_uri raw) not_allowed
  reject_if parsed.1 not_allowed
  ok parsed.0

-- backendHealthProbeConfig
pub record ProbeConfig : Type 0 where
  pub path : Text
  pub every : ℕ
  pub timeout : ℕ

-- rawBackendHealthProbe
unfoldable pub decode_probe : ConfigEnv → Json → Decoded ProbeConfig
decode_probe env v = do
  fields ← decode_object v
  set_path ← optional decode_string (field_of (text "path") fields)
  set_every ← optional (decode_duration env.parse_duration) (field_of (text "every") fields)
  set_timeout ← optional (decode_duration env.parse_duration) (field_of (text "timeout") fields)
  raw_path ← require set_path missing
  path ← parse_health_probe_path env raw_path
  every ← require set_every missing
  reject_if (above (some every) one_day) out_of_range
  timeout ← require set_timeout missing
  reject_if (ltb every timeout) out_of_range
  ok (record { path = path; every = every; timeout = timeout })

-- rawBackendHealth and backendHealthConfig
pub record BackendHealth : Type 0 where
  pub fail : ℤ
  pub cool : ℕ
  pub probe : Option ProbeConfig

unfoldable pub decode_health : ConfigEnv → Json → Decoded BackendHealth
decode_health env v = do
  fields ← decode_object v
  set_fail ← optional decode_int (field_of (text "fail") fields)
  set_cool ← optional (decode_duration env.parse_duration) (field_of (text "cool") fields)
  probe ← optional (decode_probe env) (field_of (text "probe") fields)
  fail ← require set_fail missing
  reject_if (outside fail 1 max_health_failures) out_of_range
  cool ← require set_cool missing
  reject_if (above (some cool) one_day) out_of_range
  ok (record { fail = fail; cool = cool; probe = probe })
