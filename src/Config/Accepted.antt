-- ===== src/Config/Accepted.antt =====
-- What resolve_backend and resolve_config guarantee of the backends that they accept.
use kubio.Prelude.{
  ℕ, ◌≤◌, ◌<◌, ◌≡◌, refl, ap, ◌∙◌, subst, false, Option, none, some, List, [], ◌∷◌, map, arith, ok,
  ◌>>=◌, length, All, bound, ok-injective,
}
use kubio.Prelude.Int.{ℤ, pos_part}
use kubio.Text.{Text, text}
use kubio.Backend.Schedule.{validate_target_weights}
use kubio.Backend.Retryable.{validate_retry_statuses}
use kubio.Headers.{is_empty_list, validate_retry_methods}
use kubio.Config.Json.{Json, Fields, field_of, fields_of}
use kubio.Config.Values.{Decoded, optional, decode_object, decode_entries}
use kubio.Config.Objects.{ConfigEnv, max_retry_body_bytes}
use kubio.Config.Retry.{RawRetry, decode_retry, BackendHealth, decode_health}
use kubio.Config.Backends.{
  RawBackend, decode_backend, decode_backends, RetrySettings, BackendSettings, resolve_tries,
  resolve_weights, check_methods, resolve_retry, resolve_backend, resolve_backends,
}
use kubio.Config.Checked.{
  Between, Every, IsBackoff, IsBudget, IsHealth, IsRawRetry, decode_retry-IsRawRetry,
  decode_health-IsHealth, optional_every,
}

-- The settings of retries fit the tries, and each of them is in its range.
abbrev pub IsRetry : ℤ → RetrySettings → Type 0
IsRetry tries r =
    (2 ≤ pos_part tries)
    × (validate_retry_statuses (map pos_part r.status) ≡ ok tt)
    × Every (λ methods. validate_retry_methods methods ≡ ok tt) r.methods
    × Every (Between 1 max_retry_body_bytes) r.body
    × Every IsBackoff r.backoff
    × Every IsBudget r.budget

-- A backend has a target, its tries are at most its targets, its weights are accepted, and its
-- settings of retries and of health are in their ranges.
abbrev pub IsBackend : BackendSettings → Type 0
IsBackend b =
    (0 < length b.targets)
    × Between 1 (length b.targets) b.tries
    × Every (λ weights. validate_target_weights weights (length b.targets) ≡ ok tt) b.weights
    × Every (IsRetry b.tries) b.retry
    × Every IsHealth b.health

abbrev pub IsRawBackend : RawBackend → Type 0
IsRawBackend raw = Every IsRawRetry raw.retry × Every IsHealth raw.health

optional-IsRawRetry :
    (env : ConfigEnv) (o : Option Json) (r : RawRetry)
    → optional (decode_retry env) o ≡ ok (some r)
    → IsRawRetry r
optional-IsRawRetry env = optional_every IsRawRetry (decode_retry env) (decode_retry-IsRawRetry env)

optional-IsHealth :
    (env : ConfigEnv) (o : Option Json) (h : BackendHealth)
    → optional (decode_health env) o ≡ ok (some h)
    → IsHealth h
optional-IsHealth env = optional_every IsHealth (decode_health env) (decode_health-IsHealth env)

-- The settings of retries and of health in an object.
object_settings :
    (env : ConfigEnv) (fields : Fields) (raw : RawBackend)
    → decode_backend env (Json.object fields) ≡ ok raw
    → (optional (decode_retry env) (field_of (text "retry") fields) ≡ ok raw.retry)
      × (optional (decode_health env) (field_of (text "health") fields) ≡ ok raw.health)
unfolding decode_backend decode_object
object_settings env fields raw h = (ground arith, ground arith)

decode_backend-IsRawBackend :
    (env : ConfigEnv) (v : Json) (raw : RawBackend)
    → decode_backend env v ≡ ok raw
    → IsRawBackend raw
unfolding decode_backend decode_object
decode_backend-IsRawBackend env (Json.object fields) raw h =
    let (retry, health) = object_settings env fields raw h in
    (
      (λ r e. optional-IsRawRetry env (field_of (text "retry") fields) r (retry ∙ ap ok e)),
      λ x e. optional-IsHealth env (field_of (text "health") fields) x (health ∙ ap ok e),
    )
decode_backend-IsRawBackend env (Json.array items) raw h = absurd cc
decode_backend-IsRawBackend env (Json.str s) raw h = absurd cc
decode_backend-IsRawBackend env (Json.number s) raw h = absurd cc
decode_backend-IsRawBackend env (Json.boolean s) raw h = absurd cc
decode_backend-IsRawBackend env Json.null raw h = absurd cc

resolve_tries-Between :
    (set_tries : Option ℤ) (targets : ℕ) (tries : ℤ)
    → 0 < targets
    → resolve_tries set_tries targets ≡ ok tries
    → Between 1 targets tries
unfolding resolve_tries
resolve_tries-Between none targets tries p h = (ground arith, ground arith, ground arith)
resolve_tries-Between (some n) targets tries p h = (ground arith, ground arith, ground arith)

resolve_weights_lem :
    (raw set_weights : Option (List ℤ)) (targets : ℕ)
    → resolve_weights raw targets ≡ ok set_weights
    → Every (λ weights. validate_target_weights weights targets ≡ ok tt) set_weights
unfolding resolve_weights
resolve_weights_lem none w targets h = λ ws e. absurd cc
resolve_weights_lem (some raw) w targets h = λ ws e. ground arith

check_methods_lem :
    (methods : Option (List Text))
    → check_methods methods ≡ ok tt
    → Every (λ m. validate_retry_methods m ≡ ok tt) methods
unfolding check_methods
check_methods_lem none h = λ m e. absurd cc
check_methods_lem (some methods) h = λ m e. ground arith

resolve_retry-IsRetry :
    (raw : Option RawRetry) (set_tries : Option ℤ) (tries : ℤ) (retry : Option RetrySettings)
    → Every IsRawRetry raw
    → resolve_retry raw set_tries tries ≡ ok retry
    → Every (IsRetry tries) retry
unfolding resolve_retry
resolve_retry-IsRetry none set_tries tries retry p h = λ r e. absurd cc
resolve_retry-IsRetry (some raw) set_tries tries retry p h = λ r e.
    let (body, backoff, budget, deadline) = p raw refl in
    (
      ground arith,
      ground arith,
      (λ m e'. grind (arith, check_methods_lem)),
      (λ m e'. body m (ground arith)),
      (λ m e'. backoff m (ground arith)),
      λ m e'. budget m (ground arith),
    )

pub positive_length : {A : Type 0} (xs : List A) → is_empty_list xs ≡ false → 0 < length xs
positive_length [] h = absurd cc
positive_length (x ∷ xs) h = omega arith

resolve_backend-IsBackend :
    (name : Text) (raw : RawBackend) (b : BackendSettings)
    → IsRawBackend raw
    → resolve_backend name raw ≡ ok b
    → IsBackend b
unfolding resolve_backend
resolve_backend-IsBackend name raw b (retry, health) h = (
  grind (arith, positive_length),
  (
    grind (arith, resolve_tries-Between),
    grind (arith, resolve_tries-Between),
    grind (arith, resolve_tries-Between),
  ),
  (λ w e. grind (arith, resolve_weights_lem)),
  (λ r e. resolve_retry-IsRetry raw.retry raw.tries b.tries b.retry retry (ground arith) r e),
  λ x e. health x (ground arith),
)

pub resolve_backends-IsBackend :
    (raw : List (Text × RawBackend)) (backends : List (Text × BackendSettings))
    → All (λ entry. IsRawBackend entry.1) raw
    → resolve_backends raw ≡ ok backends
    → All (λ entry. IsBackend entry.1) backends
unfolding resolve_backends
resolve_backends-IsBackend [] backends p h =
    subst (All (λ entry. IsBackend entry.1)) (ok-injective [] _ h) tt
resolve_backends-IsBackend ((name, raw) ∷ rest) backends (first, p) h =
    let (b, e, h1) =
      bound (resolve_backend name raw)
        (λ b. resolve_backends rest >>= λ more. ok ((name, b) ∷ more)) backends h in
    let (more, e2, h2) =
      bound (resolve_backends rest) (λ more. ok ((name, b) ∷ more)) backends h1 in
    subst (All (λ entry. IsBackend entry.1)) (ok-injective _ _ h2)
      (resolve_backend-IsBackend name raw b first e, resolve_backends-IsBackend rest more p e2)

decode_entries_every :
    {A : Type 0} (P : A → Type 0) (decode : Json → Decoded A)
    → ((v : Json) (a : A) → decode v ≡ ok a → P a)
    → (fields : List (Text × Json)) (entries : List (Text × A))
    → decode_entries decode fields ≡ ok entries
    → All (λ entry. P entry.1) entries
decode_entries_every P decode good [] entries h =
    subst (All (λ entry. P entry.1)) (ok-injective [] _ h) tt
decode_entries_every P decode good ((key, v) ∷ rest) entries h =
    let (a, e, h1) =
      bound (decode v) (λ a. decode_entries decode rest >>= λ more. ok ((key, a) ∷ more)) entries
        h in
    let (more, e2, h2) =
      bound (decode_entries decode rest) (λ more. ok ((key, a) ∷ more)) entries h1 in
    subst (All (λ entry. P entry.1)) (ok-injective _ _ h2)
      (good v a e, decode_entries_every P decode good rest more e2)

pub decode_backends-IsRawBackend :
    (env : ConfigEnv) (v : Json) (raw : List (Text × RawBackend))
    → decode_backends env v ≡ ok raw
    → All (λ entry. IsRawBackend entry.1) raw
unfolding decode_backends
decode_backends-IsRawBackend env v raw h =
    let (fields, e, h1) =
      bound (decode_object v) (λ fields. decode_entries (decode_backend env) (fields_of fields)) raw
        h in
    decode_entries_every IsRawBackend (decode_backend env) (decode_backend-IsRawBackend env)
      (fields_of fields) raw h1
