-- ===== src/Backend/Retryable.antt =====
-- proxy.go: which requests are retried, and the statuses that a backend retries on.
use kubio.Prelude.{
  ℕ, ◌<◌, ◌≡◌, Bool, true, false, ◌&&◌, ◌||◌, not, Option, none, some, List, [], ◌∷◌, ltb, ◌==◌,
  if◌then◌else◌, any, arith, Result, ok, ◌>>◌, reject_if, Bool-cases, inl, inr, suc,
}
use kubio.Text.{Text, text, text_eq, is_empty, trim_space, split_byte, equal_fold}
use kubio.Net.{Values, values_of}

-- What the code reads of http.Request; the length -1 of an unknown body is `none`.
pub record RetryRequest : Type 0 where
  pub method : Text
  pub header : Values
  pub has_body : Bool
  pub content_length : Option ℕ
  pub transfer_encoding : List Text
  pub trailer : Values

abbrev pub is_nil {ℓ} : {A : Type ℓ} → List A → Bool
is_nil [] = true
is_nil (x ∷ xs) = false

abbrev pub is_zero : Option ℕ → Bool
is_zero none = false
is_zero (some n) = n == 0

-- upgradeRequest
unfoldable pub upgrade_request : RetryRequest → Bool
unfolding values_of trim_space split_byte equal_fold
upgrade_request r =
    any (λ value. not (is_empty (trim_space value))) (values_of (text "Upgrade") r.header)
    && any
        (λ value.
          any (λ token. equal_fold (trim_space token) (text "upgrade")) (split_byte value b','))
        (values_of (text "Connection") r.header)

-- The methods that are retried where none are configured.
unfoldable pub is_default_method : Text → Bool
unfolding text_eq
is_default_method method =
    any (text_eq method) (text "GET" ∷ text "HEAD" ∷ text "OPTIONS" ∷ text "TRACE" ∷ [])

-- retryableBodylessRequest
unfoldable pub retryable_bodyless_request : RetryRequest → Bool
retryable_bodyless_request r =
    if not (is_default_method r.method)
    then false
    else if not (is_zero r.content_length)
        || not (is_nil r.transfer_encoding)
        || not (is_nil r.trailer)
        || r.has_body
    then false
    else not (upgrade_request r)

abbrev pub is_some_list : Option (List Text) → Bool
is_some_list none = false
is_some_list (some methods) = true

-- The methods configured, or the default ones.
unfoldable pub allowed : Option (List Text) → Text → Bool
allowed none method = is_default_method method
allowed (some methods) method = any (text_eq method) methods

-- retryableBackendRequest
unfoldable pub retryable_backend_request : RetryRequest → Option (List Text) → ℕ → Bool
retryable_backend_request r methods body_max =
    if not (is_some_list methods) && body_max == 0
    then retryable_bodyless_request r
    else if text_eq r.method (text "CONNECT")
    then false
    else if not (allowed methods r.method)
    then false
    else if upgrade_request r
    then false
    else if not r.has_body
    then is_zero r.content_length && is_nil r.transfer_encoding && is_nil r.trailer
    else ltb 0 body_max && is_nil r.trailer

bodyless :
    (r : RetryRequest)
    → retryable_bodyless_request r ≡ true
    → (is_default_method r.method ≡ true)
      × (upgrade_request r ≡ false)
      × (is_nil r.trailer ≡ true)
      × (r.has_body ≡ false)
      × (is_zero r.content_length ≡ true)
      × (is_nil r.transfer_encoding ≡ true)
unfolding retryable_bodyless_request
bodyless r h = (ground arith, ground arith, ground arith, ground arith, ground arith, ground arith)

-- A request that is retried has one of the methods configured, or of the default ones where none
-- are, asks for no upgrade and has no trailer; with a body, a limit of buffered bodies is
-- configured; and without, its stated length is 0 and it has no transfer encoding.
pub retryable_backend_request-safe :
    (r : RetryRequest) (methods : Option (List Text)) (body_max : ℕ)
    → retryable_backend_request r methods body_max ≡ true
    → (allowed methods r.method ≡ true)
      × (upgrade_request r ≡ false)
      × (is_nil r.trailer ≡ true)
      × (r.has_body ≡ true → 0 < body_max)
      × (r.has_body ≡ false
          → (is_zero r.content_length ≡ true) × (is_nil r.transfer_encoding ≡ true))
unfolding retryable_backend_request allowed
retryable_backend_request-safe r none body_max h = elim (Bool-cases (body_max == 0)) [
  | inl e ↦
      let (a, b, c, d, f, g) = bodyless r (rw e at h) in
      (a, b, c, (λ has. cc (has, d)), λ has. (f, g))
  | inr e ↦ (
    ground arith,
    ground arith,
    ground arith,
    (λ has. ground arith),
    λ has. (ground arith, ground arith),
  )
]
retryable_backend_request-safe r (some methods) body_max h = (
  ground arith,
  ground arith,
  ground arith,
  (λ has. ground arith),
  λ has. (ground arith, ground arith),
)

pub data StatusError : Type 0 where
  no_statuses : StatusError
  status_range duplicate_status : ℕ → StatusError

-- The loop of validateRetryStatuses, with the statuses seen so far; a status is not negative.
unfoldable pub validate_statuses_from : ℕ → List ℕ → List ℕ → Result StatusError (Unit {0})
validate_statuses_from index seen [] = ok tt
validate_statuses_from index seen (status ∷ statuses) = do
  reject_if (ltb status 400 || ltb 599 status) (status_range index)
  reject_if (any (λ s. s == status) seen) (duplicate_status index)
  validate_statuses_from (suc index) (status ∷ seen) statuses

-- validateRetryStatuses
unfoldable pub validate_retry_statuses : List ℕ → Result StatusError (Unit {0})
validate_retry_statuses statuses = do
  reject_if (is_nil statuses) no_statuses
  validate_statuses_from 0 [] statuses

-- buildRetryStatuses
unfoldable pub build_retry_statuses : List ℕ → Result StatusError (List ℕ)
build_retry_statuses statuses = do validate_retry_statuses statuses; ok statuses
