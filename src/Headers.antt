-- ===== src/Headers.antt =====
-- config.go and proxy.go: the checks of header names and values, the environment variables in
-- values, and the changes to a response's headers. A map is a list of its entries in the order in
-- which the code's range visits them. The texts of errors are left out.
pub mod Apply
pub mod Resolve
pub mod Escape
mod Tests
use kubio.Prelude.{
  ℕ, zero, suc, ◌+◌, ◌-◌, Bool, true, false, ◌&&◌, ◌||◌, not, Option, none, some, List, [], ◌∷◌,
  ◌++◌, ltb, leb, ◌==◌, if◌then◌else◌, length, take, drop, any, all, Result, ok, err, ◌>>=◌, ◌>>◌,
  reject_if,
}
use kubio.Text.{
  Text, text, text_eq, is_empty, has_prefix, index_byte, to_lower, equal_fold, contains_byte,
}
use kubio.Net.{Values, values_of}

abbrev pub is_letter : ℕ → Bool
is_letter c = (leb b'a' c && leb c b'z') || (leb b'A' c && leb c b'Z')

abbrev pub is_digit : ℕ → Bool
is_digit c = leb b'0' c && leb c b'9'

-- validHeaderNameByte
unfoldable pub valid_header_name_byte : ℕ → Bool
unfolding contains_byte
valid_header_name_byte value =
    is_letter value || is_digit value || contains_byte (text "!#$%&'+-.^_`|~") value

-- validHeaderName
unfoldable pub valid_header_name : Text → Bool
unfolding valid_header_name_byte
valid_header_name name = not (is_empty name) && all valid_header_name_byte name

-- validHeaderValue
unfoldable pub valid_header_value : Text → Bool
valid_header_value value =
    all (λ c. not (c == 13 || c == 10 || c == 0x7f || (ltb c 0x20 && not (c == 9)))) value

-- restrictedHeader
unfoldable pub restricted_header : Text → Bool
unfolding to_lower text_eq
restricted_header name = any (text_eq (to_lower name)) (
    text "connection"
    ∷ text "proxy-connection"
    ∷ text "keep-alive"
    ∷ text "transfer-encoding"
    ∷ text "te"
    ∷ text "trailer"
    ∷ text "upgrade"
    ∷ text "content-length"
    ∷ [])

-- validMethod
unfoldable pub valid_method : Text → Bool
unfolding valid_header_name_byte
valid_method method =
    not (is_empty method) && all (λ c. c == b'*' || valid_header_name_byte c) method

abbrev pub is_member : Text → List Text → Bool
is_member name seen = any (text_eq name) seen

pub data HeaderError : Type 0 where
  no_items invalid_item duplicate_item managed_header invalid_name invalid_value : HeaderError
  unterminated_variable invalid_variable unset_variable out_of_fuel : HeaderError

abbrev pub is_empty_list {ℓ} : {A : Type ℓ} → List A → Bool
is_empty_list [] = true
is_empty_list (x ∷ xs) = false

-- validateMethods, from the methods seen so far
unfoldable pub validate_methods_from : List Text → List Text → Result HeaderError (Unit {0})
validate_methods_from seen [] = ok tt
validate_methods_from seen (method ∷ methods) = do
  reject_if (not (valid_method method)) invalid_item
  reject_if (is_member method seen) duplicate_item
  validate_methods_from (method ∷ seen) methods

unfoldable pub validate_methods : List Text → Result HeaderError (Unit {0})
validate_methods methods = do
  reject_if (is_empty_list methods) no_items
  validate_methods_from [] methods

-- validateRetryMethods
unfoldable pub validate_retry_methods : List Text → Result HeaderError (Unit {0})
validate_retry_methods methods = do
  validate_methods methods
  reject_if (any (λ method. contains_byte method b'*') methods) invalid_item

-- validateMatchAlternatives
unfoldable pub validate_alternatives_from :
    Bool → List Text → List Text → Result HeaderError (Unit {0})
validate_alternatives_from header seen [] = ok tt
validate_alternatives_from header seen (alternative ∷ alternatives) = do
  reject_if (header && not (valid_header_value alternative)) invalid_item
  reject_if (is_member alternative seen) duplicate_item
  validate_alternatives_from header (alternative ∷ seen) alternatives

unfoldable pub validate_match_alternatives : List Text → Bool → Result HeaderError (Unit {0})
validate_match_alternatives alternatives header = do
  reject_if (is_empty_list alternatives) no_items
  validate_alternatives_from header [] alternatives

-- isEnvironmentNameStart
unfoldable pub is_environment_name_start : ℕ → Bool
is_environment_name_start value = value == b'_' || is_letter value

-- validEnvironmentName
unfoldable pub valid_environment_name : Text → Bool
valid_environment_name [] = false
valid_environment_name (c ∷ name) =
    is_environment_name_start c && all (λ d. is_environment_name_start d || is_digit d) name

abbrev pub prepend : Text → Result HeaderError Text → Result HeaderError Text
prepend s (ok t) = ok (s ++ t)
prepend s (err e) = err e

-- expandEnv from a position on; `lookup` is os.LookupEnv.
unfoldable pub expand_from : (Text → Option Text) → ℕ → Text → Result HeaderError Text
expand_from lookup zero value = err out_of_fuel
expand_from lookup (suc fuel) [] = ok []
expand_from lookup (suc fuel) (c ∷ value) =
    let plain = prepend (c ∷ []) (expand_from lookup fuel value) in
    let escaped_backslash = prepend (text "\\") (expand_from lookup fuel (drop 1 value)) in
    let escaped_variable = prepend (text "${") (expand_from lookup fuel (drop 2 value)) in
    let variable = elim (index_byte (drop 1 value) b'}') as (λ x. Result HeaderError Text) [
      | none ↦ err unterminated_variable
      | some end ↦
          if not (valid_environment_name (take end (drop 1 value)))
          then err invalid_variable
          else elim (lookup (take end (drop 1 value))) [
            | none ↦ err unset_variable
            | some env ↦ prepend env (expand_from lookup fuel (drop (end + 2) value))
          ]
    ] in
    if c == 92 && has_prefix value (text "\\")
    then escaped_backslash
    else if c == 92 && has_prefix value (text "${")
    then escaped_variable
    else if c == b'$' && has_prefix value (text "{")
    then variable
    else plain

-- expandEnv: each round uses up a byte.
unfoldable pub expand_env : (Text → Option Text) → Text → Result HeaderError Text
expand_env lookup value = expand_from lookup (suc (length value)) value

abbrev pub has_key {ℓ} : {A : Type ℓ} → Text → List (Text × A) → Bool
has_key name headers = any (λ entry. text_eq entry.0 name) headers

-- A write to a map.
unfoldable pub put {ℓ} : {A : Type ℓ} → Text → A → List (Text × A) → List (Text × A)
put name value [] = (name, value) ∷ []
put name value ((key, old) ∷ rest) =
    if text_eq key name then (key, value) ∷ rest else (key, old) ∷ put name value rest

-- delete
unfoldable pub delete {ℓ} : {A : Type ℓ} → Text → List (Text × A) → List (Text × A)
delete name [] = []
delete name ((key, value) ∷ rest) =
    if text_eq key name then delete name rest else (key, value) ∷ delete name rest

-- mergeHeaders
unfoldable pub put_all {ℓ} : {A : Type ℓ} → List (Text × A) → List (Text × A) → List (Text × A)
put_all [] headers = headers
put_all ((name, value) ∷ rest) headers = put_all rest (put name value headers)

unfoldable pub merge_headers : List (Text × Text) → List (Text × Text) → List (Text × Text)
merge_headers base override = put_all override (put_all base [])

-- The parameters of the checks: http.CanonicalHeaderKey and os.LookupEnv.
pub record HeaderEnv : Type 0 where
  pub canonical : Text → Text
  pub lookup : Text → Option Text

-- resolveHeaders, with the headers resolved so far
unfoldable pub resolve_headers_from :
    HeaderEnv → List (Text × Text) → List (Text × Text) → Result HeaderError (List (Text × Text))
resolve_headers_from env headers [] = ok headers
resolve_headers_from env headers ((raw_name, raw_value) ∷ rest) = do
  reject_if (not (valid_header_name raw_name)) invalid_name
  reject_if (has_key (env.canonical raw_name) headers) duplicate_item
  reject_if (restricted_header (env.canonical raw_name)) managed_header
  value ← expand_env env.lookup raw_value
  reject_if (not (valid_header_value value)) invalid_value
  resolve_headers_from env (put (env.canonical raw_name) value headers) rest

unfoldable pub resolve_headers :
    HeaderEnv → List (Text × Text) → Result HeaderError (List (Text × Text))
resolve_headers env raw = resolve_headers_from env [] raw

-- responseHeaderName
unfoldable pub response_header_name : HeaderEnv → Text → Result HeaderError Text
response_header_name env raw_name = do
  reject_if (not (valid_header_name raw_name)) invalid_name
  reject_if
      (restricted_header (env.canonical raw_name)
        || text_eq (env.canonical raw_name) (text "Proxy-Authenticate")
        || text_eq (env.canonical raw_name) (text "Proxy-Authorization"))
      managed_header
  ok (env.canonical raw_name)

-- The values of one header in resolveResponseHeaderValues.
unfoldable pub resolve_values : HeaderEnv → List Text → Result HeaderError (List Text)
resolve_values env [] = ok []
resolve_values env (raw_value ∷ rest) = do
  value ← expand_env env.lookup raw_value
  reject_if (not (valid_header_value value)) invalid_value
  values ← resolve_values env rest
  ok (value ∷ values)

-- resolveResponseHeaderValues, with the headers resolved so far
unfoldable pub resolve_response_header_values :
    HeaderEnv → Values → Values → Result HeaderError Values
resolve_response_header_values env headers [] = ok headers
resolve_response_header_values env headers ((raw_name, raw_values) ∷ rest) = do
  name ← response_header_name env raw_name
  reject_if (has_key name headers) duplicate_item
  reject_if (is_empty_list raw_values) no_items
  values ← resolve_values env raw_values
  resolve_response_header_values env (put name values headers) rest

-- resolveResponseHeaderNames, with the names seen so far
unfoldable pub resolve_response_header_names :
    HeaderEnv → List Text → List Text → Result HeaderError (List Text)
resolve_response_header_names env seen [] = ok []
resolve_response_header_names env seen (raw_name ∷ rest) = do
  name ← response_header_name env raw_name
  reject_if (is_member name seen) duplicate_item
  names ← resolve_response_header_names env (name ∷ seen) rest
  ok (name ∷ names)

-- responseHeaderPolicy
pub record ResponseHeaderPolicy : Type 0 where
  pub set_values : Values
  pub add_values : Values
  pub remove_names : List Text

-- resolveResponseHeaders
unfoldable pub resolve_response_headers :
    HeaderEnv → ResponseHeaderPolicy → Result HeaderError ResponseHeaderPolicy
resolve_response_headers env raw = do
  set ← resolve_response_header_values env [] raw.set_values
  add ← resolve_response_header_values env [] raw.add_values
  remove ← resolve_response_header_names env [] raw.remove_names
  ok (record { set_values = set; add_values = add; remove_names = remove })

-- containsHeaderName
unfoldable pub contains_header_name : Values → Text → Bool
contains_header_name headers name =
    has_key name headers || any (λ entry. equal_fold entry.0 name) headers

-- The three loops of applyResponseHeaders.
unfoldable pub remove_headers : Values → List Text → Values → Values
remove_headers trailer [] headers = headers
remove_headers trailer (name ∷ names) headers =
    remove_headers trailer names
      (if contains_header_name trailer name then headers else delete name headers)

unfoldable pub set_headers : Values → Values → Values → Values
set_headers trailer [] headers = headers
set_headers trailer ((name, values) ∷ policy) headers =
    set_headers trailer policy
      (if contains_header_name trailer name then headers else put name values headers)

unfoldable pub add_headers : Values → Values → Values → Values
add_headers trailer [] headers = headers
add_headers trailer ((name, values) ∷ policy) headers = add_headers trailer policy (
    if contains_header_name trailer name
    then headers
    else put name (values_of name headers ++ values) headers)

-- applyResponseHeaders
unfoldable pub apply_response_headers : Values → ResponseHeaderPolicy → Values → Values
apply_response_headers trailer policy headers =
    add_headers trailer policy.add_values
      (set_headers trailer policy.set_values (remove_headers trailer policy.remove_names headers))

-- applyResponseHeaderPolicies
unfoldable pub apply_response_header_policies :
    Values → ResponseHeaderPolicy → ResponseHeaderPolicy → Values → Values
apply_response_header_policies trailer site route headers =
    apply_response_headers trailer route (apply_response_headers trailer site headers)
