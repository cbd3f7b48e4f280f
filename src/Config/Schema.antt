-- ===== src/Config/Schema.antt =====
-- config.go: validateJSON, which checks the keys of a document against the schema of the
-- configuration. A json.Decoder is the list of the tokens that it has still to return; at the end
-- Token returns an error, and More tells whether the next token is neither a closing delimiter nor
-- the end.
pub mod Check
pub mod Unique
pub mod Fuel
mod Tests
use kubio.Prelude.{
  ℕ, zero, suc, ◌+◌, ◌*◌, Option, none, some, List, [], ◌∷◌, if◌then◌else◌, length, Result, ok, err,
  ◌>>=◌, ◌>>◌, reject_if,
}
use kubio.Text.{Text, text, text_eq}
use kubio.Headers.{is_member}

-- json.Token: the delimiters, a string, and any other value.
pub data Token : Type 0 where
  open_brace close_brace open_bracket close_bracket : Token
  word : Text → Token
  plain : Token

pub data SchemaError : Type 0 where
  unexpected_end key_not_string duplicate_key unknown_field invalid_object invalid_array
        invalid_delimiter multiple_values :
      SchemaError
  no_fuel : SchemaError

pub data JsonSchema : Type 0 where
  any_json root limit backends backend backend_retry backend_body backend_budget backend_health
        backend_probe :
      JsonSchema
  backend_backoff sites site routes route respond headers response_headers backend_timeout
        direct_timeout :
      JsonSchema
  route_match conditions tls upstream_tls : JsonSchema

-- The cases of a switch over the key.
unfoldable pub one_of : List (Text × JsonSchema) → Text → Result SchemaError JsonSchema
one_of [] key = err unknown_field
one_of ((name, schema) ∷ rest) key = if text_eq key name then ok schema else one_of rest key

-- childJSONSchema
unfoldable pub child_json_schema : JsonSchema → Text → Result SchemaError JsonSchema
child_json_schema root key =
    one_of
      ((text "listen", any_json)
        ∷ (text "log", any_json)
        ∷ (text "id", any_json)
        ∷ (text "trustProxies", any_json)
        ∷ (text "limit", limit)
        ∷ (text "tls", tls)
        ∷ (text "backends", backends)
        ∷ (text "sites", sites)
        ∷ [])
      key
child_json_schema limit key = one_of ((text "rate", any_json) ∷ (text "burst", any_json) ∷ []) key
child_json_schema backends key = ok backend
child_json_schema backend key =
    one_of
      ((text "targets", any_json)
        ∷ (text "weights", any_json)
        ∷ (text "tries", any_json)
        ∷ (text "tls", upstream_tls)
        ∷ (text "retry", backend_retry)
        ∷ (text "timeout", backend_timeout)
        ∷ (text "health", backend_health)
        ∷ [])
      key
child_json_schema backend_retry key =
    one_of
      ((text "status", any_json)
        ∷ (text "methods", any_json)
        ∷ (text "deadline", any_json)
        ∷ (text "body", backend_body)
        ∷ (text "budget", backend_budget)
        ∷ (text "backoff", backend_backoff)
        ∷ [])
      key
child_json_schema backend_body key = one_of ((text "max", any_json) ∷ []) key
child_json_schema backend_budget key =
    one_of ((text "max", any_json) ∷ (text "window", any_json) ∷ []) key
child_json_schema backend_health key =
    one_of ((text "fail", any_json) ∷ (text "cool", any_json) ∷ (text "probe", backend_probe) ∷ [])
      key
child_json_schema backend_probe key =
    one_of ((text "path", any_json) ∷ (text "every", any_json) ∷ (text "timeout", any_json) ∷ [])
      key
child_json_schema backend_backoff key =
    one_of ((text "base", any_json) ∷ (text "cap", any_json) ∷ (text "jitter", any_json) ∷ []) key
child_json_schema backend_timeout key =
    one_of ((text "dial", any_json) ∷ (text "header", any_json) ∷ []) key
child_json_schema direct_timeout key =
    one_of ((text "dial", any_json) ∷ (text "header", any_json) ∷ (text "body", any_json) ∷ []) key
child_json_schema site key =
    one_of
      ((text "hosts", any_json)
        ∷ (text "target", any_json)
        ∷ (text "backend", any_json)
        ∷ (text "tls", upstream_tls)
        ∷ (text "timeout", direct_timeout)
        ∷ (text "headers", headers)
        ∷ (text "response", response_headers)
        ∷ (text "routes", routes)
        ∷ [])
      key
child_json_schema route key =
    one_of
      ((text "path", any_json)
        ∷ (text "rewrite", any_json)
        ∷ (text "methods", any_json)
        ∷ (text "target", any_json)
        ∷ (text "backend", any_json)
        ∷ (text "strip", any_json)
        ∷ (text "respond", respond)
        ∷ (text "tls", upstream_tls)
        ∷ (text "timeout", direct_timeout)
        ∷ (text "match", route_match)
        ∷ (text "headers", headers)
        ∷ (text "response", response_headers)
        ∷ [])
      key
child_json_schema respond key =
    one_of ((text "status", any_json) ∷ (text "body", any_json) ∷ (text "headers", headers) ∷ [])
      key
child_json_schema response_headers key =
    one_of ((text "set", headers) ∷ (text "add", headers) ∷ (text "remove", any_json) ∷ []) key
child_json_schema route_match key =
    one_of ((text "header", conditions) ∷ (text "query", conditions) ∷ (text "ip", any_json) ∷ [])
      key
child_json_schema conditions key = ok any_json
child_json_schema tls key = one_of ((text "cert", any_json) ∷ (text "key", any_json) ∷ []) key
child_json_schema upstream_tls key =
    one_of
      ((text "ca", any_json)
        ∷ (text "name", any_json)
        ∷ (text "cert", any_json)
        ∷ (text "key", any_json)
        ∷ [])
      key
child_json_schema any_json key = ok any_json
child_json_schema sites key = ok any_json
child_json_schema routes key = ok any_json
child_json_schema headers key = ok any_json

-- arrayItemJSONSchema
unfoldable pub array_item_json_schema : JsonSchema → JsonSchema
array_item_json_schema sites = site
array_item_json_schema routes = route
array_item_json_schema any_json = any_json
array_item_json_schema root = any_json
array_item_json_schema limit = any_json
array_item_json_schema backends = any_json
array_item_json_schema backend = any_json
array_item_json_schema backend_retry = any_json
array_item_json_schema backend_body = any_json
array_item_json_schema backend_budget = any_json
array_item_json_schema backend_health = any_json
array_item_json_schema backend_probe = any_json
array_item_json_schema backend_backoff = any_json
array_item_json_schema site = any_json
array_item_json_schema route = any_json
array_item_json_schema respond = any_json
array_item_json_schema headers = any_json
array_item_json_schema response_headers = any_json
array_item_json_schema backend_timeout = any_json
array_item_json_schema direct_timeout = any_json
array_item_json_schema route_match = any_json
array_item_json_schema conditions = any_json
array_item_json_schema tls = any_json
array_item_json_schema upstream_tls = any_json

-- Where consumeJSONValue stands: before a value, in the loop over an object's entries with the keys
-- that it has seen, or in the loop over an array's items.
pub data Place : Type 0 where
  value : JsonSchema → Place
  entries : JsonSchema → List Text → Place
  items : JsonSchema → Place

-- consumeJSONValue and its loops, on fuel: the tokens that are left.
unfoldable pub consume_json_value : ℕ → Place → List Token → Result SchemaError (List Token)
consume_json_value zero place tokens = err no_fuel
consume_json_value (suc n) (value schema) [] = err unexpected_end
consume_json_value (suc n) (value schema) (open_brace ∷ tokens) =
    consume_json_value n (entries schema []) tokens
consume_json_value (suc n) (value schema) (open_bracket ∷ tokens) =
    consume_json_value n (items (array_item_json_schema schema)) tokens
consume_json_value (suc n) (value schema) (close_brace ∷ tokens) = err invalid_delimiter
consume_json_value (suc n) (value schema) (close_bracket ∷ tokens) = err invalid_delimiter
consume_json_value (suc n) (value schema) (word s ∷ tokens) = ok tokens
consume_json_value (suc n) (value schema) (plain ∷ tokens) = ok tokens
consume_json_value (suc n) (entries schema seen) [] = err unexpected_end
consume_json_value (suc n) (entries schema seen) (close_brace ∷ tokens) = ok tokens
consume_json_value (suc n) (entries schema seen) (close_bracket ∷ tokens) = err invalid_object
consume_json_value (suc n) (entries schema seen) (open_brace ∷ tokens) = err key_not_string
consume_json_value (suc n) (entries schema seen) (open_bracket ∷ tokens) = err key_not_string
consume_json_value (suc n) (entries schema seen) (plain ∷ tokens) = err key_not_string
consume_json_value (suc n) (entries schema seen) (word key ∷ tokens) = do
  reject_if (is_member key seen) duplicate_key
  child ← child_json_schema schema key
  rest ← consume_json_value n (value child) tokens
  consume_json_value n (entries schema (key ∷ seen)) rest
consume_json_value (suc n) (items schema) [] = err unexpected_end
consume_json_value (suc n) (items schema) (close_bracket ∷ tokens) = ok tokens
consume_json_value (suc n) (items schema) (close_brace ∷ tokens) = err invalid_array
consume_json_value (suc n) (items schema) (open_brace ∷ tokens) = do
  rest ← consume_json_value n (value schema) (open_brace ∷ tokens)
  consume_json_value n (items schema) rest
consume_json_value (suc n) (items schema) (open_bracket ∷ tokens) = do
  rest ← consume_json_value n (value schema) (open_bracket ∷ tokens)
  consume_json_value n (items schema) rest
consume_json_value (suc n) (items schema) (word s ∷ tokens) = do
  rest ← consume_json_value n (value schema) (word s ∷ tokens)
  consume_json_value n (items schema) rest
consume_json_value (suc n) (items schema) (plain ∷ tokens) = do
  rest ← consume_json_value n (value schema) (plain ∷ tokens)
  consume_json_value n (items schema) rest

-- The end of validateJSON: nothing follows the value.
abbrev pub only : List Token → Result SchemaError (Unit {0})
only [] = ok tt
only (token ∷ tokens) = err multiple_values

-- validateJSON, on two rounds for each token and one more: a value takes a token, and so does each
-- round of its loops.
unfoldable pub validate_json : List Token → Result SchemaError (Unit {0})
validate_json tokens =
    consume_json_value (2 * length tokens + 1) (value root) tokens >>= λ rest. only rest
