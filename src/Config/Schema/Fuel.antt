-- ===== src/Config/Schema/Fuel.antt =====
-- The fuel of validateJSON suffices, whatever the tokens are.
use kubio.Prelude.{
  ℕ, zero, suc, ◌+◌, ◌*◌, ◌≤◌, ◌<◌, ◌≢◌, ap, Bool, true, false, List, [], ◌∷◌, length, arith,
  Result, ok, err, ◌>>=◌, ◌>>◌, reject_if, Bool-cases, inl, inr,
}
use kubio.Text.{Text, text_eq}
use kubio.Headers.{is_member}
use kubio.Config.Schema.{
  Token, open_brace, close_brace, open_bracket, close_bracket, word, plain, SchemaError,
  duplicate_key, no_fuel, JsonSchema, root, one_of, any_json, limit, backends, backend,
  backend_retry, backend_body, backend_budget, backend_health, backend_probe, backend_backoff,
  sites, site, routes, route, respond, headers, response_headers, backend_timeout, direct_timeout,
  route_match, conditions, tls, upstream_tls, child_json_schema, array_item_json_schema, Place,
  value, entries, items, consume_json_value, only, validate_json,
}

-- The rounds that suffice at a place.
abbrev needed : Place → List Token → ℕ
needed (value schema) tokens = 2 * length tokens + 1
needed (entries schema seen) tokens = 2 * length tokens + 1
needed (items schema) tokens = 2 * length tokens + 2

-- An answer other than the end of the fuel, which leaves fewer tokens.
abbrev IsFair : ℕ → Result SchemaError (List Token) → Type 0
IsFair n (ok rest) = length rest < n
IsFair n (err e) = e ≢ no_fuel

one_of_fair : (cases : List (Text × JsonSchema)) (key : Text) → one_of cases key ≢ err no_fuel
unfolding one_of
one_of_fair [] key h = cc
one_of_fair ((name, schema) ∷ rest) key h = elim (Bool-cases (text_eq key name)) [
  | inl same ↦ ground arith
  | inr other ↦ one_of_fair rest key (ground arith)
]

then-IsFair :
    (n k : ℕ) (m : Result SchemaError (List Token))
    (f : List Token → Result SchemaError (List Token))
    → IsFair n m
    → ((rest : List Token) → length rest < n → IsFair k (f rest))
    → IsFair k (m >>= f)
then-IsFair n k (ok rest) f h g = g rest h
then-IsFair n k (err e) f h g = h

entry-IsFair :
    (k : ℕ) (b : Bool) (s : Result SchemaError JsonSchema)
    (f : JsonSchema → Result SchemaError (List Token))
    → s ≢ err no_fuel
    → ((child : JsonSchema) → IsFair k (f child))
    → IsFair k (reject_if b duplicate_key >> (s >>= f))
entry-IsFair k true s f h g = λ e. cc
entry-IsFair k false (ok child) f h g = g child
entry-IsFair k false (err x) f h g = λ e. h (ap err e)

child_fair : (schema : JsonSchema) (key : Text) → child_json_schema schema key ≢ err no_fuel
unfolding child_json_schema
child_fair any_json key h = cc
child_fair root key h = one_of_fair _ key h
child_fair limit key h = one_of_fair _ key h
child_fair backends key h = cc
child_fair backend key h = one_of_fair _ key h
child_fair backend_retry key h = one_of_fair _ key h
child_fair backend_body key h = one_of_fair _ key h
child_fair backend_budget key h = one_of_fair _ key h
child_fair backend_health key h = one_of_fair _ key h
child_fair backend_probe key h = one_of_fair _ key h
child_fair backend_backoff key h = one_of_fair _ key h
child_fair sites key h = cc
child_fair site key h = one_of_fair _ key h
child_fair routes key h = cc
child_fair route key h = one_of_fair _ key h
child_fair respond key h = one_of_fair _ key h
child_fair headers key h = cc
child_fair response_headers key h = one_of_fair _ key h
child_fair backend_timeout key h = one_of_fair _ key h
child_fair direct_timeout key h = one_of_fair _ key h
child_fair route_match key h = one_of_fair _ key h
child_fair conditions key h = cc
child_fair tls key h = one_of_fair _ key h
child_fair upstream_tls key h = one_of_fair _ key h

weaken : (k n : ℕ) (m : Result SchemaError (List Token)) → IsFair k m → k ≤ n → IsFair n m
weaken k n (ok rest) h le = omega arith
weaken k n (err e) h le = h

-- With the rounds that a place needs, the loops end otherwise, and leave fewer tokens.
consume_json_value-IsFair :
    (n : ℕ) (place : Place) (tokens : List Token)
    → needed place tokens ≤ n
    → IsFair (length tokens) (consume_json_value n place tokens)
unfolding consume_json_value
consume_json_value-IsFair zero (value schema) tokens h = absurd (omega arith)
consume_json_value-IsFair zero (entries schema seen) tokens h = absurd (omega arith)
consume_json_value-IsFair zero (items schema) tokens h = absurd (omega arith)
consume_json_value-IsFair (suc n) (value schema) [] h = λ e. cc
consume_json_value-IsFair (suc n) (value schema) (open_brace ∷ tokens) h =
    weaken (length tokens) _ _
      (consume_json_value-IsFair n (entries schema []) tokens (omega arith)) (omega arith)
consume_json_value-IsFair (suc n) (value schema) (open_bracket ∷ tokens) h =
    weaken (length tokens) _ _
      (consume_json_value-IsFair n (items (array_item_json_schema schema)) tokens (omega arith))
      (omega arith)
consume_json_value-IsFair (suc n) (value schema) (close_brace ∷ tokens) h = λ e. cc
consume_json_value-IsFair (suc n) (value schema) (close_bracket ∷ tokens) h = λ e. cc
consume_json_value-IsFair (suc n) (value schema) (word s ∷ tokens) h = omega arith
consume_json_value-IsFair (suc n) (value schema) (plain ∷ tokens) h = omega arith
consume_json_value-IsFair (suc n) (entries schema seen) [] h = λ e. cc
consume_json_value-IsFair (suc n) (entries schema seen) (close_brace ∷ tokens) h = omega arith
consume_json_value-IsFair (suc n) (entries schema seen) (close_bracket ∷ tokens) h = λ e. cc
consume_json_value-IsFair (suc n) (entries schema seen) (open_brace ∷ tokens) h = λ e. cc
consume_json_value-IsFair (suc n) (entries schema seen) (open_bracket ∷ tokens) h = λ e. cc
consume_json_value-IsFair (suc n) (entries schema seen) (plain ∷ tokens) h = λ e. cc
consume_json_value-IsFair (suc n) (entries schema seen) (word key ∷ tokens) h =
    entry-IsFair _ (is_member key seen) (child_json_schema schema key) _ (child_fair schema key)
      (λ child.
        then-IsFair (length tokens) _ (consume_json_value n (value child) tokens)
          (λ rest. consume_json_value n (entries schema (key ∷ seen)) rest)
          (consume_json_value-IsFair n (value child) tokens (omega arith))
          (λ rest less.
            weaken (length rest) _ _
              (consume_json_value-IsFair n (entries schema (key ∷ seen)) rest (omega arith))
              (omega arith)))
consume_json_value-IsFair (suc n) (items schema) [] h = λ e. cc
consume_json_value-IsFair (suc n) (items schema) (close_bracket ∷ tokens) h = omega arith
consume_json_value-IsFair (suc n) (items schema) (close_brace ∷ tokens) h = λ e. cc
consume_json_value-IsFair (suc n) (items schema) (open_brace ∷ tokens) h =
    then-IsFair (suc (length tokens)) _ (consume_json_value n (value schema) (open_brace ∷ tokens))
      (λ rest. consume_json_value n (items schema) rest)
      (consume_json_value-IsFair n (value schema) (open_brace ∷ tokens) (omega arith))
      (λ rest less.
        weaken (length rest) _ _ (consume_json_value-IsFair n (items schema) rest (omega arith))
          (omega arith))
consume_json_value-IsFair (suc n) (items schema) (open_bracket ∷ tokens) h =
    then-IsFair (suc (length tokens)) _
      (consume_json_value n (value schema) (open_bracket ∷ tokens))
      (λ rest. consume_json_value n (items schema) rest)
      (consume_json_value-IsFair n (value schema) (open_bracket ∷ tokens) (omega arith))
      (λ rest less.
        weaken (length rest) _ _ (consume_json_value-IsFair n (items schema) rest (omega arith))
          (omega arith))
consume_json_value-IsFair (suc n) (items schema) (word s ∷ tokens) h =
    then-IsFair (suc (length tokens)) _ (consume_json_value n (value schema) (word s ∷ tokens))
      (λ rest. consume_json_value n (items schema) rest)
      (consume_json_value-IsFair n (value schema) (word s ∷ tokens) (omega arith))
      (λ rest less.
        weaken (length rest) _ _ (consume_json_value-IsFair n (items schema) rest (omega arith))
          (omega arith))
consume_json_value-IsFair (suc n) (items schema) (plain ∷ tokens) h =
    then-IsFair (suc (length tokens)) _ (consume_json_value n (value schema) (plain ∷ tokens))
      (λ rest. consume_json_value n (items schema) rest)
      (consume_json_value-IsFair n (value schema) (plain ∷ tokens) (omega arith))
      (λ rest less.
        weaken (length rest) _ _ (consume_json_value-IsFair n (items schema) rest (omega arith))
          (omega arith))

-- Whatever the tokens are, nested or not as JSON wants them: validateJSON ends within its rounds, two
-- for each token and one more.
pub validate_json_total : (tokens : List Token) → validate_json tokens ≢ err no_fuel
unfolding validate_json
validate_json_total tokens =
    finish (consume_json_value (2 * length tokens + 1) (value root) tokens)
      (consume_json_value-IsFair (2 * length tokens + 1) (value root) tokens (omega arith))
  where
    finish :
        (m : Result SchemaError (List Token))
        → IsFair (length tokens) m
        → (m >>= λ rest. only rest) ≢ err no_fuel
    finish (ok []) h e = cc
    finish (ok (token ∷ rest)) h e = cc
    finish (err x) h e = ground arith
