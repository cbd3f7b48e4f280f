-- ===== src/Config/Schema/Check.antt =====
-- The tokens of a JSON value, and the check of a value by recursion on it.
use kubio.Prelude.{
  ℕ, zero, suc, ◌+◌, ◌*◌, ◌<◌, ◌≡◌, refl, ap, ◌∙◌, Bool, true, false, List, [], ◌∷◌, length, arith,
  Result, ok, err, ◌>>=◌, ◌>>◌, reject_if,
}
use kubio.Text.{Text}
use kubio.Headers.{is_member}
use kubio.Config.Json.{
  Json, null, boolean, number, str, array, object, Items, end, item, Fields, close, entry,
}
use kubio.Config.Schema.{
  Token, open_brace, close_brace, open_bracket, close_bracket, word, plain, SchemaError,
  duplicate_key, JsonSchema, root, child_json_schema, array_item_json_schema, value, entries, items,
  consume_json_value, only, validate_json,
}

-- The tokens that a decoder returns for a value, before those that follow.
unfoldable mutual
  pub tokens_of : Json → List Token → List Token
  tokens_of null rest = plain ∷ rest
  tokens_of (boolean b) rest = plain ∷ rest
  tokens_of (number n) rest = plain ∷ rest
  tokens_of (str s) rest = word s ∷ rest
  tokens_of (array xs) rest = open_bracket ∷ tokens_of_items xs rest
  tokens_of (object fields) rest = open_brace ∷ tokens_of_fields fields rest

  pub tokens_of_items : Items → List Token → List Token
  tokens_of_items end rest = close_bracket ∷ rest
  tokens_of_items (item v xs) rest = tokens_of v (tokens_of_items xs rest)

  pub tokens_of_fields : Fields → List Token → List Token
  tokens_of_fields close rest = close_brace ∷ rest
  tokens_of_fields (entry key v fields) rest = word key ∷ tokens_of v (tokens_of_fields fields rest)

-- The first key that stands twice in an object or is not in its schema, by recursion on the value.
unfoldable mutual
  pub check_value : JsonSchema → Json → Result SchemaError (Unit {0})
  check_value schema null = ok tt
  check_value schema (boolean b) = ok tt
  check_value schema (number n) = ok tt
  check_value schema (str s) = ok tt
  check_value schema (array xs) = check_items (array_item_json_schema schema) xs
  check_value schema (object fields) = check_fields schema [] fields

  pub check_items : JsonSchema → Items → Result SchemaError (Unit {0})
  check_items schema end = ok tt
  check_items schema (item v xs) = check_value schema v >> check_items schema xs

  pub check_fields : JsonSchema → List Text → Fields → Result SchemaError (Unit {0})
  check_fields schema seen close = ok tt
  check_fields schema seen (entry key v fields) =
      reject_if (is_member key seen) duplicate_key
      >> (child_json_schema schema key >>= λ child.
          check_value child v >> check_fields schema (key ∷ seen) fields)

-- A value has a token at least.
mutual
  unfolding tokens_of

  tokens_of-length : (v : Json) (rest : List Token) → length rest < length (tokens_of v rest)
  tokens_of-length null rest = omega arith
  tokens_of-length (boolean b) rest = omega arith
  tokens_of-length (number n) rest = omega arith
  tokens_of-length (str s) rest = omega arith
  tokens_of-length (array xs) rest = omega (arith, items-length xs rest)
  tokens_of-length (object fields) rest = omega (arith, fields-length fields rest)

  items-length : (xs : Items) (rest : List Token) → length rest < length (tokens_of_items xs rest)
  items-length end rest = omega arith
  items-length (item v xs) rest =
      omega (arith, items-length xs rest, tokens_of-length v (tokens_of_items xs rest))

  fields-length :
      (fields : Fields) (rest : List Token) → length rest < length (tokens_of_fields fields rest)
  fields-length close rest = omega arith
  fields-length (entry key v fields) rest =
      omega (arith, fields-length fields rest, tokens_of-length v (tokens_of_fields fields rest))

-- An item is a value, and a loop over items goes on after it.
items_step :
    (n : ℕ) (schema : JsonSchema) (v : Json) (rest : List Token)
    → consume_json_value (suc n) (items schema) (tokens_of v rest) ≡ (
        consume_json_value n (value schema) (tokens_of v rest) >>= λ left.
        consume_json_value n (items schema) left)
unfolding consume_json_value tokens_of
items_step n schema null rest = refl
items_step n schema (boolean b) rest = refl
items_step n schema (number x) rest = refl
items_step n schema (str s) rest = refl
items_step n schema (array xs) rest = refl
items_step n schema (object fields) rest = refl

-- A check, and then another part of the tokens.
chain :
    (m c : Result SchemaError (Unit {0})) (left rest : List Token)
    (k : List Token → Result SchemaError (List Token))
    → k left ≡ (c >> ok rest)
    → ((m >> ok left) >>= k) ≡ ((m >> c) >> ok rest)
chain (ok u) c left rest k h = h
chain (err e) c left rest k h = refl

-- The same, of the value of an entry under its schema.
chain_entry :
    (b : Bool) (s : Result SchemaError JsonSchema)
    (m c : JsonSchema → Result SchemaError (Unit {0}))
    (go : JsonSchema → Result SchemaError (List Token)) (rest : List Token)
    → ((child : JsonSchema) → go child ≡ ((m child >> c child) >> ok rest))
    → (reject_if b duplicate_key >> (s >>= go))
      ≡ ((reject_if b duplicate_key >> (s >>= λ child. m child >> c child)) >> ok rest)
chain_entry true s m c go rest h = refl
chain_entry false (ok child) m c go rest h = h child
chain_entry false (err e) m c go rest h = refl

-- With two rounds for each token and one more, the loops answer what the recursion does.
mutual
  unfolding tokens_of check_value consume_json_value

  consume-value :
      (n : ℕ) (schema : JsonSchema) (v : Json) (rest : List Token)
      → 2 * length (tokens_of v rest) < n
      → consume_json_value n (value schema) (tokens_of v rest) ≡ (check_value schema v >> ok rest)
  consume-value zero schema null rest h = absurd (omega arith)
  consume-value zero schema (boolean b) rest h = absurd (omega arith)
  consume-value zero schema (number x) rest h = absurd (omega arith)
  consume-value zero schema (str s) rest h = absurd (omega arith)
  consume-value zero schema (array xs) rest h = absurd (omega arith)
  consume-value zero schema (object fields) rest h = absurd (omega arith)
  consume-value (suc n) schema null rest h = refl
  consume-value (suc n) schema (boolean b) rest h = refl
  consume-value (suc n) schema (number x) rest h = refl
  consume-value (suc n) schema (str s) rest h = refl
  consume-value (suc n) schema (array xs) rest h =
      consume-items n (array_item_json_schema schema) xs rest (omega arith)
  consume-value (suc n) schema (object fields) rest h =
      consume-entries n schema [] fields rest (omega arith)

  consume-items :
      (n : ℕ) (schema : JsonSchema) (xs : Items) (rest : List Token)
      → 2 * length (tokens_of_items xs rest) + 1 < n
      → consume_json_value n (items schema) (tokens_of_items xs rest)
        ≡ (check_items schema xs >> ok rest)
  consume-items zero schema end rest h = absurd (omega arith)
  consume-items zero schema (item v xs) rest h = absurd (omega arith)
  consume-items (suc n) schema end rest h = refl
  consume-items (suc n) schema (item v xs) rest h =
      items_step n schema v (tokens_of_items xs rest)
      ∙ ap (λ m. m >>= λ left. consume_json_value n (items schema) left)
          (consume-value n schema v (tokens_of_items xs rest) (omega arith))
      ∙ chain (check_value schema v) (check_items schema xs) (tokens_of_items xs rest) rest
          (consume_json_value n (items schema))
          (consume-items n schema xs rest
            (omega (arith, tokens_of-length v (tokens_of_items xs rest))))

  consume-entries :
      (n : ℕ) (schema : JsonSchema) (seen : List Text) (fields : Fields) (rest : List Token)
      → 2 * length (tokens_of_fields fields rest) < n
      → consume_json_value n (entries schema seen) (tokens_of_fields fields rest)
        ≡ (check_fields schema seen fields >> ok rest)
  consume-entries zero schema seen close rest h = absurd (omega arith)
  consume-entries zero schema seen (entry key v fields) rest h = absurd (omega arith)
  consume-entries (suc n) schema seen close rest h = refl
  consume-entries (suc n) schema seen (entry key v fields) rest h =
      chain_entry (is_member key seen) (child_json_schema schema key) (λ child. check_value child v)
        (λ child. check_fields schema (key ∷ seen) fields)
        (λ child.
          consume_json_value n (value child) (tokens_of v (tokens_of_fields fields rest))
          >>= λ left. consume_json_value n (entries schema (key ∷ seen)) left)
        rest
        (λ child.
          ap (λ m. m >>= λ left. consume_json_value n (entries schema (key ∷ seen)) left)
            (consume-value n child v (tokens_of_fields fields rest) (omega arith))
          ∙ chain (check_value child v) (check_fields schema (key ∷ seen) fields)
              (tokens_of_fields fields rest) rest
              (consume_json_value n (entries schema (key ∷ seen)))
              (consume-entries n schema (key ∷ seen) fields rest
                (omega (arith, tokens_of-length v (tokens_of_fields fields rest)))))

-- On the tokens of a document, one value and nothing after it, validateJSON answers what the recursive
-- check of the value does, with the same error where it fails; a document with another token after
-- the value is refused, with the check's error or that of several values.
pub validate_json-check_value :
    (v : Json) (extra : List Token)
    → validate_json (tokens_of v extra) ≡ (check_value root v >> only extra)
unfolding validate_json
validate_json-check_value v extra =
    ap (λ m. m >>= λ rest. only rest) (consume-value _ root v extra (omega arith))
    ∙ finish (check_value root v)
  where
    finish :
        (m : Result SchemaError (Unit {0}))
        → ((m >> ok extra) >>= λ rest. only rest) ≡ (m >> only extra)
    finish (ok u) = refl
    finish (err e) = refl
