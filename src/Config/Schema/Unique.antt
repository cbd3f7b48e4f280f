-- ===== src/Config/Schema/Unique.antt =====
-- What a document's check means for the decoding of it: a key of an object has one value.
use kubio.Prelude.{
  ◌≡◌, refl, sym, subst, ◌∙◌, true, false, Option, none, some, List, [], ◌∷◌, if◌then◌else◌, arith,
  ok, Bool-cases, inl, inr, bound, checked,
}
use kubio.Text.{Text, text_eq}
use kubio.Text.Laws.{text_eq_iff}
use kubio.Headers.{is_member}
use kubio.Config.Json.{
  Json, null, boolean, number, str, array, object, Items, end, item, Fields, close, entry, field_of,
}
use kubio.Config.Schema.{
  duplicate_key, JsonSchema, root, child_json_schema, array_item_json_schema, validate_json, only,
}
use kubio.Config.Schema.Check.{
  tokens_of, check_value, check_items, check_fields, validate_json-check_value,
}

-- The value of a key as encoding/json takes it: the last one.
unfoldable pub last_field_of : Text → Fields → Option Json
last_field_of name close = none
last_field_of name (entry key v rest) = elim (last_field_of name rest) [
  | some w ↦ some w
  | none ↦ if text_eq key name then some v else none
]

unfoldable mutual
  -- In each object of a value, the last value of a key is the first.
  pub HasOneValuePerKey : Json → Type 0
  HasOneValuePerKey null = Unit
  HasOneValuePerKey (boolean b) = Unit
  HasOneValuePerKey (number n) = Unit
  HasOneValuePerKey (str s) = Unit
  HasOneValuePerKey (array xs) = ItemsHaveOne xs
  HasOneValuePerKey (object fields) =
      ((name : Text) → field_of name fields ≡ last_field_of name fields) × FieldsHaveOne fields

  ItemsHaveOne : Items → Type 0
  ItemsHaveOne end = Unit
  ItemsHaveOne (item v xs) = HasOneValuePerKey v × ItemsHaveOne xs

  FieldsHaveOne : Fields → Type 0
  FieldsHaveOne close = Unit
  FieldsHaveOne (entry key v fields) = HasOneValuePerKey v × FieldsHaveOne fields

-- What the check of an entry has gone through.
entry_checked :
    (schema : JsonSchema) (seen : List Text) (key : Text) (v : Json) (fields : Fields)
    → check_fields schema seen (entry key v fields) ≡ ok tt
    → (is_member key seen ≡ false)
      × ((child : JsonSchema) × (check_value child v ≡ ok tt))
      × (check_fields schema (key ∷ seen) fields ≡ ok tt)
unfolding check_value
entry_checked schema seen key v fields h =
    let (new, h1) = checked (is_member key seen) duplicate_key _ tt h in
    let (child, e, h2) = bound (child_json_schema schema key) _ tt h1 in
    let (u, good, h3) =
      bound (check_value child v) (λ u. check_fields schema (key ∷ seen) fields) tt h2 in
    (new, (child, good), h3)

-- A key that has been seen stands in no entry that follows.
seen_is_absent :
    (schema : JsonSchema) (seen : List Text) (fields : Fields) (name : Text)
    → check_fields schema seen fields ≡ ok tt
    → is_member name seen ≡ true
    → last_field_of name fields ≡ none
unfolding last_field_of field_of
seen_is_absent schema seen close name h m = refl
seen_is_absent schema seen (entry key v fields) name h m =
    let (new, child, rest) = entry_checked schema seen key v fields h in
    let absent = seen_is_absent schema (key ∷ seen) fields name rest (ground arith) in
    elim (Bool-cases (text_eq key name)) [
      | inl same ↦ absurd (
          let e = (text_eq_iff key name).0 same in
          ground (arith, new, m, subst (λ k. is_member k seen ≡ false) e new))
      | inr other ↦ rw (absent, other)
    ]

-- In an object whose check succeeds, the first value of a key is the last.
first_is_last :
    (schema : JsonSchema) (seen : List Text) (fields : Fields) (name : Text)
    → check_fields schema seen fields ≡ ok tt
    → field_of name fields ≡ last_field_of name fields
unfolding last_field_of field_of
first_is_last schema seen close name h = refl
first_is_last schema seen (entry key v fields) name h =
    let (new, child, rest) = entry_checked schema seen key v fields h in
    let later = first_is_last schema (key ∷ seen) fields name rest in
    elim (Bool-cases (text_eq key name)) [
      | inl same ↦
          let back = (text_eq_iff name key).1 (sym ((text_eq_iff key name).0 same)) in
          rw (seen_is_absent schema (key ∷ seen) fields name rest (ground arith), same)
      | inr other ↦ ground arith
    ]

mutual
  unfolding check_value HasOneValuePerKey

  check_value-HasOneValuePerKey :
      (schema : JsonSchema) (v : Json) → check_value schema v ≡ ok tt → HasOneValuePerKey v
  check_value-HasOneValuePerKey schema null h = tt
  check_value-HasOneValuePerKey schema (boolean b) h = tt
  check_value-HasOneValuePerKey schema (number n) h = tt
  check_value-HasOneValuePerKey schema (str s) h = tt
  check_value-HasOneValuePerKey schema (array xs) h =
      items_have_one (array_item_json_schema schema) xs h
  check_value-HasOneValuePerKey schema (object fields) h =
      ((λ name. first_is_last schema [] fields name h), fields_have_one schema [] fields h)

  items_have_one :
      (schema : JsonSchema) (xs : Items) → check_items schema xs ≡ ok tt → ItemsHaveOne xs
  items_have_one schema end h = tt
  items_have_one schema (item v xs) h =
      let (u, e, h1) = bound (check_value schema v) (λ u. check_items schema xs) tt h in
      (check_value-HasOneValuePerKey schema v e, items_have_one schema xs h1)

  fields_have_one :
      (schema : JsonSchema) (seen : List Text) (fields : Fields)
      → check_fields schema seen fields ≡ ok tt
      → FieldsHaveOne fields
  fields_have_one schema seen close h = tt
  fields_have_one schema seen (entry key v fields) h =
      let (new, (child, e), rest) = entry_checked schema seen key v fields h in
      (check_value-HasOneValuePerKey child v e, fields_have_one schema (key ∷ seen) fields rest)

-- In a document that validateJSON accepts, at every depth, a key of an object has one value: the first
-- entry with the key, which the decoding reads, holds the same value as the last, which is the one
-- that encoding/json keeps.
pub validate_json-HasOneValuePerKey :
    (v : Json) → validate_json (tokens_of v []) ≡ ok tt → HasOneValuePerKey v
validate_json-HasOneValuePerKey v h =
    let (u, e, h1) =
      bound (check_value root v) (λ u. only []) tt (sym (validate_json-check_value v []) ∙ h) in
    check_value-HasOneValuePerKey root v e
