-- ===== src/Config/Schema/Tests.antt =====
-- validateJSON on small documents.
use kubio.Prelude.{◌≡◌, ◌≢◌, refl, [], ◌∷◌, ok, err, ◌>>◌}
use kubio.Text.{text, text_eq}
use kubio.Config.Json.{Json, number, str, array, object, end, item, close, entry}
use kubio.Config.Schema.{
  open_brace, word, plain, no_fuel, duplicate_key, unknown_field, root, one_of, child_json_schema,
  array_item_json_schema, consume_json_value, only, validate_json,
}
use kubio.Config.Schema.Check.{tokens_of, check_value, validate_json-check_value}
use kubio.Config.Schema.Unique.{HasOneValuePerKey, validate_json-HasOneValuePerKey}
use kubio.Config.Schema.Fuel.{validate_json_total}

abbrev document : Json
document = object (
    entry (text "listen") (str (text ":80")) (
      entry (text "sites")
        (array (item (object (entry (text "target") (str (text "http://a")) close)) end)) close))

abbrev twice : Json
twice = object (entry (text "id") (number (text "1")) (entry (text "id") (number (text "2")) close))

twice-refused : validate_json (tokens_of twice []) ≡ err duplicate_key
unfolding validate_json consume_json_value tokens_of text_eq child_json_schema one_of
twice-refused = refl

wrong_case :
    validate_json (tokens_of (object (entry (text "Listen") (str (text ":80")) close)) [])
    ≡ err unknown_field
unfolding validate_json consume_json_value tokens_of text_eq child_json_schema one_of
wrong_case = refl

accepted : validate_json (tokens_of document []) ≡ ok tt
unfolding validate_json consume_json_value tokens_of text_eq child_json_schema one_of
    array_item_json_schema
accepted = refl

validate_json-check_value_example :
    validate_json (tokens_of document (plain ∷ []))
    ≡ (check_value root document >> only (plain ∷ []))
validate_json-check_value_example = validate_json-check_value document (plain ∷ [])

validate_json-HasOneValuePerKey_example : HasOneValuePerKey document
validate_json-HasOneValuePerKey_example = validate_json-HasOneValuePerKey document accepted

validate_json_total_example :
    validate_json (open_brace ∷ word (text "tls") ∷ open_brace ∷ []) ≢ err no_fuel
validate_json_total_example = validate_json_total (open_brace ∷ word (text "tls") ∷ open_brace ∷ [])
