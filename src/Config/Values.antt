-- ===== src/Config/Values.antt =====
-- config.go: the UnmarshalJSON methods of strings, numbers, durations and maps of strings. Of an
-- error its kind is kept; the index or the name in its text is left out.
use kubio.Prelude.{
  ℕ, zero, suc, ◌+◌, ◌-◌, ◌*◌, ◌^◌, Bool, false, ◌&&◌, ◌||◌, Option, none, some, List, [], ◌∷◌, ltb,
  leb, ◌==◌, if◌then◌else◌, Result, ok, err, ◌>>=◌, ◌>>◌, reject_if,
}
use kubio.Prelude.Int.{ℤ, pos, negsuc, leb_ℤ, pos_part}
use kubio.Text.{Text}
use kubio.Headers.{HeaderError, is_empty_list, is_member}
use kubio.Backend.Schedule.{WeightError}
use kubio.Backend.Retryable.{StatusError}
use kubio.Config.Json.{Json, null, boolean, number, str, array, object, Fields, items_of, fields_of}

pub data ConfigError : Type 0 where
  must_be_object must_be_array must_be_string must_be_integer must_be_duration must_be_boolean :
      ConfigError
  missing out_of_range must_not_be_empty not_allowed : ConfigError
  bad_headers : HeaderError → ConfigError
  bad_weights : WeightError → ConfigError
  bad_statuses : StatusError → ConfigError

abbrev pub Decoded {ℓ} : Type ℓ → Type ℓ
Decoded A = Result ConfigError A

-- A check of another component with its own errors.
abbrev pub wrap {ℓ} : {E : Type 0} {A : Type ℓ} → (E → ConfigError) → Result E A → Decoded A
wrap f (ok a) = ok a
wrap f (err e) = err (f e)

-- A field of a struct: its method is called where the key stands in the object.
abbrev pub optional {ℓ} : {A : Type ℓ} → (Json → Decoded A) → Option Json → Decoded (Option A)
optional decode none = ok none
optional decode (some v) = decode v >>= λ a. ok (some a)

abbrev pub decode_all {ℓ} : {A : Type ℓ} → (Json → Decoded A) → List Json → Decoded (List A)
decode_all decode [] = ok []
decode_all decode (v ∷ rest) = decode v >>= λ a. decode_all decode rest >>= λ more. ok (a ∷ more)

abbrev pub decode_entries {ℓ} :
    {A : Type ℓ} → (Json → Decoded A) → List (Text × Json) → Decoded (List (Text × A))
decode_entries decode [] = ok []
decode_entries decode ((key, v) ∷ rest) =
    decode v >>= λ a. decode_entries decode rest >>= λ more. ok ((key, a) ∷ more)

-- optionalString
unfoldable pub decode_string : Json → Decoded Text
decode_string (str s) = ok s
decode_string null = err must_be_string
decode_string (boolean b) = err must_be_string
decode_string (number n) = err must_be_string
decode_string (array items) = err must_be_string
decode_string (object fields) = err must_be_string

-- stringArray; optionalStringArray is an optional one.
unfoldable pub decode_string_array : Json → Decoded (List Text)
decode_string_array (array items) = decode_all decode_string (items_of items)
decode_string_array null = err must_be_array
decode_string_array (str s) = err must_be_array
decode_string_array (boolean b) = err must_be_array
decode_string_array (number n) = err must_be_array
decode_string_array (object fields) = err must_be_array

-- The digits of an integer literal.
unfoldable pub digits : ℕ → Text → Option ℕ
digits n [] = some n
digits n (c ∷ s) = if leb b'0' c && leb c b'9' then digits (n * 10 + (c - b'0')) s else none

abbrev pub negative : ℕ → ℤ
negative zero = pos 0
negative (suc n) = negsuc n

-- An integer literal in the range of int64.
unfoldable pub int_of : Text → Option ℤ
int_of [] = none
int_of (c ∷ s) =
    if c == b'-'
    then (elim (digits 0 s) [
      | none ↦ none
      | some n ↦ if leb n (2 ^ 63) then some (negative n) else none
    ])
    else elim (digits 0 (c ∷ s)) [
      | none ↦ none
      | some n ↦ if ltb n (2 ^ 63) then some (pos n) else none
    ]

-- optionalInt and optionalInt64, an int having 64 bits
unfoldable pub decode_int : Json → Decoded ℤ
decode_int (number literal) = elim (int_of literal) [ none ↦ err must_be_integer | some n ↦ ok n ]
decode_int null = err must_be_integer
decode_int (str s) = err must_be_integer
decode_int (boolean b) = err must_be_integer
decode_int (array items) = err must_be_integer
decode_int (object fields) = err must_be_integer

-- optionalIntArray
unfoldable pub decode_int_array : Json → Decoded (List ℤ)
decode_int_array (array items) = decode_all decode_int (items_of items)
decode_int_array null = err must_be_array
decode_int_array (str s) = err must_be_array
decode_int_array (boolean b) = err must_be_array
decode_int_array (number n) = err must_be_array
decode_int_array (object fields) = err must_be_array

-- optionalDuration; `parse` is time.ParseDuration, in nanoseconds.
unfoldable pub decode_duration : (Text → Option ℤ) → Json → Decoded ℕ
decode_duration parse (str s) = elim (parse s) [
  | none ↦ err must_be_duration
  | some d ↦ if leb_ℤ d (pos 0) then err must_be_duration else ok (pos_part d)
]
decode_duration parse null = err must_be_duration
decode_duration parse (boolean b) = err must_be_duration
decode_duration parse (number n) = err must_be_duration
decode_duration parse (array items) = err must_be_duration
decode_duration parse (object fields) = err must_be_duration

-- strictBool
unfoldable pub decode_bool : Json → Decoded Bool
decode_bool (boolean b) = ok b
decode_bool null = err must_be_boolean
decode_bool (str s) = err must_be_boolean
decode_bool (number n) = err must_be_boolean
decode_bool (array items) = err must_be_boolean
decode_bool (object fields) = err must_be_boolean

-- The checks that a value begins with a brace.
unfoldable pub decode_object : Json → Decoded Fields
decode_object (object fields) = ok fields
decode_object null = err must_be_object
decode_object (str s) = err must_be_object
decode_object (boolean b) = err must_be_object
decode_object (number n) = err must_be_object
decode_object (array items) = err must_be_object

-- headerMap and optionalHeaderMap
unfoldable pub decode_header_map : Json → Decoded (List (Text × Text))
decode_header_map v = decode_object v >>= λ fields. decode_entries decode_string (fields_of fields)

-- An array that is not empty.
unfoldable pub decode_some_strings : Json → Decoded (List Text)
decode_some_strings v = do
  values ← decode_string_array v
  reject_if (is_empty_list values) must_not_be_empty
  ok values

-- A string, or an array that is not empty.
unfoldable pub decode_values : Json → Decoded (List Text)
decode_values (str s) = ok (s ∷ [])
decode_values null = decode_some_strings null
decode_values (boolean b) = decode_some_strings (boolean b)
decode_values (number n) = decode_some_strings (number n)
decode_values (array items) = decode_some_strings (array items)
decode_values (object fields) = decode_some_strings (object fields)

-- headerValues
unfoldable pub decode_header_values : Json → Decoded (List (Text × List Text))
decode_header_values v =
    decode_object v >>= λ fields. decode_entries decode_values (fields_of fields)

-- optionalRespondHeaders
unfoldable pub decode_respond_headers : Json → Decoded (List (Text × List Text))
decode_respond_headers v =
    decode_object v >>= λ fields. decode_entries decode_some_strings (fields_of fields)

abbrev pub has_duplicate : List Text → List Text → Bool
has_duplicate seen [] = false
has_duplicate seen (s ∷ rest) = is_member s seen || has_duplicate (s ∷ seen) rest

-- The alternatives of one condition.
unfoldable pub decode_alternatives : Json → Decoded (List Text)
decode_alternatives v = do
  values ← decode_values v
  reject_if (has_duplicate [] values) not_allowed
  ok values

-- conditionValues
unfoldable pub decode_condition_values : Json → Decoded (List (Text × List Text))
decode_condition_values v =
    decode_object v >>= λ fields. decode_entries decode_alternatives (fields_of fields)
