-- ===== src/RequestId.antt =====
-- request_id.go: the id of a request, and the writer that keeps it in a response's headers. A header
-- is a map that the handler may change at any time, also after the calls of the writer.
pub mod Trailers
pub mod Writer
pub mod Chosen
pub mod Tokens
mod Tests
use kubio.Prelude.{
  ℕ, suc, ◌+◌, ◌-◌, ◌/◌, ◌%◌, Bool, true, false, ◌&&◌, ◌||◌, not, Option, none, some, List, [], ◌∷◌,
  ◌++◌, ltb, leb, ◌==◌, if◌then◌else◌, length, map,
}
use kubio.Text.{Text, text, text_eq, has_prefix, trim_prefix, equal_fold, split_byte, trim_space}
use kubio.Net.{Values}
use kubio.Headers.{valid_method, put, is_empty_list}

-- requestIDHeader, and the key under which http.Header.Set stores it
abbrev pub request_id_header : Text
request_id_header = text "X-Request-ID"

abbrev pub canonical_request_id : Text
canonical_request_id = text "X-Request-Id"

-- http.TrailerPrefix
abbrev pub trailer_prefix : Text
trailer_prefix = text "Trailer:"

-- if len(values) == 1 { value = values[0] }
abbrev pub alone : List Text → Text → Text
alone [] value = value
alone (v ∷ []) value = v
alone (v ∷ w ∷ more) value = value

-- The loop of requestIDFor: the values under the names of the id, and the last that stood alone.
unfoldable pub count_ids : Values → ℕ × Text → ℕ × Text
count_ids [] (count, value) = (count, value)
count_ids ((name, values) ∷ rest) (count, value) =
    if not (text_eq name request_id_header) && not (equal_fold name request_id_header)
    then count_ids rest (count, value)
    else count_ids rest (count + length values, alone values value)

-- hex.EncodeToString
abbrev pub hex_character : ℕ → ℕ
hex_character d = if ltb d 10 then b'0' + d else b'a' + (d - 10)

abbrev pub hex_encode : List ℕ → Text
hex_encode [] = []
hex_encode (b ∷ bytes) = hex_character (b / 16) ∷ hex_character (b % 16) ∷ hex_encode bytes

-- requestIDFor, on the 16 bytes of rand.Read or its error
unfoldable pub request_id_for : Option (List ℕ) → Values → Option Text
request_id_for random header =
    let (count, value) = count_ids header (0, []) in
    if count == 1 && (leb 1 (length value) && leb (length value) 128 && valid_method value)
    then some value
    else elim random [ none ↦ none | some bytes ↦ some (hex_encode bytes) ]

-- The names that removeRequestID deletes.
unfoldable pub is_request_id : Text → Bool
is_request_id name =
    text_eq name request_id_header
    || equal_fold name request_id_header
    || (has_prefix name trailer_prefix
        && equal_fold (trim_prefix name trailer_prefix) request_id_header)

-- removeRequestID
unfoldable pub remove_request_id : Values → Values
remove_request_id [] = []
remove_request_id ((name, values) ∷ header) =
    if is_request_id name
    then remove_request_id header
    else (name, values) ∷ remove_request_id header

-- strings.Join with a comma and a space
unfoldable pub join : List Text → Text
join [] = []
join (t ∷ []) = t
join (t ∷ u ∷ ts) = t ++ (b',' ∷ 32 ∷ join (u ∷ ts))

-- The loop over the tokens of a value.
unfoldable pub filter_tokens : List Text → List Text
filter_tokens [] = []
filter_tokens (token ∷ tokens) =
    if not (equal_fold (trim_space token) request_id_header)
    then trim_space token ∷ filter_tokens tokens
    else filter_tokens tokens

-- The loop over the values of a Trailer header.
unfoldable pub keep_values : List Text → List Text
keep_values [] = []
keep_values (value ∷ values) =
    let filtered = filter_tokens (split_byte value b',') in
    if is_empty_list filtered then keep_values values else join filtered ∷ keep_values values

-- removeRequestIDTrailer
unfoldable pub remove_request_id_trailer : Values → Values
remove_request_id_trailer [] = []
remove_request_id_trailer ((name, values) ∷ header) =
    let rest = remove_request_id_trailer header in
    let kept = keep_values values in
    if not (equal_fold name (text "Trailer"))
    then (name, values) ∷ rest
    else if is_empty_list kept
    then rest
    else (name, kept) ∷ rest

-- cleanRequestIDHeaders
unfoldable pub clean_request_id_headers : Values → Values
clean_request_id_headers header = remove_request_id_trailer (remove_request_id header)

-- setRequestID: the header of the request.
unfoldable pub set_request_id : Values → Text → Values
set_request_id header id = put request_id_header (id ∷ []) (remove_request_id header)

-- requestIDWriter, with the header of the writer that it wraps
pub record RequestIdWriter : Type 0 where
  pub header : Values
  pub id : Text
  pub committed : Bool
  pub hijacked : Bool
  pub upgrade_header_prepared : Bool

-- The changes of enforce to the header.
unfoldable pub tagged : Text → Values → Values
tagged id header = put canonical_request_id (id ∷ []) (clean_request_id_headers header)

-- requestIDWriter.enforce
unfoldable pub enforce : RequestIdWriter → RequestIdWriter
enforce w = record w { header = tagged w.id w.header }

-- newRequestIDWriter
unfoldable pub new_request_id_writer : Values → Text → RequestIdWriter
new_request_id_writer header id = enforce (record {
  header = header;
  id = id;
  committed = false;
  hijacked = false;
  upgrade_header_prepared = false;
})

-- requestIDWriter.Header: the header that is returned is that of the writer.
unfoldable pub header_call : RequestIdWriter → RequestIdWriter
header_call w =
    if w.committed
    then (if not w.hijacked || not w.upgrade_header_prepared
        then record w {
          header = clean_request_id_headers w.header;
          upgrade_header_prepared = w.hijacked || w.upgrade_header_prepared;
        }
        else record w { header = tagged w.id w.header })
    else w

-- What a handler does with the writer: a call of Header, a change to the header, and the calls with
-- what the wrapped writer answers.
pub data Call : Type 0 where
  get_header : Call
  change : (Values → Values) → Call
  write_header : ℕ → Call
  write : Call
  flush : Bool → Call
  hijack : Bool → Call

-- The writer after a call, and the header that the wrapped writer was called with.
unfoldable pub step : RequestIdWriter → Call → RequestIdWriter × Option Values
step w get_header = (header_call w, none)
step w (change f) = (record w { header = f w.header }, none)
step w (write_header status) =
    let e = enforce w in
    (record e { committed = e.committed || (status == 101 || leb 200 status) }, some e.header)
step w write = let e = enforce w in (record e { committed = true }, some e.header)
step w (flush succeeds) =
    let e = enforce w in (record e { committed = e.committed || succeeds }, some e.header)
step w (hijack succeeds) =
    let e = enforce w in
    (
      (if succeeds
          then record e { committed = true; hijacked = true; upgrade_header_prepared = false }
          else e),
      some e.header,
    )

-- The headers that the wrapped writer was called with during some calls.
unfoldable pub run_calls : RequestIdWriter → List Call → RequestIdWriter × List Values
run_calls w [] = (w, [])
run_calls w (call ∷ calls) =
    let (v, sent) = step w call in
    let (last, later) = run_calls v calls in
    (last, elim sent [ none ↦ later | some header ↦ header ∷ later ])
