-- ===== src/RequestId/Writer.antt =====
-- requestIDWriter during any calls, and the choice of the id.
use kubio.Prelude.{
  ℕ, ◌+◌, ◌*◌, ◌/◌, ◌%◌, ◌≤◌, ◌<◌, ◌≡◌, ◌∙◌, refl, subst, true, false, ◌||◌, ◌&&◌, Option, none,
  some, List, [], ◌∷◌, ◌++◌, if◌then◌else◌, leb, ◌==◌, length, all, arith, All, length-append,
}
use kubio.Text.{Text, text_eq, equal_fold}
use kubio.Net.{Values}
use kubio.Headers.{valid_method, valid_header_name_byte}
use kubio.RequestId.{
  request_id_header, alone, count_ids, hex_character, hex_encode, request_id_for, RequestIdWriter,
  enforce, Call, get_header, change, write_header, write, flush, hijack, header_call, step,
  run_calls,
}
use kubio.RequestId.Trailers.{IsTagged, tagged-IsTagged}

-- What a call hands to the wrapped writer.
abbrev EverySent : Text → Option Values → Type 0
EverySent id none = Unit
EverySent id (some header) = IsTagged id header

step-IsTagged :
    (w : RequestIdWriter) (call : Call)
    → ((step w call).0.id ≡ w.id) × EverySent w.id (step w call).1
unfolding step enforce header_call
step-IsTagged w get_header = (ground arith, tt)
step-IsTagged w (change f) = (refl, tt)
step-IsTagged w (write_header status) = (refl, tagged-IsTagged w.id w.header)
step-IsTagged w write = (refl, tagged-IsTagged w.id w.header)
step-IsTagged w (flush succeeds) = (refl, tagged-IsTagged w.id w.header)
step-IsTagged w (hijack true) = (refl, tagged-IsTagged w.id w.header)
step-IsTagged w (hijack false) = (refl, tagged-IsTagged w.id w.header)

sent_first :
    (id : Text) (sent : Option Values) (later : List Values)
    → EverySent id sent
    → All (IsTagged id) later
    → All (IsTagged id) (elim sent [ none ↦ later | some header ↦ header ∷ later ])
sent_first id none later s h = h
sent_first id (some header) later s h = (s, h)

-- Whatever the handler calls, in whatever order, and whatever it changes in the header in between:
-- each header with which the wrapped writer is called, for a status, a body, a flush or a hijack, has
-- the id as its one entry by a name of the id, and no Trailer header that names it.
pub run_calls-IsTagged :
    (w : RequestIdWriter) (calls : List Call) → All (IsTagged w.id) (run_calls w calls).1
unfolding run_calls
run_calls-IsTagged w [] = tt
run_calls-IsTagged w (call ∷ calls) =
    let (same, s) = step-IsTagged w call in
    sent_first w.id (step w call).1 _ s (
      subst (λ id. All (IsTagged id) (run_calls (step w call).0 calls).1) same
        (run_calls-IsTagged (step w call).0 calls))

-- The id stays.
pub run_calls-id : (w : RequestIdWriter) (calls : List Call) → (run_calls w calls).0.id ≡ w.id
unfolding run_calls
run_calls-id w [] = refl
run_calls-id w (call ∷ calls) = run_calls-id (step w call).0 calls ∙ (step-IsTagged w call).0

-- The values by the names of the id.
unfoldable pub ids_in : Values → List Text
ids_in [] = []
ids_in ((name, values) ∷ header) =
    if text_eq name request_id_header || equal_fold name request_id_header
    then values ++ ids_in header
    else ids_in header

-- The id of a request, by its values alone.
abbrev pub chosen_id : Option (List ℕ) → List Text → Option Text
chosen_id random [] = elim random [ none ↦ none | some bytes ↦ some (hex_encode bytes) ]
chosen_id random (v ∷ []) =
    if leb 1 (length v) && leb (length v) 128 && valid_method v
    then some v
    else elim random [ none ↦ none | some bytes ↦ some (hex_encode bytes) ]
chosen_id random (v ∷ w ∷ more) = elim random [ none ↦ none | some bytes ↦ some (hex_encode bytes) ]

count_ids-length :
    (header : Values) (count : ℕ) (value : Text)
    → (count_ids header (count, value)).0 ≡ count + length (ids_in header)
unfolding count_ids ids_in
count_ids-length [] count value = omega arith
count_ids-length ((name, values) ∷ header) count value = ground (
  arith,
  count_ids-length header count value,
  count_ids-length header (count + length values) (alone values value),
  length-append values (ids_in header),
)

count_ids_none :
    (header : Values) (count : ℕ) (value : Text)
    → ids_in header ≡ []
    → count_ids header (count, value) ≡ (count, value)
unfolding count_ids ids_in
count_ids_none [] count value h = refl
count_ids_none ((name, []) ∷ header) count value h =
    ground (arith, count_ids_none header count value)
count_ids_none ((name, v ∷ values) ∷ header) count value h =
    ground (arith, count_ids_none header count value)

count_ids_one :
    (header : Values) (count : ℕ) (value v : Text)
    → ids_in header ≡ v ∷ []
    → count_ids header (count, value) ≡ (count + 1, v)
unfolding count_ids ids_in
count_ids_one [] count value v h = absurd cc
count_ids_one ((name, []) ∷ header) count value v h =
    ground (arith, count_ids_one header count value v)
count_ids_one ((name, u ∷ []) ∷ header) count value v h =
    ground (arith, count_ids_one header count value v, count_ids_none header (count + 1) u)
count_ids_one ((name, u ∷ x ∷ values) ∷ header) count value v h =
    ground (arith, count_ids_one header count value v)

-- requestIDFor depends on the header only by the values under the names of the id, in any case: it
-- takes the value if there is one alone, of 1 to 128 bytes that are those of a token, and else a
-- fresh id, or fails where the random bytes cannot be read.
pub request_id_for-chosen_id :
    (random : Option (List ℕ)) (header : Values)
    → request_id_for random header ≡ chosen_id random (ids_in header)
unfolding request_id_for
request_id_for-chosen_id random header = by_ids (ids_in header) refl
  where
    by_ids :
        (ids : List Text)
        → ids_in header ≡ ids
        → request_id_for random header ≡ chosen_id random ids
    by_ids [] e = rw (count_ids_none header 0 [] e) refl
    by_ids (v ∷ []) e = rw (count_ids_one header 0 [] v e) refl
    by_ids (v ∷ w ∷ more) e = ground (arith, count_ids-length header 0 [])

digit-valid : (d : ℕ) → d < 16 → valid_header_name_byte (hex_character d) ≡ true
unfolding valid_header_name_byte
digit-valid d h = ground arith

hex_encode-valid :
    (bytes : List ℕ)
    → All (λ b. b < 256) bytes
    → (length (hex_encode bytes) ≡ 2 * length bytes)
      × (all (λ c. c == b'*' || valid_header_name_byte c) (hex_encode bytes) ≡ true)
hex_encode-valid [] h = (refl, refl)
hex_encode-valid (b ∷ bytes) (small, h) =
    let (n, valid) = hex_encode-valid bytes h in
    (omega arith, ground (arith, digit-valid (b / 16), digit-valid (b % 16), valid))

hex_encode-valid_method :
    (bytes : List ℕ)
    → length bytes ≡ 16
    → All (λ b. b < 256) bytes
    → (length (hex_encode bytes) ≡ 32) × (valid_method (hex_encode bytes) ≡ true)
unfolding valid_method
hex_encode-valid_method [] n small = absurd (omega arith)
hex_encode-valid_method (b ∷ bytes) n small =
    let (m, valid) = hex_encode-valid (b ∷ bytes) small in (omega arith, valid)

-- Whenever requestIDFor returns an id, and rand.Read fills 16 bytes: the id has 1 to 128 bytes, each
-- of them that of a token, whatever the client has sent.
pub request_id_for-valid :
    (bytes : List ℕ) (header : Values) (id : Text)
    → length bytes ≡ 16
    → All (λ b. b < 256) bytes
    → request_id_for (some bytes) header ≡ some id
    → (1 ≤ length id) × (length id ≤ 128) × (valid_method id ≡ true)
unfolding request_id_for
request_id_for-valid bytes header id n small h =
    let (m, valid) = hex_encode-valid_method bytes n small in
    (ground (arith, m), ground (arith, m), ground (arith, valid))
