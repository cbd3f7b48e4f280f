-- ===== src/RequestId/Trailers.antt =====
-- What the removal of the id leaves in a header.
use kubio.Prelude.{
  ◌≡◌, refl, sym, ◌∙◌, subst, true, false, List, [], ◌∷◌, if◌then◌else◌, Bool-cases, inl, inr, All,
}
use kubio.Text.{Text, text, text_eq, equal_fold, to_lower}
use kubio.Text.Laws.{text_eq_iff}
use kubio.Net.{Values}
use kubio.Headers.{put, is_empty_list}
use kubio.RequestId.{
  request_id_header, canonical_request_id, is_request_id, remove_request_id, keep_values,
  remove_request_id_trailer, clean_request_id_headers, tagged,
}
use kubio.RequestId.Tokens.{tokens_in, other_tokens, tokens_in-keep_values}

-- A token that is not the name of the id's header.
abbrev pub IsOther : Text → Type 0
IsOther t = equal_fold t request_id_header ≡ false

-- An entry that, if it is a Trailer header, does not announce the id.
abbrev pub AnnouncesNoId : Text × List Text → Type 0
AnnouncesNoId entry = equal_fold entry.0 (text "Trailer") ≡ true → All IsOther (tokens_in entry.1)

-- A header without the id, by any name.
abbrev pub IsClean : Values → Type 0
IsClean header = All (λ entry. (is_request_id entry.0 ≡ false) × AnnouncesNoId entry) header

other_tokens-IsOther : (ts : List Text) → All IsOther (other_tokens ts)
unfolding other_tokens
other_tokens-IsOther [] = tt
other_tokens-IsOther (t ∷ ts) = elim (Bool-cases (equal_fold t request_id_header)) [
  | inl named ↦ rw named (other_tokens-IsOther ts)
  | inr other ↦ rw other (other, other_tokens-IsOther ts)
]

keep_values-IsOther : (values : List Text) → All IsOther (tokens_in (keep_values values))
keep_values-IsOther values =
    subst (All IsOther) (sym (tokens_in-keep_values values))
      (other_tokens-IsOther (tokens_in values))

abbrev NotTheId : Text × List Text → Type 0
NotTheId entry = is_request_id entry.0 ≡ false

remove_request_id-NotTheId : (header : Values) → All NotTheId (remove_request_id header)
unfolding remove_request_id
remove_request_id-NotTheId [] = tt
remove_request_id-NotTheId ((name, values) ∷ header) = elim (Bool-cases (is_request_id name)) [
  | inl named ↦ rw named (remove_request_id-NotTheId header)
  | inr other ↦ rw other (other, remove_request_id-NotTheId header)
]

-- A Trailer header whose values are filtered, or which is dropped with its last value.
kept-IsClean :
    (name : Text) (kept : List Text) (rest : Values)
    → is_request_id name ≡ false
    → All IsOther (tokens_in kept)
    → IsClean rest
    → IsClean (if is_empty_list kept then rest else (name, kept) ∷ rest)
kept-IsClean name [] rest n h r = r
kept-IsClean name (v ∷ values) rest n h r = ((n, λ e. h), r)

remove_request_id_trailer-IsClean :
    (header : Values) → All NotTheId header → IsClean (remove_request_id_trailer header)
unfolding remove_request_id_trailer
remove_request_id_trailer-IsClean [] h = tt
remove_request_id_trailer-IsClean ((name, values) ∷ header) (n, h) =
    elim (Bool-cases (equal_fold name (text "Trailer"))) [
      | inl trailer ↦ rw trailer (
          kept-IsClean name (keep_values values) _ n (keep_values-IsOther values)
            (remove_request_id_trailer-IsClean header h))
      | inr other ↦ rw other ((n, λ e. absurd cc), remove_request_id_trailer-IsClean header h)
    ]

-- cleanRequestIDHeaders leaves no header by a name of the id, and no Trailer header that names it.
pub clean_request_id_headers-IsClean : (header : Values) → IsClean (clean_request_id_headers header)
unfolding clean_request_id_headers
clean_request_id_headers-IsClean header =
    remove_request_id_trailer-IsClean (remove_request_id header) (remove_request_id-NotTheId header)

-- The entries by a name of the id.
unfoldable pub ids_of : Values → Values
ids_of [] = []
ids_of ((name, values) ∷ header) =
    if is_request_id name then (name, values) ∷ ids_of header else ids_of header

-- A header whose one id is this one.
abbrev pub IsTagged : Text → Values → Type 0
IsTagged id header =
    (ids_of header ≡ (canonical_request_id, id ∷ []) ∷ []) × All AnnouncesNoId header

canonical-is_request_id : is_request_id canonical_request_id ≡ true
unfolding is_request_id text_eq equal_fold to_lower
canonical-is_request_id = refl

canonical-AnnouncesNoId : (values : List Text) → AnnouncesNoId (canonical_request_id, values)
unfolding equal_fold to_lower text_eq
canonical-AnnouncesNoId values e = absurd cc

put-IsTagged :
    (id : Text) (header : Values)
    → IsClean header
    → IsTagged id (put canonical_request_id (id ∷ []) header)
unfolding put ids_of
put-IsTagged id [] h = (rw canonical-is_request_id refl, (canonical-AnnouncesNoId (id ∷ []), tt))
put-IsTagged id ((name, values) ∷ header) ((n, a), h) =
    let (one, rest) = put-IsTagged id header h in
    elim (Bool-cases (text_eq name canonical_request_id)) [
      | inl same ↦ absurd (
          let e = (text_eq_iff name canonical_request_id).0 same in
          let clash = sym (subst (λ s. is_request_id s ≡ false) e n) ∙ canonical-is_request_id in
          cc)
      | inr other ↦ rw (other, n) (one, (a, rest))
    ]

-- After enforce, whatever the header was, its one entry by a name of the id is the id's, and no Trailer
-- header names it.
pub tagged-IsTagged : (id : Text) (header : Values) → IsTagged id (tagged id header)
unfolding tagged
tagged-IsTagged id header =
    put-IsTagged id (clean_request_id_headers header) (clean_request_id_headers-IsClean header)
