-- ===== src/RequestId/Chosen.antt =====
-- The header of the request after setRequestID: the id is its only value by a name of the id.
use kubio.Prelude.{◌≡◌, refl, false, ◌||◌, List, [], ◌∷◌, Bool-cases, inl, inr, All, arith}
use kubio.Text.{Text, text_eq, equal_fold}
use kubio.Text.Laws.{text_eq_refl}
use kubio.Net.{Values}
use kubio.Headers.{put}
use kubio.RequestId.{request_id_header, is_request_id, remove_request_id, set_request_id}
use kubio.RequestId.Writer.{ids_in}

-- A name that does not hold an id, be it with a trailer's prefix or not.
abbrev NoName : Text × List Text → Type 0
NoName entry = (text_eq entry.0 request_id_header || equal_fold entry.0 request_id_header) ≡ false

other_name : (name : Text) (values : List Text) → is_request_id name ≡ false → NoName (name, values)
unfolding is_request_id
other_name name values h = ground arith

remove_request_id-NoName : (header : Values) → All NoName (remove_request_id header)
unfolding remove_request_id
remove_request_id-NoName [] = tt
remove_request_id-NoName ((name, values) ∷ header) = elim (Bool-cases (is_request_id name)) [
  | inl named ↦ rw named (remove_request_id-NoName header)
  | inr other ↦ rw other (other_name name values other, remove_request_id-NoName header)
]

ids_in-put :
    (id : Text) (header : Values)
    → All NoName header
    → ids_in (put request_id_header (id ∷ []) header) ≡ id ∷ []
unfolding put ids_in
ids_in-put id [] h = rw (text_eq_refl request_id_header) refl
ids_in-put id ((name, values) ∷ header) (n, h) = ground (arith, n, ids_in-put id header h)

pub ids_in-set_request_id :
    (header : Values) (id : Text) → ids_in (set_request_id header id) ≡ id ∷ []
unfolding set_request_id
ids_in-set_request_id header id =
    ids_in-put id (remove_request_id header) (remove_request_id-NoName header)
