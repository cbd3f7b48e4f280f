-- ===== src/RequestId/Tests.antt =====
-- request_id.go on concrete headers.
use kubio.Prelude.{
  ℕ, ◌≤◌, ◌<◌, arith, ◌≡◌, refl, true, false, some, List, [], ◌∷◌, length, All, replicate,
}
use kubio.Text.{
  text, text_eq, equal_fold, to_lower, split_byte, trim_space, trim, trim_left, trim_right,
}
use kubio.Net.{Values}
use kubio.Headers.{valid_method}
use kubio.RequestId.{
  RequestIdWriter, Call, get_header, change, write_header, write, keep_values, request_id_for,
  count_ids, hex_encode, run_calls, filter_tokens, join,
}
use kubio.RequestId.Tokens.{tokens_in, other_tokens, tokens_in-keep_values}
use kubio.RequestId.Trailers.{IsTagged}
use kubio.RequestId.Writer.{
  chosen_id, ids_in, run_calls-IsTagged, request_id_for-chosen_id, request_id_for-valid,
}

abbrev client : Values
client = (text "x-request-id", text "abc" ∷ []) ∷ (text "Accept", text "*/*" ∷ []) ∷ []

abbrev random_bytes : List ℕ
random_bytes = replicate 16 7

abbrev writer : RequestIdWriter
writer = record {
  header = client;
  id = text "abc";
  committed = false;
  hijacked = false;
  upgrade_header_prepared = false;
}

abbrev calls : List Call
calls =
    change (λ h. (text "X-Request-Id", text "other" ∷ []) ∷ h)
    ∷ write_header 200
    ∷ get_header
    ∷ write
    ∷ []

run_calls-IsTagged_example : All (IsTagged (text "abc")) (run_calls writer calls).1
run_calls-IsTagged_example = run_calls-IsTagged writer calls

dropped :
    keep_values (text "Digest, X-REQUEST-ID,Expires" ∷ text "x-request-id" ∷ [])
    ≡ text "Digest, Expires" ∷ []
unfolding keep_values filter_tokens split_byte trim_space equal_fold to_lower text_eq trim trim_left
    trim_right join
dropped = refl

tokens_in-keep_values_example :
    tokens_in (keep_values (text "Digest, X-REQUEST-ID,Expires" ∷ text "x-request-id" ∷ []))
    ≡ other_tokens (tokens_in (text "Digest, X-REQUEST-ID,Expires" ∷ text "x-request-id" ∷ []))
tokens_in-keep_values_example =
    tokens_in-keep_values (text "Digest, X-REQUEST-ID,Expires" ∷ text "x-request-id" ∷ [])

request_id_for-chosen_id_example :
    request_id_for (some random_bytes) client ≡ chosen_id (some random_bytes) (ids_in client)
request_id_for-chosen_id_example = request_id_for-chosen_id (some random_bytes) client

fresh : request_id_for (some random_bytes) [] ≡ some (hex_encode random_bytes)
unfolding request_id_for count_ids
fresh = refl

request_id_for-valid_example :
    (1 ≤ length (hex_encode random_bytes))
    × (length (hex_encode random_bytes) ≤ 128)
    × (valid_method (hex_encode random_bytes) ≡ true)
request_id_for-valid_example =
    request_id_for-valid random_bytes [] (hex_encode random_bytes) refl bytes_small fresh
  where
    bytes_small : All (λ b. b < 256) random_bytes
    bytes_small = omega arith
