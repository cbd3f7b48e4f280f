-- ===== src/Respond/Written.antt =====
-- The body of a generated response of a configuration that was accepted.
use kubio.Prelude.{◌≡◌, refl, false, ◌||◌, ◌&&◌, not, none, some, [], ◌∷◌, if◌then◌else◌, arith, ok}
use kubio.Prelude.Int.{ℤ}
use kubio.Text.{Text, text, text_eq, is_empty, or_else}
use kubio.Net.{Values}
use kubio.Config.Json.{Json}
use kubio.Config.Objects.{outside}
use kubio.Config.Sites.{RawRespond, decode_respond, is_bodyless}
use kubio.Respond.{is_status, serve_generated_response}

-- The check of the configuration.
respond_checked :
    (v : Json) (r : RawRespond)
    → decode_respond v ≡ ok r
    → (is_bodyless r.status && not (is_empty r.body)) ≡ false
unfolding decode_respond
respond_checked v r h = ground arith

status_range :
    (v : Json) (r : RawRespond) → decode_respond v ≡ ok r → outside r.status 200 599 ≡ false
unfolding decode_respond
status_range v r h = ground arith

-- A body with a status that allows none is empty.
written_body :
    (status : ℤ) (body : Text)
    → (is_bodyless status && not (is_empty body)) ≡ false
    → or_else
        (if is_status status 204 || is_status status 205 || is_status status 304 || is_empty body
          then none
          else some body)
        []
      ≡ body
written_body status [] h = ground arith
written_body status (c ∷ s) h = ground arith

-- A response whose configuration the decoder accepted, whatever the header of the writer is, to a
-- request with another method than HEAD: the status that is sent is the configured one, which lies in
-- 200 to 599, and the whole configured body is written, since the statuses that allow none are
-- refused with one.
pub serve_generated_response-written :
    (v : Json) (r : RawRespond) (method : Text) (header prepared : Values)
    → decode_respond v ≡ ok r
    → text_eq method (text "HEAD") ≡ false
    → ((serve_generated_response method header r.status r.body prepared).status ≡ r.status)
      × (outside r.status 200 599 ≡ false)
      × (or_else (serve_generated_response method header r.status r.body prepared).written []
          ≡ r.body)
unfolding serve_generated_response
serve_generated_response-written v r method header prepared h not_head =
    (refl, status_range v r h, rw not_head (written_body r.status r.body (respond_checked v r h)))
