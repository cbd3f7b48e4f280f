-- ===== src/Respond/Tests.antt =====
-- router.go: a generated response.
use kubio.Prelude.{◌≡◌, refl, false, [], ok}
use kubio.Prelude.Int.{pos}
use kubio.Text.{text, text_eq, or_else}
use kubio.Config.Json.{Json, object, number, str, entry, close, field_of}
use kubio.Config.Values.{decode_object, decode_int, int_of, digits, decode_string}
use kubio.Config.Objects.{outside}
use kubio.Config.Sites.{RawRespond, decode_respond}
use kubio.Respond.{serve_generated_response}
use kubio.Respond.Written.{serve_generated_response-written}

abbrev hello : RawRespond
hello = record { status = pos 200; body = text "hi"; headers = [] }

abbrev document : Json
document =
    object
      (entry (text "status") (number (text "200")) (entry (text "body") (str (text "hi")) close))

decoded : decode_respond document ≡ ok hello
unfolding decode_respond decode_object decode_int int_of digits decode_string field_of text_eq
decoded = refl

other_method : text_eq (text "GET") (text "HEAD") ≡ false
unfolding text_eq
other_method = refl

serve_generated_response-written_example :
    ((serve_generated_response (text "GET") [] (pos 200) (text "hi") []).status ≡ pos 200)
    × (outside (pos 200) 200 599 ≡ false)
    × (or_else (serve_generated_response (text "GET") [] (pos 200) (text "hi") []).written []
        ≡ text "hi")
serve_generated_response-written_example =
    serve_generated_response-written document hello (text "GET") [] [] decoded other_method
