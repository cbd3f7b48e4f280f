-- ===== src/Path/Tests.antt =====
-- router.go: the theorems on paths at concrete ones.
use kubio.Prelude.{◌≡◌, refl, inr, some}
use kubio.Text.{Text, text}
use kubio.Url.{Url, path_unescape, unhex}
use kubio.Path.{strip_request_path, strip_escaped_path_prefix, escaped_path_byte, hex_digit}
use kubio.Path.Strip.{
  Reads, strip_escaped_path_prefix_sound, strip_escaped_path_prefix_complete,
  strip_request_path-Reads,
}
use kubio.Path.Escape.{append_some}

abbrev escaped_api : Url
escaped_api = record { path = text "/api/x y"; raw_path = text "/%61pi/x%20y" }

api-Reads : Reads escaped_api
unfolding path_unescape unhex
api-Reads = inr refl

strip_request_path-Reads_example : Reads (strip_request_path escaped_api (text "/api"))
strip_request_path-Reads_example = strip_request_path-Reads escaped_api (text "/api") api-Reads

stripped_api : strip_escaped_path_prefix (text "/%61pi/x") (text "/api") ≡ some (text "/x")
unfolding strip_escaped_path_prefix escaped_path_byte hex_digit
stripped_api = refl

strip_escaped_path_prefix_sound_example :
    path_unescape (text "/%61pi/x") ≡ append_some (text "/api") (path_unescape (text "/x"))
strip_escaped_path_prefix_sound_example =
    strip_escaped_path_prefix_sound (text "/%61pi/x") (text "/api") (text "/x") stripped_api

unescaped_api : path_unescape (text "/%61pi/x") ≡ some (text "/api/x")
unfolding path_unescape unhex
unescaped_api = refl

strip_escaped_path_prefix_complete_example :
    (rest : Text) × (strip_escaped_path_prefix (text "/%61pi/x") (text "/api") ≡ some rest)
    × (path_unescape rest ≡ some (text "/x"))
strip_escaped_path_prefix_complete_example =
    strip_escaped_path_prefix_complete (text "/%61pi/x") (text "/api") (text "/x") unescaped_api
