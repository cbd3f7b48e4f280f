-- ===== src/Respond.antt =====
-- router.go: the responses that a route generates.
pub mod Written
mod Tests
use kubio.Prelude.{ℕ, Bool, ◌||◌, not, [], Option, none, some, if◌then◌else◌}
use kubio.Prelude.Int.{ℤ}
use kubio.Text.{Text, text, text_eq, is_empty}
use kubio.Net.{Values}
use kubio.Headers.{ResponseHeaderPolicy, apply_response_headers, put_all}
use kubio.Config.Objects.{outside}

-- The status is the one of a constant of net/http.
abbrev pub is_status : ℤ → ℕ → Bool
is_status status n = not (outside status n n)

-- What a generated response sends: its header, its status, and what it writes as its body.
pub record Sent : Type 0 where
  pub header : Values
  pub status : ℤ
  pub written : Option Text

-- serveGeneratedResponse, on the method of the request and the header of the writer
unfoldable pub serve_generated_response : Text → Values → ℤ → Text → Values → Sent
serve_generated_response method header status body prepared = record {
  header = put_all prepared header;
  status = status;
  written =
      if text_eq method (text "HEAD")
        || is_status status 204
        || is_status status 205
        || is_status status 304
        || is_empty body
      then none
      else some body;
}

-- prepareGeneratedResponseHeaders
unfoldable pub prepare_generated_response_headers :
    ResponseHeaderPolicy → ResponseHeaderPolicy → Values
prepare_generated_response_headers site_policy generated =
    apply_response_headers [] generated (apply_response_headers [] site_policy [])
