-- ===== src/Headers/Tests.antt =====
-- config.go and proxy.go: a policy applied to concrete headers, and expanded values.
use kubio.Prelude.{◌≡◌, refl, [], ◌∷◌, none, some, ◌++◌, if◌then◌else◌, ok, err}
use kubio.Text.{text, text_eq, has_prefix, index_byte}
use kubio.Net.{Values, values_of}
use kubio.Headers.{
  ResponseHeaderPolicy, apply_response_headers, contains_header_name, has_key, is_member,
  expand_env, expand_from, unterminated_variable, valid_environment_name, is_environment_name_start,
}
use kubio.Headers.{
  HeaderEnv, resolve_headers, resolve_headers_from, valid_header_name, valid_header_value,
  restricted_header, put,
}
use kubio.Headers.Escape.{escape, expand_env-escape}
use kubio.Headers.Resolve.{IsAllowed, resolve_headers-IsAllowed}
use kubio.Prelude.{All}
use kubio.Text.{to_lower}
use kubio.Headers.Apply.{Distinct, apply_response_headers-values}

abbrev policy : ResponseHeaderPolicy
policy = record {
  set_values = (text "Vary", text "Accept" ∷ []) ∷ [];
  add_values = (text "Vary", text "Origin" ∷ []) ∷ [];
  remove_names = text "Server" ∷ [];
}

abbrev headers : Values
headers = (text "Server", text "x" ∷ []) ∷ []

once : Distinct policy.set_values
unfolding text_eq
once = (refl, tt)

apply_response_headers-values_example :
    values_of (text "Vary") (apply_response_headers [] policy headers) ≡ (
      if contains_header_name [] (text "Vary")
      then values_of (text "Vary") headers
      else (if has_key (text "Vary") policy.set_values
          then values_of (text "Vary") policy.set_values
          else if is_member (text "Vary") policy.remove_names
          then []
          else values_of (text "Vary") headers)
        ++ values_of (text "Vary") policy.add_values)
apply_response_headers-values_example =
    apply_response_headers-values [] policy headers (text "Vary") once (refl, tt)

expanded : expand_env (λ name. some (text "v")) (text "a${B}\\${C}") ≡ ok (text "av${C}")
unfolding expand_env expand_from has_prefix index_byte valid_environment_name
    is_environment_name_start
expanded = refl

not_terminated : expand_env (λ name. none) (text "${B") ≡ err unterminated_variable
unfolding expand_env expand_from has_prefix index_byte
not_terminated = refl

abbrev plain_env : HeaderEnv
plain_env = record { canonical = λ name. name; lookup = λ name. some (text "v") }

resolved_header :
    resolve_headers plain_env ((text "X-A", text "a${B}") ∷ []) ≡ ok ((text "X-A", text "av") ∷ [])
unfolding resolve_headers resolve_headers_from expand_env expand_from has_prefix index_byte
    valid_environment_name is_environment_name_start valid_header_name valid_header_value
    restricted_header put text_eq to_lower
resolved_header = refl

resolve_headers-IsAllowed_example : All IsAllowed ((text "X-A", text "av") ∷ [])
resolve_headers-IsAllowed_example =
    resolve_headers-IsAllowed plain_env ((text "X-A", text "a${B}") ∷ [])
      ((text "X-A", text "av") ∷ []) resolved_header

expand_env-escape_example :
    expand_env (λ name. some (text "secret")) (escape (text "a\\${HOME}")) ≡ ok (text "a\\${HOME}")
expand_env-escape_example = expand_env-escape (λ name. some (text "secret")) (text "a\\${HOME}")
