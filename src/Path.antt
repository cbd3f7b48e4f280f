-- ===== src/Path.antt =====
-- router.go: patterns of paths, and what a route does to the path of a request. A position in a
-- raw path is the text from there on.
pub mod Escape
pub mod Strip
pub mod Pattern
mod Tests
use kubio.Prelude.{
  ℕ, ◌+◌, ◌-◌, ◌*◌, Bool, true, false, ◌&&◌, ◌||◌, not, Option, none, some, List, [], ◌∷◌, ◌++◌,
  ltb, leb, ◌==◌, if◌then◌else◌, any, Result, ok, err, ◌>>=◌, ◌>>◌, reject_if,
}
use kubio.Text.{
  Text, text, text_eq, is_empty, has_prefix, trim_prefix, has_suffix, trim_suffix, contains_byte,
  count_byte, trim, is_some, or_else,
}
use kubio.Url.{Url, path_unescape, escaped_path, decodes_to}

-- pathPattern
pub record PathPattern : Type 0 where
  pub path : Text
  pub raw_path : Text
  pub wildcard : Bool
  pub depth : ℕ

pub data PathError : Type 0 where
  no_leading_slash query_or_fragment not_trailing_wildcard : PathError

-- escapedURLPath
unfoldable pub escaped_url_path : Text → Text
unfolding escaped_path
escaped_url_path path = escaped_path (record { path = path; raw_path = [] })

-- pathDepth
unfoldable pub path_depth : Text → ℕ
unfolding text_eq count_byte trim
path_depth path =
    if is_empty path || text_eq path (text "/")
    then 0
    else count_byte (trim (λ c. c == b'/') path) b'/' + 1

-- The runes that no path pattern may hold.
abbrev pub is_forbidden : ℕ → Bool
is_forbidden c = c == b'?' || c == b'#' || ltb c 0x20 || c == 0x7f

-- The part of newPathPattern after its checks of the bytes.
unfoldable pub compile_pattern : Text → Result PathError PathPattern
unfolding text_eq has_suffix trim_suffix contains_byte escaped_url_path path_depth
compile_pattern raw =
    if text_eq raw (text "/*")
    then ok (record { path = []; raw_path = []; wildcard = true; depth = 0 })
    else if has_suffix raw (text "/*")
    then (let prefix = trim_suffix raw (text "/*") in
        if contains_byte prefix b'*'
        then err not_trailing_wildcard
        else ok (record {
          path = prefix;
          raw_path = escaped_url_path prefix;
          wildcard = true;
          depth = path_depth prefix;
        }))
    else if contains_byte raw b'*'
    then err not_trailing_wildcard
    else ok (record {
      path = raw;
      raw_path = escaped_url_path raw;
      wildcard = false;
      depth = path_depth raw;
    })

-- newPathPattern
unfoldable pub new_path_pattern : Text → Result PathError PathPattern
unfolding has_prefix compile_pattern
new_path_pattern raw = do
  reject_if (is_empty raw || not (has_prefix raw (text "/"))) no_leading_slash
  reject_if (any is_forbidden raw) query_or_fragment
  compile_pattern raw

-- pathPattern.match: the prefix that a matching pattern takes off.
unfoldable pub match : PathPattern → Text → Option Text
match p path =
    if not p.wildcard
    then (if text_eq path p.path then some p.path else none)
    else if is_empty p.path || text_eq path p.path || has_prefix path (p.path ++ text "/")
    then some p.path
    else none

-- stripPathPrefix
unfoldable pub strip_path_prefix : Text → Text → Text
unfolding trim_prefix
strip_path_prefix path prefix =
    if is_empty prefix
    then path
    else (let stripped = trim_prefix path prefix in
        if is_empty stripped then text "/" else stripped)

-- hexDigit
unfoldable pub hex_digit : ℕ → Option ℕ
hex_digit value =
    if leb b'0' value && leb value b'9'
    then some (value - b'0')
    else if leb b'a' value && leb value b'f'
    then some (value - b'a' + 10)
    else if leb b'A' value && leb value b'F'
    then some (value - b'A' + 10)
    else none

abbrev pub hex_pair : Option ℕ → Option ℕ → Text → Option (ℕ × Text)
hex_pair none low rest = none
hex_pair (some high) none rest = none
hex_pair (some high) (some low) rest = some (high * 16 + low, rest)

-- escapedPathByte: the decoded byte and what follows it.
unfoldable pub escaped_path_byte : Text → Option (ℕ × Text)
unfolding hex_digit
escaped_path_byte [] = none
escaped_path_byte (a ∷ []) = if a == b'%' then none else some (a, [])
escaped_path_byte (a ∷ b ∷ []) = if a == b'%' then none else some (a, b ∷ [])
escaped_path_byte (a ∷ b ∷ c ∷ rest) =
    if a == b'%' then hex_pair (hex_digit b) (hex_digit c) rest else some (a, b ∷ c ∷ rest)

-- stripEscapedPathPrefix: a round of the loop for each byte of the prefix.
unfoldable pub strip_escaped_path_prefix : Text → Text → Option Text
unfolding escaped_path_byte
strip_escaped_path_prefix raw [] = some raw
strip_escaped_path_prefix raw (p ∷ prefix) = elim (escaped_path_byte raw) [
  | none ↦ none
  | some (value, next) ↦ if value == p then strip_escaped_path_prefix next prefix else none
]

-- stripRequestPath
unfoldable pub strip_request_path : Url → Text → Url
unfolding strip_path_prefix strip_escaped_path_prefix
strip_request_path u prefix = record {
  path = strip_path_prefix u.path prefix;
  raw_path =
      if is_empty u.raw_path || is_empty prefix
      then u.raw_path
      else or_else (strip_escaped_path_prefix u.raw_path prefix) [];
}

-- validRawPath
unfoldable pub valid_raw_path : Url → Bool
unfolding escaped_path path_unescape text_eq
valid_raw_path u =
    not (is_empty u.raw_path)
    && text_eq (escaped_path u) u.raw_path
    && decodes_to (path_unescape u.raw_path) u.path

abbrev pub checked_raw_path : Text → Text → Text
checked_raw_path path raw =
    if valid_raw_path (record { path = path; raw_path = raw }) then raw else []

-- rewriteRawPath
unfoldable pub rewrite_raw_path : Url → PathPattern → PathPattern → Text → Text
unfolding valid_raw_path strip_escaped_path_prefix
rewrite_raw_path in_url source destination path =
    if is_empty in_url.raw_path || not (valid_raw_path in_url)
    then []
    else elim (if source.wildcard
        then strip_escaped_path_prefix in_url.raw_path source.path
        else some []) [
          | none ↦ []
          | some raw_suffix ↦ checked_raw_path path (
              if destination.wildcard
              then destination.raw_path ++ raw_suffix
              else destination.raw_path)
        ]

-- The path that rewriteProxyPath writes.
unfoldable pub rewritten_path : Url → PathPattern → PathPattern → Text
unfolding trim_prefix
rewritten_path in_url source destination =
    let suffix = if source.wildcard then trim_prefix in_url.path source.path else [] in
    if destination.wildcard
    then (let path = destination.path ++ suffix in if is_empty path then text "/" else path)
    else destination.path

-- rewriteProxyPath: the URL that goes out.
unfoldable pub rewrite_proxy_path : Url → PathPattern → PathPattern → Url
unfolding rewritten_path rewrite_raw_path
rewrite_proxy_path in_url source destination =
    let path = rewritten_path in_url source destination in
    record { path = path; raw_path = rewrite_raw_path in_url source destination path }
