-- ===== src/Url.antt =====
-- What the program uses of the URLs of package net/url: the decoded path beside the raw one, and
-- the escaping of a path.
use kubio.Prelude.{
  ℕ, ◌+◌, ◌-◌, ◌*◌, ◌/◌, ◌%◌, Bool, false, ◌&&◌, ◌||◌, not, Option, none, some, [], ◌∷◌, leb, ◌==◌,
  if◌then◌else◌, all, any,
}
use kubio.Text.{Text, text_eq, is_empty, text}

-- A URL, less the parts that the program copies whole.
pub record Url : Type 0 where
  pub path : Text
  pub raw_path : Text

-- The value of a digit of either case.
unfoldable pub unhex : ℕ → Option ℕ
unhex c =
    if leb b'0' c && leb c b'9'
    then some (c - b'0')
    else if leb b'a' c && leb c b'f'
    then some (c - b'a' + 10)
    else if leb b'A' c && leb c b'F'
    then some (c - b'A' + 10)
    else none

abbrev pub cons_some : ℕ → Option Text → Option Text
cons_some c none = none
cons_some c (some s) = some (c ∷ s)

abbrev pub cons_hex : Option ℕ → Option ℕ → Option Text → Option Text
cons_hex none low s = none
cons_hex (some high) none s = none
cons_hex (some high) (some low) s = cons_some (high * 16 + low) s

-- url.PathUnescape
unfoldable pub path_unescape : Text → Option Text
path_unescape [] = some []
path_unescape (a ∷ []) = if a == b'%' then none else some (a ∷ [])
path_unescape (a ∷ b ∷ []) =
    let plain = cons_some a (path_unescape (b ∷ [])) in if a == b'%' then none else plain
path_unescape (a ∷ b ∷ c ∷ s) =
    let plain = cons_some a (path_unescape (b ∷ c ∷ s)) in
    let decoded = cons_hex (unhex b) (unhex c) (path_unescape s) in
    if a == b'%' then decoded else plain

-- Which bytes stay as they are in an escaped path.
unfoldable pub is_plain : ℕ → Bool
is_plain c =
    (leb b'a' c && leb c b'z')
    || (leb b'A' c && leb c b'Z')
    || (leb b'0' c && leb c b'9')
    || any (λ d. c == d) (text "-_.~$&+,/:;=@")

abbrev pub hex_byte : ℕ → ℕ
hex_byte n = if leb n 9 then n + b'0' else n - 10 + b'A'

unfoldable pub escape : Text → Text
unfolding is_plain
escape [] = []
escape (c ∷ s) =
    let rest = escape s in
    if is_plain c then c ∷ rest else b'%' ∷ hex_byte (c / 16) ∷ hex_byte (c % 16) ∷ rest

-- A raw path holds no byte that an escaped path would not have.
unfoldable pub valid_encoded : Text → Bool
unfolding is_plain
valid_encoded s = all (λ c. is_plain c || any (λ d. c == d) (text "!'()*[]%")) s

abbrev pub decodes_to : Option Text → Text → Bool
decodes_to none p = false
decodes_to (some s) p = text_eq s p

-- URL.EscapedPath
unfoldable pub escaped_path : Url → Text
unfolding path_unescape escape valid_encoded text_eq
escaped_path u =
    if not (is_empty u.raw_path)
      && valid_encoded u.raw_path
      && decodes_to (path_unescape u.raw_path) u.path
    then u.raw_path
    else if text_eq u.path (b'*' ∷ [])
    then b'*' ∷ []
    else escape u.path
