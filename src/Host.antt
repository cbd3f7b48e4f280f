-- ===== src/Host.antt =====
-- router.go: patterns of host names, and the choice of the site of a request. Of newRouter the
-- loop that fills the maps of hosts is modelled. The functions of package net are parameters.
use kubio.Prelude.{
  ℕ, suc, ◌+◌, ◌-◌, ◌*◌, Bool, true, false, ◌&&◌, ◌||◌, not, Option, none, some, List, [], ◌∷◌, ltb,
  leb, ◌==◌, if◌then◌else◌, length, drop, any, all, get_or, Result, ok, err, ◌>>=◌, ◌>>◌, reject_if,
}
use kubio.Text.{
  Text, text, text_eq, is_empty, has_prefix, trim_prefix, has_suffix, trim_suffix, contains_byte,
  index_byte, split_byte, trim, trim_space, to_lower, is_some,
}

-- hostPattern
pub record HostPattern : Type 0 where
  pub value : Text
  pub wildcard : Bool
  pub suffix : Text

-- hostScore
pub record HostScore : Type 0 where
  pub kind : ℕ
  pub suffix_length : ℕ

pub data HostError : Type 0 where
  empty_or_space invalid_host inner_wildcard wildcard_form : HostError

-- net.SplitHostPort and netip.ParseAddr, whose address is not needed.
pub record HostNet : Type 0 where
  pub split_host_port : Text → Option (Text × Text)
  pub is_address : Text → Bool

-- strconv.Atoi on decimal digits; a port too large for an int is beyond 65535 as well.
abbrev pub digits_value : ℕ → Text → ℕ
digits_value n [] = n
digits_value n (c ∷ s) = digits_value (n * 10 + (c - b'0')) s

-- validatePort
unfoldable pub validate_port : Text → Bool
validate_port port =
    not (is_empty port)
    && all (λ c. leb b'0' c && leb c b'9') port
    && leb (digits_value 0 port) 65535

-- normalizeHost
unfoldable pub normalize_host : HostNet → Text → Text
unfolding contains_byte trim trim_suffix to_lower
normalize_host net raw =
    let host = elim (net.split_host_port raw) as (λ x. Text) [ none ↦ raw | some (h, port) ↦ h ] in
    to_lower (
      trim_suffix
        (trim (λ c. c == b'[' || c == b']') (if contains_byte raw b':' then host else raw))
        (text "."))

-- normalizeConfiguredHost
unfoldable pub normalize_configured_host : HostNet → Text → Result HostError Text
unfolding contains_byte trim validate_port
normalize_configured_host net raw = elim (net.split_host_port raw) [
  | some (host, port) ↦
      if validate_port port then ok (normalize_host net host) else err invalid_host
  | none ↦
      if contains_byte raw b':' && not (net.is_address (trim (λ c. c == b'[' || c == b']') raw))
      then err invalid_host
      else ok (normalize_host net raw)
]

-- The bytes of a label.
abbrev pub is_label_byte : ℕ → Bool
is_label_byte c = c == b'_' || c == b'-' || (leb b'a' c && leb c b'z') || (leb b'0' c && leb c b'9')

-- One label of a host name: it neither begins nor ends with a dash.
unfoldable pub valid_label : Text → Bool
valid_label [] = false
valid_label (c ∷ s) =
    not (c == b'-') && not (get_or (c ∷ s) (length s) 0 == b'-') && all is_label_byte (c ∷ s)

-- validateHostName
unfoldable pub validate_host_name : HostNet → Text → Bool
unfolding contains_byte split_byte valid_label
validate_host_name net value =
    net.is_address value
    || (not (any (contains_byte value) (text "/\\?#:")) && all valid_label (split_byte value b'.'))

abbrev pub exact_host : Text → HostPattern
exact_host value = record { value = value; wildcard = false; suffix = [] }

-- The part of newHostPattern after its normalisation.
unfoldable pub compile_host : HostNet → Text → Result HostError HostPattern
unfolding text_eq has_prefix trim_prefix contains_byte
compile_host net value =
    if text_eq value (text "*")
    then ok (exact_host value)
    else if is_empty value
    then err empty_or_space
    else if has_prefix value (text "*.")
    then (let suffix = trim_prefix value (text "*.") in
        if contains_byte suffix b'*'
        then err inner_wildcard
        else if validate_host_name net suffix
        then ok (record { value = value; wildcard = true; suffix = suffix })
        else err invalid_host)
    else if contains_byte value b'*'
    then err wildcard_form
    else if validate_host_name net value
    then ok (exact_host value)
    else err invalid_host

-- newHostPattern
unfoldable pub new_host_pattern : HostNet → Text → Result HostError HostPattern
unfolding text_eq trim_space normalize_configured_host
new_host_pattern net raw = do
  reject_if (is_empty raw || not (text_eq (trim_space raw) raw)) empty_or_space
  value ← normalize_configured_host net raw
  compile_host net value

-- newHostPatterns, less the index in its errors
unfoldable pub new_host_patterns : HostNet → List Text → Result HostError (List HostPattern)
unfolding new_host_pattern
new_host_patterns net [] = ok []
new_host_patterns net (raw ∷ rest) = do
  pattern_of_raw ← new_host_pattern net raw
  patterns ← new_host_patterns net rest
  ok (pattern_of_raw ∷ patterns)

-- hostPattern.match
unfoldable pub match_host : HostPattern → Text → Option HostScore
match_host p host =
    if text_eq p.value (text "*")
    then some (record { kind = 0; suffix_length = 0 })
    else if not p.wildcard
    then (if text_eq p.value host then some (record { kind = 2; suffix_length = 0 }) else none)
    else if not (has_suffix host (b'.' ∷ p.suffix))
    then none
    else (let prefix = trim_suffix host (b'.' ∷ p.suffix) in
        if is_empty prefix || contains_byte prefix b'.'
        then none
        else some (record { kind = 1; suffix_length = length p.suffix }))

-- betterHostScore
unfoldable pub better_host_score : HostScore → HostScore → Bool
better_host_score candidate current =
    if not (candidate.kind == current.kind)
    then ltb current.kind candidate.kind
    else ltb current.suffix_length candidate.suffix_length

-- bestHostMatch, from the best score so far
unfoldable pub best_host_match_from : Text → Option HostScore → List HostPattern → Option HostScore
best_host_match_from host best [] = best
best_host_match_from host best (p ∷ patterns) =
    let next : Option HostScore = elim (match_host p host) [
      | none ↦ best
      | some score ↦ elim best [
        | none ↦ some score
        | some current ↦ if better_host_score score current then some score else some current
      ]
    ] in
    best_host_match_from host next patterns

unfoldable pub best_host_match : Text → List HostPattern → Option HostScore
unfolding best_host_match_from
best_host_match host patterns = best_host_match_from host none patterns

-- The maps of a router; `none` is the starSite -1.
pub record HostIndex : Type 0 where
  pub exact_hosts : List (Text × ℕ)
  pub wildcard_hosts : List (Text × ℕ)
  pub star_site : Option ℕ

unfoldable pub find_host : Text → List (Text × ℕ) → Option ℕ
find_host key [] = none
find_host key ((k, site) ∷ rest) = if text_eq k key then some site else find_host key rest

-- The key is kept with its first site.
unfoldable pub add_host : Text → ℕ → List (Text × ℕ) → List (Text × ℕ)
add_host key site [] = (key, site) ∷ []
add_host key site ((k, s) ∷ rest) =
    if text_eq k key then (k, s) ∷ rest else (k, s) ∷ add_host key site rest

-- One round of the loop over the hosts of a site in newRouter.
unfoldable pub index_host : ℕ → HostPattern → HostIndex → HostIndex
index_host site p index =
    if text_eq p.value (text "*")
    then record index { star_site = elim index.star_site [ none ↦ some site | some s ↦ some s ] }
    else if p.wildcard
    then record index { wildcard_hosts = add_host p.suffix site index.wildcard_hosts }
    else record index { exact_hosts = add_host p.value site index.exact_hosts }

unfoldable pub index_hosts : ℕ → List HostPattern → HostIndex → HostIndex
index_hosts site [] index = index
index_hosts site (p ∷ patterns) index = index_hosts site patterns (index_host site p index)

unfoldable pub index_sites : ℕ → List (List HostPattern) → HostIndex → HostIndex
index_sites site [] index = index
index_sites site (hosts ∷ sites) index = index_sites (suc site) sites (index_hosts site hosts index)

-- The two maps and the site of * in selectSite.
unfoldable pub select_indexed_site : HostIndex → Text → Option ℕ
select_indexed_site index host = elim (find_host host index.exact_hosts) [
  | some site ↦ some site
  | none ↦
      let below : Option ℕ = elim (index_byte host b'.') [
        | none ↦ none
        | some dot ↦
            if ltb 0 dot && ltb (dot + 1) (length host)
            then find_host (drop (dot + 1) host) index.wildcard_hosts
            else none
      ] in
      elim below [ some site ↦ some site | none ↦ index.star_site ]
]

-- selectSite
unfoldable pub select_site : List (List HostPattern) → Text → Option ℕ
select_site sites host =
    let index =
      index_sites 0 sites (record { exact_hosts = []; wildcard_hosts = []; star_site = none }) in
    elim sites [
      | [] ↦ select_indexed_site index host
      | hosts ∷ more ↦ elim more [
        | [] ↦ if is_some (best_host_match host hosts) then some 0 else none
        | other ∷ rest ↦ select_indexed_site index host
      ]
    ]
