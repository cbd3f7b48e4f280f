-- ===== src/Config/Prefixes.antt =====
-- router.go: the prefixes of addresses in a configuration, over the parts of net/netip that they use.
use kubio.Prelude.{
  ℕ, ◌-◌, Bool, ◌&&◌, not, Option, none, some, List, [], ◌∷◌, any, leb, if◌then◌else◌, Result, ok,
  err, ◌>>=◌, ◌>>◌, reject_if,
}
use kubio.Text.{Text, contains_byte}

-- netip.Addr and netip.Prefix: ParsePrefix with its address and bits, Is4In6, Unmap, PrefixFrom
-- with Masked, and the comparison of two prefixes.
pub record PrefixNet : Type 1 where
  pub Addr : Type 0
  pub Prefix : Type 0
  pub parse_prefix : Text → Option (Addr × ℕ)
  pub is_4_in_6 : Addr → Bool
  pub unmap : Addr → Addr
  pub masked_from : Addr → ℕ → Prefix
  pub same_prefix : Prefix → Prefix → Bool

pub data PrefixError : Type 0 where
  not_cidr bad_prefix duplicate_prefix : PrefixError

module _ (p : PrefixNet) where
  open p use {Addr, Prefix, parse_prefix, is_4_in_6, unmap, masked_from, same_prefix}

  -- normalizeIPPrefix
  unfoldable pub normalize_ip_prefix : Addr × ℕ → Prefix
  normalize_ip_prefix (address, bits) =
      if is_4_in_6 address && leb 96 bits
      then masked_from (unmap address) (bits - 96)
      else masked_from address bits

  -- parseTrustedProxies
  unfoldable pub parse_trusted_proxies : List Text → Result PrefixError (List Prefix)
  parse_trusted_proxies [] = ok []
  parse_trusted_proxies (value ∷ raw) = do
    reject_if (not (contains_byte value b'/')) not_cidr
    prefix ← elim (parse_prefix value) as (λ x. Result PrefixError (Addr × ℕ)) [
      | none ↦ err bad_prefix
      | some q ↦ ok q
    ]
    prefixes ← parse_trusted_proxies raw
    ok (normalize_ip_prefix prefix ∷ prefixes)

  -- The loop of normalizeRouteMatchPrefixes, with the prefixes seen so far.
  unfoldable pub normalize_prefixes_from :
      List Prefix → List (Addr × ℕ) → Result PrefixError (List Prefix)
  normalize_prefixes_from seen [] = ok []
  normalize_prefixes_from seen (raw ∷ rest) = do
    reject_if (any (same_prefix (normalize_ip_prefix raw)) seen) duplicate_prefix
    prefixes ← normalize_prefixes_from (normalize_ip_prefix raw ∷ seen) rest
    ok (normalize_ip_prefix raw ∷ prefixes)

  -- normalizeRouteMatchPrefixes
  unfoldable pub normalize_route_match_prefixes : List (Addr × ℕ) → Result PrefixError (List Prefix)
  normalize_route_match_prefixes prefixes = normalize_prefixes_from [] prefixes

  unfoldable pub parse_prefixes : List Text → Result PrefixError (List (Addr × ℕ))
  parse_prefixes [] = ok []
  parse_prefixes (value ∷ raw) = do
    prefix ← elim (parse_prefix value) as (λ x. Result PrefixError (Addr × ℕ)) [
      | none ↦ err bad_prefix
      | some q ↦ ok q
    ]
    prefixes ← parse_prefixes raw
    ok (prefix ∷ prefixes)

  -- parseRouteMatchPrefixes
  unfoldable pub parse_route_match_prefixes : List Text → Result PrefixError (List Prefix)
  parse_route_match_prefixes raw = do
    prefixes ← parse_prefixes raw
    normalize_route_match_prefixes prefixes
