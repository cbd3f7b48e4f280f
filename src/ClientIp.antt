-- ===== src/ClientIp.antt =====
-- router.go and proxy.go: whose request it is, seen through trusted proxies, and the forwarded
-- headers.
pub mod Chain
pub mod Forwarded
pub mod Trusted
mod Tests
use kubio.Prelude.{
  Bool, ◌||◌, Option, none, some, List, [], ◌∷◌, ◌++◌, ◌==◌, not, if◌then◌else◌, map, any,
}
use kubio.Text.{Text, text, split_byte, trim, or_else}
use kubio.Net.{Net, Request, values_of}

abbrev pub concat_all {ℓ} : {A : Type ℓ} → List (List A) → List A
concat_all [] = []
concat_all (xs ∷ rest) = xs ++ concat_all rest

module _ (n : Net) where
  open n use {
    Addr, Prefix, zero_addr, parse_addr, is_zoned, without_zone, unmap, addr_text, contains,
    split_host_port,
  }

  -- isTrustedProxy
  unfoldable pub is_trusted_proxy : Addr → List Prefix → Bool
  is_trusted_proxy address prefixes = any (λ prefix. contains prefix (unmap address)) prefixes

  -- peerAddress: the address, where it is valid, without its zone.
  unfoldable pub peer_address : Text → Option Addr
  unfolding trim
  peer_address remote =
      let host = trim (λ c. c == b'[' || c == b']') (or_else (split_host_port remote) remote) in
      elim (parse_addr host) [ none ↦ none | some address ↦ some (without_zone address) ]

  -- One token of X-Forwarded-For.
  unfoldable pub forwarded_address : Text → Option Addr
  unfolding trim
  forwarded_address token = elim (parse_addr (trim (λ c. c == 32 || c == 9) token)) [
    | none ↦ none
    | some address ↦ if is_zoned address then none else some (unmap address)
  ]

  -- The addresses of the tokens from left to right, none if one of them is refused.
  unfoldable pub forwarded_addresses : List Text → Option (List Addr)
  unfolding forwarded_address
  forwarded_addresses [] = some []
  forwarded_addresses (token ∷ tokens) = elim (forwarded_address token) [
    | none ↦ none
    | some address ↦ elim (forwarded_addresses tokens) [
      | none ↦ none
      | some rest ↦ some (address ∷ rest)
    ]
  ]

  -- The loop from the last address to the first.
  unfoldable pub last_untrusted : List Prefix → List Addr → Option Addr
  unfolding is_trusted_proxy
  last_untrusted trusted [] = none
  last_untrusted trusted (address ∷ later) = elim (last_untrusted trusted later) [
    | some found ↦ some found
    | none ↦ if is_trusted_proxy address trusted then none else some address
  ]

  -- The tokens of all values, each split at its commas.
  abbrev pub tokens_of : List Text → List Text
  tokens_of values = concat_all (map (λ value. split_byte value b',') values)

  abbrev pub forwarded_client : List Prefix → List Text → Option Addr
  forwarded_client trusted [] = none
  forwarded_client trusted (value ∷ values) =
      elim (forwarded_addresses (tokens_of (value ∷ values))) [
        | none ↦ none
        | some addresses ↦ last_untrusted trusted addresses
      ]

  -- effectiveClientIP
  unfoldable pub effective_client_ip : Request → List Prefix → Option Addr
  effective_client_ip req trusted = elim (peer_address req.remote_addr) [
    | none ↦ none
    | some address ↦
        let peer = unmap address in
        if not (is_trusted_proxy peer trusted)
        then some peer
        else forwarded_client trusted (values_of (text "X-Forwarded-For") req.header)
  ]
