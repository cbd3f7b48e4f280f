-- ===== src/Net.antt =====
-- The parts of net/netip, net and net/url that read addresses and queries, as parameters of what
-- uses them, and the request with its headers.
pub mod Examples
use kubio.Prelude.{ℕ, Bool, true, false, Option, none, some, List, [], ◌∷◌, ◌++◌, if◌then◌else◌}
use kubio.Text.{Text, text_eq}
use kubio.Url.{Url}

-- A map from text to a list of texts: http.Header and url.Values. Each key stands in it once.
abbrev pub Values : Type 0
Values = List (Text × List Text)

-- The element of a missing key is nil.
unfoldable pub values_of {ℓ} : {A : Type ℓ} → Text → List (Text × List A) → List A
unfolding text_eq
values_of name [] = []
values_of name ((key, values) ∷ rest) = if text_eq key name then values else values_of name rest

pub record Net : Type 1 where
  -- netip.Addr with the zero Addr, netip.Prefix
  pub Addr : Type 0
  pub zero_addr : Addr
  pub Prefix : Type 0
  -- netip.ParseAddr, Addr.Zone is not empty, Addr.WithZone(""), Addr.Unmap, Addr.String
  pub parse_addr : Text → Option Addr
  pub is_zoned : Addr → Bool
  pub without_zone : Addr → Addr
  pub unmap : Addr → Addr
  pub addr_text : Addr → Text
  -- Prefix.Contains
  pub contains : Prefix → Addr → Bool
  -- The host of net.SplitHostPort.
  pub split_host_port : Text → Option Text
  -- url.ParseQuery
  pub parse_query : Text → Option Values

-- What the program reads of http.Request.
pub record Request : Type 0 where
  pub method : Text
  pub url : Url
  pub raw_query : Text
  pub host : Text
  pub header : Values
  pub remote_addr : Text
  pub over_tls : Bool
