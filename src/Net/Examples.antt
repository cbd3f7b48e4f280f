-- ===== src/Net/Examples.antt =====
-- A network whose addresses are single digits, and requests in it, for the examples.
use kubio.Prelude.{ℕ, ◌+◌, ◌-◌, false, ◌&&◌, Option, none, some, [], ◌∷◌, leb, ◌==◌, if◌then◌else◌}
use kubio.Text.{Text, text}
use kubio.Net.{Net, Request}

abbrev digit_addr : Text → Option ℕ
digit_addr [] = none
digit_addr (c ∷ []) = if leb b'0' c && leb c b'9' then some (c - b'0') else none
digit_addr (c ∷ d ∷ s) = none

abbrev pub digit_net : Net
digit_net = record {
  Addr = ℕ;
  zero_addr = 0;
  Prefix = ℕ;
  parse_addr = digit_addr;
  is_zoned = λ a. false;
  without_zone = λ a. a;
  unmap = λ a. a;
  addr_text = λ a. (a + b'0') ∷ [];
  contains = λ prefix a. prefix == a;
  split_host_port = λ s. none;
  parse_query = λ s. some [];
}

abbrev pub get_a : Request
get_a = record {
  method = text "GET";
  url = record { path = text "/a"; raw_path = [] };
  raw_query = [];
  host = text "example.com";
  header = (text "X-Forwarded-For", text "7, 1" ∷ []) ∷ [];
  remote_addr = text "1";
  over_tls = false;
}
