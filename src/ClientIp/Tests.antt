-- ===== src/ClientIp/Tests.antt =====
-- router.go: the client of a concrete request, whose peer 1 is trusted and whose chain is 7, 1.
use kubio.Prelude.{◌≡◌, refl, some, List, [], ◌∷◌, true, false, ◌⊎◌}
use kubio.Text.{text, split_byte, trim, trim_left, trim_right, text_eq}
use kubio.Net.{values_of}
use kubio.Net.Examples.{digit_net, get_a}
use kubio.ClientIp.{
  effective_client_ip, peer_address, is_trusted_proxy, forwarded_addresses, last_untrusted,
  tokens_of,
}
use kubio.Prelude.{◌++◌}
use kubio.RequestId.Tokens.{tokens_in, tokens_of as trimmed_tokens}
use kubio.ClientIp.Forwarded.{
  forwarded_for, forwarded_proto, forwarded_host, request_protocol, peer_text, is_trusted_peer,
  first_or, set_forwarded_headers,
}
use kubio.ClientIp.Trusted.{
  if_set, present, set_forwarded_headers-untrusted, set_forwarded_headers-trusted,
}
use kubio.ClientIp.Chain.{IsLastUntrusted, effective_client_ip-IsLastUntrusted}

client_seven : effective_client_ip digit_net get_a (1 ∷ []) ≡ some 7
unfolding effective_client_ip peer_address is_trusted_proxy forwarded_addresses last_untrusted
    values_of split_byte text_eq trim trim_left trim_right
client_seven = refl

effective_client_ip-IsLastUntrusted_example :
    (peer : digit_net.Addr) × (peer_address digit_net get_a.remote_addr ≡ some peer)
    × (((is_trusted_proxy digit_net (digit_net.unmap peer) (1 ∷ []) ≡ false)
          × (7 ≡ digit_net.unmap peer))
        ⊎ ((is_trusted_proxy digit_net (digit_net.unmap peer) (1 ∷ []) ≡ true)
            × (chain : List digit_net.Addr) × (forwarded_addresses digit_net
                  (tokens_of digit_net (values_of (text "X-Forwarded-For") get_a.header))
                ≡ some chain)
            × IsLastUntrusted digit_net (1 ∷ []) 7 chain))
effective_client_ip-IsLastUntrusted_example =
    effective_client_ip-IsLastUntrusted digit_net get_a (1 ∷ []) 7 client_seven

peer_trusted : is_trusted_peer digit_net (peer_address digit_net get_a.remote_addr) (1 ∷ []) ≡ true
unfolding peer_address is_trusted_proxy trim trim_left trim_right
peer_trusted = refl

peer_unknown : is_trusted_peer digit_net (peer_address digit_net get_a.remote_addr) (2 ∷ []) ≡ false
unfolding peer_address is_trusted_proxy trim trim_left trim_right
peer_unknown = refl

set_forwarded_headers-untrusted_example :
    (values_of forwarded_for (set_forwarded_headers digit_net get_a [] (2 ∷ []))
      ≡ if_set (peer_text digit_net (peer_address digit_net get_a.remote_addr)))
    × (values_of forwarded_proto (set_forwarded_headers digit_net get_a [] (2 ∷ []))
        ≡ request_protocol get_a ∷ [])
    × (values_of forwarded_host (set_forwarded_headers digit_net get_a [] (2 ∷ []))
        ≡ get_a.host ∷ [])
set_forwarded_headers-untrusted_example =
    set_forwarded_headers-untrusted digit_net get_a [] (2 ∷ []) peer_unknown

set_forwarded_headers-trusted_example :
    (present
        (tokens_in (values_of forwarded_for (set_forwarded_headers digit_net get_a [] (1 ∷ []))))
      ≡ present (tokens_in (values_of forwarded_for get_a.header))
        ++ present
            (trimmed_tokens (peer_text digit_net (peer_address digit_net get_a.remote_addr))))
    × (values_of forwarded_proto (set_forwarded_headers digit_net get_a [] (1 ∷ []))
        ≡ first_or (request_protocol get_a) (values_of forwarded_proto get_a.header) ∷ [])
    × (values_of forwarded_host (set_forwarded_headers digit_net get_a [] (1 ∷ []))
        ≡ first_or get_a.host (values_of forwarded_host get_a.header) ∷ [])
set_forwarded_headers-trusted_example =
    set_forwarded_headers-trusted digit_net get_a [] (1 ∷ []) peer_trusted
