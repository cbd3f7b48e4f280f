-- ===== src/ClientIp/Forwarded.antt =====
-- proxy.go: the headers of the request that is sent on: setForwardedHeaders, rewriteProxyRequest.
use kubio.Prelude.{Bool, false, Option, none, some, List, [], ◌∷◌, ◌++◌, if◌then◌else◌}
use kubio.Text.{Text, text, text_eq, is_empty}
use kubio.Net.{Net, Request, Values, values_of}
use kubio.Headers.{put, delete}
use kubio.RequestId.{join}
use kubio.ClientIp.{is_trusted_proxy, peer_address}

-- The names, which are canonical.
abbrev pub forwarded_for : Text
forwarded_for = text "X-Forwarded-For"

abbrev pub forwarded_proto : Text
forwarded_proto = text "X-Forwarded-Proto"

abbrev pub forwarded_host : Text
forwarded_host = text "X-Forwarded-Host"

-- requestProtocol
unfoldable pub request_protocol : Request → Text
request_protocol req = if req.over_tls then text "https" else text "http"

-- firstHeaderValue with what is taken where the header is not present
abbrev pub first_or : Text → List Text → Text
first_or d [] = d
first_or d (value ∷ values) = value

-- The peer's text behind what is there.
unfoldable pub add_peer : Text → Text → Text
add_peer prior peer =
    if is_empty peer then prior else if is_empty prior then peer else prior ++ (b',' ∷ 32 ∷ peer)

-- An empty text removes the header.
unfoldable pub set_or_delete : Text → Text → Values → Values
set_or_delete name value header =
    if is_empty value then delete name header else put name (value ∷ []) header

-- The three headers.
unfoldable pub put_forwarded : Text → Text → Text → Values → Values
put_forwarded chain proto host out =
    put forwarded_host (host ∷ [])
      (put forwarded_proto (proto ∷ []) (set_or_delete forwarded_for chain out))

module _ (n : Net) where
  -- The text of the peer's address, empty where it has none.
  abbrev pub peer_text : Option n.Addr → Text
  peer_text none = []
  peer_text (some peer) = n.addr_text peer

  abbrev pub is_trusted_peer : Option n.Addr → List n.Prefix → Bool
  is_trusted_peer none trust_proxies = false
  is_trusted_peer (some peer) trust_proxies = is_trusted_proxy n peer trust_proxies

  -- setForwardedHeaders: the header of the request that goes out.
  unfoldable pub set_forwarded_headers : Request → Values → List n.Prefix → Values
  set_forwarded_headers req out trust_proxies =
      let peer = peer_address n req.remote_addr in
      if is_trusted_peer peer trust_proxies
      then put_forwarded (add_peer (join (values_of forwarded_for req.header)) (peer_text peer))
          (first_or (request_protocol req) (values_of forwarded_proto req.header))
          (first_or req.host (values_of forwarded_host req.header)) out
      else put_forwarded (peer_text peer) (request_protocol req) req.host out

  -- The configured headers: Host changes the host, the others are set. Their names are canonical.
  unfoldable pub set_configured : List (Text × Text) → Text × Values → Text × Values
  set_configured [] out = out
  set_configured ((name, value) ∷ headers) (host, out) =
      if text_eq name (text "Host")
      then set_configured headers (value, out)
      else set_configured headers (host, put name (value ∷ []) out)

  -- rewriteProxyRequest: the host and the header that go out.
  unfoldable pub rewrite_proxy_request :
      Request → Values → List (Text × Text) → List n.Prefix → Text × Values
  rewrite_proxy_request req out headers trust_proxies =
      set_configured headers (req.host, set_forwarded_headers req out trust_proxies)
