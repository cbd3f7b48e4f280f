-- ===== src/ClientIp/Trusted.antt =====
-- What a server behind the proxy reads of the forwarded headers.
use kubio.Prelude.{
  ◌≡◌, refl, ap, sym, ◌∙◌, ℕ, Bool, true, false, List, [], ◌∷◌, ◌++◌, if◌then◌else◌, map, ◌==◌,
  append-nil, Bool-cases, inl, inr,
}
use kubio.Text.{
  Text, text_eq, is_empty, split_byte, cons_split, trim_space, trim, trim_left, trim_right,
}
use kubio.Net.{Net, Request, Values, values_of}
use kubio.Headers.{put}
use kubio.Headers.Apply.{values_of-put, values_of-delete}
use kubio.RequestId.{join}
use kubio.RequestId.Tokens.{tokens_of, tokens_in, tokens_of-space}
use kubio.ClientIp.{peer_address}
use kubio.ClientIp.Forwarded.{
  forwarded_for, forwarded_proto, forwarded_host, request_protocol, first_or, add_peer,
  set_or_delete, put_forwarded, peer_text, is_trusted_peer, set_forwarded_headers,
}

-- The value of a header that an empty text removes.
abbrev pub if_set : Text → List Text
if_set s = if is_empty s then [] else s ∷ []

set_or_delete-values :
    (name value : Text) (out : Values)
    → (text_eq name name ≡ true)
    → values_of name (set_or_delete name value out) ≡ if_set value
unfolding set_or_delete
set_or_delete-values name [] out same = rw (values_of-delete name name out, same) refl
set_or_delete-values name (c ∷ s) out same =
    rw (values_of-put name name ((c ∷ s) ∷ []) out, same) refl

put_forwarded-values :
    (chain proto host : Text) (out : Values)
    → (values_of forwarded_for (put_forwarded chain proto host out) ≡ if_set chain)
      × (values_of forwarded_proto (put_forwarded chain proto host out) ≡ proto ∷ [])
      × (values_of forwarded_host (put_forwarded chain proto host out) ≡ host ∷ [])
unfolding put_forwarded text_eq
put_forwarded-values chain proto host out =
    let inner = set_or_delete forwarded_for chain out in
    let middle = put forwarded_proto (proto ∷ []) inner in
    (
      values_of-put forwarded_for forwarded_host (host ∷ []) middle
          ∙ values_of-put forwarded_for forwarded_proto (proto ∷ []) inner
          ∙ set_or_delete-values forwarded_for chain out refl,
      values_of-put forwarded_proto forwarded_host (host ∷ []) middle
          ∙ values_of-put forwarded_proto forwarded_proto (proto ∷ []) inner,
      values_of-put forwarded_host forwarded_host (host ∷ []) middle,
    )

-- A peer that is not trusted, or has no address: the three headers hold its address alone, none where
-- it has none, the protocol and the host of the connection, whatever the client's headers and those
-- of the request that goes out were.
pub set_forwarded_headers-untrusted :
    (n : Net) (req : Request) (out : Values) (trust_proxies : List n.Prefix)
    → is_trusted_peer n (peer_address n req.remote_addr) trust_proxies ≡ false
    → (values_of forwarded_for (set_forwarded_headers n req out trust_proxies)
        ≡ if_set (peer_text n (peer_address n req.remote_addr)))
      × (values_of forwarded_proto (set_forwarded_headers n req out trust_proxies)
          ≡ request_protocol req ∷ [])
      × (values_of forwarded_host (set_forwarded_headers n req out trust_proxies) ≡ req.host ∷ [])
unfolding set_forwarded_headers
set_forwarded_headers-untrusted n req out trust_proxies h = rw h (
    put_forwarded-values (peer_text n (peer_address n req.remote_addr)) (request_protocol req)
      req.host out)

-- A split has a first piece.
split_cons : (t : Text) → (u : Text) × (us : List Text) × (split_byte t b',' ≡ u ∷ us)
unfolding split_byte
split_cons [] = ([], [], refl)
split_cons (c ∷ t) = let (u, us, e) = split_cons t in rw e (first_piece (c == b',') c u us)
  where
    first_piece :
        (b : Bool) (c : ℕ) (u : Text) (us : List Text)
        → (w : Text) × (ws : List Text) × (cons_split b c (u ∷ us) ≡ w ∷ ws)
    first_piece true c u us = ([], u ∷ us, refl)
    first_piece false c u us = (c ∷ u, us, refl)

cons_split-append :
    (b : Bool) (c : ℕ) (u : Text) (us ws : List Text)
    → cons_split b c ((u ∷ us) ++ ws) ≡ cons_split b c (u ∷ us) ++ ws
cons_split-append true c u us ws = refl
cons_split-append false c u us ws = refl

split_byte-joined :
    (t s : Text) → split_byte (t ++ (b',' ∷ s)) b',' ≡ split_byte t b',' ++ split_byte s b','
unfolding split_byte
split_byte-joined [] s = refl
split_byte-joined (c ∷ t) s =
    let (u, us, e) = split_cons t in
    ap (cons_split (c == b',') c) (split_byte-joined t s ∙ ap (λ ts. ts ++ split_byte s b',') e)
    ∙ cons_split-append (c == b',') c u us (split_byte s b',')
    ∙ ap (λ ts. cons_split (c == b',') c ts ++ split_byte s b',') (sym e)

map-joined : {A B : Type 0} (f : A → B) (xs ys : List A) → map f (xs ++ ys) ≡ map f xs ++ map f ys
map-joined f [] ys = refl
map-joined f (x ∷ xs) ys = ap (◌∷◌ (f x)) (map-joined f xs ys)

-- A comma and a space between two values: the tokens of both.
tokens_of-joined : (t s : Text) → tokens_of (t ++ (b',' ∷ 32 ∷ s)) ≡ tokens_of t ++ tokens_of s
tokens_of-joined t s =
    ap (map trim_space) (split_byte-joined t (32 ∷ s))
    ∙ map-joined trim_space (split_byte t b',') (split_byte (32 ∷ s) b',')
    ∙ ap (λ ts. tokens_of t ++ ts) (tokens_of-space s)

tokens_of-join :
    (value : Text) (values : List Text)
    → tokens_of (join (value ∷ values)) ≡ tokens_in (value ∷ values)
unfolding join
tokens_of-join value [] = sym (append-nil (tokens_of value))
tokens_of-join value (w ∷ values) =
    tokens_of-joined value (join (w ∷ values))
    ∙ ap (λ ts. tokens_of value ++ ts) (tokens_of-join w values)

-- The tokens that hold something.
abbrev pub present : List Text → List Text
present [] = []
present (t ∷ ts) = if is_empty t then present ts else t ∷ present ts

present-append : (ts us : List Text) → present (ts ++ us) ≡ present ts ++ present us
present-append [] us = refl
present-append (t ∷ ts) us = elim (Bool-cases (is_empty t)) [
  | inl e ↦ rw e (present-append ts us)
  | inr e ↦ rw e (ap (◌∷◌ t) (present-append ts us))
]

present-if_set : (s : Text) → present (tokens_in (if_set s)) ≡ present (tokens_of s)
unfolding split_byte trim_space trim trim_left trim_right
present-if_set [] = refl
present-if_set (c ∷ s) = ap present (append-nil (tokens_of (c ∷ s)))

present-join : (values : List Text) → present (tokens_of (join values)) ≡ present (tokens_in values)
unfolding join split_byte trim_space trim trim_left trim_right
present-join [] = refl
present-join (value ∷ values) = ap present (tokens_of-join value values)

-- Both texts' tokens, whether or not one of them is empty.
present-add_peer :
    (prior peer : Text)
    → present (tokens_of (add_peer prior peer))
      ≡ present (tokens_of prior) ++ present (tokens_of peer)
unfolding add_peer split_byte trim_space trim trim_left trim_right
present-add_peer prior [] = sym (append-nil (present (tokens_of prior)))
present-add_peer [] (c ∷ peer) = refl
present-add_peer (d ∷ prior) (c ∷ peer) =
    ap present (tokens_of-joined (d ∷ prior) (c ∷ peer))
    ∙ present-append (tokens_of (d ∷ prior)) (tokens_of (c ∷ peer))

-- A trusted peer: of the tokens that are not empty, those of the X-Forwarded-For that goes out are
-- those of all values that came in, in their order, followed by those of the peer's address, none
-- where it has no text; the protocol and the host are the first that came in, or the connection's
-- where none did.
pub set_forwarded_headers-trusted :
    (n : Net) (req : Request) (out : Values) (trust_proxies : List n.Prefix)
    → is_trusted_peer n (peer_address n req.remote_addr) trust_proxies ≡ true
    → (present (tokens_in (values_of forwarded_for (set_forwarded_headers n req out trust_proxies)))
        ≡ present (tokens_in (values_of forwarded_for req.header))
          ++ present (tokens_of (peer_text n (peer_address n req.remote_addr))))
      × (values_of forwarded_proto (set_forwarded_headers n req out trust_proxies)
          ≡ first_or (request_protocol req) (values_of forwarded_proto req.header) ∷ [])
      × (values_of forwarded_host (set_forwarded_headers n req out trust_proxies)
          ≡ first_or req.host (values_of forwarded_host req.header) ∷ [])
unfolding set_forwarded_headers
set_forwarded_headers-trusted n req out trust_proxies h =
    let peer = peer_text n (peer_address n req.remote_addr) in
    let prior = join (values_of forwarded_for req.header) in
    let proto = first_or (request_protocol req) (values_of forwarded_proto req.header) in
    let host = first_or req.host (values_of forwarded_host req.header) in
    let (chain, protos, hosts) = put_forwarded-values (add_peer prior peer) proto host out in
    rw h (
      ap (λ vs. present (tokens_in vs)) chain
          ∙ present-if_set (add_peer prior peer)
          ∙ present-add_peer prior peer
          ∙ ap (λ ts. ts ++ present (tokens_of peer))
              (present-join (values_of forwarded_for req.header)),
      protos,
      hosts,
    )
