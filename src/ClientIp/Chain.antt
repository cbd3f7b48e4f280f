-- ===== src/ClientIp/Chain.antt =====
-- The address that effectiveClientIP takes from the forwarded chain.
use kubio.Prelude.{
  ◌≡◌, ap, true, false, none, some, List, [], ◌∷◌, ◌++◌, ◌⊎◌, inl, inr, All, Bool-cases,
  Option-cases,
}
use kubio.Text.{Text, text}
use kubio.Net.{Net, Request, values_of}
use kubio.ClientIp.{
  is_trusted_proxy, peer_address, forwarded_addresses, last_untrusted, tokens_of, forwarded_client,
  effective_client_ip,
}

module _ (n : Net) where
  open n use {Addr, Prefix, unmap}

  -- The address is the last one of the chain that is not trusted.
  abbrev pub IsLastUntrusted : List Prefix → Addr → List Addr → Type 0
  IsLastUntrusted trusted a chain =
      (before : List Addr) × (after : List Addr) × (chain ≡ before ++ a ∷ after)
      × (is_trusted_proxy n a trusted ≡ false)
      × All (λ x. is_trusted_proxy n x trusted ≡ true) after

  none_left :
      (trusted : List Prefix) (chain : List Addr)
      → last_untrusted n trusted chain ≡ none
      → All (λ x. is_trusted_proxy n x trusted ≡ true) chain
  unfolding last_untrusted
  none_left trusted [] h = tt
  none_left trusted (x ∷ chain) h = elim (Option-cases (last_untrusted n trusted chain)) [
    | inr (a, e) ↦ absurd (cc (rw e at h))
    | inl e ↦ elim (Bool-cases (is_trusted_proxy n x trusted)) [
      | inl t ↦ (t, none_left trusted chain e)
      | inr u ↦ absurd (cc (rw (e, u) at h))
    ]
  ]

  last_untrusted-lem :
      (trusted : List Prefix) (chain : List Addr) (a : Addr)
      → last_untrusted n trusted chain ≡ some a
      → IsLastUntrusted trusted a chain
  unfolding last_untrusted
  last_untrusted-lem trusted [] a h = absurd (cc h)
  last_untrusted-lem trusted (x ∷ chain) a h =
      elim (Option-cases (last_untrusted n trusted chain)) [
        | inr (b, e) ↦
            let same : b ≡ a = cc (rw e at h) in
            let (before, after, split, untrusted, rest) =
              last_untrusted-lem trusted chain a (cc (e, same)) in
            (x ∷ before, after, ap (◌∷◌ x) split, untrusted, rest)
        | inl e ↦ elim (Bool-cases (is_trusted_proxy n x trusted)) [
          | inl t ↦ absurd (cc (rw (e, t) at h))
          | inr u ↦
              let same : x ≡ a = cc (rw (e, u) at h) in
              ([], chain, ap (λ y. y ∷ chain) same, cc (u, same), none_left trusted chain e)
        ]
      ]

  forwarded_client-lem :
      (trusted : List Prefix) (values : List Text) (a : Addr)
      → forwarded_client n trusted values ≡ some a
      → (chain : List Addr) × (forwarded_addresses n (tokens_of n values) ≡ some chain)
        × IsLastUntrusted trusted a chain
  forwarded_client-lem trusted [] a h = absurd (cc h)
  forwarded_client-lem trusted (v ∷ values) a h =
      elim (Option-cases (forwarded_addresses n (tokens_of n (v ∷ values)))) [
        | inl e ↦ absurd (cc (rw (e, forwarded_client) at h))
        | inr (chain, e) ↦
            (chain, e, last_untrusted-lem trusted chain a (rw (e, forwarded_client) at h))
      ]

  -- When effectiveClientIP returns an address, either the peer is not a trusted proxy and the
  -- address is the peer's; or the peer is trusted, every token of X-Forwarded-For is an address, and
  -- the result is one of them that is not trusted, while all those after it are trusted.
  pub effective_client_ip-IsLastUntrusted :
      (req : Request) (trusted : List Prefix) (a : Addr)
      → effective_client_ip n req trusted ≡ some a
      → (peer : Addr) × (peer_address n req.remote_addr ≡ some peer)
        × (((is_trusted_proxy n (unmap peer) trusted ≡ false) × (a ≡ unmap peer))
            ⊎ ((is_trusted_proxy n (unmap peer) trusted ≡ true)
                × (chain : List Addr) × (forwarded_addresses n
                      (tokens_of n (values_of (text "X-Forwarded-For") req.header))
                    ≡ some chain)
                × IsLastUntrusted trusted a chain))
  unfolding effective_client_ip
  effective_client_ip-IsLastUntrusted req trusted a h =
      elim (Option-cases (peer_address n req.remote_addr)) [
        | inl e ↦ absurd (cc (rw (e, effective_client_ip) at h))
        | inr (peer, e) ↦ elim (Bool-cases (is_trusted_proxy n (unmap peer) trusted)) [
          | inr u ↦ (peer, e, inl (u, cc (rw (e, u, effective_client_ip) at h)))
          | inl t ↦
              let (chain, whole, last) =
                forwarded_client-lem trusted (values_of (text "X-Forwarded-For") req.header) a
                  (rw (e, t, effective_client_ip) at h) in
              (peer, e, inr (t, chain, whole, last))
        ]
      ]
