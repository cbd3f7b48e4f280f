-- ===== src/Site/Best.antt =====
-- The best of the candidates that satisfy a predicate.
use kubio.Prelude.{
  ◌≡◌, refl, sym, ◌∙◌, true, ◌⊎◌, inl, inr, Option, none, some, Bool-cases, subst, List, ap,
}
use kubio.Net.{Net, Request}
use kubio.Route.{Route, RouteCandidate, better_route, route_candidate}
use kubio.Route.Rank.{better_route_asym, better_route_total, better_route_trans}
use kubio.Site.{keep_better}

module _ (n : Net) (req : Request) (trust_proxies : List n.Prefix)
    (routes : List (Route n.Prefix)) where
  open n use {Prefix}

  -- The candidate that the site makes of one of its routes.
  abbrev pub IsCandidate : RouteCandidate Prefix → Type 0
  IsCandidate c = route_candidate routes c.index ≡ some c

  -- Nothing satisfies the predicate, or the candidate does and is better than all others that do.
  abbrev pub IsBest : (RouteCandidate Prefix → Type 0) → Option (RouteCandidate Prefix) → Type 0
  IsBest Q none = (c : RouteCandidate Prefix) → IsCandidate c → Q c → ⊥
  IsBest Q (some b) =
      IsCandidate b
      × Q b
      × ((c : RouteCandidate Prefix) → IsCandidate c → Q c → (c ≡ b) ⊎ (better_route b c ≡ true))

  same_index :
      (c d : RouteCandidate Prefix) → IsCandidate c → IsCandidate d → c.index ≡ d.index → c ≡ d
  same_index c d h k e = cc (subst (λ i. route_candidate routes i ≡ some c) e h, k)

  -- There is one best candidate.
  pub IsBest-unique :
      (Q : RouteCandidate Prefix → Type 0) (o p : Option (RouteCandidate Prefix))
      → IsBest Q o
      → IsBest Q p
      → o ≡ p
  IsBest-unique Q none none h k = refl
  IsBest-unique Q none (some c) h (is, q, best) = absurd (h c is q)
  IsBest-unique Q (some b) none (is, q, best) k = absurd (k b is q)
  IsBest-unique Q (some b) (some c) (is, q, best) (is', q', best') =
      ap some (pick (best c is' q') (best' b is q))
    where
      pick : (c ≡ b) ⊎ (better_route b c ≡ true) → (b ≡ c) ⊎ (better_route c b ≡ true) → b ≡ c
      pick (inl e) other = sym e
      pick (inr h) (inl e) = e
      pick (inr h) (inr k) = cc (better_route_asym b c h, k)

  -- What a predicate is called does not matter.
  pub IsBest-iff :
      (Q R : RouteCandidate Prefix → Type 0) (o : Option (RouteCandidate Prefix))
      → ((c : RouteCandidate Prefix) → IsCandidate c → Q c → R c)
      → ((c : RouteCandidate Prefix) → IsCandidate c → R c → Q c)
      → IsBest Q o
      → IsBest R o
  IsBest-iff Q R none to from h = λ c is r. h c is (from c is r)
  IsBest-iff Q R (some b) to from (is, q, best) =
      (is, to b is q, λ c isc r. best c isc (from c isc r))

  -- One more candidate.
  pub keep_better-IsBest :
      (Q : RouteCandidate Prefix → Type 0) (o : Option (RouteCandidate Prefix))
      (d : RouteCandidate Prefix)
      → IsCandidate d
      → IsBest Q o
      → IsBest (λ c. Q c ⊎ (c ≡ d)) (keep_better n req trust_proxies d o)
  unfolding keep_better
  keep_better-IsBest Q none d isd h = (isd, inr refl, λ c is q. alone c is q)
    where
      alone :
          (c : RouteCandidate Prefix)
          → IsCandidate c
          → Q c ⊎ (c ≡ d)
          → (c ≡ d) ⊎ (better_route d c ≡ true)
      alone c is (inl q) = absurd (h c is q)
      alone c is (inr e) = inl e
  keep_better-IsBest Q (some b) d isd (isb, q, best) = elim (Bool-cases (better_route d b)) [
    | inl wins ↦ rw wins (isd, inr refl, over wins)
    | inr loses ↦ rw loses (isb, inl q, under (better_route_total d b loses))
  ]
    where
      over :
          better_route d b ≡ true
          → (c : RouteCandidate Prefix) → IsCandidate c
          → Q c ⊎ (c ≡ d)
          → (c ≡ d) ⊎ (better_route d c ≡ true)
      over wins c is (inr e) = inl e
      over wins c is (inl qc) = elim (best c is qc) [
        | inl e ↦ inr (subst (λ x. better_route d x ≡ true) (sym e) wins)
        | inr h ↦ inr (better_route_trans d b c wins h)
      ]

      under :
          (d.index ≡ b.index) ⊎ (better_route b d ≡ true)
          → (c : RouteCandidate Prefix) → IsCandidate c
          → Q c ⊎ (c ≡ d)
          → (c ≡ b) ⊎ (better_route b c ≡ true)
      under t c is (inl qc) = best c is qc
      under (inl e) c is (inr same) = inl (same ∙ same_index d b isd isb e)
      under (inr h) c is (inr same) = inr (subst (λ x. better_route b x ≡ true) (sym same) h)
