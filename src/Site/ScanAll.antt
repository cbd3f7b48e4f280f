-- ===== src/Site/ScanAll.antt =====
-- The loop over all routes keeps the best of the candidates that it has seen.
use kubio.Prelude.{
  ℕ, zero, suc, ◌+◌, ◌≤◌, ◌<◌, ◌≡◌, sym, ◌∙◌, ap, true, ◌⊎◌, inl, inr, Option, none, some, List,
  arith, Option-cases, subst,
}
use native.Mathlib.Decide.{dec_le}
use kubio.Text.{Text, is_some}
use kubio.Net.{Net, Request}
use kubio.Path.{match}
use kubio.Route.{Route, RouteCandidate, RouteMatchState, route_candidate}
use kubio.Route.Cache.{verdict}
use kubio.Site.{consider, consider_path, scan_routes}
use kubio.Site.Best.{IsCandidate}
use kubio.Site.Scan.{IsGood, IsGood-iff, consider-IsGood, route_candidate_index, match_path}

module _ (n : Net) (req : Request) (trust_proxies : List n.Prefix)
    (routes : List (Route n.Prefix)) where
  open n use {Prefix}

  abbrev Cand : Type 0
  Cand = RouteCandidate Prefix

  abbrev Met : Cand → Type 0
  Met c = verdict n req trust_proxies c.route ≡ true

  -- The candidates that scan_routes adds.
  abbrev pub Between : Text → ℕ → ℕ → Cand → Type 0
  Between path rounds index c =
      (index ≤ c.index)
      × (c.index < index + rounds)
      × (is_some (match c.route.pattern path) ≡ true)
      × Met c

  abbrev AtIndex : Text → ℕ → Cand → Type 0
  AtIndex path index c = (c.index ≡ index) × (is_some (match c.route.pattern path) ≡ true) × Met c

  consider_path-IsGood :
      (Q : Cand → Type 0) (path : Text) (index : ℕ) (found : Option Cand × RouteMatchState n)
      → IsGood n req trust_proxies routes Q found
      → IsGood n req trust_proxies routes
          (λ c. Q c ⊎ AtIndex path index c)
          (consider_path n req trust_proxies routes path index found)
  unfolding consider_path
  consider_path-IsGood Q path index found good =
      elim (Option-cases (route_candidate routes index)) [
        | inl past ↦
            rw (past, consider_path)
              (IsGood-iff n req trust_proxies routes Q (λ c. Q c ⊎ AtIndex path index c) found
                (λ c is q. inl q) (λ c is q. none_there past c is q) good)
        | inr (d, isd) ↦ elim (Option-cases (match d.route.pattern path)) [
          | inl unmatched ↦
              rw (isd, consider_path, unmatched)
                (IsGood-iff n req trust_proxies routes Q (λ c. Q c ⊎ AtIndex path index c) found
                  (λ c is q. inl q) (λ c is q. not_matched isd unmatched c is q) good)
          | inr (prefix, matched) ↦
              let (at_index, there, its_path) = route_candidate_index routes index isd in
              let same : prefix ≡ d.prefix = match_path path d.route matched ∙ sym its_path in
              rw (isd, consider_path, matched, same)
                (IsGood-iff n req trust_proxies routes (λ c. Q c ⊎ ((c ≡ d) × Met c))
                  (λ c. Q c ⊎ AtIndex path index c) (consider n req trust_proxies d found)
                  (λ c is q. widen at_index matched c q) (λ c is q. narrow isd c is q)
                  (consider-IsGood n req trust_proxies routes Q d found
                    (ap (route_candidate routes) at_index ∙ isd) good))
        ]
      ]
    where
      none_there :
          route_candidate routes index ≡ none
          → (c : Cand) → IsCandidate n req trust_proxies routes c
          → Q c ⊎ AtIndex path index c
          → Q c
      none_there past c is (inl q) = q
      none_there past c is (inr (e, m, v)) = cc (ap (route_candidate routes) e)

      not_matched :
          {d : Cand}
          → route_candidate routes index ≡ some d
          → match d.route.pattern path ≡ none
          → (c : Cand) → IsCandidate n req trust_proxies routes c
          → Q c ⊎ AtIndex path index c
          → Q c
      not_matched isd un c is (inl q) = q
      not_matched {d} isd un c is (inr (e, m, v)) =
          let same : c ≡ d = cc (ap (route_candidate routes) e) in
          cc (subst (λ x. is_some (match x.route.pattern path) ≡ true) same m, ap is_some un)

      widen :
          {d : Cand} {prefix : Text}
          → d.index ≡ index
          → match d.route.pattern path ≡ some prefix
          → (c : Cand) → Q c ⊎ ((c ≡ d) × Met c)
          → Q c ⊎ AtIndex path index c
      widen e m c (inl q) = inl q
      widen {d} {prefix} e m c (inr (same, met)) = inr (
        ap (λ x. x.index) same ∙ e,
        ap (λ x. is_some (match x.route.pattern path)) same ∙ ap is_some m,
        met,
      )

      narrow :
          {d : Cand}
          → route_candidate routes index ≡ some d
          → (c : Cand) → IsCandidate n req trust_proxies routes c
          → Q c ⊎ AtIndex path index c
          → Q c ⊎ ((c ≡ d) × Met c)
      narrow isd c is (inl q) = inl q
      narrow {d} isd c is (inr (e, m, v)) = inr (cc (ap (route_candidate routes) e), v)

  pub scan_routes-IsGood :
      (Q : Cand → Type 0) (path : Text) (rounds index : ℕ) (found : Option Cand × RouteMatchState n)
      → IsGood n req trust_proxies routes Q found
      → IsGood n req trust_proxies routes
          (λ c. Q c ⊎ Between path rounds index c)
          (scan_routes n req trust_proxies routes path rounds index found)
  unfolding scan_routes
  scan_routes-IsGood Q path zero index found good =
      IsGood-iff n req trust_proxies routes Q (λ c. Q c ⊎ Between path zero index c) found
        (λ c is q. inl q) (λ c is q. only c q) good
    where
      only : (c : Cand) → Q c ⊎ Between path zero index c → Q c
      only c (inl q) = q
      only c (inr (low, high, m, v)) = absurd (omega arith)
  scan_routes-IsGood Q path (suc rounds) index found good =
      IsGood-iff n req trust_proxies routes
        (λ c. (Q c ⊎ AtIndex path index c) ⊎ Between path rounds (suc index) c)
        (λ c. Q c ⊎ Between path (suc rounds) index c)
        (scan_routes n req trust_proxies routes path rounds (suc index)
          (consider_path n req trust_proxies routes path index found))
        (λ c is q. shift c q) (λ c is q. unshift c q)
        (scan_routes-IsGood (λ c. Q c ⊎ AtIndex path index c) path rounds (suc index)
          (consider_path n req trust_proxies routes path index found)
          (consider_path-IsGood Q path index found good))
    where
      shift :
          (c : Cand)
          → (Q c ⊎ AtIndex path index c) ⊎ Between path rounds (suc index) c
          → Q c ⊎ Between path (suc rounds) index c
      shift c (inl (inl q)) = inl q
      shift c (inl (inr (e, m, v))) = inr (omega arith, omega arith, m, v)
      shift c (inr (low, high, m, v)) = inr (omega arith, omega arith, m, v)

      unshift :
          (c : Cand)
          → Q c ⊎ Between path (suc rounds) index c
          → (Q c ⊎ AtIndex path index c) ⊎ Between path rounds (suc index) c
      unshift c (inl q) = inl (inl q)
      unshift c (inr (low, high, m, v)) = elim (dec_le (suc index) c.index) [
        | yes later ↦ inr (later, omega arith, m, v)
        | no here ↦ inl (inr (omega arith, m, v))
      ]
