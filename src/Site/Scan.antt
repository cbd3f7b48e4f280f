-- ===== src/Site/Scan.antt =====
-- The loops of selectRoute keep the best of the candidates that they have seen.
use kubio.Prelude.{
  ℕ, zero, suc, ◌≡◌, sym, ◌∙◌, ap, true, false, ◌⊎◌, inl, inr, Option, none, some, List, [], ◌∷◌,
  arith, Bool-cases, Option-cases, ◌==◌, ==_iff, subst, get_elem?, get_or, take,
}
use kubio.Text.{Text}
use kubio.Net.{Net, Request, values_of}
use kubio.Path.{match}
use kubio.Route.{Route, RouteCandidate, RouteMatchState, PathIndex, matches, route_candidate}
use kubio.Route.Cache.{IsCached, verdict, matches-verdict}
use kubio.Site.{keep_better, consider, scan_positions, scan_prefixes}
use kubio.Site.Best.{IsCandidate, IsBest, IsBest-iff, keep_better-IsBest}

-- A position stands in the list.
abbrev pub In : ℕ → List ℕ → Type 0
In i [] = ⊥
In i (x ∷ xs) = (i ≡ x) ⊎ In i xs

pub route_candidate_index :
    {P : Type 0} (routes : List (Route P)) (i : ℕ) {c : RouteCandidate P}
    → route_candidate routes i ≡ some c
    → (c.index ≡ i) × (get_elem? routes i ≡ some c.route) × (c.prefix ≡ c.route.pattern.path)
unfolding route_candidate
route_candidate_index routes i e = ground arith

pub match_path :
    (path : Text) {P : Type 0} (r : Route P) {prefix : Text}
    → match r.pattern path ≡ some prefix
    → prefix ≡ r.pattern.path
unfolding match
match_path path r e = ground arith

module _ (n : Net) (req : Request) (trust_proxies : List n.Prefix)
    (routes : List (Route n.Prefix)) where
  open n use {Prefix}

  abbrev pub Cand : Type 0
  Cand = RouteCandidate Prefix

  abbrev pub Met : Cand → Type 0
  Met c = verdict n req trust_proxies c.route ≡ true

  -- What a loop has found and kept.
  abbrev pub IsGood : (Cand → Type 0) → Option Cand × RouteMatchState n → Type 0
  IsGood Q (o, m) = IsBest n req trust_proxies routes Q o × IsCached n req trust_proxies m

  pub IsGood-iff :
      (Q R : Cand → Type 0) (found : Option Cand × RouteMatchState n)
      → ((c : Cand) → IsCandidate n req trust_proxies routes c → Q c → R c)
      → ((c : Cand) → IsCandidate n req trust_proxies routes c → R c → Q c)
      → IsGood Q found
      → IsGood R found
  IsGood-iff Q R (o, m) to from (best, kept) =
      (IsBest-iff n req trust_proxies routes Q R o to from best, kept)

  pub consider-IsGood :
      (Q : Cand → Type 0) (d : Cand) (found : Option Cand × RouteMatchState n)
      → IsCandidate n req trust_proxies routes d
      → IsGood Q found
      → IsGood (λ c. Q c ⊎ ((c ≡ d) × Met c)) (consider n req trust_proxies d found)
  unfolding consider
  consider-IsGood Q d (o, m) isd (best, kept) =
      let (says, kept') = matches-verdict n req trust_proxies m d.route kept in
      elim (Bool-cases (matches n req trust_proxies m d.route).0) [
        | inl met ↦ rw met (
          IsBest-iff n req trust_proxies routes (λ c. Q c ⊎ (c ≡ d)) (λ c. Q c ⊎ ((c ≡ d) × Met c))
              (keep_better n req trust_proxies d o) (λ c is q. widen (sym says ∙ met) c q)
              (λ c is q. narrow c q) (keep_better-IsBest n req trust_proxies routes Q o d isd best),
          kept',
        )
        | inr unmet ↦ rw unmet (
          IsBest-iff n req trust_proxies routes Q (λ c. Q c ⊎ ((c ≡ d) × Met c)) o (λ c is q. inl q)
              (λ c is q. drop_unmet (sym says ∙ unmet) c q) best,
          kept',
        )
      ]
    where
      widen : Met d → (c : Cand) → Q c ⊎ (c ≡ d) → Q c ⊎ ((c ≡ d) × Met c)
      widen met c (inl q) = inl q
      widen met c (inr e) = inr (e, subst (λ x. Met x) (sym e) met)

      narrow : (c : Cand) → Q c ⊎ ((c ≡ d) × Met c) → Q c ⊎ (c ≡ d)
      narrow c (inl q) = inl q
      narrow c (inr (e, met)) = inr e

      drop_unmet :
          verdict n req trust_proxies d.route ≡ false → (c : Cand) → Q c ⊎ ((c ≡ d) × Met c) → Q c
      drop_unmet unmet c (inl q) = q
      drop_unmet unmet c (inr (e, met)) = cc (subst (λ x. Met x) e met, unmet)

  -- The candidates that scan_positions adds.
  abbrev pub Listed : List ℕ → Cand → Type 0
  Listed positions c = In c.index positions × Met c

  pub scan_positions-IsGood :
      (Q : Cand → Type 0) (positions : List ℕ) (found : Option Cand × RouteMatchState n)
      → IsGood Q found
      → IsGood
          (λ c. Q c ⊎ Listed positions c)
          (scan_positions n req trust_proxies routes positions found)
  unfolding scan_positions
  scan_positions-IsGood Q [] found good =
      IsGood-iff Q (λ c. Q c ⊎ Listed [] c) found (λ c is q. inl q) (λ c is q. only c q) good
    where
      only : (c : Cand) → Q c ⊎ Listed [] c → Q c
      only c (inl q) = q
      only c (inr (i, met)) = absurd i
  scan_positions-IsGood Q (i ∷ positions) found good =
      elim (Option-cases (route_candidate routes i)) [
        | inl past ↦
            rw (past, scan_positions)
              (IsGood-iff (λ c. Q c ⊎ Listed positions c) (λ c. Q c ⊎ Listed (i ∷ positions) c)
                (scan_positions n req trust_proxies routes positions found) (λ c is q. more c q)
                (λ c is q. fewer past c is q) (scan_positions-IsGood Q positions found good))
        | inr (d, isd) ↦
            rw (isd, scan_positions)
              (IsGood-iff (λ c. (Q c ⊎ ((c ≡ d) × Met c)) ⊎ Listed positions c)
                (λ c. Q c ⊎ Listed (i ∷ positions) c)
                (scan_positions n req trust_proxies routes positions
                  (consider n req trust_proxies d found))
                (λ c is q. shift (route_candidate_index routes i isd).0 c q)
                (λ c is q. unshift isd c is q)
                (scan_positions-IsGood (λ c. Q c ⊎ ((c ≡ d) × Met c)) positions
                  (consider n req trust_proxies d found)
                  (consider-IsGood Q d found
                    (ap (route_candidate routes) (route_candidate_index routes i isd).0 ∙ isd)
                    good)))
      ]
    where
      more : (c : Cand) → Q c ⊎ Listed positions c → Q c ⊎ Listed (i ∷ positions) c
      more c (inl q) = inl q
      more c (inr (l, met)) = inr (inr l, met)

      fewer :
          route_candidate routes i ≡ none
          → (c : Cand) → IsCandidate n req trust_proxies routes c
          → Q c ⊎ Listed (i ∷ positions) c
          → Q c ⊎ Listed positions c
      fewer past c is (inl q) = inl q
      fewer past c is (inr (inl e, met)) = cc (ap (route_candidate routes) e)
      fewer past c is (inr (inr l, met)) = inr (l, met)

      shift :
          {d : Cand}
          → d.index ≡ i
          → (c : Cand) → (Q c ⊎ ((c ≡ d) × Met c)) ⊎ Listed positions c
          → Q c ⊎ Listed (i ∷ positions) c
      shift e c (inl (inl q)) = inl q
      shift e c (inl (inr (same, met))) = inr (inl (ap (λ x. x.index) same ∙ e), met)
      shift e c (inr (l, met)) = inr (inr l, met)

      unshift :
          {d : Cand}
          → route_candidate routes i ≡ some d
          → (c : Cand) → IsCandidate n req trust_proxies routes c
          → Q c ⊎ Listed (i ∷ positions) c
          → (Q c ⊎ ((c ≡ d) × Met c)) ⊎ Listed positions c
      unshift isd c is (inl q) = inl (inl q)
      unshift {d} isd c is (inr (inl e, met)) = inl (inr (cc (ap (route_candidate routes) e), met))
      unshift isd c is (inr (inr l, met)) = inr (l, met)

  -- The candidates that scan_prefixes adds.
  abbrev pub AtSlash : PathIndex → Text → ℕ → ℕ → Cand → Type 0
  AtSlash wildcard path zero index c = ⊥
  AtSlash wildcard path (suc rounds) index c =
      ((get_or path index 0 ≡ b'/') × Listed (values_of (take index path) wildcard) c)
      ⊎ AtSlash wildcard path rounds (suc index) c

  pub scan_prefixes-IsGood :
      (Q : Cand → Type 0) (wildcard : PathIndex) (path : Text) (rounds index : ℕ)
      (found : Option Cand × RouteMatchState n)
      → IsGood Q found
      → IsGood
          (λ c. Q c ⊎ AtSlash wildcard path rounds index c)
          (scan_prefixes n req trust_proxies routes wildcard path rounds index found)
  unfolding scan_prefixes
  scan_prefixes-IsGood Q wildcard path zero index found good =
      IsGood-iff Q (λ c. Q c ⊎ ⊥) found (λ c is q. inl q) (λ c is q. only c q) good
    where
      only : (c : Cand) → Q c ⊎ ⊥ → Q c
      only c (inl q) = q
      only c (inr i) = absurd i
  scan_prefixes-IsGood Q wildcard path (suc rounds) index found good =
      elim (Bool-cases (get_or path index 0 == b'/')) [
        | inl slash ↦
            rw (slash, scan_prefixes)
              (IsGood-iff
                (λ c.
                  (Q c ⊎ Listed (values_of (take index path) wildcard) c)
                  ⊎ AtSlash wildcard path rounds (suc index) c)
                (λ c. Q c ⊎ AtSlash wildcard path (suc rounds) index c)
                (scan_prefixes n req trust_proxies routes wildcard path rounds (suc index) (
                  scan_positions n req trust_proxies routes (values_of (take index path) wildcard)
                    found))
                (λ c is q. here ((==_iff _ _).0 slash) c q) (λ c is q. back c q)
                (scan_prefixes-IsGood (λ c. Q c ⊎ Listed (values_of (take index path) wildcard) c)
                  wildcard path rounds (suc index) _
                  (scan_positions-IsGood Q (values_of (take index path) wildcard) found good)))
        | inr other ↦
            rw (other, scan_prefixes)
              (IsGood-iff (λ c. Q c ⊎ AtSlash wildcard path rounds (suc index) c)
                (λ c. Q c ⊎ AtSlash wildcard path (suc rounds) index c)
                (scan_prefixes n req trust_proxies routes wildcard path rounds (suc index) found)
                (λ c is q. later c q) (λ c is q. skip other c q)
                (scan_prefixes-IsGood Q wildcard path rounds (suc index) found good))
      ]
    where
      here :
          get_or path index 0 ≡ b'/'
          → (c : Cand)
          → (Q c ⊎ Listed (values_of (take index path) wildcard) c)
            ⊎ AtSlash wildcard path rounds (suc index) c
          → Q c ⊎ AtSlash wildcard path (suc rounds) index c
      here e c (inl (inl q)) = inl q
      here e c (inl (inr l)) = inr (inl (e, l))
      here e c (inr a) = inr (inr a)

      back :
          (c : Cand)
          → Q c ⊎ AtSlash wildcard path (suc rounds) index c
          → (Q c ⊎ Listed (values_of (take index path) wildcard) c)
            ⊎ AtSlash wildcard path rounds (suc index) c
      back c (inl q) = inl (inl q)
      back c (inr (inl (e, l))) = inl (inr l)
      back c (inr (inr a)) = inr a

      later :
          (c : Cand)
          → Q c ⊎ AtSlash wildcard path rounds (suc index) c
          → Q c ⊎ AtSlash wildcard path (suc rounds) index c
      later c (inl q) = inl q
      later c (inr a) = inr (inr a)

      skip :
          (get_or path index 0 == b'/') ≡ false
          → (c : Cand) → Q c ⊎ AtSlash wildcard path (suc rounds) index c
          → Q c ⊎ AtSlash wildcard path rounds (suc index) c
      skip other c (inl q) = inl q
      skip other c (inr (inl (e, l))) = cc ((==_iff _ _).1 e)
      skip other c (inr (inr a)) = inr a
