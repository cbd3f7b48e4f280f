-- ===== src/Route/Rank.antt =====
-- betterRoute is a strict total order on the candidates of one site.
use kubio.Prelude.{◌≡◌, true, false, ◌⊎◌, arith}
use kubio.Route.{RouteCandidate, better_route}

module _ {P : Type 0} where
  pub better_route_asym :
      (c d : RouteCandidate P) → better_route c d ≡ true → better_route d c ≡ false
  unfolding better_route
  better_route_asym c d h = ground arith

  pub better_route_total :
      (c d : RouteCandidate P)
      → better_route c d ≡ false
      → (c.index ≡ d.index) ⊎ (better_route d c ≡ true)
  unfolding better_route
  better_route_total c d h = ground arith

  pub better_route_trans :
      (c d e : RouteCandidate P)
      → better_route c d ≡ true
      → better_route d e ≡ true
      → better_route c e ≡ true
  unfolding better_route
  better_route_trans c d e h k = ground arith

  -- An exact route is better than a wildcard one.
  pub better_route_exact :
      (c d : RouteCandidate P) → c.exact ≡ true → d.exact ≡ false → better_route c d ≡ true
  unfolding better_route
  better_route_exact c d h k = ground arith
