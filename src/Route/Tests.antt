-- ===== src/Route/Tests.antt =====
-- router.go: the verdict on a route at a concrete request.
use kubio.Prelude.{◌≡◌, [], ◌∷◌, none, true, false}
use kubio.Text.{text}
use kubio.Net.Examples.{digit_net, get_a}
use kubio.Route.{Route, fresh_state, matches}
use kubio.Route.Cache.{IsCached, verdict, matches-verdict, fresh_state-IsCached}

-- A route below /a for the client 7.
abbrev for_seven : Route digit_net.Prefix
for_seven = record {
  pattern = record { path = text "/a"; raw_path = text "/a"; wildcard = true; depth = 1 };
  methods = text "GET" ∷ [];
  match = record { header = []; query = []; ip = 7 ∷ []; alternatives = 1 };
  proxy = 0;
  respond = none;
  strip = false;
}

matches-verdict_example :
    ((matches digit_net get_a (1 ∷ []) (fresh_state digit_net) for_seven).0
      ≡ verdict digit_net get_a (1 ∷ []) for_seven)
    × IsCached digit_net get_a
        (1 ∷ [])
        (matches digit_net get_a (1 ∷ []) (fresh_state digit_net) for_seven).1
matches-verdict_example =
    matches-verdict digit_net get_a (1 ∷ []) (fresh_state digit_net) for_seven
      (fresh_state-IsCached digit_net get_a (1 ∷ []))
