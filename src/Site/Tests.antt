-- ===== src/Site/Tests.antt =====
-- router.go: route selection at a concrete site and request.
use kubio.Prelude.{◌≡◌, [], ◌∷◌, List, none, true, false}
use kubio.Text.{text}
use kubio.Net.Examples.{digit_net, get_a}
use kubio.Route.{Route}
use kubio.Site.{finish_site, select_route, select_indexed, select_scanned, build_route_index}
use kubio.Site.Best.{IsBest}
use kubio.Site.Select.{Hit, select_route-IsBest, select_indexed-select_scanned}

-- All paths, the paths below /a for the client 7, and /a itself for POST.
abbrev three_routes : List (Route digit_net.Prefix)
three_routes =
    record {
      pattern = record { path = []; raw_path = []; wildcard = true; depth = 0 };
      methods = [];
      match = record { header = []; query = []; ip = []; alternatives = 0 };
      proxy = 0;
      respond = none;
      strip = false;
    }
    ∷ record {
      pattern = record { path = text "/a"; raw_path = text "/a"; wildcard = true; depth = 1 };
      methods = [];
      match = record { header = []; query = []; ip = 7 ∷ []; alternatives = 1 };
      proxy = 1;
      respond = none;
      strip = false;
    }
    ∷ record {
      pattern = record { path = text "/a"; raw_path = text "/a"; wildcard = false; depth = 1 };
      methods = text "POST" ∷ [];
      match = record { header = []; query = []; ip = []; alternatives = 0 };
      proxy = 2;
      respond = none;
      strip = false;
    }
    ∷ []

select_indexed-select_scanned_example :
    select_indexed digit_net get_a
      (1 ∷ [])
      three_routes
      (build_route_index three_routes)
      (text "/a")
    ≡ select_scanned digit_net get_a (1 ∷ []) three_routes (text "/a")
select_indexed-select_scanned_example =
    select_indexed-select_scanned digit_net get_a (1 ∷ []) three_routes (text "/a")

select_route-IsBest_example :
    IsBest digit_net get_a
      (1 ∷ [])
      three_routes
      (Hit digit_net get_a (1 ∷ []) three_routes (text "/a"))
      (select_route digit_net (finish_site three_routes (1 ∷ [])) get_a)
select_route-IsBest_example = select_route-IsBest digit_net three_routes (1 ∷ []) get_a
