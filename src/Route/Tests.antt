-- ===== src/Route/Tests.antt =====
-- Routing tables at concrete inputs.
use foren6_analyzer.Prelude.{none, true, false, is_some, List, [], ◌∷◌, some, ◌≡◌, arith}
use foren6_analyzer.Utlist.{Utlist, plain_lists}
use foren6_analyzer.Route.{DiRoute, DiRouteEl, route_get, route_add, route_remove}
use foren6_analyzer.Route.Target.{IsDiRoute, SameTarget, IsTable}
use foren6_analyzer.Route.Add.{route_add-route_get, route_add-route_get_other}
use foren6_analyzer.Route.Flag.{route_add-is_some}
use foren6_analyzer.Route.Remove.{route_remove-route_get, route_remove-route_get_other}

-- aaaa::/64 and aaaa::1/128
abbrev net : DiRoute
net = record {
  length = 64;
  prefix = record { addr32_0 = 0xaaaa; addr32_1 = 0; addr32_2 = 0; addr32_3 = 0 };
  expiration_time = 0;
}

abbrev host : DiRoute
host = record {
  length = 128;
  prefix = record { addr32_0 = 0xaaaa; addr32_1 = 0; addr32_2 = 0; addr32_3 = 0x0100_0000 };
  expiration_time = 0;
}

net-IsDiRoute : IsDiRoute net
net-IsDiRoute = record {
  length_in = omega arith;
  prefix_in = record {
    word_0 = omega arith;
    word_1 = omega arith;
    word_2 = omega arith;
    word_3 = omega arith;
  };
}

host-IsDiRoute : IsDiRoute host
host-IsDiRoute = record {
  length_in = omega arith;
  prefix_in = record {
    word_0 = omega arith;
    word_1 = omega arith;
    word_2 = omega arith;
    word_3 = omega arith;
  };
}

abbrev table : List DiRouteEl
table = record { target = net; via_node = 7 } ∷ record { target = host; via_node = 8 } ∷ []

table-IsTable : IsTable table
unfolding IsTable
table-IsTable =
    (net-IsDiRoute, ((λ s. let lengths = s.same_length in omega arith), _), (host-IsDiRoute, _, _))

instance abbrev lists : Utlist DiRouteEl
lists = plain_lists

-- The host now leads over node 9.
abbrev moved : DiRouteEl
moved = record { target = host; via_node = 9 }

apart : SameTarget net host → ⊥
apart s = let lengths = s.same_length in omega arith

route_add-route_get_example :
    IsTable (route_add table host 9 false (some false)).0
    × (route_get (route_add table host 9 false (some false)).0 host 9 true
        ≡ some (route_add table host 9 false (some false)).1)
route_add-route_get_example =
    route_add-route_get table host 9 false (some false) true table-IsTable host-IsDiRoute

route_add-route_get_other_example :
    route_get (route_add table host 9 false (some false)).0 net 7 true ≡ route_get table net 7 true
route_add-route_get_other_example =
    route_add-route_get_other table host net 9 7 false (some false) true table-IsTable
      host-IsDiRoute net-IsDiRoute apart

route_add-is_some_example :
    (route_add table host 9 false (some false)).2 ≡ some (is_some (route_get table host 9 true))
route_add-is_some_example = route_add-is_some table host 9 false true table-IsTable host-IsDiRoute

route_remove-route_get_example :
    ((route_remove table host 8).0 ≡ is_some (route_get table host 8 true))
    × IsTable (route_remove table host 8).1
    × (route_get (route_remove table host 8).1 host 8 true ≡ none)
route_remove-route_get_example =
    route_remove-route_get table host 8 true table-IsTable host-IsDiRoute

route_remove-route_get_other_example :
    route_get (route_remove table host 8).1 net 7 true ≡ route_get table net 7 true
route_remove-route_get_other_example =
    route_remove-route_get_other table host net 8 7 true table-IsTable host-IsDiRoute net-IsDiRoute
      apart
