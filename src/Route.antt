-- ===== src/Route.antt =====
-- src/data_info/route.c: the routing table of a node, a list of routes that are pointers to
-- elements in the source and elements here. `LL_FOREACH` is recursion over the list.
pub mod Add
pub mod Target
pub mod Flag
pub mod Remove
mod Tests
use foren6_analyzer.Prelude.{
  ℕ, suc, ◌+◌, Bool, true, false, ◌&&◌, List, [], ◌∷◌, Option, none, some, ◌==◌, if◌then◌else◌,
}
use foren6_analyzer.Address.{AddrIpv6, AddrWpan, addr_compare_ip_len}
use foren6_analyzer.Utlist.{Utlist}

pub record DiRoute : Type 0 where
  pub length : ℕ
  pub prefix : AddrIpv6
  pub expiration_time : ℕ

-- `user_data` is not set by the program: `calloc` leaves it `NULL`.
pub record DiRouteEl : Type 0 where
  pub target : DiRoute
  pub via_node : AddrWpan

-- The test on targets that the three operations share.
unfoldable pub same_target : DiRoute → DiRouteEl → Bool
same_target target route =
    (target.length == route.target.length)
    && (addr_compare_ip_len route.target.prefix target.prefix target.length == 0)

unfoldable pub is_route : DiRoute → AddrWpan → DiRouteEl → Bool
is_route target via_node route = (route.via_node == via_node) && same_target target route

unfoldable pub route_get : List DiRouteEl → DiRoute → AddrWpan → Bool → Option DiRouteEl
route_get [] target via_node allow_summary = none
route_get (route ∷ list) target via_node allow_summary =
    if is_route target via_node route
    then some route
    else route_get list target via_node allow_summary

-- The branch of `route_add` on a route that is found: it is left as it is only where the caller
-- asks whether it was there.
unfoldable pub route_found : DiRouteEl → AddrWpan → Option Bool → DiRouteEl × Option Bool
route_found route via_node none = (record route { via_node = via_node }, none)
route_found route via_node (some flag) =
    if route.via_node == via_node
    then (route, some true)
    else (record route { via_node = via_node }, some flag)

-- The loop of `route_add`: the list, the route and the flag where a route is found.
unfoldable pub route_add_loop :
    List DiRouteEl
    → DiRoute
    → AddrWpan
    → Option Bool
    → Option (List DiRouteEl × DiRouteEl × Option Bool)
route_add_loop [] target via_node was = none
route_add_loop (route ∷ list) target via_node was =
    if same_target target route
    then (let (found, flag) = route_found route via_node was in some (found ∷ list, found, flag))
    else elim (route_add_loop list target via_node was) [
      | none ↦ none
      | some (list', found, flag) ↦ some (route ∷ list', found, flag)
    ]

unfoldable pub clear_flag : Option Bool → Option Bool
clear_flag none = none
clear_flag (some flag) = some false

-- `route_add` after its loop, which found a route or did not.
unfoldable pub route_add_result :
    ⦃ll : Utlist DiRouteEl⦄
    → List DiRouteEl
    → DiRoute
    → AddrWpan
    → Option Bool
    → Option (List DiRouteEl × DiRouteEl × Option Bool)
    → List DiRouteEl × DiRouteEl × Option Bool
route_add_result list target via_node was (some r) = r
route_add_result ⦃ll = ll⦄ list target via_node was none =
    let route : DiRouteEl = record { target = target; via_node = via_node } in
    (ll.ll_prepend list route, route, clear_flag was)

-- `was` is the cell of `was_already_existing`, if there is one.
unfoldable pub route_add :
    ⦃ll : Utlist DiRouteEl⦄
    → List DiRouteEl
    → DiRoute
    → AddrWpan
    → Bool
    → Option Bool
    → List DiRouteEl × DiRouteEl × Option Bool
route_add list target via_node auto_summary was =
    route_add_result list target via_node was (route_add_loop list target via_node was)

-- The route that the loop of `route_remove` stops at.
unfoldable pub route_position : List DiRouteEl → DiRoute → AddrWpan → Option ℕ
route_position [] target via_node = none
route_position (route ∷ list) target via_node =
    if is_route target via_node route
    then some 0
    else elim (route_position list target via_node) [ none ↦ none | some i ↦ some (suc i) ]

-- `route_remove` after its loop.
unfoldable pub route_remove_result :
    ⦃ll : Utlist DiRouteEl⦄ → List DiRouteEl → Option ℕ → Bool × List DiRouteEl
route_remove_result list none = (false, list)
route_remove_result ⦃ll = ll⦄ list (some i) = (true, ll.ll_delete list i)

unfoldable pub route_remove :
    ⦃ll : Utlist DiRouteEl⦄ → List DiRouteEl → DiRoute → AddrWpan → Bool × List DiRouteEl
route_remove list target via_node = route_remove_result list (route_position list target via_node)

unfoldable pub route_del_all_outdated : List DiRouteEl → Bool × List DiRouteEl
route_del_all_outdated list = (false, list)

-- Each element is copied to the end of the new list.
unfoldable pub route_dup : List DiRouteEl → List DiRouteEl
route_dup [] = []
route_dup (route ∷ routes) = route ∷ route_dup routes
