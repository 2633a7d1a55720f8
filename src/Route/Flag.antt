-- ===== src/Route/Flag.antt =====
-- What `route_add` reports in `was_already_existing`.
use foren6_analyzer.Prelude.{
  Bool, true, false, is_some, Bool-cases, inl, inr, List, [], ◌∷◌, Option, none, some, ◌==◌, ◌≡◌,
  refl,
}
use foren6_analyzer.Address.{AddrWpan}
use foren6_analyzer.Utlist.{Utlist}
use foren6_analyzer.Route.{
  DiRoute, DiRouteEl, same_target, is_route, route_get, route_found, route_add_loop, clear_flag,
  route_add_result, route_add,
}
use foren6_analyzer.Route.Target.{
  IsDiRoute, SameTarget-sym, same_target_iff, Fresh, IsTable, route_get-Fresh, is_route-apart,
  not_same, Fresh-transport,
}
use foren6_analyzer.Route.Add.{Added}

module _ (t : DiRoute) (via : AddrWpan) (summary : Bool) (vt : IsDiRoute t) where
  abbrev Reported : List DiRouteEl → Option Added → Type 0
  Reported list none = Fresh t list
  Reported list (some (l, r, f)) = f ≡ some (is_some (route_get list t via summary))

  found-Reported :
      (r : DiRouteEl) (list : List DiRouteEl)
      → IsTable (r ∷ list)
      → same_target t r ≡ true
      → (route_found r via (some false)).1 ≡ some (is_some (route_get (r ∷ list) t via summary))
  unfolding IsTable route_get route_found is_route
  found-Reported r list (vr, fresh, table) e =
      let same = (same_target_iff t r vt vr).0 e in
      let gone =
        route_get-Fresh t list via summary vt table
          (Fresh-transport list (SameTarget-sym same) fresh) in
      elim (Bool-cases (r.via_node == via)) [
        | inl hit ↦ rw (hit, e) refl
        | inr miss ↦ rw (miss, gone) refl
      ]

  extend-Reported :
      (r : DiRouteEl) (list : List DiRouteEl) (o : Option Added)
      → IsDiRoute r.target
      → same_target t r ≡ false
      → Reported list o
      → Reported (r ∷ list) (elim o [ none ↦ none | some (l, q, f) ↦ some (r ∷ l, q, f) ])
  unfolding route_get
  extend-Reported r list none vr e out = (not_same t vt r vr e, out)
  extend-Reported r list (some (l, q, f)) vr e out = rw (is_route-apart t via r e) out

  loop-Reported :
      (list : List DiRouteEl)
      → IsTable list
      → Reported list (route_add_loop list t via (some false))
  unfolding route_add_loop IsTable
  loop-Reported [] table = _
  loop-Reported (r ∷ list) table = elim (Bool-cases (same_target t r)) [
    | inl same ↦ rw same (found-Reported r list table same)
    | inr other ↦ rw other (
        extend-Reported r list (route_add_loop list t via (some false)) table.0 other
          (loop-Reported list table.2))
  ]

finish-Reported :
    ⦃ll : Utlist DiRouteEl⦄ (t : DiRoute) (via : AddrWpan) (summary : Bool) (vt : IsDiRoute t)
    (list : List DiRouteEl) (o : Option Added)
    → IsTable list
    → Reported t via summary vt list o
    → (route_add_result list t via (some false) o).2 ≡ some (is_some (route_get list t via summary))
unfolding route_add_result clear_flag
finish-Reported t via summary vt list none table fresh =
    rw (route_get-Fresh t list via summary vt table fresh) refl
finish-Reported t via summary vt list (some (l, r, f)) table out = out

-- On a table of valid addresses in which no two routes have one target: where the caller's flag
-- is false, `route_add` of a valid target sets it to whether a lookup of the target with that
-- next hop found a route before. A route whose next hop changes counts as new.
pub route_add-is_some :
    ⦃ll : Utlist DiRouteEl⦄ (list : List DiRouteEl) (t : DiRoute) (via : AddrWpan)
    (auto_summary summary : Bool)
    → IsTable list
    → IsDiRoute t
    → (route_add list t via auto_summary (some false)).2
      ≡ some (is_some (route_get list t via summary))
unfolding route_add
route_add-is_some list t via auto_summary summary table vt =
    finish-Reported t via summary vt list (route_add_loop list t via (some false)) table
      (loop-Reported t via summary vt list table)
