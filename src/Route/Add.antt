-- ===== src/Route/Add.antt =====
-- What `route_add` makes of a routing table.
use foren6_analyzer.Prelude.{
  Bool, true, false, ◌&&◌, Bool-cases, inl, inr, List, [], ◌∷◌, Option, none, some, ◌==◌, ◌≡◌, refl,
  ◌∙◌, ap, arith,
}
use foren6_analyzer.Address.{AddrWpan, addr_compare_ip_len}
use foren6_analyzer.Utlist.{Utlist}
use foren6_analyzer.Route.{
  DiRoute, DiRouteEl, same_target, is_route, route_get, route_found, route_add_loop,
  route_add_result, route_add,
}
use foren6_analyzer.Route.Target.{
  IsDiRoute, SameTarget, SameTarget-sym, same_target_iff, Fresh, IsTable, same_target-fresh,
  is_route-apart, other_target, not_same,
}

-- The table, the route and the flag that `route_add` leaves behind.
abbrev pub Added : Type 0
Added = List DiRouteEl × DiRouteEl × Option Bool

-- What the loop returns has the target asked for, and leads to the node asked for.
route_found-via :
    (r : DiRouteEl) (via : AddrWpan) (was : Option Bool)
    → ((route_found r via was).0.via_node ≡ via) × ((route_found r via was).0.target ≡ r.target)
unfolding route_found
route_found-via r via none = (refl, refl)
route_found-via r via (some flag) = ground arith

-- A route with the target of another passes the same tests on targets.
same_target-retarget :
    (t : DiRoute) (r s : DiRouteEl) → r.target ≡ s.target → same_target t r ≡ same_target t s
unfolding same_target
same_target-retarget t r s e =
    ap
      (λ (x : DiRoute).
        (t.length == x.length) && (addr_compare_ip_len x.prefix t.prefix t.length == 0))
      e

module _ (t : DiRoute) (via : AddrWpan) (was : Option Bool) (vt : IsDiRoute t) where
  -- What the loop leaves of a table in which it finds the target.
  record Good (list l : List DiRouteEl) (r : DiRouteEl) : Type 0 where
    got : (summary : Bool) → route_get l t via summary ≡ some r
    table : IsTable l
    kept : (x : DiRoute) → (SameTarget x t → ⊥) → Fresh x list → Fresh x l
    others :
        (u : DiRoute) (w : AddrWpan) (summary : Bool)
        → IsDiRoute u
        → (SameTarget u t → ⊥)
        → route_get l u w summary ≡ route_get list u w summary

  abbrev Outcome : List DiRouteEl → Option Added → Type 0
  Outcome list none = Fresh t list
  Outcome list (some (l, r, f)) = Good list l r

  found-is_route :
      (r : DiRouteEl) → same_target t r ≡ true → is_route t via (route_found r via was).0 ≡ true
  unfolding is_route
  found-is_route r e =
      let (v, w) = route_found-via r via was in
      let same = same_target-retarget t (route_found r via was).0 r w in ground arith

  found-Good :
      (r : DiRouteEl) (list : List DiRouteEl)
      → IsTable (r ∷ list)
      → same_target t r ≡ true
      → Good (r ∷ list) ((route_found r via was).0 ∷ list) (route_found r via was).0
  unfolding IsTable route_get
  found-Good r list (vr, fresh, table) e =
      let r' = (route_found r via was).0 in
      let retarget = (route_found-via r via was).1 in
      record {
        got = λ summary. rw (found-is_route r e) refl;
        table = (rw retarget vr, rw retarget fresh, table);
        kept = λ x _ h. (rw retarget h.0, h.1);
        others = λ u w summary vu apart.
            let no = other_target t vt r u vr e vu apart in
            let no' = same_target-retarget u r' r retarget ∙ no in
            rw (is_route-apart u w r no, is_route-apart u w r' no') refl;
      }

  extend-Outcome :
      (r : DiRouteEl) (list : List DiRouteEl) (o : Option Added)
      → IsTable (r ∷ list)
      → same_target t r ≡ false
      → Outcome list o
      → Outcome (r ∷ list) (elim o [ none ↦ none | some (l, q, f) ↦ some (r ∷ l, q, f) ])
  unfolding IsTable route_get
  extend-Outcome r list none (vr, fresh, table) e out = (not_same t vt r vr e, out)
  extend-Outcome r list (some (l, q, f)) (vr, fresh, table) e out = record {
    got = λ summary. rw (is_route-apart t via r e) (out.got summary);
    table = (vr, out.kept r.target (λ s. not_same t vt r vr e (SameTarget-sym s)) fresh, out.table);
    kept = λ x apart h. (h.0, out.kept x apart h.1);
    others = λ u w summary vu apart. rw (out.others u w summary vu apart) refl;
  }

  loop-Outcome :
      (list : List DiRouteEl) → IsTable list → Outcome list (route_add_loop list t via was)
  unfolding route_add_loop IsTable
  loop-Outcome [] table = _
  loop-Outcome (r ∷ list) table = elim (Bool-cases (same_target t r)) [
    | inl same ↦ rw same (found-Good r list table same)
    | inr other ↦ rw other (
        extend-Outcome r list (route_add_loop list t via was) table other
          (loop-Outcome list table.2))
  ]

  -- The route that is put in front where the loop finds none.
  new-Good :
      (list : List DiRouteEl)
      → IsTable list
      → Fresh t list
      → Good list
          (record { target = t; via_node = via } ∷ list)
          (record { target = t; via_node = via })
  unfolding IsTable route_get is_route
  new-Good list table fresh =
      let r : DiRouteEl = record { target = t; via_node = via } in
      let own : same_target t r ≡ true =
        (same_target_iff t r vt vt).1 (record { same_length = refl; same_bits = refl }) in
      let hit : is_route t via r ≡ true = ground arith in
      record {
        got = λ summary. rw hit refl;
        table = (vt, fresh, table);
        kept = λ x apart h. (apart, h);
        others = λ u w summary vu apart.
            rw (is_route-apart u w r (same_target-fresh u r vu vt apart)) refl;
      }

finish-Good :
    ⦃ll : Utlist DiRouteEl⦄ (t : DiRoute) (via : AddrWpan) (was : Option Bool) (vt : IsDiRoute t)
    (list : List DiRouteEl) (o : Option Added)
    → IsTable list
    → Outcome t via was vt list o
    → Good t via was vt list
        (route_add_result list t via was o).0
        (route_add_result list t via was o).1
unfolding route_add_result
finish-Good ⦃ll = ll⦄ t via was vt list none table fresh =
    rw ll.ll_prepend_law (new-Good t via was vt list table fresh)
finish-Good t via was vt list (some (l, r, f)) table good = good

add-Good :
    ⦃ll : Utlist DiRouteEl⦄ (t : DiRoute) (via : AddrWpan) (auto_summary : Bool) (was : Option Bool)
    (vt : IsDiRoute t) (list : List DiRouteEl)
    → IsTable list
    → Good t via was vt list
        (route_add list t via auto_summary was).0
        (route_add list t via auto_summary was).1
unfolding route_add
add-Good t via auto_summary was vt list table =
    finish-Good t via was vt list (route_add_loop list t via was) table
      (loop-Outcome t via was vt list table)

-- On a table of valid addresses in which no two routes have one target, `route_add` of a valid
-- target leaves such a table, and a lookup of that target with that next hop then gives the route
-- that was returned.
pub route_add-route_get :
    ⦃ll : Utlist DiRouteEl⦄ (list : List DiRouteEl) (t : DiRoute) (via : AddrWpan)
    (auto_summary : Bool) (was : Option Bool) (summary : Bool)
    → IsTable list
    → IsDiRoute t
    → (IsTable (route_add list t via auto_summary was).0
        × (route_get (route_add list t via auto_summary was).0 t via summary
            ≡ some (route_add list t via auto_summary was).1))
route_add-route_get list t via auto_summary was summary table vt =
    let good = add-Good t via auto_summary was vt list table in (good.table, good.got summary)

-- On a table of valid addresses in which no two routes have one target, `route_add` of a valid
-- target does not change the lookup of any other target, with whatever next hop.
pub route_add-route_get_other :
    ⦃ll : Utlist DiRouteEl⦄ (list : List DiRouteEl) (t u : DiRoute) (via w : AddrWpan)
    (auto_summary : Bool) (was : Option Bool) (summary : Bool)
    → IsTable list
    → IsDiRoute t
    → IsDiRoute u
    → (SameTarget u t → ⊥)
    → route_get (route_add list t via auto_summary was).0 u w summary ≡ route_get list u w summary
route_add-route_get_other list t u via w auto_summary was summary table vt vu apart =
    let good = add-Good t via auto_summary was vt list table in good.others u w summary vu apart
