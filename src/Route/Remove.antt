-- ===== src/Route/Remove.antt =====
-- What `route_remove` makes of a routing table.
use foren6_analyzer.Prelude.{
  ℕ, suc, ◌<◌, Bool, true, false, true_ne_false, is_some, length, Bool-cases, inl, inr, List, [],
  ◌∷◌, Option, none, some, ◌≡◌, refl, sym, ◌∙◌, arith,
}
use foren6_analyzer.Address.{AddrWpan}
use foren6_analyzer.Utlist.{Utlist}
use foren6_analyzer.Route.{
  DiRoute, DiRouteEl, same_target, is_route, route_get, route_position, route_remove_result,
  route_remove,
}
use foren6_analyzer.Route.Target.{
  IsDiRoute, SameTarget, SameTarget-sym, same_target_iff, Fresh, IsTable, route_get-Fresh,
  is_route-apart, other_target, Fresh-transport,
}

is_route-same_target :
    (t : DiRoute) (via : AddrWpan) (r : DiRouteEl)
    → is_route t via r ≡ true
    → same_target t r ≡ true
unfolding is_route
is_route-same_target t via r e = ground arith

not_some : {A : Type 0} {o : Option A} → is_some o ≡ false → o ≡ none
not_some {o = none} e = refl
not_some {o = some a} e = absurd (true_ne_false e)

module _ ⦃ll : Utlist DiRouteEl⦄ (t : DiRoute) (via : AddrWpan) (vt : IsDiRoute t) where
  -- The list without the one route of the target.
  record Dropped (list l : List DiRouteEl) : Type 0 where
    table : IsTable l
    kept : (x : DiRoute) → Fresh x list → Fresh x l
    gone : (w : AddrWpan) (summary : Bool) → route_get l t w summary ≡ none
    others :
        (u : DiRoute) (w : AddrWpan) (summary : Bool)
        → IsDiRoute u
        → (SameTarget u t → ⊥)
        → route_get l u w summary ≡ route_get list u w summary

  record Found (list : List DiRouteEl) (i : ℕ) : Type 0 where
    inside : i < length list
    before : (summary : Bool) → is_some (route_get list t via summary) ≡ true
    dropped : Dropped list (ll.ll_delete list i)

  abbrev Outcome : List DiRouteEl → Option ℕ → Type 0
  Outcome list none = (summary : Bool) → is_some (route_get list t via summary) ≡ false
  Outcome list (some i) = Found list i

  head-Found :
      (r : DiRouteEl) (list : List DiRouteEl)
      → IsTable (r ∷ list)
      → is_route t via r ≡ true
      → Found (r ∷ list) 0
  unfolding IsTable route_get
  head-Found r list (vr, fresh, table) e =
      let same = is_route-same_target t via r e in
      let none_left =
        Fresh-transport list (SameTarget-sym ((same_target_iff t r vt vr).0 same)) fresh in
      record {
        inside = omega arith;
        before = λ summary. rw e refl;
        dropped = rw (ll.ll_delete_head r list) (record {
          table = table;
          kept = λ x h. h.1;
          gone = λ w summary. route_get-Fresh t list w summary vt table none_left;
          others = λ u w summary vu apart.
              rw (is_route-apart u w r (other_target t vt r u vr same vu apart)) refl;
        });
      }

  -- A route before the one that is found has another target.
  apart_before :
      (r : DiRouteEl) (list : List DiRouteEl) (i : ℕ)
      → IsDiRoute r.target
      → Fresh r.target list
      → IsTable list
      → Found list i
      → same_target t r ≡ false
  apart_before r list i vr fresh table out = elim (Bool-cases (same_target t r)) [
    | inr other ↦ other
    | inl same ↦
        let clear =
          Fresh-transport list (SameTarget-sym ((same_target_iff t r vt vr).0 same)) fresh in
        let nothing : is_some (route_get list t via true) ≡ false =
          rw (route_get-Fresh t list via true vt table clear) refl in
        absurd (true_ne_false (sym (out.before true) ∙ nothing))
  ]

  extend-Outcome :
      (r : DiRouteEl) (list : List DiRouteEl) (o : Option ℕ)
      → IsTable (r ∷ list)
      → is_route t via r ≡ false
      → Outcome list o
      → Outcome (r ∷ list) (elim o [ none ↦ none | some i ↦ some (suc i) ])
  unfolding IsTable route_get
  extend-Outcome r list none (vr, fresh, table) e out = λ summary. rw e (out summary)
  extend-Outcome r list (some i) (vr, fresh, table) e out =
      let d = out.dropped in
      record {
        inside = let h = out.inside in omega arith;
        before = λ summary. rw e (out.before summary);
        dropped = rw (ll.ll_delete_tail r list i out.inside) (record {
          table = (vr, d.kept r.target fresh, d.table);
          kept = λ x h. (h.0, d.kept x h.1);
          gone = λ w summary.
              rw (is_route-apart t w r (apart_before r list i vr fresh table out))
                (d.gone w summary);
          others = λ u w summary vu apart. rw (d.others u w summary vu apart) refl;
        });
      }

  loop-Outcome : (list : List DiRouteEl) → IsTable list → Outcome list (route_position list t via)
  unfolding route_position IsTable route_get
  loop-Outcome [] table = λ summary. refl
  loop-Outcome (r ∷ list) table = elim (Bool-cases (is_route t via r)) [
    | inl hit ↦ rw hit (head-Found r list table hit)
    | inr miss ↦
        rw miss
          (extend-Outcome r list (route_position list t via) table miss (loop-Outcome list table.2))
  ]

  record Removed (list : List DiRouteEl) (result : Bool × List DiRouteEl) : Type 0 where
    answer : (summary : Bool) → result.0 ≡ is_some (route_get list t via summary)
    table : IsTable result.1
    gone : (summary : Bool) → route_get result.1 t via summary ≡ none
    others :
        (u : DiRoute) (w : AddrWpan) (summary : Bool)
        → IsDiRoute u
        → (SameTarget u t → ⊥)
        → route_get result.1 u w summary ≡ route_get list u w summary

  finish-Removed :
      (list : List DiRouteEl) (o : Option ℕ)
      → IsTable list
      → Outcome list o
      → Removed list (route_remove_result list o)
  unfolding route_remove_result
  finish-Removed list none table out = record {
    answer = λ summary. sym (out summary);
    table = table;
    gone = λ summary. not_some (out summary);
    others = λ u w summary vu apart. refl;
  }
  finish-Removed list (some i) table out = record {
    answer = λ summary. sym (out.before summary);
    table = out.dropped.table;
    gone = out.dropped.gone via;
    others = out.dropped.others;
  }

remove-Removed :
    ⦃ll : Utlist DiRouteEl⦄ (list : List DiRouteEl) (t : DiRoute) (via : AddrWpan)
    → IsTable list
    → (vt : IsDiRoute t) → Removed t via vt list (route_remove list t via)
unfolding route_remove
remove-Removed list t via table vt =
    finish-Removed t via vt list (route_position list t via) table
      (loop-Outcome t via vt list table)

-- On a table of valid addresses in which no two routes have one target, `route_remove` of a valid
-- target answers whether a lookup of that target with that next hop finds a route; it leaves such
-- a table, in which the lookup finds none.
pub route_remove-route_get :
    ⦃ll : Utlist DiRouteEl⦄ (list : List DiRouteEl) (t : DiRoute) (via : AddrWpan) (summary : Bool)
    → IsTable list
    → IsDiRoute t
    → (((route_remove list t via).0 ≡ is_some (route_get list t via summary))
        × IsTable (route_remove list t via).1
        × (route_get (route_remove list t via).1 t via summary ≡ none))
route_remove-route_get list t via summary table vt =
    let r = remove-Removed list t via table vt in (r.answer summary, r.table, r.gone summary)

-- On a table of valid addresses in which no two routes have one target, `route_remove` of a valid
-- target does not change the lookup of any other target, with whatever next hop.
pub route_remove-route_get_other :
    ⦃ll : Utlist DiRouteEl⦄ (list : List DiRouteEl) (t u : DiRoute) (via w : AddrWpan)
    (summary : Bool)
    → IsTable list
    → IsDiRoute t
    → IsDiRoute u
    → (SameTarget u t → ⊥)
    → route_get (route_remove list t via).1 u w summary ≡ route_get list u w summary
route_remove-route_get_other list t u via w summary table vt vu apart =
    let r = remove-Removed list t via table vt in r.others u w summary vu apart
