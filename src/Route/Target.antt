-- ===== src/Route/Target.antt =====
-- When two routes have one target, and the tables in which no two routes do.
use foren6_analyzer.Prelude.{
  ℕ, ◌<◌, Bool, true, false, true_ne_false, Bool-cases, inl, inr, none, List, [], ◌∷◌, All, ◌≡◌,
  ◌↔◌, refl, sym, ◌∙◌, ap, arith,
}
use foren6_analyzer.Address.{AddrWpan, addr_compare_ip_len}
use foren6_analyzer.Address.Compare.{IsAddrIpv6, leading_bits, addr_compare_ip_len-eq-zero_iff}
use foren6_analyzer.Route.{DiRoute, DiRouteEl, same_target, is_route, route_get}

pub record IsDiRoute (r : DiRoute) : Type 0 where
  pub length_in : r.length < 256
  pub prefix_in : IsAddrIpv6 r.prefix

-- The networks of the two targets are one.
pub record SameTarget (a b : DiRoute) : Type 0 where
  pub same_length : a.length ≡ b.length
  pub same_bits : leading_bits a.length a.prefix ≡ leading_bits b.length b.prefix

pub same_target_iff :
    (a : DiRoute) (r : DiRouteEl)
    → IsDiRoute a
    → IsDiRoute r.target
    → (same_target a r ≡ true) ↔ SameTarget a r.target
unfolding same_target
same_target_iff a r va vr =
    let bits =
      addr_compare_ip_len-eq-zero_iff r.target.prefix a.prefix a.length vr.prefix_in va.prefix_in
        va.length_in in
    (
      (λ h.
          let lengths : a.length ≡ r.target.length = ground arith in
          let equal : addr_compare_ip_len r.target.prefix a.prefix a.length ≡ 0 = ground arith in
          record {
            same_length = lengths;
            same_bits = sym (bits.0 equal) ∙ ap (λ (n : ℕ). leading_bits n r.target.prefix) lengths;
          }),
      (λ s.
          let back : leading_bits a.length r.target.prefix ≡ leading_bits a.length a.prefix =
            ap (λ (n : ℕ). leading_bits n r.target.prefix) s.same_length ∙ sym s.same_bits in
          let equal = bits.1 back in let lengths = s.same_length in ground arith),
    )

pub SameTarget-sym : {a b : DiRoute} → SameTarget a b → SameTarget b a
SameTarget-sym s = record { same_length = sym s.same_length; same_bits = sym s.same_bits }

pub SameTarget-trans : {a b c : DiRoute} → SameTarget a b → SameTarget b c → SameTarget a c
SameTarget-trans s t = record {
  same_length = s.same_length ∙ t.same_length;
  same_bits = s.same_bits ∙ t.same_bits;
}

-- No route of the list has the target.
abbrev pub Fresh : DiRoute → List DiRouteEl → Type 0
Fresh t = All (λ (r : DiRouteEl). SameTarget t r.target → ⊥)

-- The targets are addresses, and no two routes have one target.
unfoldable pub IsTable : List DiRouteEl → Type 0
IsTable [] = Unit
IsTable (r ∷ rs) = IsDiRoute r.target × Fresh r.target rs × IsTable rs

-- In such a table a target that is new is not found.
pub same_target-fresh :
    (t : DiRoute) (r : DiRouteEl)
    → IsDiRoute t
    → IsDiRoute r.target
    → (SameTarget t r.target → ⊥)
    → same_target t r ≡ false
same_target-fresh t r vt vr apart = elim (Bool-cases (same_target t r)) [
  | inl e ↦ absurd (apart ((same_target_iff t r vt vr).0 e))
  | inr e ↦ e
]

-- A test on a route whose target is another one.
pub is_route-apart :
    (t : DiRoute) (via : AddrWpan) (r : DiRouteEl)
    → same_target t r ≡ false
    → is_route t via r ≡ false
unfolding is_route
is_route-apart t via r e = ground arith

pub route_get-Fresh :
    (t : DiRoute) (list : List DiRouteEl) (via : AddrWpan) (summary : Bool)
    → IsDiRoute t
    → IsTable list
    → Fresh t list
    → route_get list t via summary ≡ none
unfolding route_get IsTable
route_get-Fresh t [] via summary vt table fresh = refl
route_get-Fresh t (r ∷ list) via summary vt (vr, _, table) (apart, fresh) =
    let no = is_route-apart t via r (same_target-fresh t r vt vr apart) in
    rw no (route_get-Fresh t list via summary vt table fresh)

module _ (t : DiRoute) (vt : IsDiRoute t) where
  pub other_target :
      (r : DiRouteEl) (u : DiRoute)
      → IsDiRoute r.target
      → same_target t r ≡ true
      → IsDiRoute u
      → (SameTarget u t → ⊥)
      → same_target u r ≡ false
  other_target r u vr e vu apart = same_target-fresh u r vu vr (λ (s : SameTarget u r.target).
      apart (SameTarget-trans s (SameTarget-sym ((same_target_iff t r vt vr).0 e))))

  pub not_same :
      (r : DiRouteEl) → IsDiRoute r.target → same_target t r ≡ false → SameTarget t r.target → ⊥
  not_same r vr e s = true_ne_false (sym ((same_target_iff t r vt vr).1 s) ∙ e)

pub Fresh-transport :
    {a b : DiRoute} (list : List DiRouteEl) → SameTarget a b → Fresh a list → Fresh b list
Fresh-transport [] s fresh = _
Fresh-transport (r ∷ list) s (apart, fresh) =
    ((λ u. apart (SameTarget-trans s u)), Fresh-transport list s fresh)
