-- ===== src/Node/Once/Rpl.antt =====
-- The operations on what RPL says of a node report it when they mark it.
use foren6_analyzer.Prelude.{
  Bool, true, false, if◌then◌else◌, ◌∙◌, ◌||◌, false, Option, none, some, ◌≡◌, refl, arith,
}
use foren6_analyzer.Prelude.Double.{Double}
use foren6_analyzer.Address.{AddrWpan}
use foren6_analyzer.Utlist.{Utlist}
use foren6_analyzer.RplDef.Types.{
  RplInstanceConfig, RplInstanceData, RplDodagConfig, RplPrefix, RplDio, RplDao, RplMetric,
  RplHopByHopOpt,
}
use foren6_analyzer.RplDef.Delta.{
  rpl_instance_config_compare, rpl_instance_data_compare, rpl_dodag_config_compare,
  rpl_prefix_compare, rpl_dodag_config_delta, rpl_prefix_delta,
}
use foren6_analyzer.Dodag.{DiDodag, dodag_get_prefix}
use foren6_analyzer.Route.{DiRoute, DiRouteEl, route_add, route_remove}
use foren6_analyzer.RplEvent.{RplEventEl}
use foren6_analyzer.Node.{DiNode, NodeState, modify}
use foren6_analyzer.Node.Rpl.{
  take_instance_config, take_instance_data, node_update_from_dio, node_update_from_metric,
  node_update_from_hop_by_hop, node_update_from_dao, take_dodag_config, check_dodag_config,
  node_update_from_dodag_config, derive_global_address, take_prefix_info, check_prefix_info,
  node_update_from_dodag_prefix_info, node_update_from_dodag, compare_dodag_config,
  compare_dodag_prefix, derive_from_dodag, node_update_from_dis, flag_value, node_add_route,
  node_del_route, node_update_dao_interval, node_update_dio_interval, unchanged, see_config,
  see_data,
}
use foren6_analyzer.Node.Events.{
  Signals, Signals-silent, Signals-trans, Signals-if, node_set_changed-Signals,
}
use foren6_analyzer.Node.Once.{same, then_marked, add_dodag_config_mismatch_error-Signals}

module _ {D : Type 0} ⦃dl : Utlist (RplEventEl D)⦄ where
  take_config-Signals :
      (seen : DiNode D → DiNode D) (c : RplInstanceConfig) (s : NodeState D)
      → ((n : DiNode D) → (seen n).has_changed ≡ n.has_changed)
      → Signals s (take_instance_config seen c s)
  unfolding take_instance_config
  take_config-Signals seen c s keeps =
      Signals-if (rpl_instance_config_compare (some c) (some s.node.rpl_instance_config))
        (then_marked (Signals-silent (keeps (record (s.node) { rpl_instance_config = c })) refl))
        (same s)

  take_data-Signals :
      (seen : DiNode D → DiNode D) (d : RplInstanceData) (s : NodeState D)
      → ((n : DiNode D) → (seen n).has_changed ≡ n.has_changed)
      → Signals s (take_instance_data seen d s)
  unfolding take_instance_data
  take_data-Signals seen d s keeps =
      Signals-if (rpl_instance_data_compare (some d) (some s.node.rpl_instance_data))
        (then_marked (Signals-silent (keeps (record (s.node) { rpl_instance_data = d })) refl))
        (same s)

  pub update_from_dio-Signals :
      (dio : Option RplDio) (s : NodeState D) → Signals s (node_update_from_dio dio s)
  unfolding node_update_from_dio
  update_from_dio-Signals none s = same s
  update_from_dio-Signals (some dio) s =
      Signals-trans
        (Signals-trans (take_config-Signals unchanged _ s (λ n. refl))
          (take_data-Signals unchanged _ _ (λ n. refl)))
        (Signals-silent refl refl)

  pub update_from_metric-Signals :
      (m : Option RplMetric) (s : NodeState D) → Signals s (node_update_from_metric m s)
  unfolding node_update_from_metric
  update_from_metric-Signals m s = take_data-Signals see_data _ s (λ n. refl)

  pub update_from_hop_by_hop-Signals :
      (h : Option RplHopByHopOpt) (s : NodeState D) → Signals s (node_update_from_hop_by_hop h s)
  unfolding node_update_from_hop_by_hop
  update_from_hop_by_hop-Signals none s = same s
  update_from_hop_by_hop-Signals (some h) s = take_data-Signals see_data _ s (λ n. refl)

  pub update_from_dao-Signals :
      (dao : Option RplDao) (s : NodeState D) → Signals s (node_update_from_dao dao s)
  unfolding node_update_from_dao
  update_from_dao-Signals none s = same s
  update_from_dao-Signals (some dao) s = then_marked (
      Signals-trans
        (Signals-trans (take_config-Signals see_config _ s (λ n. refl))
          (take_data-Signals see_data _ _ (λ n. refl)))
        (Signals-silent refl refl))

  take_dodag_config-Signals :
      (c : Option RplDodagConfig) (s : NodeState D) → Signals s (take_dodag_config c s)
  unfolding take_dodag_config
  take_dodag_config-Signals (some c) s =
      Signals-trans
        (Signals-if (rpl_dodag_config_compare (some c) (some s.node.rpl_dodag_config))
          (then_marked (Signals-silent refl refl)) (same s))
        (Signals-silent refl refl)
  take_dodag_config-Signals none s =
      Signals-trans (Signals-if s.node.has_rpl_dodag_config (node_set_changed-Signals s) (same s))
        (Signals-silent refl refl)

  check_dodag_config-Signals :
      (c : Option RplDodagConfig) (s : NodeState D) → Signals s (check_dodag_config c s)
  unfolding check_dodag_config
  check_dodag_config-Signals none s = same s
  check_dodag_config-Signals (some c) s =
      let delta = rpl_dodag_config_delta (some c) (some s.node.rpl_dodag_config) in
      let s' = modify (λ n. record n { actual_rpl_dodag_config_delta = delta }) s in
      let step : Signals s s' = Signals-silent refl refl in
      Signals-if delta.has_changed (Signals-trans step (add_dodag_config_mismatch_error-Signals s'))
        step

  pub update_from_dodag_config-Signals :
      (c : Option RplDodagConfig) (dodag : Option DiDodag) (s : NodeState D)
      → Signals s (node_update_from_dodag_config c dodag s)
  unfolding node_update_from_dodag_config
  update_from_dodag_config-Signals c none s = take_dodag_config-Signals c s
  update_from_dodag_config-Signals c (some dodag) s =
      Signals-trans (take_dodag_config-Signals c s) (check_dodag_config-Signals _ _)

  derive_global_address-flag :
      (p : RplPrefix) (n : DiNode D) → (derive_global_address p n).has_changed ≡ n.has_changed
  unfolding derive_global_address
  derive_global_address-flag p n = ground arith

  take_prefix_info-Signals :
      (p : Option RplPrefix) (s : NodeState D) → Signals s (take_prefix_info p s)
  unfolding take_prefix_info
  take_prefix_info-Signals (some p) s =
      Signals-trans
        (Signals-if (rpl_prefix_compare (some p) (some s.node.rpl_dodag_prefix_info))
          (then_marked (Signals-silent refl refl)) (same s))
        (Signals-silent (derive_global_address-flag p _) refl)
  take_prefix_info-Signals none s =
      Signals-trans
        (Signals-if s.node.has_rpl_dodag_prefix_info (node_set_changed-Signals s) (same s))
        (Signals-silent refl refl)

  check_prefix_info-Signals :
      (p : Option RplPrefix) (s : NodeState D) → Signals s (check_prefix_info p s)
  unfolding check_prefix_info
  check_prefix_info-Signals none s = same s
  check_prefix_info-Signals (some p) s =
      let delta = rpl_prefix_delta (some p) (some s.node.rpl_dodag_prefix_info) in
      let s' = modify (λ n. record n { actual_rpl_dodag_prefix_info_delta = delta }) s in
      let step : Signals s s' = Signals-silent refl refl in
      Signals-if delta.has_changed (Signals-trans step (add_dodag_config_mismatch_error-Signals s'))
        step

  pub update_from_prefix_info-Signals :
      (p : Option RplPrefix) (dodag : Option DiDodag) (s : NodeState D)
      → Signals s (node_update_from_dodag_prefix_info p dodag s)
  unfolding node_update_from_dodag_prefix_info
  update_from_prefix_info-Signals p none s = take_prefix_info-Signals p s
  update_from_prefix_info-Signals p (some dodag) s =
      Signals-trans (take_prefix_info-Signals p s) (check_prefix_info-Signals _ _)

  compare_dodag-flag :
      (dodag : DiDodag) (n : DiNode D)
      → (compare_dodag_prefix dodag (compare_dodag_config dodag n)).has_changed ≡ n.has_changed
  unfolding compare_dodag_prefix compare_dodag_config
  compare_dodag-flag dodag n = ground arith

  if-flag :
      (b : Bool) (n m : DiNode D)
      → m.has_changed ≡ n.has_changed
      → (if b then n else m).has_changed ≡ n.has_changed
  if-flag true n m e = refl
  if-flag false n m e = e

  derive_from_dodag-flag :
      (p : Option RplPrefix) (n : DiNode D) → (derive_from_dodag p n).has_changed ≡ n.has_changed
  unfolding derive_from_dodag
  derive_from_dodag-flag none n = refl
  derive_from_dodag-flag (some p) n =
      if-flag n.has_rpl_dodag_prefix_info n (derive_global_address p n)
        (derive_global_address-flag p n)

  pub update_from_dodag-Signals :
      (dodag : Option DiDodag) (s : NodeState D) → Signals s (node_update_from_dodag dodag s)
  unfolding node_update_from_dodag
  update_from_dodag-Signals none s = same s
  update_from_dodag-Signals (some dodag) s =
      let heard = compare_dodag_prefix dodag (compare_dodag_config dodag s.node) in
      let s' =
        modify
          (λ n.
            derive_from_dodag (dodag_get_prefix dodag)
              (compare_dodag_prefix dodag (compare_dodag_config dodag n)))
          s in
      let flag = derive_from_dodag-flag (dodag_get_prefix dodag) heard in
      let step : Signals s s' = Signals-silent (flag ∙ compare_dodag-flag dodag s.node) refl in
      Signals-if
        (s'.node.actual_rpl_dodag_config_delta.has_changed
          || s'.node.actual_rpl_dodag_prefix_info_delta.has_changed)
        (Signals-trans step (add_dodag_config_mismatch_error-Signals s')) step

  pub update_from_dis-Signals : (s : NodeState D) → Signals s (node_update_from_dis s)
  unfolding node_update_from_dis
  update_from_dis-Signals s = then_marked (Signals-silent refl refl)

  pub add_route-Signals :
      ⦃ll : Utlist DiRouteEl⦄ (t : DiRoute) (via : AddrWpan) (s : NodeState D)
      → Signals s (node_add_route t via s)
  unfolding node_add_route
  add_route-Signals t via s =
      let (routes, route, was) = route_add s.node.routes t via false (some false) in
      let s' = modify (λ n. record n { routes = routes }) s in
      let step : Signals s s' = Signals-silent refl refl in
      Signals-if (flag_value was) step (then_marked (Signals-silent refl refl))

  pub del_route-Signals :
      ⦃ll : Utlist DiRouteEl⦄ (t : DiRoute) (via : AddrWpan) (s : NodeState D)
      → Signals s (node_del_route t via s)
  unfolding node_del_route
  del_route-Signals t via s =
      let (removed, routes) = route_remove s.node.routes t via in
      let s' = modify (λ n. record n { routes = routes }) s in
      let step : Signals s s' = Signals-silent refl refl in
      Signals-if removed (then_marked (Signals-silent refl refl)) step

  pub dao_interval-Signals :
      ⦃f : Double D⦄ (t : D) (s : NodeState D) → Signals s (node_update_dao_interval t s)
  unfolding node_update_dao_interval
  dao_interval-Signals t s = then_marked (Signals-silent refl refl)

  pub dio_interval-Signals :
      ⦃f : Double D⦄ (t : D) (s : NodeState D) → Signals s (node_update_dio_interval t s)
  unfolding node_update_dio_interval
  dio_interval-Signals t s = then_marked (Signals-silent refl refl)
