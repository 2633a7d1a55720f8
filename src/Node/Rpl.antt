-- ===== src/Node/Rpl.antt =====
-- What a node learns from the messages of RPL. A pointer that may be `NULL` is an option.
use foren6_analyzer.Prelude.{Bool, true, false, ◌||◌, Option, none, some, if◌then◌else◌}
use foren6_analyzer.Prelude.Words.{add32}
use foren6_analyzer.Prelude.Double.{Double}
use foren6_analyzer.Address.{AddrWpan, addr_get_global_ip_from_mac64}
use foren6_analyzer.Utlist.{Utlist}
use foren6_analyzer.RplDef.Types.{
  RplDio, RplDao, RplMetric, RplHopByHopOpt, RplInstanceConfig, RplInstanceData, RplDodagConfig,
  RplPrefix,
}
use foren6_analyzer.RplDef.Update.{
  update_rpl_instance_config_from_dio, update_rpl_instance_data_from_dio,
  update_rpl_instance_data_from_metric, update_rpl_instance_data_from_hop_by_hop,
  update_rpl_instance_config_from_dao, update_rpl_instance_data_from_dao,
}
use foren6_analyzer.RplDef.Delta.{
  rpl_instance_config_compare, rpl_instance_data_compare, rpl_dodag_config_compare,
  rpl_prefix_compare, rpl_dodag_config_delta, rpl_prefix_delta,
}
use foren6_analyzer.Dodag.{DiDodag, dodag_get_dodag_config, dodag_get_prefix}
use foren6_analyzer.Route.{DiRoute, DiRouteEl, route_add, route_remove}
use foren6_analyzer.RplEvent.{RplEventEl}
use foren6_analyzer.Node.{DiNode, NodeState, modify}
use foren6_analyzer.Node.Base.{node_set_changed}
use foren6_analyzer.Node.Errors.{node_add_dodag_config_mismatch_error}

-- The local variable `route_already_existing` of `node_add_route` after the call of `route_add`.
unfoldable pub flag_value : Option Bool → Bool
flag_value (some true) = true
flag_value _ = false

module _ {D : Type 0} ⦃dl : Utlist (RplEventEl D)⦄ where
  -- The two tests that a DIO and a DAO share: what is new is stored and marks the node; `seen` is
  -- what is assigned with it.
  unfoldable pub take_instance_config :
      (DiNode D → DiNode D) → RplInstanceConfig → NodeState D → NodeState D
  take_instance_config seen new_config s =
      if rpl_instance_config_compare (some new_config) (some s.node.rpl_instance_config)
      then node_set_changed (modify (λ n. seen (record n { rpl_instance_config = new_config })) s)
      else s

  unfoldable pub take_instance_data :
      (DiNode D → DiNode D) → RplInstanceData → NodeState D → NodeState D
  take_instance_data seen new_data s =
      if rpl_instance_data_compare (some new_data) (some s.node.rpl_instance_data)
      then node_set_changed (modify (λ n. seen (record n { rpl_instance_data = new_data })) s)
      else s

  abbrev pub unchanged : DiNode D → DiNode D
  unchanged n = n

  abbrev pub see_config : DiNode D → DiNode D
  see_config n = record n { has_rpl_instance_config = true }

  abbrev pub see_data : DiNode D → DiNode D
  see_data n = record n { has_rpl_instance_data = true }

  unfoldable pub node_update_from_dio : Option RplDio → NodeState D → NodeState D
  node_update_from_dio none s = s
  node_update_from_dio (some dio) s =
      let new_config = update_rpl_instance_config_from_dio s.node.rpl_instance_config (some dio) in
      let new_data = update_rpl_instance_data_from_dio s.node.rpl_instance_data (some dio) in
      modify
        (λ n. record n {
          rpl_statistics = record (n.rpl_statistics) { dio = add32 n.rpl_statistics.dio 1 };
          has_rpl_instance_config = true;
          has_rpl_instance_data = true;
        })
        (take_instance_data unchanged new_data (take_instance_config unchanged new_config s))

  unfoldable pub node_update_from_metric : Option RplMetric → NodeState D → NodeState D
  node_update_from_metric metric s =
      take_instance_data see_data
        (update_rpl_instance_data_from_metric s.node.rpl_instance_data metric) s

  unfoldable pub node_update_from_hop_by_hop : Option RplHopByHopOpt → NodeState D → NodeState D
  node_update_from_hop_by_hop none s = s
  node_update_from_hop_by_hop (some h) s =
      take_instance_data see_data
        (update_rpl_instance_data_from_hop_by_hop s.node.rpl_instance_data (some h)) s

  unfoldable pub node_update_from_dao : Option RplDao → NodeState D → NodeState D
  node_update_from_dao none s = s
  node_update_from_dao (some dao) s =
      let new_config = update_rpl_instance_config_from_dao s.node.rpl_instance_config (some dao) in
      let new_data = update_rpl_instance_data_from_dao s.node.rpl_instance_data (some dao) in
      node_set_changed (
        modify
          (λ n. record n {
            rpl_statistics = record (n.rpl_statistics) { dao = add32 n.rpl_statistics.dao 1 };
          })
          (take_instance_data see_data new_data (take_instance_config see_config new_config s)))

  unfoldable pub take_dodag_config : Option RplDodagConfig → NodeState D → NodeState D
  take_dodag_config (some config) s =
      let s' =
        if rpl_dodag_config_compare (some config) (some s.node.rpl_dodag_config)
        then node_set_changed (modify (λ n. record n { rpl_dodag_config = config }) s)
        else s in
      modify (λ n. record n { has_rpl_dodag_config = true }) s'
  take_dodag_config none s =
      modify (λ n. record n { has_rpl_dodag_config = false })
        (if s.node.has_rpl_dodag_config then node_set_changed s else s)

  -- The comparison with the configuration of the DODAG.
  unfoldable pub check_dodag_config : Option RplDodagConfig → NodeState D → NodeState D
  check_dodag_config none s = s
  check_dodag_config (some config) s =
      let delta = rpl_dodag_config_delta (some config) (some s.node.rpl_dodag_config) in
      let s' = modify (λ n. record n { actual_rpl_dodag_config_delta = delta }) s in
      if delta.has_changed then node_add_dodag_config_mismatch_error s' else s'

  unfoldable pub node_update_from_dodag_config :
      Option RplDodagConfig → Option DiDodag → NodeState D → NodeState D
  node_update_from_dodag_config config none s = take_dodag_config config s
  node_update_from_dodag_config config (some dodag) s =
      check_dodag_config (dodag_get_dodag_config dodag) (take_dodag_config config s)

  -- The global address that the prefix gives, while none has been seen.
  unfoldable pub derive_global_address : RplPrefix → DiNode D → DiNode D
  derive_global_address prefix_info n =
      if n.sixlowpan_config.has_seen_global_address then n else record n {
        sixlowpan_config = record (n.sixlowpan_config) {
          global_address = addr_get_global_ip_from_mac64 prefix_info.prefix n.key.ref.wpan_address;
          is_custom_global_address = false;
        };
      }

  unfoldable pub take_prefix_info : Option RplPrefix → NodeState D → NodeState D
  take_prefix_info (some prefix_info) s =
      let s' =
        if rpl_prefix_compare (some prefix_info) (some s.node.rpl_dodag_prefix_info)
        then node_set_changed (modify (λ n. record n { rpl_dodag_prefix_info = prefix_info }) s)
        else s in
      modify
        (λ n. record (derive_global_address prefix_info n) { has_rpl_dodag_prefix_info = true }) s'
  take_prefix_info none s =
      modify (λ n. record n { has_rpl_dodag_prefix_info = false })
        (if s.node.has_rpl_dodag_prefix_info then node_set_changed s else s)

  unfoldable pub check_prefix_info : Option RplPrefix → NodeState D → NodeState D
  check_prefix_info none s = s
  check_prefix_info (some prefix_info) s =
      let delta = rpl_prefix_delta (some prefix_info) (some s.node.rpl_dodag_prefix_info) in
      let s' = modify (λ n. record n { actual_rpl_dodag_prefix_info_delta = delta }) s in
      if delta.has_changed then node_add_dodag_config_mismatch_error s' else s'

  unfoldable pub node_update_from_dodag_prefix_info :
      Option RplPrefix → Option DiDodag → NodeState D → NodeState D
  node_update_from_dodag_prefix_info prefix_info none s = take_prefix_info prefix_info s
  node_update_from_dodag_prefix_info prefix_info (some dodag) s =
      check_prefix_info (dodag_get_prefix dodag) (take_prefix_info prefix_info s)

  -- The comparisons with what the DODAG has, and the global address that its prefix gives.
  unfoldable pub compare_dodag_config : DiDodag → DiNode D → DiNode D
  compare_dodag_config dodag n =
      if n.has_rpl_dodag_config
      then record n {
        actual_rpl_dodag_config_delta =
            rpl_dodag_config_delta (dodag_get_dodag_config dodag) (some n.rpl_dodag_config);
      }
      else n

  unfoldable pub compare_dodag_prefix : DiDodag → DiNode D → DiNode D
  compare_dodag_prefix dodag n =
      if n.has_rpl_dodag_prefix_info
      then record n {
        actual_rpl_dodag_prefix_info_delta =
            rpl_prefix_delta (dodag_get_prefix dodag) (some n.rpl_dodag_prefix_info);
      }
      else n

  unfoldable pub derive_from_dodag : Option RplPrefix → DiNode D → DiNode D
  derive_from_dodag none n = n
  derive_from_dodag (some prefix_info) n =
      if n.has_rpl_dodag_prefix_info then n else derive_global_address prefix_info n

  unfoldable pub node_update_from_dodag : Option DiDodag → NodeState D → NodeState D
  node_update_from_dodag none s = s
  node_update_from_dodag (some dodag) s =
      let s' =
        modify
          (λ n.
            derive_from_dodag (dodag_get_prefix dodag)
              (compare_dodag_prefix dodag (compare_dodag_config dodag n)))
          s in
      if s'.node.actual_rpl_dodag_config_delta.has_changed
        || s'.node.actual_rpl_dodag_prefix_info_delta.has_changed
      then node_add_dodag_config_mismatch_error s'
      else s'

  unfoldable pub node_update_from_dis : NodeState D → NodeState D
  node_update_from_dis s = node_set_changed (
      modify
        (λ n. record n {
          rpl_statistics = record (n.rpl_statistics) { dis = add32 n.rpl_statistics.dis 1 };
        })
        s)

  module _ ⦃ll : Utlist DiRouteEl⦄ where
    -- The flag is set in a local variable that is false before the call.
    unfoldable pub node_add_route : DiRoute → AddrWpan → NodeState D → NodeState D
    node_add_route target via_node s =
        let (routes, route, was) = route_add s.node.routes target via_node false (some false) in
        let s' = modify (λ n. record n { routes = routes }) s in
        if flag_value was
        then s'
        else node_set_changed (modify (λ n. record n { routes_delta = true }) s')

    unfoldable pub node_del_route : DiRoute → AddrWpan → NodeState D → NodeState D
    node_del_route target via_node s =
        let (removed, routes) = route_remove s.node.routes target via_node in
        let s' = modify (λ n. record n { routes = routes }) s in
        if removed then node_set_changed (modify (λ n. record n { routes_delta = true }) s') else s'

  module _ ⦃f : Double D⦄ where
    -- The larger of the maximum so far, if it is not 0, and the interval since the last message,
    -- if there was one.
    unfoldable pub longest : D → D → D → D
    longest last longest_so_far timestamp =
        let interval = f.sub_d timestamp last in
        if f.is_zero_d last
        then longest_so_far
        else if f.is_zero_d longest_so_far || f.lt_d longest_so_far interval
        then interval
        else longest_so_far

    unfoldable pub node_update_dao_interval : D → NodeState D → NodeState D
    node_update_dao_interval timestamp s = node_set_changed (
        modify
          (λ n. record n {
            rpl_statistics = record (n.rpl_statistics) {
              max_dao_interval =
                  longest n.rpl_statistics.last_dao_timestamp n.rpl_statistics.max_dao_interval
                    timestamp;
              last_dao_timestamp = timestamp;
            };
          })
          s)

    unfoldable pub node_update_dio_interval : D → NodeState D → NodeState D
    node_update_dio_interval timestamp s = node_set_changed (
        modify
          (λ n. record n {
            rpl_statistics = record (n.rpl_statistics) {
              max_dio_interval =
                  longest n.rpl_statistics.last_dio_timestamp n.rpl_statistics.max_dio_interval
                    timestamp;
              last_dio_timestamp = timestamp;
            };
          })
          s)
