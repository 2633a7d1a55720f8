-- ===== src/Node/Operations.antt =====
-- The calls that other parts of the program make on a node between two versions of the network.
use foren6_analyzer.Prelude.{ℕ, Bool, List, [], ◌∷◌, Option}
use foren6_analyzer.Prelude.Double.{Double}
use foren6_analyzer.Address.{AddrIpv6, AddrWpan}
use foren6_analyzer.Utlist.{Utlist}
use foren6_analyzer.RplDef.Types.{
  RplDio, RplDao, RplMetric, RplHopByHopOpt, RplDodagConfig, RplPrefix,
}
use foren6_analyzer.Dodag.{DiDodag}
use foren6_analyzer.Refs.{DiDodagRef}
use foren6_analyzer.Route.{DiRoute, DiRouteEl}
use foren6_analyzer.RplEvent.{RplEventEl}
use foren6_analyzer.Node.{DiNodeKey, NodeState}
use foren6_analyzer.Node.Base.{node_set_key, node_set_dodag}
use foren6_analyzer.Node.Ip.{node_set_ip, node_add_packet_count}
use foren6_analyzer.Node.Rpl.{
  node_update_from_dio, node_update_from_metric, node_update_from_hop_by_hop, node_update_from_dao,
  node_update_from_dodag_config, node_update_from_dodag_prefix_info, node_update_from_dodag,
  node_update_from_dis, node_add_route, node_del_route, node_update_dao_interval,
  node_update_dio_interval,
}
use foren6_analyzer.Node.Errors.{
  node_add_rank_error, node_add_forward_error, node_add_upward_error, node_add_downward_error,
  node_add_route_error, node_add_dodag_version_error, node_add_ip_mismatch_error,
  node_add_dodag_mismatch_error, node_add_dodag_config_mismatch_error, node_clear_errors,
}

pub data ErrorKind : Type 0 where
  rank forward upward downward route_loop dodag_version ip_mismatch : ErrorKind
  dodag_mismatch dodag_config_mismatch : ErrorKind

pub data NodeOp (D : Type 0) : Type 0 where
  set_key : DiNodeKey → NodeOp D
  set_dodag : DiDodagRef → NodeOp D
  set_ip : AddrIpv6 → NodeOp D
  add_packet_count : ℕ → NodeOp D
  update_from_dio : Option RplDio → NodeOp D
  update_from_metric : Option RplMetric → NodeOp D
  update_from_hop_by_hop : Option RplHopByHopOpt → NodeOp D
  update_from_dao : Option RplDao → NodeOp D
  update_from_dodag_config : Option RplDodagConfig → Option DiDodag → NodeOp D
  update_from_dodag_prefix_info : Option RplPrefix → Option DiDodag → NodeOp D
  update_from_dodag : Option DiDodag → NodeOp D
  update_from_dis : NodeOp D
  add_route : DiRoute → AddrWpan → NodeOp D
  del_route : DiRoute → AddrWpan → NodeOp D
  update_dao_interval : D → NodeOp D
  update_dio_interval : D → NodeOp D
  add_error : ErrorKind → NodeOp D
  clear_errors : NodeOp D

module _ {D : Type 0} ⦃f : Double D⦄ ⦃ll : Utlist DiRouteEl⦄ ⦃dl : Utlist (RplEventEl D)⦄ where
  unfoldable pub node_add_error : ErrorKind → NodeState D → NodeState D
  node_add_error rank = node_add_rank_error
  node_add_error forward = node_add_forward_error
  node_add_error upward = node_add_upward_error
  node_add_error downward = node_add_downward_error
  node_add_error route_loop = node_add_route_error
  node_add_error dodag_version = node_add_dodag_version_error
  node_add_error ip_mismatch = node_add_ip_mismatch_error
  node_add_error dodag_mismatch = node_add_dodag_mismatch_error
  node_add_error dodag_config_mismatch = node_add_dodag_config_mismatch_error

  unfoldable pub apply : Bool → NodeOp D → NodeState D → NodeState D
  apply autconf_only (set_key key) = node_set_key key
  apply autconf_only (set_dodag dodag) = node_set_dodag dodag
  apply autconf_only (set_ip address) = node_set_ip autconf_only address
  apply autconf_only (add_packet_count count) = node_add_packet_count count
  apply autconf_only (update_from_dio dio) = node_update_from_dio dio
  apply autconf_only (update_from_metric metric) = node_update_from_metric metric
  apply autconf_only (update_from_hop_by_hop h) = node_update_from_hop_by_hop h
  apply autconf_only (update_from_dao dao) = node_update_from_dao dao
  apply autconf_only (update_from_dodag_config config dodag) =
      node_update_from_dodag_config config dodag
  apply autconf_only (update_from_dodag_prefix_info prefix dodag) =
      node_update_from_dodag_prefix_info prefix dodag
  apply autconf_only (update_from_dodag dodag) = node_update_from_dodag dodag
  apply autconf_only update_from_dis = node_update_from_dis
  apply autconf_only (add_route target via_node) = node_add_route target via_node
  apply autconf_only (del_route target via_node) = node_del_route target via_node
  apply autconf_only (update_dao_interval timestamp) = node_update_dao_interval timestamp
  apply autconf_only (update_dio_interval timestamp) = node_update_dio_interval timestamp
  apply autconf_only (add_error kind) = node_add_error kind
  apply autconf_only clear_errors = node_clear_errors

  unfoldable pub run : Bool → List (NodeOp D) → NodeState D → NodeState D
  run autconf_only [] s = s
  run autconf_only (op ∷ ops) s = run autconf_only ops (apply autconf_only op s)
