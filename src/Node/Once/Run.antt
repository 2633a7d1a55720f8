-- ===== src/Node/Once/Run.antt =====
-- Between two versions of the network a node is reported as updated at most once.
use foren6_analyzer.Prelude.{Bool, List, [], ◌∷◌, refl}
use foren6_analyzer.Prelude.Double.{Double}
use foren6_analyzer.Utlist.{Utlist}
use foren6_analyzer.Route.{DiRouteEl}
use foren6_analyzer.RplEvent.{RplEventEl}
use foren6_analyzer.Node.{NodeState}
use foren6_analyzer.Node.Base.{node_reset_changed}
use foren6_analyzer.Node.Errors.{
  node_add_rank_error, node_add_forward_error, node_add_upward_error, node_add_downward_error,
  node_add_route_error, node_add_dodag_version_error, node_add_ip_mismatch_error,
  node_add_dodag_mismatch_error,
}
use foren6_analyzer.Node.Operations.{
  ErrorKind, rank, forward, upward, downward, route_loop, dodag_version, ip_mismatch,
  dodag_mismatch, dodag_config_mismatch, NodeOp, set_key, set_dodag, set_ip, add_packet_count,
  update_from_dio, update_from_metric, update_from_hop_by_hop, update_from_dao,
  update_from_dodag_config, update_from_dodag_prefix_info, update_from_dodag, update_from_dis,
  add_route, del_route, update_dao_interval, update_dio_interval, add_error, clear_errors,
  node_add_error, apply, run,
}
use foren6_analyzer.Node.Events.{Signals, Signals-trans, Reported}
use foren6_analyzer.Node.Once.{
  same, set_key-Signals, set_dodag-Signals, set_ip-Signals, add_packet_count-Signals,
  count_error-Signals, add_dodag_config_mismatch_error-Signals, clear_errors-Signals,
}
use foren6_analyzer.Node.Once.Rpl.{
  update_from_dio-Signals, update_from_metric-Signals, update_from_hop_by_hop-Signals,
  update_from_dao-Signals, update_from_dodag_config-Signals, update_from_prefix_info-Signals,
  update_from_dodag-Signals, update_from_dis-Signals, add_route-Signals, del_route-Signals,
  dao_interval-Signals, dio_interval-Signals,
}

module _ {D : Type 0} ⦃f : Double D⦄ ⦃ll : Utlist DiRouteEl⦄ ⦃dl : Utlist (RplEventEl D)⦄ where
  add_error-Signals : (kind : ErrorKind) (s : NodeState D) → Signals s (node_add_error kind s)
  unfolding node_add_error node_add_rank_error node_add_forward_error node_add_upward_error
      node_add_downward_error node_add_route_error node_add_dodag_version_error
      node_add_ip_mismatch_error node_add_dodag_mismatch_error
  add_error-Signals rank s = count_error-Signals _ s
  add_error-Signals forward s = count_error-Signals _ s
  add_error-Signals upward s = count_error-Signals _ s
  add_error-Signals downward s = count_error-Signals _ s
  add_error-Signals route_loop s = count_error-Signals _ s
  add_error-Signals dodag_version s = count_error-Signals _ s
  add_error-Signals ip_mismatch s = count_error-Signals _ s
  add_error-Signals dodag_mismatch s = count_error-Signals _ s
  add_error-Signals dodag_config_mismatch s = add_dodag_config_mismatch_error-Signals s

  apply-Signals : (only : Bool) (op : NodeOp D) (s : NodeState D) → Signals s (apply only op s)
  unfolding apply
  apply-Signals only (set_key key) s = set_key-Signals key s
  apply-Signals only (set_dodag dodag) s = set_dodag-Signals dodag s
  apply-Signals only (set_ip a) s = set_ip-Signals only a s
  apply-Signals only (add_packet_count n) s = add_packet_count-Signals n s
  apply-Signals only (update_from_dio dio) s = update_from_dio-Signals dio s
  apply-Signals only (update_from_metric m) s = update_from_metric-Signals m s
  apply-Signals only (update_from_hop_by_hop h) s = update_from_hop_by_hop-Signals h s
  apply-Signals only (update_from_dao dao) s = update_from_dao-Signals dao s
  apply-Signals only (update_from_dodag_config c d) s = update_from_dodag_config-Signals c d s
  apply-Signals only (update_from_dodag_prefix_info p d) s = update_from_prefix_info-Signals p d s
  apply-Signals only (update_from_dodag d) s = update_from_dodag-Signals d s
  apply-Signals only update_from_dis s = update_from_dis-Signals s
  apply-Signals only (add_route t via) s = add_route-Signals t via s
  apply-Signals only (del_route t via) s = del_route-Signals t via s
  apply-Signals only (update_dao_interval t) s = dao_interval-Signals t s
  apply-Signals only (update_dio_interval t) s = dio_interval-Signals t s
  apply-Signals only (add_error kind) s = add_error-Signals kind s
  apply-Signals only clear_errors s = clear_errors-Signals s

  run-Signals : (only : Bool) (ops : List (NodeOp D)) (s : NodeState D) → Signals s (run only ops s)
  unfolding run
  run-Signals only [] s = same s
  run-Signals only (op ∷ ops) s =
      Signals-trans (apply-Signals only op s) (run-Signals only ops (apply only op s))

  -- After `node_reset_changed`, any sequence of the operations on a node either leaves it
  -- unmarked and the queue of events as it was, or leaves it marked and exactly one event at the end of
  -- the queue, which says that a node was updated.
  pub run-Reported :
      (only : Bool) (ops : List (NodeOp D)) (s : NodeState D)
      → Reported s (run only ops (node_reset_changed s))
  unfolding node_reset_changed
  run-Reported only ops s =
      let signals = run-Signals only ops (node_reset_changed s) in signals.fresh refl
