-- ===== src/Node/Errors.antt =====
-- The counters of RPL errors of a node, and the errors cleared on request.
use foren6_analyzer.Prelude.Words.{add32}
use foren6_analyzer.Utlist.{Utlist}
use foren6_analyzer.RplDef.Types.{RplErrors}
use foren6_analyzer.RplDef.Init.{init_rpl_errors}
use foren6_analyzer.SixlowpanDef.{init_sixlowpan_errors}
use foren6_analyzer.RplEvent.{RplEventEl}
use foren6_analyzer.Node.{NodeState, modify}
use foren6_analyzer.Node.Base.{node_set_changed}

module _ {D : Type 0} ⦃dl : Utlist (RplEventEl D)⦄ where
  -- What the functions share: one counter is counted up.
  unfoldable pub count_error : (RplErrors → RplErrors) → NodeState D → NodeState D
  count_error f s = node_set_changed (modify (λ n. record n { rpl_errors = f n.rpl_errors }) s)

  unfoldable pub node_add_rank_error : NodeState D → NodeState D
  node_add_rank_error = count_error (λ e. record e { rank_errors = add32 e.rank_errors 1 })

  unfoldable pub node_add_forward_error : NodeState D → NodeState D
  node_add_forward_error = count_error (λ e. record e { forward_errors = add32 e.forward_errors 1 })

  unfoldable pub node_add_upward_error : NodeState D → NodeState D
  node_add_upward_error =
      count_error (λ e. record e { upward_rank_errors = add32 e.upward_rank_errors 1 })

  unfoldable pub node_add_downward_error : NodeState D → NodeState D
  node_add_downward_error =
      count_error (λ e. record e { downward_rank_errors = add32 e.downward_rank_errors 1 })

  unfoldable pub node_add_route_error : NodeState D → NodeState D
  node_add_route_error =
      count_error (λ e. record e { route_loop_errors = add32 e.route_loop_errors 1 })

  unfoldable pub node_add_dodag_version_error : NodeState D → NodeState D
  node_add_dodag_version_error =
      count_error
        (λ e. record e { dodag_version_decrease_errors = add32 e.dodag_version_decrease_errors 1 })

  unfoldable pub node_add_ip_mismatch_error : NodeState D → NodeState D
  node_add_ip_mismatch_error =
      count_error (λ e. record e { ip_mismatch_errors = add32 e.ip_mismatch_errors 1 })

  unfoldable pub node_add_dodag_mismatch_error : NodeState D → NodeState D
  node_add_dodag_mismatch_error =
      count_error (λ e. record e { dodag_mismatch_errors = add32 e.dodag_mismatch_errors 1 })

  unfoldable pub node_add_dodag_config_mismatch_error : NodeState D → NodeState D
  node_add_dodag_config_mismatch_error =
      count_error
        (λ e. record e { dodag_config_mismatch_errors = add32 e.dodag_config_mismatch_errors 1 })

  -- The body of the loop of `nodes_clear_all_errors`.
  unfoldable pub node_clear_errors : NodeState D → NodeState D
  node_clear_errors s = node_set_changed (
      modify
        (λ n. record n { sixlowpan_errors = init_sixlowpan_errors; rpl_errors = init_rpl_errors })
        s)
