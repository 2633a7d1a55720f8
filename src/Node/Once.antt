-- ===== src/Node/Once.antt =====
-- The operations of node.c report a node when they mark it.
pub mod Rpl
pub mod Run
use foren6_analyzer.Prelude.{
  ℕ, Bool, true, false, not, ◌&&◌, ◌==◌, ◌!=◌, List, [], ◌∷◌, Option, none, some, if◌then◌else◌,
  ◌≡◌, refl, Bool-cases, inl, inr, arith,
}
use foren6_analyzer.Prelude.Double.{Double}
use foren6_analyzer.Address.{
  AddrIpv6, AddrWpan, addr_is_ip_local, addr_is_ip_global, addr_compare_ip, addr_prefix_compare,
}
use foren6_analyzer.Utlist.{Utlist}
use foren6_analyzer.RplDef.Types.{
  RplErrors, RplInstanceConfig, RplInstanceData, RplDodagConfig, RplPrefix, RplDio, RplDao,
}
use foren6_analyzer.RplDef.Delta.{
  rpl_instance_config_compare, rpl_instance_data_compare, rpl_dodag_config_compare,
  rpl_prefix_compare, rpl_dodag_config_delta, rpl_prefix_delta,
}
use foren6_analyzer.Dodag.{DiDodag, dodag_get_dodag_config, dodag_get_prefix}
use foren6_analyzer.Refs.{DiDodagRef, same_dodag_ref}
use foren6_analyzer.Route.{DiRoute, DiRouteEl, route_add, route_remove}
use foren6_analyzer.RplEvent.{RplEventEl}
use foren6_analyzer.Node.{DiNodeKey, DiNode, NodeState, modify}
use foren6_analyzer.Node.Base.{
  node_set_changed, own_local_address, node_set_key, forget_dodag, node_set_dodag,
}
use foren6_analyzer.Node.Ip.{
  count_invalid_ip, is_custom, take_local, take_global, mark_errors, count_invalid_prefix,
  reject_ip, node_add_packet_count, set_local_ip, check_prefix, set_global_ip, node_set_ip,
}
use foren6_analyzer.Node.Rpl.{
  take_instance_config, take_instance_data, node_update_from_dio, node_update_from_metric,
  node_update_from_hop_by_hop, node_update_from_dao, take_dodag_config, check_dodag_config,
  node_update_from_dodag_config, derive_global_address, take_prefix_info, check_prefix_info,
  node_update_from_dodag_prefix_info, node_update_from_dis, node_add_route, node_del_route,
  node_update_dao_interval, node_update_dio_interval, unchanged, see_config, see_data,
}
use foren6_analyzer.Node.Errors.{
  count_error, node_add_rank_error, node_add_forward_error, node_add_upward_error,
  node_add_downward_error, node_add_route_error, node_add_dodag_version_error,
  node_add_ip_mismatch_error, node_add_dodag_mismatch_error, node_add_dodag_config_mismatch_error,
  node_clear_errors,
}
use foren6_analyzer.Node.Operations
use foren6_analyzer.Node.Operations.{NodeOp, ErrorKind, node_add_error, apply}
use foren6_analyzer.Node.Events.{
  Signals, Signals-silent, Signals-trans, Signals-if, node_set_changed-Signals, marked-Signals,
}

module _ {D : Type 0} ⦃dl : Utlist (RplEventEl D)⦄ where
  pub same : (s : NodeState D) → Signals s s
  same s = Signals-silent refl refl

  -- An assignment after other changes.
  pub then_silent :
      {s t : NodeState D} (g : DiNode D → DiNode D)
      → (g t.node).has_changed ≡ t.node.has_changed
      → Signals s t
      → Signals s (modify g t)
  then_silent g e p = Signals-trans p (Signals-silent e refl)

  -- A report after other changes.
  pub then_marked : {s t : NodeState D} → Signals s t → Signals s (node_set_changed t)
  then_marked p = Signals-trans p (node_set_changed-Signals _)

  own_local_address-flag : (n : DiNode D) → (own_local_address n).has_changed ≡ n.has_changed
  unfolding own_local_address
  own_local_address-flag n = ground arith

  pub set_key-Signals : (key : DiNodeKey) (s : NodeState D) → Signals s (node_set_key key s)
  unfolding node_set_key
  set_key-Signals key s =
      Signals-if (s.node.key.ref.wpan_address == key.ref.wpan_address) (same s) (
        marked-Signals s (λ n. own_local_address (record n { key = key }))
          (own_local_address-flag (record (s.node) { key = key })))

  pub set_dodag-Signals :
      (dodag : DiDodagRef) (s : NodeState D) → Signals s (node_set_dodag dodag s)
  unfolding node_set_dodag forget_dodag
  set_dodag-Signals dodag s =
      Signals-if (same_dodag_ref s.node.dodag dodag) (same s)
        (marked-Signals s (forget_dodag dodag) refl)

  pub count_invalid_prefix-Signals : (s : NodeState D) → Signals s (count_invalid_prefix s)
  unfolding count_invalid_prefix mark_errors
  count_invalid_prefix-Signals s = Signals-silent refl refl

  pub reject_ip-Signals : (s : NodeState D) → Signals s (reject_ip s)
  unfolding reject_ip mark_errors count_invalid_ip
  reject_ip-Signals s = Signals-silent refl refl

  pub add_packet_count-Signals :
      (count : ℕ) (s : NodeState D) → Signals s (node_add_packet_count count s)
  unfolding node_add_packet_count
  add_packet_count-Signals count s = Signals-silent refl refl

  take_local-flag :
      (only : Bool) (a : AddrIpv6) (n : DiNode D)
      → (take_local only a n).has_changed ≡ n.has_changed
  unfolding take_local count_invalid_ip
  take_local-flag only a n = ground arith

  take_global-flag :
      (only : Bool) (a : AddrIpv6) (n : DiNode D)
      → (take_global only a n).has_changed ≡ n.has_changed
  unfolding take_global count_invalid_ip
  take_global-flag only a n = ground arith

  pub set_local_ip-Signals :
      (only : Bool) (a : AddrIpv6) (s : NodeState D) → Signals s (set_local_ip only a s)
  unfolding set_local_ip
  set_local_ip-Signals only a s =
      let seen =
        modify
          (λ n. record n {
            sixlowpan_config = record (n.sixlowpan_config) { has_seen_local_address = true };
          })
          s in
      Signals-if (addr_compare_ip s.node.sixlowpan_config.local_address a == 0)
        (Signals-silent refl refl)
        (Signals-trans {t = seen} (Signals-silent refl refl)
          (marked-Signals seen (take_local only a) (take_local-flag only a seen.node)))

  pub check_prefix-Signals : (s : NodeState D) → Signals s (check_prefix s)
  unfolding check_prefix
  check_prefix-Signals s = Signals-if _ (count_invalid_prefix-Signals s) (same s)

  pub set_global_ip-Signals :
      (only : Bool) (a : AddrIpv6) (s : NodeState D) → Signals s (set_global_ip only a s)
  unfolding set_global_ip
  set_global_ip-Signals only a s =
      let seen =
        modify
          (λ n. record n {
            sixlowpan_config = record (n.sixlowpan_config) { has_seen_global_address = true };
          })
          s in
      let taken =
        Signals-if (addr_compare_ip s.node.sixlowpan_config.global_address a == 0)
          (Signals-silent refl refl)
          (Signals-trans {t = seen} (Signals-silent refl refl)
            (marked-Signals seen (take_global only a) (take_global-flag only a seen.node))) in
      Signals-trans taken (check_prefix-Signals _)

  pub set_ip-Signals :
      (only : Bool) (a : AddrIpv6) (s : NodeState D) → Signals s (node_set_ip only a s)
  unfolding node_set_ip
  set_ip-Signals only a s =
      Signals-if (addr_is_ip_local a) (set_local_ip-Signals only a s)
        (Signals-if (addr_is_ip_global a) (set_global_ip-Signals only a s) (reject_ip-Signals s))

  pub count_error-Signals :
      (f : RplErrors → RplErrors) (s : NodeState D) → Signals s (count_error f s)
  unfolding count_error
  count_error-Signals f s = marked-Signals s (λ n. record n { rpl_errors = f n.rpl_errors }) refl

  pub add_dodag_config_mismatch_error-Signals :
      (s : NodeState D) → Signals s (node_add_dodag_config_mismatch_error s)
  unfolding node_add_dodag_config_mismatch_error
  add_dodag_config_mismatch_error-Signals s = count_error-Signals _ s

  pub clear_errors-Signals : (s : NodeState D) → Signals s (node_clear_errors s)
  unfolding node_clear_errors
  clear_errors-Signals s = then_marked (Signals-silent refl refl)
