-- ===== src/Node/Base.antt =====
-- The changes of a node that are not about one packet: its flag and its identity.
use foren6_analyzer.Prelude.{true, false, ◌==◌, if◌then◌else◌}
use foren6_analyzer.Address.{init_ipv6_addr, addr_get_local_ip_from_mac64}
use foren6_analyzer.Utlist.{Utlist}
use foren6_analyzer.Refs.{DiDodagRef, same_dodag_ref}
use foren6_analyzer.RplEvent.{RplEventEl, ret_updated, rpl_event_node}
use foren6_analyzer.Node.{DiNodeKey, DiNode, NodeState, modify}

module _ {D : Type 0} ⦃dl : Utlist (RplEventEl D)⦄ where
  unfoldable pub node_set_changed : NodeState D → NodeState D
  node_set_changed s =
      let head' =
        if s.node.has_changed then s.head else rpl_event_node s.head s.node.key.ref ret_updated in
      record s { node = record (s.node) { has_changed = true }; head = head' }

  unfoldable pub node_reset_changed : NodeState D → NodeState D
  node_reset_changed = modify (λ n. record n { has_changed = false })

  unfoldable pub own_local_address : DiNode D → DiNode D
  own_local_address n = if n.sixlowpan_config.is_custom_local_address then n else record n {
    sixlowpan_config = record (n.sixlowpan_config) {
      local_address = addr_get_local_ip_from_mac64 n.key.ref.wpan_address;
    };
  }

  unfoldable pub node_set_key : DiNodeKey → NodeState D → NodeState D
  node_set_key key s =
      if s.node.key.ref.wpan_address == key.ref.wpan_address
      then s
      else node_set_changed (modify (λ n. own_local_address (record n { key = key })) s)

  -- The assignments of `node_set_dodag`.
  unfoldable pub forget_dodag : DiDodagRef → DiNode D → DiNode D
  forget_dodag dodag n =
      let config = n.sixlowpan_config in
      record n {
        dodag = dodag;
        has_rpl_instance_config = false;
        rpl_instance_config = record (n.rpl_instance_config) {
          has_dodagid = false;
          has_dio_config = false;
        };
        has_rpl_instance_data = false;
        rpl_instance_data = record (n.rpl_instance_data) {
          has_dao_data = false;
          has_dio_data = false;
          has_rank = false;
          has_metric = false;
        };
        has_rpl_dodag_config = false;
        has_rpl_dodag_prefix_info = false;
        sixlowpan_config =
            if config.is_custom_global_address
            then config
            else record config { global_address = init_ipv6_addr; has_seen_global_address = false };
      }

  unfoldable pub node_set_dodag : DiDodagRef → NodeState D → NodeState D
  node_set_dodag dodag s =
      if same_dodag_ref s.node.dodag dodag
      then s
      else node_set_changed (modify (forget_dodag dodag) s)
