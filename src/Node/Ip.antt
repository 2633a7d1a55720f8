-- ===== src/Node/Ip.antt =====
-- `node_set_ip` and `node_add_packet_count`. `autconf_only` is the field `address_autconf_only` of
-- the configuration that `rpl_tool_get_analyser_config` returns.
use foren6_analyzer.Prelude.{ℕ, Bool, true, ◌&&◌, ◌!=◌, ◌==◌, if◌then◌else◌}
use foren6_analyzer.Prelude.Words.{add32}
use foren6_analyzer.Address.{
  AddrIpv6, addr_compare_ip, addr_compare_wpan, addr_get_mac64_from_ip, addr_is_ip_local,
  addr_is_ip_global, addr_prefix_compare,
}
use foren6_analyzer.Utlist.{Utlist}
use foren6_analyzer.RplEvent.{RplEventEl}
use foren6_analyzer.Node.{DiNode, NodeState, modify, node_update_old_field}
use foren6_analyzer.Node.Base.{node_set_changed}

module _ {D : Type 0} where
  unfoldable pub count_invalid_ip : DiNode D → DiNode D
  count_invalid_ip n = record n {
    sixlowpan_errors = record (n.sixlowpan_errors) {
      invalid_ip = add32 n.sixlowpan_errors.invalid_ip 1;
    };
  }

  -- The address is not the one that the node's own MAC address gives.
  unfoldable pub is_custom : AddrIpv6 → DiNode D → Bool
  is_custom address n =
      addr_compare_wpan (addr_get_mac64_from_ip address) n.key.ref.wpan_address != 0

  unfoldable pub take_local : Bool → AddrIpv6 → DiNode D → DiNode D
  take_local autconf_only address n =
      let custom = is_custom address n in
      let n' = record n {
        sixlowpan_config = record (n.sixlowpan_config) {
          local_address = address;
          is_custom_local_address = custom;
        };
      } in
      if custom && autconf_only then count_invalid_ip n' else n'

  unfoldable pub take_global : Bool → AddrIpv6 → DiNode D → DiNode D
  take_global autconf_only address n =
      let custom = is_custom address n in
      let n' = record n {
        sixlowpan_config = record (n.sixlowpan_config) {
          global_address = address;
          is_custom_global_address = custom;
        };
      } in
      if custom && autconf_only then count_invalid_ip n' else n'

  unfoldable pub mark_errors : NodeState D → NodeState D
  mark_errors s =
      node_update_old_field (λ n old. record old { has_errors = n.has_errors })
        (modify (λ n. record n { has_errors = 1 }) s)

  -- The counters of the node are counted up, then taken over one after the other.
  unfoldable pub count_invalid_prefix : NodeState D → NodeState D
  count_invalid_prefix s =
      let s1 =
        modify
          (λ n. record n {
            sixlowpan_errors = record (n.sixlowpan_errors) {
              invalid_prefix = add32 n.sixlowpan_errors.invalid_prefix 1;
            };
            sixlowpan_errors_delta = record (n.sixlowpan_errors_delta) {
              invalid_prefix = add32 n.sixlowpan_errors_delta.invalid_prefix 1;
            };
          })
          s in
      let s2 =
        node_update_old_field
          (λ n old. record old {
            sixlowpan_errors = record (old.sixlowpan_errors) {
              invalid_prefix = n.sixlowpan_errors.invalid_prefix;
            };
          })
          s1 in
      mark_errors (
        node_update_old_field
          (λ n old. record old {
            sixlowpan_errors_delta = record (old.sixlowpan_errors_delta) {
              invalid_prefix = n.sixlowpan_errors_delta.invalid_prefix;
            };
          })
          s2)

  unfoldable pub reject_ip : NodeState D → NodeState D
  reject_ip s =
      let s1 =
        modify
          (λ n. record (count_invalid_ip n) {
            sixlowpan_errors_delta = record (n.sixlowpan_errors_delta) {
              invalid_ip = add32 n.sixlowpan_errors_delta.invalid_ip 1;
            };
          })
          s in
      let s2 =
        node_update_old_field
          (λ n old. record old {
            sixlowpan_errors = record (old.sixlowpan_errors) {
              invalid_ip = n.sixlowpan_errors.invalid_ip;
            };
          })
          s1 in
      mark_errors (
        node_update_old_field
          (λ n old. record old {
            sixlowpan_errors_delta = record (old.sixlowpan_errors_delta) {
              invalid_ip = n.sixlowpan_errors_delta.invalid_ip;
            };
          })
          s2)

  unfoldable pub node_add_packet_count : ℕ → NodeState D → NodeState D
  node_add_packet_count count s =
      let s1 =
        modify
          (λ n. record n {
            sixlowpan_statistics = record (n.sixlowpan_statistics) {
              packet_count = add32 n.sixlowpan_statistics.packet_count count;
            };
            sixlowpan_statistics_delta = record (n.sixlowpan_statistics_delta) {
              packet_count = add32 n.sixlowpan_statistics_delta.packet_count count;
            };
          })
          s in
      let s2 =
        node_update_old_field
          (λ n old. record old {
            sixlowpan_statistics = record (old.sixlowpan_statistics) {
              packet_count = n.sixlowpan_statistics.packet_count;
            };
          })
          s1 in
      node_update_old_field
        (λ n old. record old {
          sixlowpan_statistics_delta = record (old.sixlowpan_statistics_delta) {
            packet_count = n.sixlowpan_statistics_delta.packet_count;
          };
        })
        s2

module _ {D : Type 0} ⦃dl : Utlist (RplEventEl D)⦄ where
  unfoldable pub set_local_ip : Bool → AddrIpv6 → NodeState D → NodeState D
  set_local_ip autconf_only address s =
      let s' =
        modify
          (λ n. record n {
            sixlowpan_config = record (n.sixlowpan_config) { has_seen_local_address = true };
          })
          s in
      if addr_compare_ip s'.node.sixlowpan_config.local_address address == 0
      then s'
      else node_set_changed (modify (take_local autconf_only address) s')

  unfoldable pub check_prefix : NodeState D → NodeState D
  check_prefix s =
      if s.node.has_rpl_dodag_prefix_info
        && addr_prefix_compare s.node.rpl_dodag_prefix_info.prefix
            s.node.sixlowpan_config.global_address
          != 0
      then count_invalid_prefix s
      else s

  unfoldable pub set_global_ip : Bool → AddrIpv6 → NodeState D → NodeState D
  set_global_ip autconf_only address s =
      let s' =
        modify
          (λ n. record n {
            sixlowpan_config = record (n.sixlowpan_config) { has_seen_global_address = true };
          })
          s in
      check_prefix (
        if addr_compare_ip s'.node.sixlowpan_config.global_address address == 0
        then s'
        else node_set_changed (modify (take_global autconf_only address) s'))

  unfoldable pub node_set_ip : Bool → AddrIpv6 → NodeState D → NodeState D
  node_set_ip autconf_only address s =
      if addr_is_ip_local address
      then set_local_ip autconf_only address s
      else if addr_is_ip_global address
      then set_global_ip autconf_only address s
      else reject_ip s
