-- ===== src/Node/Delta.antt =====
-- `node_init`, `node_dup` and `node_fill_delta`.
use foren6_analyzer.Prelude.{
  Option, none, ℕ, ◌+◌, ◌-◌, ◌%◌, ◌^◌, true, false, ◌||◌, ◌!=◌, some, if◌then◌else◌,
}
use foren6_analyzer.Prelude.Double.{Double}
use foren6_analyzer.Utlist.{Utlist}
use foren6_analyzer.RplDef.Delta.{
  rpl_instance_config_delta, rpl_instance_data_delta, rpl_dodag_config_delta, rpl_prefix_delta,
}
use foren6_analyzer.RplDef.Errors.{rpl_errors_delta}
use foren6_analyzer.RplDef.Statistics.{rpl_statistics_delta}
use foren6_analyzer.RplDef.Init.{
  init_rpl_instance_config, init_rpl_instance_data, init_rpl_dodag_config, init_rpl_prefix,
  init_rpl_statistics, init_rpl_errors,
}
use foren6_analyzer.SixlowpanDef.{
  init_sixlowpan_config, init_sixlowpan_statistics, init_sixlowpan_statistics_delta,
  init_sixlowpan_errors, init_sixlowpan_errors_delta,
}
use foren6_analyzer.SixlowpanDef.Delta.{sixlowpan_config_delta}
use foren6_analyzer.Route.{route_dup}
use foren6_analyzer.RplEvent.{RplEventEl, ret_created, rpl_event_node}
use foren6_analyzer.Node.{DiNodeKey, DiNode, NodeState, modify}
use foren6_analyzer.Node.Base.{node_set_key}
use foren6_analyzer.Node.Getters.{
  node_get_instance_config, node_get_instance_data, node_get_dodag_config,
  node_get_dodag_prefix_info,
}

-- The getters at a pointer that may be `NULL`: of a field, and of what may not have been seen.
abbrev pub field : {A B : Type 0} → (A → B) → Option A → Option B
field get none = none
field get (some a) = some (get a)

abbrev pub seen : {A B : Type 0} → (A → Option B) → Option A → Option B
seen get none = none
seen get (some a) = get a

module _ {D : Type 0} ⦃f : Double D⦄ where
  -- The assignments of `node_init`; -1 as an `int16_t`.
  unfoldable pub init_node : ℕ → DiNode D → DiNode D
  init_node simple_id n = record n {
    dodag = record (n.dodag) { version = 2 ^ 16 - 1 };
    has_changed = true;
    has_errors = 0;
    sixlowpan_config = init_sixlowpan_config n.sixlowpan_config;
    sixlowpan_statistics = init_sixlowpan_statistics;
    sixlowpan_statistics_delta = init_sixlowpan_statistics_delta;
    sixlowpan_errors = init_sixlowpan_errors;
    sixlowpan_errors_delta = init_sixlowpan_errors_delta;
    rpl_instance_config = init_rpl_instance_config;
    rpl_instance_data = init_rpl_instance_data n.rpl_instance_data;
    rpl_dodag_config = init_rpl_dodag_config;
    rpl_dodag_prefix_info = init_rpl_prefix;
    rpl_statistics = init_rpl_statistics;
    rpl_errors = init_rpl_errors;
    routes_delta = false;
    simple_id = simple_id;
  }

  -- With the counter `last_simple_id`, which is returned counted up.
  unfoldable pub node_init :
      ⦃dl : Utlist (RplEventEl D)⦄ → ℕ → DiNodeKey → NodeState D → ℕ × NodeState D
  node_init last_simple_id key s =
      let last' = (last_simple_id + 1) % 2 ^ 16 in
      let s' = node_set_key key (modify (init_node last') s) in
      (last', record s' { head = rpl_event_node s'.head s'.node.key.ref ret_created })

  -- The node that was duplicated, and the duplicate.
  unfoldable pub node_dup : DiNode D → DiNode D × DiNode D
  node_dup node = (
    record node { routes_delta = false },
    record node {
      routes = route_dup node.routes;
      sixlowpan_statistics_delta = init_sixlowpan_statistics_delta;
      sixlowpan_errors_delta = init_sixlowpan_errors_delta;
    },
  )

  -- `prev_node` is `NULL` for a node of which the last version has none; the getters return `NULL`
  -- then.
  unfoldable pub node_fill_delta : DiNode D → Option (DiNode D) → DiNode D
  node_fill_delta node prev =
      let errors = rpl_errors_delta (field (λ n. n.rpl_errors) prev) (some node.rpl_errors) in
      record node {
        sixlowpan_config_delta =
            sixlowpan_config_delta (field (λ n. n.sixlowpan_config) prev)
              (some node.sixlowpan_config);
        rpl_instance_config_delta =
            rpl_instance_config_delta (seen node_get_instance_config prev)
              (node_get_instance_config node);
        rpl_instance_data_delta =
            rpl_instance_data_delta (seen node_get_instance_data prev)
              (node_get_instance_data node);
        rpl_dodag_config_delta =
            rpl_dodag_config_delta (seen node_get_dodag_config prev) (node_get_dodag_config node);
        rpl_dodag_prefix_info_delta =
            rpl_prefix_delta (seen node_get_dodag_prefix_info prev)
              (node_get_dodag_prefix_info node);
        rpl_statistics_delta =
            rpl_statistics_delta (field (λ n. n.rpl_statistics) prev) (some node.rpl_statistics)
              node.rpl_statistics_delta;
        rpl_errors_delta = errors;
        has_errors =
            if (errors.has_changed != 0) || node.sixlowpan_errors_delta.has_changed then 1 else 0;
      }
