-- ===== src/Node/Sample.antt =====
-- A new node, for runs on concrete inputs.
use foren6_analyzer.Prelude.{ℕ, true, false, [], none}
use foren6_analyzer.Prelude.Double.{whole_double}
use foren6_analyzer.Address.{AddrIpv6}
use foren6_analyzer.RplDef.Types.{RplInstanceData, RplStatisticsDelta}
use foren6_analyzer.RplDef.Init.{
  init_rpl_metric, init_rpl_instance_config, init_rpl_dodag_config, init_rpl_prefix,
  init_rpl_errors, init_rpl_statistics,
}
use foren6_analyzer.RplDef.Delta.{instance_config_all, dodag_config_all, prefix_all, data_unchanged}
use foren6_analyzer.RplDef.Errors.{errors_unchanged}
use foren6_analyzer.SixlowpanDef.{
  init_sixlowpan_statistics, init_sixlowpan_statistics_delta, init_sixlowpan_errors,
  init_sixlowpan_errors_delta,
}
use foren6_analyzer.Node.{DiNode, NodeState}

abbrev pub no_address : AddrIpv6
no_address = record { addr32_0 = 0; addr32_1 = 0; addr32_2 = 0; addr32_3 = 0 }

abbrev pub no_data : RplInstanceData
no_data = record {
  rpl_instance_id = 0;
  has_rank = false;
  rank = 0;
  has_dio_data = false;
  grounded = false;
  preference = 0;
  dtsn = 0;
  has_dao_data = false;
  latest_dao_sequence = 0;
  has_metric = false;
  metric = init_rpl_metric;
}

abbrev pub no_statistics_delta : RplStatisticsDelta ℕ
no_statistics_delta = record {
  has_changed = false;
  last_dao_timestamp = 0;
  last_dio_timestamp = 0;
  max_dao_interval = 0;
  max_dio_interval = 0;
  dis = 0;
  dio = 0;
  dao = 0;
}

abbrev pub new_node : DiNode ℕ
new_node = record {
  key = record { ref = record { wpan_address = 7 } };
  simple_id = 1;
  dodag = record { dodagid = no_address; version = 0xffff };
  has_changed = true;
  has_errors = 0;
  sixlowpan_config = record {
    has_seen_local_address = false;
    is_custom_local_address = false;
    local_address = no_address;
    has_seen_global_address = false;
    is_custom_global_address = false;
    global_address = no_address;
    is_prefix_valid = false;
  };
  sixlowpan_config_delta = record {
    has_changed = false;
    local_address = false;
    global_address = false;
  };
  has_rpl_instance_config = false;
  rpl_instance_config = init_rpl_instance_config;
  rpl_instance_config_delta = instance_config_all false;
  actual_rpl_instance_config_delta = instance_config_all false;
  has_rpl_instance_data = false;
  rpl_instance_data = no_data;
  rpl_instance_data_delta = data_unchanged;
  has_rpl_dodag_config = false;
  rpl_dodag_config = init_rpl_dodag_config;
  rpl_dodag_config_delta = dodag_config_all false;
  actual_rpl_dodag_config_delta = dodag_config_all false;
  has_rpl_dodag_prefix_info = false;
  rpl_dodag_prefix_info = init_rpl_prefix;
  rpl_dodag_prefix_info_delta = prefix_all false;
  actual_rpl_dodag_prefix_info_delta = prefix_all false;
  routes_delta = false;
  routes = [];
  sixlowpan_statistics = init_sixlowpan_statistics;
  sixlowpan_statistics_delta = init_sixlowpan_statistics_delta;
  rpl_statistics = init_rpl_statistics;
  rpl_statistics_delta = no_statistics_delta;
  sixlowpan_errors = init_sixlowpan_errors;
  sixlowpan_errors_delta = init_sixlowpan_errors_delta;
  rpl_errors = init_rpl_errors;
  rpl_errors_delta = errors_unchanged;
}

abbrev pub start : NodeState ℕ
start = record { node = new_node; old = none; head = [] }
