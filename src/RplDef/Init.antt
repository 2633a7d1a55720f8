-- ===== src/RplDef/Init.antt =====
-- The `init_` functions of rpl_def.c. They assign the fields that they name: a field that they
-- leave alone keeps its value, which `calloc` has set to zero.
use foren6_analyzer.Prelude.{false}
use foren6_analyzer.Prelude.Double.{Double}
use foren6_analyzer.Address.{init_ipv6_addr, init_prefix}
use foren6_analyzer.RplDef.Types.{
  RplMetric, RplPrefix, RplDodagConfig, RplInstanceConfig, RplInstanceData, RplErrors,
  RplStatistics,
}

unfoldable pub init_rpl_instance_config : RplInstanceConfig
init_rpl_instance_config = record {
  rpl_instance_id = 0;
  has_dodagid = false;
  dodagid = init_ipv6_addr;
  has_dio_config = false;
  version_number = 0;
  mode_of_operation = 0;
}

unfoldable pub init_rpl_metric : RplMetric
init_rpl_metric = record { type = 0; value = 0 }

unfoldable pub init_rpl_instance_data : RplInstanceData → RplInstanceData
init_rpl_instance_data d = record d {
  rpl_instance_id = 0;
  has_dio_data = false;
  grounded = false;
  preference = 0;
  dtsn = 0;
  has_rank = false;
  rank = 0;
  has_metric = false;
  metric = init_rpl_metric;
}

unfoldable pub init_rpl_dodag_config : RplDodagConfig
init_rpl_dodag_config = record {
  auth_enabled = 0;
  path_control_size = 0;
  dio_interval_min = 0;
  dio_interval_max = 0;
  dio_redundancy_constant = 0;
  max_rank_inc = 0;
  min_hop_rank_inc = 0;
  default_lifetime = 0;
  lifetime_unit = 0;
  objective_function = 0;
}

unfoldable pub init_rpl_prefix : RplPrefix
init_rpl_prefix = record {
  prefix = init_prefix;
  on_link = false;
  auto_address_config = false;
  router_address = false;
  valid_lifetime = 0;
  preferred_lifetime = 0;
}

unfoldable pub init_rpl_statistics : {D : Type 0} ⦃f : Double D⦄ → RplStatistics D
init_rpl_statistics ⦃f⦄ = record {
  last_dao_timestamp = f.zero_d;
  last_dio_timestamp = f.zero_d;
  max_dao_interval = f.zero_d;
  max_dio_interval = f.zero_d;
  dis = 0;
  dio = 0;
  dao = 0;
}

unfoldable pub init_rpl_errors : RplErrors
init_rpl_errors = record {
  rank_errors = 0;
  forward_errors = 0;
  upward_rank_errors = 0;
  downward_rank_errors = 0;
  route_loop_errors = 0;
  ip_mismatch_errors = 0;
  dodag_version_decrease_errors = 0;
  dodag_mismatch_errors = 0;
  dodag_config_mismatch_errors = 0;
}
