-- ===== src/Dodag/Zero.antt =====
-- What `memset` with 0 leaves in the parts of a DODAG, src/data_info/dodag.c.
use foren6_analyzer.Prelude.{false}
use foren6_analyzer.Address.{init_ipv6_addr, init_prefix}
use foren6_analyzer.RplDef.Types.{
  RplDodagConfig, RplDodagConfigDelta, RplInstanceConfig, RplInstanceConfigDelta, RplPrefix,
  RplPrefixDelta,
}

abbrev pub zero_instance_config : RplInstanceConfig
unfolding init_ipv6_addr
zero_instance_config = record {
  rpl_instance_id = 0;
  has_dodagid = false;
  dodagid = init_ipv6_addr;
  has_dio_config = false;
  version_number = 0;
  mode_of_operation = 0;
}

abbrev pub zero_instance_config_delta : RplInstanceConfigDelta
zero_instance_config_delta = record {
  has_changed = false;
  rpl_instance_id = false;
  has_dodagid = false;
  dodagid = false;
  has_dio_config = false;
  version_number = false;
  mode_of_operation = false;
}

abbrev pub zero_dodag_config : RplDodagConfig
zero_dodag_config = record {
  auth_enabled = 0;
  path_control_size = 0;
  dio_interval_min = 0;
  dio_interval_max = 0;
  dio_redundancy_constant = 0;
  max_rank_inc = 0;
  min_hop_rank_inc = 0;
  default_lifetime = 0;
  lifetime_unit = 0;
  objective_function = 0;
}

abbrev pub zero_dodag_config_delta : RplDodagConfigDelta
zero_dodag_config_delta = record {
  has_changed = false;
  auth_enabled = false;
  path_control_size = false;
  dio_interval_min = false;
  dio_interval_max = false;
  dio_redundancy_constant = false;
  max_rank_inc = false;
  min_hop_rank_inc = false;
  default_lifetime = false;
  lifetime_unit = false;
  objective_function = false;
}

abbrev pub zero_prefix : RplPrefix
unfolding init_prefix
zero_prefix = record {
  prefix = init_prefix;
  on_link = false;
  auto_address_config = false;
  router_address = false;
  valid_lifetime = 0;
  preferred_lifetime = 0;
}

abbrev pub zero_prefix_delta : RplPrefixDelta
zero_prefix_delta = record {
  has_changed = false;
  prefix = false;
  on_link = false;
  auto_address_config = false;
  router_address = false;
  valid_lifetime = false;
  preferred_lifetime = false;
}
