-- ===== src/RplDef/Tests.antt =====
-- Concrete runs of rpl_def.c, and the theorems about it at concrete data.
use foren6_analyzer.Prelude.{ℕ, ◌≡◌, refl, ◌↔◌, arith, true, false, some}
use foren6_analyzer.Prelude.Words.{sub32, add32}
use foren6_analyzer.Prelude.Double.{whole_double}
use foren6_analyzer.Address.{AddrIpv6}
use foren6_analyzer.RplDef.Types.{
  RplPrefix, RplDodagConfig, RplInstanceConfig, RplInstanceData, RplErrors, RplStatistics,
  RplStatisticsDelta,
}
use foren6_analyzer.RplDef.Delta.{
  rpl_instance_config_compare, rpl_dodag_config_compare, rpl_prefix_compare,
  rpl_instance_data_compare, rpl_instance_data_delta, data_fields, data_two_sided, data_has_changed,
}
use foren6_analyzer.RplDef.Errors.{
  rpl_errors_compare, rpl_errors_delta, errors_fields, errors_two_sided, errors_has_changed,
  SameCounters, rpl_errors_compare-eq-false_iff,
}
use foren6_analyzer.RplDef.Statistics.{rpl_statistics_compare, rpl_statistics_compare-eq-false_iff}
use foren6_analyzer.RplDef.Compare.{
  SamePrefix, rpl_instance_config_compare-eq-false_iff, rpl_dodag_config_compare-eq-false_iff,
  rpl_prefix_compare-eq-false_iff, rpl_instance_data_compare-eq-false_iff,
}

-- aaaa::1
abbrev root_id : AddrIpv6
root_id = record { addr32_0 = 0xaaaa; addr32_1 = 0; addr32_2 = 0; addr32_3 = 0x0100_0000 }

abbrev config : RplInstanceConfig
config = record {
  rpl_instance_id = 30;
  has_dodagid = true;
  dodagid = root_id;
  has_dio_config = true;
  version_number = 240;
  mode_of_operation = 2;
}

abbrev dodag_config : RplDodagConfig
dodag_config = record {
  auth_enabled = 0;
  path_control_size = 0;
  dio_interval_min = 12;
  dio_interval_max = 8;
  dio_redundancy_constant = 10;
  max_rank_inc = 1792;
  min_hop_rank_inc = 256;
  default_lifetime = 255;
  lifetime_unit = 65535;
  objective_function = 1;
}

abbrev prefix : RplPrefix
prefix = record {
  prefix = record { length = 64; prefix = root_id };
  on_link = true;
  auto_address_config = true;
  router_address = false;
  valid_lifetime = 86400;
  preferred_lifetime = 14400;
}

-- the same /64, by another address in it
abbrev other_prefix : RplPrefix
other_prefix = record prefix {
  prefix = record { length = 64; prefix = record root_id { addr32_3 = 0x0200_0000 } };
}

abbrev rank_data : RplInstanceData
rank_data = record {
  rpl_instance_id = 30;
  has_rank = true;
  rank = 512;
  has_dio_data = true;
  grounded = true;
  preference = 0;
  dtsn = 240;
  has_dao_data = false;
  latest_dao_sequence = 0;
  has_metric = true;
  metric = record { type = 7; value = 256 };
}

abbrev no_errors : RplErrors
no_errors = record {
  rank_errors = 0;
  forward_errors = 0;
  upward_rank_errors = 0;
  downward_rank_errors = 0;
  route_loop_errors = 0;
  ip_mismatch_errors = 0;
  dodag_version_decrease_errors = 0;
  dodag_mismatch_errors = 0;
  dodag_config_mismatch_errors = 0;
}

abbrev statistics : RplStatistics ℕ
statistics = record {
  last_dao_timestamp = 5;
  last_dio_timestamp = 7;
  max_dao_interval = 2;
  max_dio_interval = 3;
  dis = 1;
  dio = 4;
  dao = 2;
}

abbrev stale_delta : RplStatisticsDelta ℕ
stale_delta = record {
  has_changed = true;
  last_dao_timestamp = 0;
  last_dio_timestamp = 0;
  max_dao_interval = 9;
  max_dio_interval = 9;
  dis = 9;
  dio = 9;
  dao = 9;
}

-- A change of the metric's type alone is not reported.
metric_type_unseen :
    rpl_instance_data_compare
      (some rank_data)
      (some (record rank_data { metric = record { type = 8; value = 256 } }))
    ≡ false
unfolding rpl_instance_data_compare rpl_instance_data_delta data_fields data_two_sided
    data_has_changed sub32
metric_type_unseen = refl

-- One counter back by one and another on by one are reported as no change.
counters_cancel :
    rpl_errors_compare
      (some (record no_errors { rank_errors = 1 }))
      (some (record no_errors { forward_errors = 1 }))
    ≡ false
unfolding rpl_errors_compare rpl_errors_delta errors_fields errors_two_sided errors_has_changed
    sub32 add32
counters_cancel = refl

rpl_instance_config_compare-eq-false_iff_example :
    (rpl_instance_config_compare (some config) (some (record config { version_number = 241 }))
      ≡ false)
    ↔ (config ≡ record config { version_number = 241 })
rpl_instance_config_compare-eq-false_iff_example =
    rpl_instance_config_compare-eq-false_iff config (record config { version_number = 241 })
      (omega arith) (omega arith)

rpl_dodag_config_compare-eq-false_iff_example :
    (rpl_dodag_config_compare (some dodag_config) (some (record dodag_config { max_rank_inc = 0 }))
      ≡ false)
    ↔ (dodag_config ≡ record dodag_config { max_rank_inc = 0 })
rpl_dodag_config_compare-eq-false_iff_example =
    rpl_dodag_config_compare-eq-false_iff dodag_config (record dodag_config { max_rank_inc = 0 })

rpl_prefix_compare-eq-false_iff_example :
    (rpl_prefix_compare (some prefix) (some other_prefix) ≡ false) ↔ SamePrefix prefix other_prefix
rpl_prefix_compare-eq-false_iff_example =
    rpl_prefix_compare-eq-false_iff prefix other_prefix (omega arith) (omega arith)

rpl_instance_data_compare-eq-false_iff_example :
    (rpl_instance_data_compare (some rank_data) (some (record rank_data { rank = 768 })) ≡ false)
    ↔ (record rank_data { metric = record { type = 7; value = 256 } }
        ≡ record rank_data { rank = 768 })
rpl_instance_data_compare-eq-false_iff_example =
    rpl_instance_data_compare-eq-false_iff rank_data (record rank_data { rank = 768 }) (omega arith)
      (omega arith)

rpl_errors_compare-eq-false_iff_example :
    (rpl_errors_compare (some no_errors) (some (record no_errors { route_loop_errors = 1 }))
      ≡ false)
    ↔ SameCounters no_errors (record no_errors { route_loop_errors = 1 })
rpl_errors_compare-eq-false_iff_example =
    rpl_errors_compare-eq-false_iff no_errors (record no_errors { route_loop_errors = 1 })
      (omega arith)

rpl_statistics_compare-eq-false_iff_example :
    (rpl_statistics_compare (some statistics) (some (record statistics { dao = 3 })) stale_delta
      ≡ false)
    ↔ ((whole_double.is_zero_d (whole_double.sub_d 2 2) ≡ true)
        × (whole_double.is_zero_d (whole_double.sub_d 3 3) ≡ true)
        × (◌≡◌ {A = ℕ} 1 1)
        × (◌≡◌ {A = ℕ} 4 4)
        × (◌≡◌ {A = ℕ} 3 2))
rpl_statistics_compare-eq-false_iff_example =
    rpl_statistics_compare-eq-false_iff statistics (record statistics { dao = 3 }) stale_delta
      (omega arith) (omega arith) (omega arith) (omega arith) (omega arith) (omega arith)
