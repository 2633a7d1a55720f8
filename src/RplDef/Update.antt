-- ===== src/RplDef/Update.antt =====
-- The `update_` functions of rpl_def.c: what a message changes of the data kept about its sender.
-- A pointer that may be `NULL` is an option.
use foren6_analyzer.Prelude.{true, false, Option, none, some, if◌then◌else◌}
use foren6_analyzer.RplDef.Types.{
  RplDio, RplDao, RplMetric, RplHopByHopOpt, RplInstanceConfig, RplInstanceData,
}

unfoldable pub update_rpl_instance_config_from_dio :
    RplInstanceConfig → Option RplDio → RplInstanceConfig
update_rpl_instance_config_from_dio config none = config
update_rpl_instance_config_from_dio config (some dio) = record config {
  rpl_instance_id = dio.rpl_instance_id;
  has_dodagid = true;
  dodagid = dio.dodagid;
  has_dio_config = true;
  version_number = dio.version_number;
  mode_of_operation = dio.mode_of_operation;
}

unfoldable pub update_rpl_instance_data_from_dio : RplInstanceData → Option RplDio → RplInstanceData
update_rpl_instance_data_from_dio d none = d
update_rpl_instance_data_from_dio d (some dio) = record d {
  has_dio_data = true;
  has_rank = true;
  rpl_instance_id = dio.rpl_instance_id;
  rank = dio.rank;
  grounded = dio.grounded;
  preference = dio.preference;
  dtsn = dio.dtsn;
}

unfoldable pub update_rpl_instance_data_from_metric :
    RplInstanceData → Option RplMetric → RplInstanceData
update_rpl_instance_data_from_metric d (some m) = record d { has_metric = true; metric = m }
update_rpl_instance_data_from_metric d none = record d { has_metric = false }

unfoldable pub update_rpl_instance_data_from_hop_by_hop :
    RplInstanceData → Option RplHopByHopOpt → RplInstanceData
update_rpl_instance_data_from_hop_by_hop d (some h) = record d {
  has_rank = true;
  rank = h.sender_rank;
}
update_rpl_instance_data_from_hop_by_hop d none = d

unfoldable pub update_rpl_instance_config_from_dao :
    RplInstanceConfig → Option RplDao → RplInstanceConfig
update_rpl_instance_config_from_dao config none = config
update_rpl_instance_config_from_dao config (some dao) =
    let config' = record config { rpl_instance_id = dao.rpl_instance_id } in
    if dao.dodagid_present
    then record config' { has_dodagid = true; dodagid = dao.dodagid }
    else config'

unfoldable pub update_rpl_instance_data_from_dao : RplInstanceData → Option RplDao → RplInstanceData
update_rpl_instance_data_from_dao d none = d
update_rpl_instance_data_from_dao d (some dao) = record d {
  has_dao_data = true;
  latest_dao_sequence = dao.dao_sequence;
}
