-- ===== src/RplDef/Types.antt =====
-- The types of rpl_def.h. A `uint8_t`, `uint16_t` or `uint32_t` is a number, an `int` its 32-bit
-- pattern; an enumeration that is filled from a dissected integer is that integer.
use foren6_analyzer.Prelude.{ℕ, Bool}
use foren6_analyzer.Address.{AddrIpv6, DiPrefix}

-- `rpl_dio_opt_metric_t`, also `rpl_metric_t`
pub record RplMetric : Type 0 where
  pub type : ℕ
  pub value : ℕ

-- `rpl_dio_opt_prefix_t`, also `rpl_prefix_t`
pub record RplPrefix : Type 0 where
  pub prefix : DiPrefix
  pub on_link : Bool
  pub auto_address_config : Bool
  pub router_address : Bool
  pub valid_lifetime : ℕ
  pub preferred_lifetime : ℕ

-- `rpl_dio_opt_route_t`
pub record RplDioOptRoute : Type 0 where
  pub preference : ℕ
  pub lifetime : ℕ
  pub prefix_bit_length : ℕ
  pub route_prefix : AddrIpv6

-- `rpl_dio_opt_config_t`, also `rpl_dodag_config_t`
pub record RplDodagConfig : Type 0 where
  pub auth_enabled : ℕ
  pub path_control_size : ℕ
  pub dio_interval_min : ℕ
  pub dio_interval_max : ℕ
  pub dio_redundancy_constant : ℕ
  pub max_rank_inc : ℕ
  pub min_hop_rank_inc : ℕ
  pub default_lifetime : ℕ
  pub lifetime_unit : ℕ
  pub objective_function : ℕ

pub record RplDio : Type 0 where
  pub rpl_instance_id : ℕ
  pub version_number : ℕ
  pub rank : ℕ
  pub grounded : Bool
  pub preference : ℕ
  pub mode_of_operation : ℕ
  pub dtsn : ℕ
  pub dodagid : AddrIpv6

pub record RplDao : Type 0 where
  pub rpl_instance_id : ℕ
  pub want_ack : Bool
  pub dodagid_present : Bool
  pub dodagid : AddrIpv6
  pub dao_sequence : ℕ

pub record RplDaoOptTarget : Type 0 where
  pub target_bit_length : ℕ
  pub target : AddrIpv6

pub record RplDaoOptTransit : Type 0 where
  pub external : Bool
  pub parent_addr_present : Bool
  pub path_control : ℕ
  pub path_sequence : ℕ
  pub path_lifetime : ℕ
  pub parent_address : AddrIpv6

pub record RplDisOptInfoReq : Type 0 where
  pub instance_predicate : Bool
  pub rpl_instance_id : ℕ
  pub version_predicate : Bool
  pub rpl_version : ℕ
  pub dodag_predicate : Bool
  pub dodagid : AddrIpv6

pub record RplHopByHopOpt : Type 0 where
  pub packet_toward_root : Bool
  pub rank_error : Bool
  pub forwarding_error : Bool
  pub rpl_instance_id : ℕ
  pub sender_rank : ℕ

pub record RplInstanceConfig : Type 0 where
  pub rpl_instance_id : ℕ
  pub has_dodagid : Bool
  pub dodagid : AddrIpv6
  pub has_dio_config : Bool
  pub version_number : ℕ
  pub mode_of_operation : ℕ

pub record RplInstanceData : Type 0 where
  pub rpl_instance_id : ℕ
  pub has_rank : Bool
  pub rank : ℕ
  pub has_dio_data : Bool
  pub grounded : Bool
  pub preference : ℕ
  pub dtsn : ℕ
  pub has_dao_data : Bool
  pub latest_dao_sequence : ℕ
  pub has_metric : Bool
  pub metric : RplMetric

pub record RplInstanceConfigDelta : Type 0 where
  pub has_changed : Bool
  pub rpl_instance_id : Bool
  pub has_dodagid : Bool
  pub dodagid : Bool
  pub has_dio_config : Bool
  pub version_number : Bool
  pub mode_of_operation : Bool

pub record RplInstanceDataDelta : Type 0 where
  pub has_changed : Bool
  pub rpl_instance_id : Bool
  pub has_metric : Bool
  pub metric : ℕ
  pub has_rank : Bool
  pub rank : ℕ
  pub has_dio_data : Bool
  pub grounded : Bool
  pub preference : Bool
  pub dtsn : ℕ
  pub has_dao_data : Bool
  pub latest_dao_sequence : ℕ

pub record RplDodagConfigDelta : Type 0 where
  pub has_changed : Bool
  pub auth_enabled : Bool
  pub path_control_size : Bool
  pub dio_interval_min : Bool
  pub dio_interval_max : Bool
  pub dio_redundancy_constant : Bool
  pub max_rank_inc : Bool
  pub min_hop_rank_inc : Bool
  pub default_lifetime : Bool
  pub lifetime_unit : Bool
  pub objective_function : Bool

pub record RplPrefixDelta : Type 0 where
  pub has_changed : Bool
  pub prefix : Bool
  pub on_link : Bool
  pub auto_address_config : Bool
  pub router_address : Bool
  pub valid_lifetime : Bool
  pub preferred_lifetime : Bool

pub record RplErrors : Type 0 where
  pub rank_errors : ℕ
  pub forward_errors : ℕ
  pub upward_rank_errors : ℕ
  pub downward_rank_errors : ℕ
  pub route_loop_errors : ℕ
  pub ip_mismatch_errors : ℕ
  pub dodag_version_decrease_errors : ℕ
  pub dodag_mismatch_errors : ℕ
  pub dodag_config_mismatch_errors : ℕ

pub record RplErrorsDelta : Type 0 where
  pub has_changed : ℕ
  pub rank_errors : ℕ
  pub forward_errors : ℕ
  pub upward_rank_errors : ℕ
  pub downward_rank_errors : ℕ
  pub route_loop_errors : ℕ
  pub ip_mismatch_errors : ℕ
  pub dodag_version_decrease_errors : ℕ
  pub dodag_mismatch_errors : ℕ
  pub dodag_config_mismatch_errors : ℕ

-- A `double` is of a type that the functions on it are given.
pub record RplStatistics (D : Type 0) : Type 0 where
  pub last_dao_timestamp : D
  pub last_dio_timestamp : D
  pub max_dao_interval : D
  pub max_dio_interval : D
  pub dis : ℕ
  pub dio : ℕ
  pub dao : ℕ

pub record RplStatisticsDelta (D : Type 0) : Type 0 where
  pub has_changed : Bool
  pub last_dao_timestamp : D
  pub last_dio_timestamp : D
  pub max_dao_interval : D
  pub max_dio_interval : D
  pub dis : ℕ
  pub dio : ℕ
  pub dao : ℕ
