-- ===== src/RplDef/Delta.antt =====
-- The `_delta` and `_compare` functions of rpl_def.c on configurations, prefixes and data. The
-- pointers `left` and `right` may be `NULL`; `delta` is not, and the new delta is returned.
use foren6_analyzer.Prelude.{
  ℕ, ◌+◌, ◌-◌, ◌%◌, Bool, true, false, ◌||◌, Option, none, some, ◌!=◌, differs, if◌then◌else◌,
}
use foren6_analyzer.Prelude.Words.{sub32}
use foren6_analyzer.Address.{addr_compare_ip, prefix_compare}
use foren6_analyzer.RplDef.Types.{
  RplPrefix, RplDodagConfig, RplInstanceConfig, RplInstanceData, RplInstanceConfigDelta,
  RplInstanceDataDelta, RplDodagConfigDelta, RplPrefixDelta,
}

-- A `bool` or a test kept in an `int`
abbrev pub int_of_bool : Bool → ℕ
int_of_bool b = if b then 1 else 0

-- Every test has the value `b`.
unfoldable pub instance_config_all : Bool → RplInstanceConfigDelta
instance_config_all b = record {
  has_changed = false;
  rpl_instance_id = b;
  has_dodagid = b;
  dodagid = b;
  has_dio_config = b;
  version_number = b;
  mode_of_operation = b;
}

unfoldable pub instance_config_two_sided :
    RplInstanceConfig → RplInstanceConfig → RplInstanceConfigDelta
instance_config_two_sided left right = record {
  has_changed = false;
  rpl_instance_id = right.rpl_instance_id != left.rpl_instance_id;
  has_dodagid = differs right.has_dodagid left.has_dodagid;
  dodagid = addr_compare_ip right.dodagid left.dodagid != 0;
  has_dio_config = differs right.has_dio_config left.has_dio_config;
  version_number = right.version_number != left.version_number;
  mode_of_operation = right.mode_of_operation != left.mode_of_operation;
}

-- The statements of `rpl_instance_config_delta` before the last one.
unfoldable pub instance_config_fields :
    Option RplInstanceConfig → Option RplInstanceConfig → RplInstanceConfigDelta
instance_config_fields none none = instance_config_all false
instance_config_fields none (some right) = instance_config_all true
instance_config_fields (some left) none = instance_config_all true
instance_config_fields (some left) (some right) = instance_config_two_sided left right

unfoldable pub instance_config_has_changed : RplInstanceConfigDelta → Bool
instance_config_has_changed d =
    d.rpl_instance_id || d.has_dodagid || d.dodagid || d.has_dio_config || d.version_number
    || d.mode_of_operation

unfoldable pub rpl_instance_config_delta :
    Option RplInstanceConfig → Option RplInstanceConfig → RplInstanceConfigDelta
rpl_instance_config_delta left right =
    let delta = instance_config_fields left right in
    record delta { has_changed = instance_config_has_changed delta }

unfoldable pub rpl_instance_config_compare :
    Option RplInstanceConfig → Option RplInstanceConfig → Bool
rpl_instance_config_compare left right = (rpl_instance_config_delta left right).has_changed

-- Every test has the value `b`.
unfoldable pub dodag_config_all : Bool → RplDodagConfigDelta
dodag_config_all b = record {
  has_changed = false;
  auth_enabled = b;
  path_control_size = b;
  dio_interval_min = b;
  dio_interval_max = b;
  dio_redundancy_constant = b;
  max_rank_inc = b;
  min_hop_rank_inc = b;
  default_lifetime = b;
  lifetime_unit = b;
  objective_function = b;
}

unfoldable pub dodag_config_two_sided : RplDodagConfig → RplDodagConfig → RplDodagConfigDelta
dodag_config_two_sided left right = record {
  has_changed = false;
  auth_enabled = right.auth_enabled != left.auth_enabled;
  path_control_size = right.path_control_size != left.path_control_size;
  dio_interval_min = right.dio_interval_min != left.dio_interval_min;
  dio_interval_max = right.dio_interval_max != left.dio_interval_max;
  dio_redundancy_constant = right.dio_redundancy_constant != left.dio_redundancy_constant;
  max_rank_inc = right.max_rank_inc != left.max_rank_inc;
  min_hop_rank_inc = right.min_hop_rank_inc != left.min_hop_rank_inc;
  default_lifetime = right.default_lifetime != left.default_lifetime;
  lifetime_unit = right.lifetime_unit != left.lifetime_unit;
  objective_function = right.objective_function != left.objective_function;
}

-- The statements of `rpl_dodag_config_delta` before the last one.
unfoldable pub dodag_config_fields :
    Option RplDodagConfig → Option RplDodagConfig → RplDodagConfigDelta
dodag_config_fields none none = dodag_config_all false
dodag_config_fields none (some right) = dodag_config_all true
dodag_config_fields (some left) none = dodag_config_all true
dodag_config_fields (some left) (some right) = dodag_config_two_sided left right

unfoldable pub dodag_config_has_changed : RplDodagConfigDelta → Bool
dodag_config_has_changed d =
    d.auth_enabled || d.path_control_size || d.dio_interval_min || d.dio_interval_max
    || d.dio_redundancy_constant || d.max_rank_inc || d.min_hop_rank_inc || d.default_lifetime
    || d.lifetime_unit || d.objective_function

unfoldable pub rpl_dodag_config_delta :
    Option RplDodagConfig → Option RplDodagConfig → RplDodagConfigDelta
rpl_dodag_config_delta left right =
    let delta = dodag_config_fields left right in
    record delta { has_changed = dodag_config_has_changed delta }

unfoldable pub rpl_dodag_config_compare : Option RplDodagConfig → Option RplDodagConfig → Bool
rpl_dodag_config_compare left right = (rpl_dodag_config_delta left right).has_changed

-- Every test has the value `b`.
unfoldable pub prefix_all : Bool → RplPrefixDelta
prefix_all b = record {
  has_changed = false;
  prefix = b;
  on_link = b;
  auto_address_config = b;
  router_address = b;
  valid_lifetime = b;
  preferred_lifetime = b;
}

unfoldable pub prefix_two_sided : RplPrefix → RplPrefix → RplPrefixDelta
prefix_two_sided left right = record {
  has_changed = false;
  prefix = prefix_compare right.prefix left.prefix != 0;
  on_link = differs right.on_link left.on_link;
  auto_address_config = differs right.auto_address_config left.auto_address_config;
  router_address = differs right.router_address left.router_address;
  valid_lifetime = right.valid_lifetime != left.valid_lifetime;
  preferred_lifetime = right.preferred_lifetime != left.preferred_lifetime;
}

-- The statements of `rpl_prefix_delta` before the last one.
unfoldable pub prefix_fields : Option RplPrefix → Option RplPrefix → RplPrefixDelta
prefix_fields none none = prefix_all false
prefix_fields none (some right) = prefix_all true
prefix_fields (some left) none = prefix_all true
prefix_fields (some left) (some right) = prefix_two_sided left right

unfoldable pub prefix_has_changed : RplPrefixDelta → Bool
prefix_has_changed d =
    d.prefix || d.on_link || d.auto_address_config || d.router_address || d.valid_lifetime
    || d.preferred_lifetime

unfoldable pub rpl_prefix_delta : Option RplPrefix → Option RplPrefix → RplPrefixDelta
rpl_prefix_delta left right =
    let delta = prefix_fields left right in record delta { has_changed = prefix_has_changed delta }

unfoldable pub rpl_prefix_compare : Option RplPrefix → Option RplPrefix → Bool
rpl_prefix_compare left right = (rpl_prefix_delta left right).has_changed

-- The last statement of `rpl_instance_data_delta`.
unfoldable pub data_has_changed : RplInstanceDataDelta → Bool
data_has_changed d =
    d.rpl_instance_id
    || d.has_metric
    || d.metric != 0
    || d.has_rank
    || d.rank != 0
    || d.has_dio_data
    || d.grounded
    || d.preference
    || d.dtsn != 0
    || d.has_dao_data
    || d.latest_dao_sequence != 0

-- One of the pointers is `NULL`, and the other points to the data.
unfoldable pub data_one_sided : RplInstanceData → RplInstanceDataDelta
data_one_sided d = record {
  has_changed = true;
  rpl_instance_id = true;
  has_metric = true;
  metric = d.metric.value;
  has_rank = d.has_rank;
  rank = d.rank;
  has_dio_data = d.has_dio_data;
  grounded = true;
  preference = true;
  dtsn = d.dtsn;
  has_dao_data = d.has_dao_data;
  latest_dao_sequence = d.latest_dao_sequence;
}

unfoldable pub data_two_sided : RplInstanceData → RplInstanceData → RplInstanceDataDelta
data_two_sided left right = record {
  has_changed = false;
  rpl_instance_id = right.rpl_instance_id != left.rpl_instance_id;
  has_metric = differs right.has_metric left.has_metric;
  metric = sub32 right.metric.value left.metric.value;
  has_rank = differs left.has_rank right.has_rank;
  rank = int_of_bool (right.rank != left.rank);
  has_dio_data = differs left.has_dio_data right.has_dio_data;
  grounded = differs right.grounded left.grounded;
  preference = right.preference != left.preference;
  dtsn = int_of_bool (right.dtsn != left.dtsn);
  has_dao_data = differs left.has_dao_data right.has_dao_data;
  latest_dao_sequence = (right.latest_dao_sequence + 256 - left.latest_dao_sequence) % 256;
}

unfoldable pub data_unchanged : RplInstanceDataDelta
data_unchanged = record {
  has_changed = false;
  rpl_instance_id = false;
  has_metric = false;
  metric = 0;
  has_rank = false;
  rank = 0;
  has_dio_data = false;
  grounded = false;
  preference = false;
  dtsn = 0;
  has_dao_data = false;
  latest_dao_sequence = 0;
}

-- The statements before the last one.
unfoldable pub data_fields : Option RplInstanceData → Option RplInstanceData → RplInstanceDataDelta
data_fields none none = data_unchanged
data_fields none (some right) = data_one_sided right
data_fields (some left) none = data_one_sided left
data_fields (some left) (some right) = data_two_sided left right

unfoldable pub rpl_instance_data_delta :
    Option RplInstanceData → Option RplInstanceData → RplInstanceDataDelta
rpl_instance_data_delta left right =
    let delta = data_fields left right in record delta { has_changed = data_has_changed delta }

unfoldable pub rpl_instance_data_compare : Option RplInstanceData → Option RplInstanceData → Bool
rpl_instance_data_compare left right = (rpl_instance_data_delta left right).has_changed
