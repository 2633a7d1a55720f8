-- ===== src/RplDef/Compare.antt =====
-- What the comparisons of rpl_def.c decide: a change that they do not see is no change.
use foren6_analyzer.Prelude.{◌^◌, ◌<◌, false, ◌≡◌, ◌↔◌, some, arith}
use foren6_analyzer.Prelude.Words.{sub32-eq-zero_iff}
use foren6_analyzer.Address.Compare.{
  IsAddrIpv6, addr_compare_ip-eq-zero_iff, prefix_compare-eq-zero_iff, leading_bits,
}
use foren6_analyzer.RplDef.Types.{RplPrefix, RplDodagConfig, RplInstanceConfig, RplInstanceData}
use foren6_analyzer.RplDef.Delta.{
  instance_config_two_sided, instance_config_fields, instance_config_has_changed,
  rpl_instance_config_delta, rpl_instance_config_compare, dodag_config_two_sided,
  dodag_config_fields, dodag_config_has_changed, rpl_dodag_config_delta, rpl_dodag_config_compare,
  rpl_prefix_compare, rpl_prefix_delta, prefix_fields, prefix_two_sided, prefix_has_changed,
  rpl_instance_data_compare, rpl_instance_data_delta, data_fields, data_two_sided, data_has_changed,
}

-- Two instance configurations whose DODAG ids have 32-bit words compare as unchanged exactly when
-- they are equal.
pub rpl_instance_config_compare-eq-false_iff :
    (l r : RplInstanceConfig)
    → IsAddrIpv6 l.dodagid
    → IsAddrIpv6 r.dodagid
    → (rpl_instance_config_compare (some l) (some r) ≡ false) ↔ (l ≡ r)
unfolding rpl_instance_config_compare rpl_instance_config_delta instance_config_fields
    instance_config_two_sided instance_config_has_changed
rpl_instance_config_compare-eq-false_iff l r vl vr =
    let addr = addr_compare_ip-eq-zero_iff r.dodagid l.dodagid vr vl in ground arith

-- Two DODAG configurations compare as unchanged exactly when they are equal.
pub rpl_dodag_config_compare-eq-false_iff :
    (l r : RplDodagConfig) → (rpl_dodag_config_compare (some l) (some r) ≡ false) ↔ (l ≡ r)
unfolding rpl_dodag_config_compare rpl_dodag_config_delta dodag_config_fields dodag_config_two_sided
    dodag_config_has_changed
rpl_dodag_config_compare-eq-false_iff l r = ground arith

-- The ranges of the fields of `rpl_prefix_t`.
pub record IsRplPrefix (p : RplPrefix) : Type 0 where
  pub words : IsAddrIpv6 p.prefix.prefix
  pub length : p.prefix.length < 256

-- The same prefix, its bits past the length apart, with the same flags and lifetimes.
pub record SamePrefix (l r : RplPrefix) : Type 0 where
  pub length : r.prefix.length ≡ l.prefix.length
  pub bits :
      leading_bits r.prefix.length r.prefix.prefix ≡ leading_bits r.prefix.length l.prefix.prefix
  pub on_link : r.on_link ≡ l.on_link
  pub auto_address_config : r.auto_address_config ≡ l.auto_address_config
  pub router_address : r.router_address ≡ l.router_address
  pub valid_lifetime : r.valid_lifetime ≡ l.valid_lifetime
  pub preferred_lifetime : r.preferred_lifetime ≡ l.preferred_lifetime

-- Two prefix options with 32-bit words and 8-bit lengths compare as unchanged exactly when they
-- announce the same prefix, with the same flags and lifetimes.
pub rpl_prefix_compare-eq-false_iff :
    (l r : RplPrefix)
    → IsRplPrefix l
    → IsRplPrefix r
    → (rpl_prefix_compare (some l) (some r) ≡ false) ↔ SamePrefix l r
unfolding rpl_prefix_compare rpl_prefix_delta prefix_fields prefix_two_sided prefix_has_changed
rpl_prefix_compare-eq-false_iff l r vl vr =
    let bits = prefix_compare-eq-zero_iff r.prefix l.prefix vr.words vl.words vr.length in
    ground arith

-- The ranges of the fields of `rpl_instance_data_t` that are subtracted.
pub record IsRplInstanceData (d : RplInstanceData) : Type 0 where
  pub metric : d.metric.value < 2 ^ 32
  pub sequence : d.latest_dao_sequence < 256

-- Two sets of instance data, with 32-bit metric values and 8-bit DAO sequence numbers, compare as
-- unchanged exactly when they are equal in all fields but the type of the metric.
pub rpl_instance_data_compare-eq-false_iff :
    (l r : RplInstanceData)
    → IsRplInstanceData l
    → IsRplInstanceData r
    → (rpl_instance_data_compare (some l) (some r) ≡ false)
      ↔ (record l { metric = record { type = r.metric.type; value = l.metric.value } } ≡ r)
unfolding rpl_instance_data_compare rpl_instance_data_delta data_fields data_two_sided
    data_has_changed
rpl_instance_data_compare-eq-false_iff l r vl vr =
    let value = sub32-eq-zero_iff r.metric.value l.metric.value vr.metric vl.metric in ground arith
