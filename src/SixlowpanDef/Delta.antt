-- ===== src/SixlowpanDef/Delta.antt =====
-- The `_delta` functions of 6lowpan_def.c. The pointers `left` and `right` may be `NULL`.
use foren6_analyzer.Prelude.{
  ℕ, ◌^◌, ◌<◌, Bool, true, false, ◌||◌, Option, none, some, ◌!=◌, ◌≡◌, ◌↔◌, arith,
}
use foren6_analyzer.Prelude.Words.{sub32, sub32-eq-zero_iff}
use foren6_analyzer.Address.{addr_compare_ip}
use foren6_analyzer.Address.Compare.{IsAddrIpv6, addr_compare_ip-eq-zero_iff}
use foren6_analyzer.SixlowpanDef.{
  SixlowpanConfig, SixlowpanConfigDelta, SixlowpanStatistics, SixlowpanStatisticsDelta,
  SixlowpanErrors, SixlowpanErrorsDelta,
}

-- The last statement of `sixlowpan_config_delta`.
abbrev pub config_delta : Bool → Bool → SixlowpanConfigDelta
config_delta local global = record {
  has_changed = local || global;
  local_address = local;
  global_address = global;
}

unfoldable pub sixlowpan_config_delta :
    Option SixlowpanConfig → Option SixlowpanConfig → SixlowpanConfigDelta
sixlowpan_config_delta none none = config_delta false false
sixlowpan_config_delta none (some right) = config_delta true true
sixlowpan_config_delta (some left) none = config_delta true true
sixlowpan_config_delta (some left) (some right) =
    config_delta (addr_compare_ip right.local_address left.local_address != 0)
      (addr_compare_ip right.global_address left.global_address != 0)

abbrev pub statistics_delta : ℕ → SixlowpanStatisticsDelta
statistics_delta count = record { has_changed = count != 0; packet_count = count }

unfoldable pub sixlowpan_statistics_delta :
    Option SixlowpanStatistics → Option SixlowpanStatistics → SixlowpanStatisticsDelta
sixlowpan_statistics_delta none none = statistics_delta 0
sixlowpan_statistics_delta none (some right) = statistics_delta right.packet_count
sixlowpan_statistics_delta (some left) none = statistics_delta left.packet_count
sixlowpan_statistics_delta (some left) (some right) =
    statistics_delta (sub32 right.packet_count left.packet_count)

abbrev pub errors_delta : ℕ → ℕ → SixlowpanErrorsDelta
errors_delta ip prefix = record {
  has_changed = ip != 0 || prefix != 0;
  invalid_ip = ip;
  invalid_prefix = prefix;
}

unfoldable pub sixlowpan_errors_delta :
    Option SixlowpanErrors → Option SixlowpanErrors → SixlowpanErrorsDelta
sixlowpan_errors_delta none none = errors_delta 0 0
sixlowpan_errors_delta none (some right) = errors_delta right.invalid_ip right.invalid_prefix
sixlowpan_errors_delta (some left) none = errors_delta left.invalid_ip left.invalid_prefix
sixlowpan_errors_delta (some left) (some right) =
    errors_delta (sub32 right.invalid_ip left.invalid_ip)
      (sub32 right.invalid_prefix left.invalid_prefix)

-- The ranges of the fields that are compared.
pub record IsSixlowpanConfig (c : SixlowpanConfig) : Type 0 where
  pub local_words : IsAddrIpv6 c.local_address
  pub global_words : IsAddrIpv6 c.global_address

pub record IsSixlowpanErrors (e : SixlowpanErrors) : Type 0 where
  pub ip : e.invalid_ip < 2 ^ 32
  pub prefix : e.invalid_prefix < 2 ^ 32

-- On addresses with 32-bit words and 32-bit counts, the three differences report no change exactly
-- when both addresses, the packet count and both error counts are as they were.
pub sixlowpan_delta-eq-false_iff :
    (cl cr : SixlowpanConfig) (sl sr : SixlowpanStatistics) (el er : SixlowpanErrors)
    → IsSixlowpanConfig cl
    → IsSixlowpanConfig cr
    → sl.packet_count < 2 ^ 32
    → sr.packet_count < 2 ^ 32
    → IsSixlowpanErrors el
    → IsSixlowpanErrors er
    → (((sixlowpan_config_delta (some cl) (some cr)).has_changed ≡ false)
        ↔ ((cr.local_address ≡ cl.local_address) × (cr.global_address ≡ cl.global_address)))
      × (((sixlowpan_statistics_delta (some sl) (some sr)).has_changed ≡ false) ↔ (sr ≡ sl))
      × (((sixlowpan_errors_delta (some el) (some er)).has_changed ≡ false) ↔ (er ≡ el))
unfolding sixlowpan_config_delta sixlowpan_statistics_delta sixlowpan_errors_delta
sixlowpan_delta-eq-false_iff cl cr sl sr el er vl vr pl pr wl wr =
    let local =
      addr_compare_ip-eq-zero_iff cr.local_address cl.local_address vr.local_words vl.local_words in
    let global =
      addr_compare_ip-eq-zero_iff cr.global_address cl.global_address vr.global_words
        vl.global_words in
    let count = sub32-eq-zero_iff sr.packet_count sl.packet_count pr pl in
    let ip = sub32-eq-zero_iff er.invalid_ip el.invalid_ip wr.ip wl.ip in
    let prefix = sub32-eq-zero_iff er.invalid_prefix el.invalid_prefix wr.prefix wl.prefix in
    (ground arith, ground arith, ground arith)
