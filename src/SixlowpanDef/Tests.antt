-- ===== src/SixlowpanDef/Tests.antt =====
-- The theorem about the differences of 6lowpan_def.c at concrete data.
use foren6_analyzer.Prelude.{ℕ, ◌≡◌, ◌↔◌, arith, true, false, some}
use foren6_analyzer.Address.{AddrIpv6}
use foren6_analyzer.SixlowpanDef.{SixlowpanConfig, SixlowpanStatistics, SixlowpanErrors}
use foren6_analyzer.SixlowpanDef.Delta.{
  sixlowpan_config_delta, sixlowpan_statistics_delta, sixlowpan_errors_delta,
  sixlowpan_delta-eq-false_iff,
}

abbrev link_local : AddrIpv6
link_local = record {
  addr32_0 = 0x80fe;
  addr32_1 = 0;
  addr32_2 = 0x0074_1200;
  addr32_3 = 0x0302_0100;
}

abbrev old_config : SixlowpanConfig
old_config = record {
  has_seen_local_address = true;
  is_custom_local_address = false;
  local_address = link_local;
  has_seen_global_address = false;
  is_custom_global_address = false;
  global_address = record { addr32_0 = 0; addr32_1 = 0; addr32_2 = 0; addr32_3 = 0 };
  is_prefix_valid = false;
}

abbrev new_config : SixlowpanConfig
new_config = record old_config { global_address = link_local }

abbrev count : ℕ → SixlowpanStatistics
count n = record { packet_count = n }

abbrev errors : ℕ → ℕ → SixlowpanErrors
errors ip prefix = record { invalid_ip = ip; invalid_prefix = prefix }

sixlowpan_delta-eq-false_iff_example :
    (((sixlowpan_config_delta (some old_config) (some new_config)).has_changed ≡ false)
      ↔ ((link_local ≡ link_local) × (link_local ≡ old_config.global_address)))
    × (((sixlowpan_statistics_delta (some (count 3)) (some (count 4))).has_changed ≡ false)
        ↔ (count 4 ≡ count 3))
    × (((sixlowpan_errors_delta (some (errors 0 1)) (some (errors 0 1))).has_changed ≡ false)
        ↔ (errors 0 1 ≡ errors 0 1))
sixlowpan_delta-eq-false_iff_example =
    sixlowpan_delta-eq-false_iff old_config new_config (count 3) (count 4) (errors 0 1) (errors 0 1)
      (omega arith) (omega arith) (omega arith) (omega arith) (omega arith) (omega arith)
