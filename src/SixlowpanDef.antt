-- ===== src/SixlowpanDef.antt =====
-- src/data_info/6lowpan_def.c and 6lowpan_def.h: what is kept of a node besides RPL, and the
-- differences between two versions of it. An `int` is its 32-bit pattern.
pub mod Delta
mod Tests
use foren6_analyzer.Prelude.{ℕ, Bool, false}
use foren6_analyzer.Address.{AddrIpv6, AddrWpan, init_ipv6_addr}

pub data PacketType : Type 0 where
  pt_none pt_icmpv6_unknown pt_ping_echo pt_ping_reply pt_ndp_rs pt_ndp_ra : PacketType
  pt_ndp_ns pt_ndp_na pt_ndp_redirect pt_6nd_dar pt_6nd_dac pt_rpl_unknown : PacketType
  pt_dis pt_dio pt_dao pt_udp pt_tcp pt_ipv6_unknown : PacketType

pub record PacketInfo (D : Type 0) : Type 0 where
  pub src_wpan_address : AddrWpan
  pub dst_wpan_address : AddrWpan
  pub src_ip_address : AddrIpv6
  pub dst_ip_address : AddrIpv6
  pub timestamp : D
  pub hop_limit : ℕ
  pub type : PacketType

pub record SixlowpanConfig : Type 0 where
  pub has_seen_local_address : Bool
  pub is_custom_local_address : Bool
  pub local_address : AddrIpv6
  pub has_seen_global_address : Bool
  pub is_custom_global_address : Bool
  pub global_address : AddrIpv6
  pub is_prefix_valid : Bool

pub record SixlowpanConfigDelta : Type 0 where
  pub has_changed : Bool
  pub local_address : Bool
  pub global_address : Bool

pub record SixlowpanStatistics : Type 0 where
  pub packet_count : ℕ

pub record SixlowpanStatisticsDelta : Type 0 where
  pub has_changed : Bool
  pub packet_count : ℕ

pub record SixlowpanErrors : Type 0 where
  pub invalid_ip : ℕ
  pub invalid_prefix : ℕ

pub record SixlowpanErrorsDelta : Type 0 where
  pub has_changed : Bool
  pub invalid_ip : ℕ
  pub invalid_prefix : ℕ

-- `is_prefix_valid` is not assigned.
unfoldable pub init_sixlowpan_config : SixlowpanConfig → SixlowpanConfig
init_sixlowpan_config config = record config {
  local_address = init_ipv6_addr;
  global_address = init_ipv6_addr;
  has_seen_local_address = false;
  is_custom_local_address = false;
  has_seen_global_address = false;
  is_custom_global_address = false;
}

unfoldable pub init_sixlowpan_statistics : SixlowpanStatistics
init_sixlowpan_statistics = record { packet_count = 0 }

unfoldable pub init_sixlowpan_statistics_delta : SixlowpanStatisticsDelta
init_sixlowpan_statistics_delta = record { has_changed = false; packet_count = 0 }

unfoldable pub init_sixlowpan_errors : SixlowpanErrors
init_sixlowpan_errors = record { invalid_ip = 0; invalid_prefix = 0 }

unfoldable pub init_sixlowpan_errors_delta : SixlowpanErrorsDelta
init_sixlowpan_errors_delta = record { has_changed = false; invalid_ip = 0; invalid_prefix = 0 }
