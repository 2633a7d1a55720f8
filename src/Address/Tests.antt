-- ===== src/Address/Tests.antt =====
-- Concrete runs of address.c, and the theorems about it at concrete addresses.
use foren6_analyzer.Prelude.{ℕ, ◌+◌, ◌*◌, ◌/◌, ◌^◌, ◌%◌, ◌≡◌, refl, ◌↔◌, arith}
use foren6_analyzer.Prelude.Words.{bswap64}
use foren6_analyzer.Address.{
  AddrIpv6, AddrWpan, DiPrefix, addr_get_int_id_from_mac64, addr_get_mac64_from_ip,
  addr_get_local_ip_from_mac64, addr_get_global_ip_from_mac64, addr_compare_ip, addr_compare_wpan,
  addr_compare_ip_len, prefix_compare, addr_prefix_compare, leading_mask, compare_results,
  int_of_sub64, high_mask,
}
use foren6_analyzer.Address.Masks.{half64}
use foren6_analyzer.Address.Compare.{
  IsAddrIpv6, network, leading_bits, addr_compare_ip-eq-zero_iff, addr_compare_wpan-eq-zero_iff,
  addr_compare_ip_len-eq-zero_iff, prefix_compare-eq-zero_iff,
}
use foren6_analyzer.Address.Autoconf.{
  addr_get_mac64_from_ip-autoconf, network-global_ip, addr_prefix_compare-global_ip,
}

-- aaaa::/64
abbrev pub lab_prefix : DiPrefix
lab_prefix = record {
  length = 64;
  prefix = record { addr32_0 = 0xaaaa; addr32_1 = 0; addr32_2 = 0; addr32_3 = 0 };
}

abbrev pub mac : AddrWpan
mac = 0x0212_7400_0001_0203

-- aaaa::12:7400:1:203
abbrev pub lab_address : AddrIpv6
lab_address = record {
  addr32_0 = 0xaaaa;
  addr32_1 = 0;
  addr32_2 = 0x0074_1200;
  addr32_3 = 0x0302_0100;
}

lab_prefix-IsAddrIpv6 : IsAddrIpv6 lab_prefix.prefix
lab_prefix-IsAddrIpv6 = omega arith

lab_address-IsAddrIpv6 : IsAddrIpv6 lab_address
lab_address-IsAddrIpv6 = omega arith

global_ip_lab : addr_get_global_ip_from_mac64 lab_prefix mac ≡ lab_address
unfolding addr_get_global_ip_from_mac64 addr_get_int_id_from_mac64 leading_mask bswap64
global_ip_lab = refl

compare_ip_len_lab :
    (addr_compare_ip_len lab_prefix.prefix lab_address 75 ≡ 0)
    × (addr_compare_ip_len lab_prefix.prefix lab_address 128 ≡ 0xff8b_ee00)
unfolding addr_compare_ip_len compare_results int_of_sub64 high_mask leading_mask bswap64
compare_ip_len_lab = (refl, refl)

addr_compare_ip-eq-zero_iff_example :
    (addr_compare_ip lab_address lab_prefix.prefix ≡ 0) ↔ (lab_address ≡ lab_prefix.prefix)
addr_compare_ip-eq-zero_iff_example =
    addr_compare_ip-eq-zero_iff lab_address lab_prefix.prefix lab_address-IsAddrIpv6
      lab_prefix-IsAddrIpv6

addr_compare_wpan-eq-zero_iff_example :
    (addr_compare_wpan mac 0x0001_0203 ≡ 0) ↔ (mac % 2 ^ 32 ≡ 0x0001_0203 % 2 ^ 32)
addr_compare_wpan-eq-zero_iff_example =
    addr_compare_wpan-eq-zero_iff mac 0x0001_0203 (omega arith) (omega arith)

addr_compare_ip_len-eq-zero_iff_example :
    (addr_compare_ip_len lab_address lab_prefix.prefix 70 ≡ 0)
    ↔ (leading_bits 70 lab_address ≡ leading_bits 70 lab_prefix.prefix)
addr_compare_ip_len-eq-zero_iff_example =
    addr_compare_ip_len-eq-zero_iff lab_address lab_prefix.prefix 70 lab_address-IsAddrIpv6
      lab_prefix-IsAddrIpv6 (omega arith)

addr_get_mac64_from_ip-autoconf_example :
    (addr_get_mac64_from_ip (addr_get_local_ip_from_mac64 mac) ≡ mac)
    × (addr_get_mac64_from_ip (addr_get_global_ip_from_mac64 lab_prefix mac) ≡ mac)
addr_get_mac64_from_ip-autoconf_example =
    addr_get_mac64_from_ip-autoconf lab_prefix mac (omega arith)

network-global_ip_example :
    network (addr_get_global_ip_from_mac64 lab_prefix mac)
    ≡ half64 0xaaaa 0 / 2 ^ 0 * 2 ^ 0 * 2 ^ 64 + addr_get_int_id_from_mac64 mac
network-global_ip_example = network-global_ip lab_prefix mac lab_prefix-IsAddrIpv6 (omega arith)

addr_prefix_compare-global_ip_example :
    addr_prefix_compare lab_prefix (addr_get_global_ip_from_mac64 lab_prefix mac) ≡ 0
addr_prefix_compare-global_ip_example =
    addr_prefix_compare-global_ip lab_prefix mac lab_prefix-IsAddrIpv6 (omega arith) (omega arith)

prefix_compare-eq-zero_iff_example :
    (prefix_compare lab_prefix (record { length = 64; prefix = lab_address }) ≡ 0)
    ↔ ((◌≡◌ {A = ℕ} 64 64) × (leading_bits 64 lab_prefix.prefix ≡ leading_bits 64 lab_address))
prefix_compare-eq-zero_iff_example =
    prefix_compare-eq-zero_iff lab_prefix (record { length = 64; prefix = lab_address })
      lab_prefix-IsAddrIpv6 lab_address-IsAddrIpv6 (omega arith)
