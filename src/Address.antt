-- ===== src/Address.antt =====
-- src/data_info/address.c and address.h: IPv6 and IEEE 802.15.4 addresses.
-- An `int` result is its 32-bit pattern: callers compare it with 0.
-- The host is little-endian: `__u6_addr8[4 * i + j]` is byte `j`, from the lowest, of
-- `__u6_addr32[i]`, and `be32toh` and `htobe64` reverse the bytes.
pub mod Autoconf
pub mod Compare
pub mod Masks
mod Tests
use foren6_analyzer.Prelude.{
  ℕ, zero, suc, ◌+◌, ◌-◌, ◌*◌, ◌/◌, ◌%◌, ◌^◌, bit_and, bit_or, bit_xor, Bool, not, ◌&&◌, ◌||◌, ltb,
  ◌==◌, ◌!=◌, if◌then◌else◌, true, false,
}
use foren6_analyzer.Prelude.Words.{bswap32, bswap64, sub32}

-- `addr_wpan_t`, a `uint64_t`
abbrev pub AddrWpan : Type 0
AddrWpan = ℕ

-- `struct in6_addr`, by its words `__u6_addr32` as the host reads them
pub record AddrIpv6 : Type 0 where
  pub addr32_0 : ℕ
  pub addr32_1 : ℕ
  pub addr32_2 : ℕ
  pub addr32_3 : ℕ

pub record DiPrefix : Type 0 where
  pub length : ℕ
  pub prefix : AddrIpv6

-- `__u6_addr8[0]`
abbrev pub addr8_0 : AddrIpv6 → ℕ
addr8_0 a = a.addr32_0 % 256

-- the word whose bytes, from the lowest, are given
abbrev pub le32 : ℕ → ℕ → ℕ → ℕ → ℕ
le32 b0 b1 b2 b3 = b0 + b1 * 2 ^ 8 + b2 * 2 ^ 16 + b3 * 2 ^ 24

-- `(x >> k) & 0xFF`
abbrev pub byte_at : ℕ → ℕ → ℕ
byte_at x k = x / 2 ^ k % 256

unfoldable pub init_ipv6_addr : AddrIpv6
init_ipv6_addr = record { addr32_0 = 0; addr32_1 = 0; addr32_2 = 0; addr32_3 = 0 }

unfoldable pub init_prefix : DiPrefix
init_prefix = record { length = 0; prefix = init_ipv6_addr }

unfoldable pub addr_get_int_id_from_mac64 : AddrWpan → ℕ
addr_get_int_id_from_mac64 mac_address = bit_xor mac_address 0x0200_0000_0000_0000

unfoldable pub addr_get_mac64_from_int_id : ℕ → AddrWpan
addr_get_mac64_from_int_id int_id = bit_xor int_id 0x0200_0000_0000_0000

unfoldable pub addr_get_mac64_from_ip : AddrIpv6 → AddrWpan
addr_get_mac64_from_ip address =
    addr_get_mac64_from_int_id
      (bit_or (bswap32 address.addr32_2 * 2 ^ 32 % 2 ^ 64) (bswap32 address.addr32_3))

unfoldable pub addr_get_local_ip_from_mac64 : AddrWpan → AddrIpv6
addr_get_local_ip_from_mac64 mac_address =
    let int_id = addr_get_int_id_from_mac64 mac_address in
    record {
      addr32_0 = le32 0xFE 0x80 0x00 0x00;
      addr32_1 = le32 0x00 0x00 0x00 0x00;
      addr32_2 =
          le32 (byte_at int_id 56) (byte_at int_id 48) (byte_at int_id 40) (byte_at int_id 32);
      addr32_3 = le32 (byte_at int_id 24) (byte_at int_id 16) (byte_at int_id 8) (byte_at int_id 0);
    }

-- `for(i = 0; i < n; i++) mask = (mask >> 1) | 0x8000000000000000;`
mask_loop : ℕ → ℕ → ℕ
mask_loop zero mask = mask
mask_loop (suc n) mask = mask_loop n (bit_or (mask / 2) 0x8000_0000_0000_0000)

unfoldable pub leading_mask : ℕ → ℕ
unfolding mask_loop
leading_mask n = mask_loop n 0

unfoldable pub addr_get_global_ip_from_mac64 : DiPrefix → AddrWpan → AddrIpv6
addr_get_global_ip_from_mac64 prefix mac_address =
    let int_id = addr_get_int_id_from_mac64 mac_address in
    let prefix_length = if ltb 64 prefix.length then 64 else prefix.length in
    let mask = bswap64 (leading_mask prefix_length) in
    let data_0 = bit_and prefix.prefix.addr32_0 (bit_and mask 0xFFFF_FFFF) in
    let data_1 = bit_and prefix.prefix.addr32_1 (mask / 2 ^ 32) in
    record {
      addr32_0 = le32 (byte_at data_0 0) (byte_at data_0 8) (byte_at data_0 16) (byte_at data_0 24);
      addr32_1 = le32 (byte_at data_1 0) (byte_at data_1 8) (byte_at data_1 16) (byte_at data_1 24);
      addr32_2 =
          le32 (byte_at int_id 56) (byte_at int_id 48) (byte_at int_id 40) (byte_at int_id 32);
      addr32_3 = le32 (byte_at int_id 24) (byte_at int_id 16) (byte_at int_id 8) (byte_at int_id 0);
    }

unfoldable pub addr_compare_ip : AddrIpv6 → AddrIpv6 → ℕ
addr_compare_ip a b =
    let res0 = sub32 a.addr32_0 b.addr32_0 in
    let res1 = sub32 a.addr32_1 b.addr32_1 in
    let res2 = sub32 a.addr32_2 b.addr32_2 in
    if res0 != 0
    then res0
    else if res1 != 0
    then res1
    else if res2 != 0
    then res2
    else sub32 a.addr32_3 b.addr32_3

-- `uint64_t` subtraction, converted to `int`
unfoldable pub int_of_sub64 : ℕ → ℕ → ℕ
int_of_sub64 a b = (a + 2 ^ 64 - b) % 2 ^ 64 % 2 ^ 32

unfoldable pub addr_compare_wpan : AddrWpan → AddrWpan → ℕ
addr_compare_wpan a b = int_of_sub64 a b

-- The returns of `addr_compare_ip_len`: the first difference that is not 0, of the two low words
-- only if `bit_len > 64`.
unfoldable pub compare_results : Bool → ℕ → ℕ → ℕ → ℕ → ℕ
compare_results long res0 res1 res2 res3 =
    if res0 != 0
    then res0
    else if res1 != 0
    then res1
    else if long
    then (if res2 != 0 then res2 else res3)
    else res1

-- The mask of the two high words.
unfoldable pub high_mask : ℕ → ℕ
high_mask bit_len = if ltb bit_len 64 then bswap64 (leading_mask bit_len) else 0xFFFF_FFFF_FFFF_FFFF

unfoldable pub addr_compare_ip_len : AddrIpv6 → AddrIpv6 → ℕ → ℕ
addr_compare_ip_len a b bit_len =
    let mask = high_mask bit_len in
    let low_mask = bswap64 (leading_mask (bit_len - 64)) in
    compare_results (ltb 64 bit_len)
      (int_of_sub64 (bit_and a.addr32_0 (bit_and mask 0xFFFF_FFFF))
        (bit_and b.addr32_0 (bit_and mask 0xFFFF_FFFF)))
      (int_of_sub64 (bit_and a.addr32_1 (mask / 2 ^ 32)) (bit_and b.addr32_1 (mask / 2 ^ 32)))
      (int_of_sub64 (bit_and a.addr32_2 (bit_and low_mask 0xFFFF_FFFF))
        (bit_and b.addr32_2 (bit_and low_mask 0xFFFF_FFFF)))
      (int_of_sub64 (bit_and a.addr32_3 (low_mask / 2 ^ 32))
        (bit_and b.addr32_3 (low_mask / 2 ^ 32)))

unfoldable pub prefix_compare : DiPrefix → DiPrefix → ℕ
prefix_compare a b =
    if a.length == b.length && addr_compare_ip_len a.prefix b.prefix a.length == 0 then 0 else 1

unfoldable pub addr_prefix_compare : DiPrefix → AddrIpv6 → ℕ
addr_prefix_compare a b = addr_compare_ip_len a.prefix b a.length

-- `memcmp` of the 16 bytes with zeros
unfoldable pub addr_is_ip_any : AddrIpv6 → Bool
addr_is_ip_any a = a.addr32_0 == 0 && a.addr32_1 == 0 && a.addr32_2 == 0 && a.addr32_3 == 0

unfoldable pub addr_is_ip_multicast : AddrIpv6 → Bool
addr_is_ip_multicast address = addr8_0 address == 0xFF

unfoldable pub addr_is_ip_local : AddrIpv6 → Bool
addr_is_ip_local address = addr8_0 address == 0xFE

unfoldable pub addr_is_ip_global : AddrIpv6 → Bool
addr_is_ip_global address = addr8_0 address != 0xFE && addr8_0 address != 0xFF

unfoldable pub addr_is_mac64_broadcast : AddrWpan → Bool
addr_is_mac64_broadcast address = address == 0xFFFF || address == 0
