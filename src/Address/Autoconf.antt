-- ===== src/Address/Autoconf.antt =====
-- The addresses that a node configures from its MAC address.
use foren6_analyzer.Prelude.{
  ℕ, ◌+◌, ◌-◌, ◌*◌, ◌/◌, ◌%◌, ◌^◌, ◌≤◌, ◌<◌, min, bit_and, true, false, ◌≡◌, refl, ap, arith, ◌∙◌,
  sym, ltb, if◌then◌else◌,
}
use foren6_analyzer.Prelude.Bits.{bit_or-disjoint, bit_xor-bit_xor, bit_xor-lt, bit_and-lt}
use foren6_analyzer.Prelude.Words.{bswap32, bswap64}
use foren6_analyzer.Address.{
  AddrIpv6, AddrWpan, DiPrefix, le32, byte_at, leading_mask, addr_get_int_id_from_mac64,
  addr_get_mac64_from_int_id, addr_get_mac64_from_ip, addr_get_local_ip_from_mac64,
  addr_get_global_ip_from_mac64, addr_is_ip_local, addr_is_ip_global, addr_is_ip_multicast,
  addr_prefix_compare,
}
use foren6_analyzer.Address.Compare.{
  IsAddrIpv6, addr_compare_ip_len-eq-zero_iff, network, leading_bits_high, half64-lt,
}
use native.Mathlib.Nat.{mul-div_cancel, one-le-pow}
use foren6_analyzer.Address.Masks.{half64, bswap64-half, bswap64-under_mask}

high_word :
    (x : ℕ)
    → x < 2 ^ 64
    → bswap32 (le32 (byte_at x 56) (byte_at x 48) (byte_at x 40) (byte_at x 32)) ≡ x / 2 ^ 32
unfolding bswap32
high_word x h = omega arith

low_word :
    (x : ℕ) → bswap32 (le32 (byte_at x 24) (byte_at x 16) (byte_at x 8) (byte_at x 0)) ≡ x % 2 ^ 32
unfolding bswap32
low_word x = omega arith

-- An address whose last 64 bits spell the interface identifier gives the identifier back.
mac64_of_words :
    (x : ℕ) (a : AddrIpv6)
    → x < 2 ^ 64
    → bswap32 a.addr32_2 ≡ x / 2 ^ 32
    → bswap32 a.addr32_3 ≡ x % 2 ^ 32
    → addr_get_mac64_from_ip a ≡ addr_get_mac64_from_int_id x
unfolding addr_get_mac64_from_ip
mac64_of_words x a h p q =
    let e : x / 2 ^ 32 * 2 ^ 32 % 2 ^ 64 ≡ x / 2 ^ 32 * 2 ^ 32 = omega arith in
    rw (p, q, e)
      (ap addr_get_mac64_from_int_id
        (bit_or-disjoint 32 (x / 2 ^ 32) (x % 2 ^ 32) (omega arith) ∙ omega arith))

int_id-lt : (m : AddrWpan) → m < 2 ^ 64 → addr_get_int_id_from_mac64 m < 2 ^ 64
unfolding addr_get_int_id_from_mac64
int_id-lt m h = bit_xor-lt 64 m _ h (omega arith)

mac64-int_id : (m : AddrWpan) → addr_get_mac64_from_int_id (addr_get_int_id_from_mac64 m) ≡ m
unfolding addr_get_int_id_from_mac64 addr_get_mac64_from_int_id
mac64-int_id m = bit_xor-bit_xor m _

-- A 64-bit MAC address is recovered from the link-local address and from the global address that a
-- node configures from it, whatever the prefix.
pub addr_get_mac64_from_ip-autoconf :
    (p : DiPrefix) (m : AddrWpan)
    → m < 2 ^ 64
    → (addr_get_mac64_from_ip (addr_get_local_ip_from_mac64 m) ≡ m)
      × (addr_get_mac64_from_ip (addr_get_global_ip_from_mac64 p m) ≡ m)
unfolding addr_get_local_ip_from_mac64 addr_get_global_ip_from_mac64
addr_get_mac64_from_ip-autoconf p m h =
    let x = addr_get_int_id_from_mac64 m in
    let hx = int_id-lt m h in
    (
      mac64_of_words x _ hx (high_word x hx) (low_word x) ∙ mac64-int_id m,
      mac64_of_words x _ hx (high_word x hx) (low_word x) ∙ mac64-int_id m,
    )

-- A configured link-local address is classified as local, and as neither global nor multicast.
pub local_ip_classes :
    (m : AddrWpan)
    → (addr_is_ip_local (addr_get_local_ip_from_mac64 m) ≡ true)
      × (addr_is_ip_global (addr_get_local_ip_from_mac64 m) ≡ false)
      × (addr_is_ip_multicast (addr_get_local_ip_from_mac64 m) ≡ false)
unfolding addr_get_local_ip_from_mac64 addr_is_ip_local addr_is_ip_global addr_is_ip_multicast
local_ip_classes m = (refl, refl, refl)

bytes_of_word :
    (w : ℕ) → w < 2 ^ 32 → le32 (byte_at w 0) (byte_at w 8) (byte_at w 16) (byte_at w 24) ≡ w
bytes_of_word w h = omega arith

cut_length : (n : ℕ) → (if ltb 64 n then 64 else n) ≡ min n 64
cut_length n = ground arith

-- The words of the prefix under the mask of its length.
prefix_half :
    (n : ℕ) (a : AddrIpv6)
    → IsAddrIpv6 a
    → n < 256
    → let m = bswap64 (leading_mask n) in
      half64 (bit_and a.addr32_0 (bit_and m 0xFFFF_FFFF)) (bit_and a.addr32_1 (m / 2 ^ 32))
      ≡ half64 a.addr32_0 a.addr32_1 / 2 ^ (64 - n) * 2 ^ (64 - n)
prefix_half n a v hn =
    let m = bswap64 (leading_mask n) in
    sym (
      bswap64-half (bit_and a.addr32_0 (bit_and m 0xFFFF_FFFF)) (bit_and a.addr32_1 (m / 2 ^ 32))
        (bit_and-lt 32 a.addr32_0 (bit_and m 0xFFFF_FFFF) v.word_0)
        (bit_and-lt 32 a.addr32_1 (m / 2 ^ 32) v.word_1))
    ∙ bswap64-under_mask n a.addr32_0 a.addr32_1 hn v.word_0 v.word_1

-- For a prefix with 32-bit words and a 64-bit MAC address, the configured global address is the
-- first `min length 64` bits of the prefix, zeros up to bit 64, and the interface identifier.
pub network-global_ip :
    (p : DiPrefix) (m : AddrWpan)
    → IsAddrIpv6 p.prefix
    → m < 2 ^ 64
    → let k = 64 - min p.length 64 in
      network (addr_get_global_ip_from_mac64 p m)
      ≡ half64 p.prefix.addr32_0 p.prefix.addr32_1 / 2 ^ k * 2 ^ k * 2 ^ 64
        + addr_get_int_id_from_mac64 m
unfolding addr_get_global_ip_from_mac64
network-global_ip p m v h =
    let n = min p.length 64 in
    let mask = bswap64 (leading_mask n) in
    let w0 = bit_and p.prefix.addr32_0 (bit_and mask 0xFFFF_FFFF) in
    let w1 = bit_and p.prefix.addr32_1 (mask / 2 ^ 32) in
    let x = addr_get_int_id_from_mac64 m in
    rw
      (
        cut_length p.length,
        bytes_of_word w0 (bit_and-lt 32 p.prefix.addr32_0 (bit_and mask 0xFFFF_FFFF) v.word_0),
        bytes_of_word w1 (bit_and-lt 32 p.prefix.addr32_1 (mask / 2 ^ 32) v.word_1),
        high_word x (int_id-lt m h),
        low_word x,
      )
      (omega (arith, prefix_half n p.prefix v (omega arith)))

-- The configured addresses consist of 32-bit words.
pub local_ip-IsAddrIpv6 : (m : AddrWpan) → IsAddrIpv6 (addr_get_local_ip_from_mac64 m)
unfolding addr_get_local_ip_from_mac64
local_ip-IsAddrIpv6 m = omega arith

pub global_ip-IsAddrIpv6 :
    (p : DiPrefix) (m : AddrWpan) → IsAddrIpv6 (addr_get_global_ip_from_mac64 p m)
unfolding addr_get_global_ip_from_mac64
global_ip-IsAddrIpv6 p m = omega arith

-- For a prefix of at most 64 bits with 32-bit words and a 64-bit MAC address, the address that is
-- configured from the prefix passes the check of that prefix.
pub addr_prefix_compare-global_ip :
    (p : DiPrefix) (m : AddrWpan)
    → IsAddrIpv6 p.prefix
    → m < 2 ^ 64
    → p.length ≤ 64
    → addr_prefix_compare p (addr_get_global_ip_from_mac64 p m) ≡ 0
unfolding addr_prefix_compare
addr_prefix_compare-global_ip p m v h hl =
    let g = addr_get_global_ip_from_mac64 p m in
    let k = 64 - p.length in
    let e : min p.length 64 ≡ p.length = omega arith in
    let high : half64 g.addr32_0 g.addr32_1
        ≡ half64 p.prefix.addr32_0 p.prefix.addr32_1 / 2 ^ k * 2 ^ k =
      omega (
        arith,
        rw e at (network-global_ip p m v h),
        half64-lt g.addr32_2 g.addr32_3,
        int_id-lt m h,
      ) in
    (addr_compare_ip_len-eq-zero_iff p.prefix g p.length v (global_ip-IsAddrIpv6 p m)
        (omega arith)).1
      (leading_bits_high p.length p.prefix hl
        ∙ sym (
            leading_bits_high p.length g hl
            ∙ ap (λ (t : ℕ). t / 2 ^ k) high
            ∙ mul-div_cancel (half64 p.prefix.addr32_0 p.prefix.addr32_1 / 2 ^ k)
                (one-le-pow k 2 (omega arith))))
