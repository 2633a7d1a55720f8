-- ===== src/Address/Compare.antt =====
-- What the comparisons of address.c decide.
use foren6_analyzer.Prelude.{
  ℕ, ◌+◌, ◌-◌, ◌*◌, ◌/◌, ◌%◌, ◌^◌, ◌≤◌, ◌<◌, min, bit_and, true, false, Bool-cases, inl, inr, ◌≡◌,
  refl, ap, ◌↔◌, arith, ltb,
}
use foren6_analyzer.Prelude.Bits.{bit_and-lt}
use foren6_analyzer.Prelude.Words.{
  bswap64, sub32-eq-zero_iff, pow_add, digits_unique, double_word-div, word-div-lt, bswap32-lt,
}
use mathlib.Core.Path.{ap₂}
use native.Mathlib.Decide.{dec_le}
use native.Mathlib.Nat.{div-div-eq-div-mul}
use foren6_analyzer.Address.{
  AddrIpv6, AddrWpan, DiPrefix, leading_mask, addr_compare_ip, addr_compare_wpan,
  addr_compare_ip_len, prefix_compare, int_of_sub64, compare_results, high_mask,
}
use foren6_analyzer.Address.Masks.{half64, half_iff}

-- Every word of the address is a `uint32_t`.
pub record IsAddrIpv6 (a : AddrIpv6) : Type 0 where
  pub word_0 : a.addr32_0 < 2 ^ 32
  pub word_1 : a.addr32_1 < 2 ^ 32
  pub word_2 : a.addr32_2 < 2 ^ 32
  pub word_3 : a.addr32_3 < 2 ^ 32

-- The address as the 128-bit number that it is in network order, and its leading bits.
abbrev pub network : AddrIpv6 → ℕ
network a = half64 a.addr32_0 a.addr32_1 * 2 ^ 64 + half64 a.addr32_2 a.addr32_3

abbrev pub leading_bits : ℕ → AddrIpv6 → ℕ
leading_bits n a = network a / 2 ^ (128 - n)

-- On addresses whose words are 32-bit numbers, `addr_compare_ip` is 0 exactly when they are equal.
pub addr_compare_ip-eq-zero_iff :
    (a b : AddrIpv6) → IsAddrIpv6 a → IsAddrIpv6 b → (addr_compare_ip a b ≡ 0) ↔ (a ≡ b)
unfolding addr_compare_ip
addr_compare_ip-eq-zero_iff a b va vb =
    let s0 = sub32-eq-zero_iff a.addr32_0 b.addr32_0 va.word_0 vb.word_0 in
    let s1 = sub32-eq-zero_iff a.addr32_1 b.addr32_1 va.word_1 vb.word_1 in
    let s2 = sub32-eq-zero_iff a.addr32_2 b.addr32_2 va.word_2 vb.word_2 in
    let s3 = sub32-eq-zero_iff a.addr32_3 b.addr32_3 va.word_3 vb.word_3 in ground arith

-- Of two 64-bit MAC addresses `addr_compare_wpan` converts the difference to `int`: it is 0
-- exactly when the low 32 bits of the addresses agree, whatever the high 32 bits are.
pub addr_compare_wpan-eq-zero_iff :
    (a b : AddrWpan)
    → a < 2 ^ 64
    → b < 2 ^ 64
    → (addr_compare_wpan a b ≡ 0) ↔ (a % 2 ^ 32 ≡ b % 2 ^ 32)
unfolding addr_compare_wpan int_of_sub64
addr_compare_wpan-eq-zero_iff a b p q = ((λ h. omega arith), (λ h. omega arith))

int_of_sub64-eq-zero_iff : (a b : ℕ) → a < 2 ^ 32 → b < 2 ^ 32 → (int_of_sub64 a b ≡ 0) ↔ (a ≡ b)
unfolding int_of_sub64
int_of_sub64-eq-zero_iff a b p q = ((λ h. omega arith), (λ h. omega arith))

full_mask : bswap64 (leading_mask 64) ≡ 0xFFFF_FFFF_FFFF_FFFF
unfolding bswap64 leading_mask
full_mask = refl

pub half64-lt : (u v : ℕ) → half64 u v < 2 ^ 64
half64-lt u v = omega (arith, bswap32-lt u, bswap32-lt v)

pub leading_bits_high :
    (n : ℕ) (a : AddrIpv6) → n ≤ 64 → leading_bits n a ≡ half64 a.addr32_0 a.addr32_1 / 2 ^ (64 - n)
leading_bits_high n a h =
    let e : 128 - n ≡ 64 + (64 - n) = omega arith in
    rw (e, pow_add, ← div-div-eq-div-mul)
      (ap (λ (t : ℕ). t / 2 ^ (64 - n)) (omega (arith, half64-lt a.addr32_2 a.addr32_3)))

leading_bits_low :
    (n : ℕ) (a : AddrIpv6)
    → 64 ≤ n
    → leading_bits n a
      ≡ half64 a.addr32_2 a.addr32_3 / 2 ^ (128 - n)
        + half64 a.addr32_0 a.addr32_1 * 2 ^ (64 - (128 - n))
leading_bits_low n a h =
    double_word-div (128 - n) (half64 a.addr32_0 a.addr32_1) (half64 a.addr32_2 a.addr32_3)
      (omega arith)

low_half-lt : (n u v : ℕ) → 64 ≤ n → half64 u v / 2 ^ (128 - n) < 2 ^ (64 - (128 - n))
low_half-lt n u v h = word-div-lt (128 - n) (half64 u v) (omega arith) (half64-lt u v)

-- The first result that is not 0 decides.
results_short : (r0 r1 r2 r3 : ℕ) → (compare_results false r0 r1 r2 r3 ≡ 0) ↔ ((r0 ≡ 0) × (r1 ≡ 0))
unfolding compare_results
results_short r0 r1 r2 r3 = ground arith

results_long :
    {r0 r1 r2 r3 : ℕ}
    → (compare_results true r0 r1 r2 r3 ≡ 0) ↔ (((r0 ≡ 0) × (r1 ≡ 0)) × ((r2 ≡ 0) × (r3 ≡ 0)))
unfolding compare_results
results_long = ground arith

high_mask_lem : (n : ℕ) → high_mask n ≡ bswap64 (leading_mask (min n 64))
unfolding high_mask
high_mask_lem n = elim (Bool-cases (ltb n 64)) [
  | inl short ↦ let e : min n 64 ≡ n = ground arith in rw (short, e)
  | inr long ↦ let e : min n 64 ≡ 64 = ground arith in rw (long, e, full_mask)
]

-- The two words of half an address under the mask of `n` leading ones.
pub half_zero_iff :
    (n u v u' v' : ℕ)
    → n < 256
    → u < 2 ^ 32
    → v < 2 ^ 32
    → u' < 2 ^ 32
    → v' < 2 ^ 32
    → let m = bswap64 (leading_mask n) in
      ((int_of_sub64 (bit_and u (bit_and m 0xFFFF_FFFF)) (bit_and u' (bit_and m 0xFFFF_FFFF)) ≡ 0)
        × (int_of_sub64 (bit_and v (m / 2 ^ 32)) (bit_and v' (m / 2 ^ 32)) ≡ 0))
      ↔ (half64 u v / 2 ^ (64 - n) ≡ half64 u' v' / 2 ^ (64 - n))
half_zero_iff n u v u' v' hn hu hv hu' hv' =
    let m = bswap64 (leading_mask n) in
    let l = bit_and m 0xFFFF_FFFF in
    let low =
      int_of_sub64-eq-zero_iff (bit_and u l) (bit_and u' l) (bit_and-lt 32 u l hu)
        (bit_and-lt 32 u' l hu') in
    let high =
      int_of_sub64-eq-zero_iff (bit_and v (m / 2 ^ 32)) (bit_and v' (m / 2 ^ 32))
        (bit_and-lt 32 v (m / 2 ^ 32) hv) (bit_and-lt 32 v' (m / 2 ^ 32) hv') in
    let half = half_iff n u v u' v' hn hu hv hu' hv' in
    ((λ z. half.0 (low.0 z.0, high.0 z.1)), (λ e. let (x, y) = half.1 e in (low.1 x, high.1 y)))

module _ (a b : AddrIpv6) (va : IsAddrIpv6 a) (vb : IsAddrIpv6 b) where
  short_iff :
      (n : ℕ) → n ≤ 64 → (addr_compare_ip_len a b n ≡ 0) ↔ (leading_bits n a ≡ leading_bits n b)
  unfolding addr_compare_ip_len
  short_iff n h =
      let e : min n 64 ≡ n = omega arith in
      let t : ltb 64 n ≡ false = ground arith in
      let half =
        half_zero_iff n a.addr32_0 a.addr32_1 b.addr32_0 b.addr32_1 (omega arith) va.word_0
          va.word_1 vb.word_0 vb.word_1 in
      rw (high_mask_lem, e, t, leading_bits_high n a h, leading_bits_high n b h)
        ((λ z. half.0 ((results_short _ _ _ _).0 z)), (λ q. (results_short _ _ _ _).1 (half.1 q)))

  long_iff :
      (n : ℕ)
      → 64 < n
      → n < 256
      → (addr_compare_ip_len a b n ≡ 0) ↔ (leading_bits n a ≡ leading_bits n b)
  unfolding addr_compare_ip_len
  long_iff n h hn =
      let e : min n 64 ≡ 64 = omega arith in
      let t : ltb 64 n ≡ true = ground arith in
      let k : 64 - (n - 64) ≡ 128 - n = omega arith in
      let high =
        half_zero_iff 64 a.addr32_0 a.addr32_1 b.addr32_0 b.addr32_1 (omega arith) va.word_0
          va.word_1 vb.word_0 vb.word_1 in
      let low = rw k at (
        half_zero_iff (n - 64) a.addr32_2 a.addr32_3 b.addr32_2 b.addr32_3 (omega arith) va.word_2
          va.word_3 vb.word_2 vb.word_3) in
      rw
        (
          high_mask_lem,
          e,
          t,
          leading_bits_low n a (omega arith),
          leading_bits_low n b (omega arith),
        )
        (
          (λ z.
              let (h0, l0) = results_long.0 z in
              let h1 : half64 a.addr32_0 a.addr32_1 ≡ half64 b.addr32_0 b.addr32_1 =
                omega (arith, high.0 h0) in
              ap₂ (λ (r : ℕ) (t : ℕ). r + t * 2 ^ (64 - (128 - n))) (low.0 l0) h1),
          (λ q.
              let (l0, h0) =
                digits_unique (2 ^ (64 - (128 - n))) _ _ _ _
                  (low_half-lt n a.addr32_2 a.addr32_3 (omega arith))
                  (low_half-lt n b.addr32_2 b.addr32_3 (omega arith)) q in
              results_long.1 (high.1 (omega arith), low.1 l0)),
        )

-- On addresses whose words are 32-bit numbers, and for every length that a `uint8_t` holds,
-- `addr_compare_ip_len` is 0 exactly when that many leading bits of the addresses agree.
pub addr_compare_ip_len-eq-zero_iff :
    (a b : AddrIpv6) (n : ℕ)
    → IsAddrIpv6 a
    → IsAddrIpv6 b
    → n < 256
    → (addr_compare_ip_len a b n ≡ 0) ↔ (leading_bits n a ≡ leading_bits n b)
addr_compare_ip_len-eq-zero_iff a b n va vb h = elim (dec_le n 64) [
  | yes p ↦ short_iff a b va vb n p
  | no p ↦ long_iff a b va vb n (omega arith) h
]

-- On prefixes whose words are 32-bit numbers, of which the first has a length that a `uint8_t`
-- holds, `prefix_compare` is 0 exactly when the lengths are equal and that many leading bits
-- agree.
pub prefix_compare-eq-zero_iff :
    (a b : DiPrefix)
    → IsAddrIpv6 a.prefix
    → IsAddrIpv6 b.prefix
    → a.length < 256
    → (prefix_compare a b ≡ 0)
      ↔ ((a.length ≡ b.length) × (leading_bits a.length a.prefix ≡ leading_bits a.length b.prefix))
unfolding prefix_compare
prefix_compare-eq-zero_iff a b va vb h =
    let bits = addr_compare_ip_len-eq-zero_iff a.prefix b.prefix a.length va vb h in ground arith
