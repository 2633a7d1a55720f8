-- ===== src/Address/Masks.antt =====
-- The masks of `addr_compare_ip_len`: comparing under the mask of `n` leading ones compares the
-- `n` leading bits, read in network order.
use foren6_analyzer.Prelude.{
  ◌≤◌, ℕ, zero, suc, ◌+◌, ◌-◌, ◌*◌, ◌/◌, ◌%◌, ◌^◌, ◌<◌, min, bit_and, Bool, true, ◌&&◌, ◌==◌, ◌≡◌,
  refl, ap, ◌↔◌, arith, ◌∙◌, sym,
}
use foren6_analyzer.Prelude.Bits.{bit_and_split, bit_and-low, bit_and-lt}
use foren6_analyzer.Prelude.Words.{
  bswap32, bswap64, bswap32-lt, bswap64-bit_and, bswap64-injective, bit_and-leading, digits_unique,
}
use native.Mathlib.Nat.{one-le-pow}
use native.Mathlib.Decide.{dec_lt}
use foren6_analyzer.Address.{leading_mask}

-- The two words of half an address, in network order.
abbrev pub half64 : ℕ → ℕ → ℕ
half64 u v = bswap32 u * 2 ^ 32 + bswap32 v

pub bswap64-half : (u v : ℕ) → u < 2 ^ 32 → v < 2 ^ 32 → bswap64 (u + v * 2 ^ 32) ≡ half64 u v
unfolding bswap64 bswap32
bswap64-half u v hu hv = omega arith

-- What the loop computes, for every length that a `uint8_t` holds.
check_mask : ℕ → Bool
check_mask n =
    leading_mask n == (2 ^ min n 64 - 1) * 2 ^ (64 - n)
    && bswap64 (bswap64 (leading_mask n)) == leading_mask n
    && 2 ^ min n 64 * 2 ^ (64 - n) == 2 ^ 64

-- The check of `k` lengths from `s` on.
checked : ℕ → ℕ → Bool
checked zero s = true
checked (suc k) s = check_mask s && checked k (s + 1)

checked_lem : (k s n : ℕ) → checked k s ≡ true → s ≤ n → n < s + k → check_mask n ≡ true
unfolding checked
checked_lem zero s n e low high = absurd (omega arith)
checked_lem (suc k) s n e low high = elim (dec_lt s n) [
  | yes later ↦
      let rest : checked k (s + 1) ≡ true = ground arith in
      checked_lem k (s + 1) n rest (omega arith) (omega arith)
  | no here ↦
      let same : s ≡ n = omega arith in
      let first : check_mask s ≡ true = ground arith in rw (← same) first
]

every_length : checked 256 0 ≡ true
unfolding checked check_mask leading_mask bswap64
every_length = refl

pub leading_mask_lem :
    (n : ℕ)
    → n < 256
    → (leading_mask n ≡ (2 ^ min n 64 - 1) * 2 ^ (64 - n))
      × (bswap64 (bswap64 (leading_mask n)) ≡ leading_mask n)
      × (2 ^ min n 64 * 2 ^ (64 - n) ≡ 2 ^ 64)
unfolding check_mask
leading_mask_lem n h =
    let t = checked_lem 256 0 n every_length (omega arith) (omega arith) in
    (ground (arith, t), ground (arith, t), ground (arith, t))

-- A word and its neighbour under the two halves of a mask, read in network order.
masked :
    (u v m : ℕ)
    → u < 2 ^ 32
    → bit_and u (bit_and m 0xFFFF_FFFF) + bit_and v (m / 2 ^ 32) * 2 ^ 32
      ≡ bit_and (u + v * 2 ^ 32) m
masked u v m hu = ground (arith, bit_and_split 32 u (m % 2 ^ 32) v (m / 2 ^ 32), bit_and-low 32 m)

masked_half :
    (n u v : ℕ)
    → n < 256
    → u < 2 ^ 32
    → v < 2 ^ 32
    → bswap64 (bit_and (u + v * 2 ^ 32) (bswap64 (leading_mask n)))
      ≡ half64 u v / 2 ^ (64 - n) * 2 ^ (64 - n)
masked_half n u v hn hu hv =
    let (mask, twice, size) = leading_mask_lem n hn in
    rw (bswap64-bit_and, bswap64-half u v hu hv, twice, mask)
      (bit_and-leading (min n 64) (64 - n) (half64 u v)
        (rw size (omega (arith, bswap32-lt u, bswap32-lt v))))

-- Half an address under the two halves of the mask.
abbrev pub under_mask : ℕ → ℕ → ℕ → ℕ
under_mask m u v = bit_and u (bit_and m 0xFFFF_FFFF) + bit_and v (m / 2 ^ 32) * 2 ^ 32

pub bswap64-under_mask :
    (n u v : ℕ)
    → n < 256
    → u < 2 ^ 32
    → v < 2 ^ 32
    → bswap64 (under_mask (bswap64 (leading_mask n)) u v) ≡ half64 u v / 2 ^ (64 - n) * 2 ^ (64 - n)
bswap64-under_mask n u v hn hu hv =
    ap bswap64 (masked u v (bswap64 (leading_mask n)) hu) ∙ masked_half n u v hn hu hv

under_mask-lt : (m u v : ℕ) → u < 2 ^ 32 → v < 2 ^ 32 → under_mask m u v < 2 ^ 64
under_mask-lt m u v hu hv =
    omega (arith, bit_and-lt 32 u (bit_and m 0xFFFF_FFFF) hu, bit_and-lt 32 v (m / 2 ^ 32) hv)

parts_iff :
    (m u v u' v' : ℕ)
    → u < 2 ^ 32
    → u' < 2 ^ 32
    → ((bit_and u (bit_and m 0xFFFF_FFFF) ≡ bit_and u' (bit_and m 0xFFFF_FFFF))
        × (bit_and v (m / 2 ^ 32) ≡ bit_and v' (m / 2 ^ 32)))
      ↔ (under_mask m u v ≡ under_mask m u' v')
parts_iff m u v u' v' hu hu' = ((λ e. omega arith), back)
  where
    back :
        under_mask m u v ≡ under_mask m u' v'
        → (bit_and u (bit_and m 0xFFFF_FFFF) ≡ bit_and u' (bit_and m 0xFFFF_FFFF))
          × (bit_and v (m / 2 ^ 32) ≡ bit_and v' (m / 2 ^ 32))
    back e =
        let low = bit_and-lt 32 u (bit_and m 0xFFFF_FFFF) hu in
        let low' = bit_and-lt 32 u' (bit_and m 0xFFFF_FFFF) hu' in (omega arith, omega arith)

module _ (n u v u' v' : ℕ) (hn : n < 256) (hu : u < 2 ^ 32) (hv : v < 2 ^ 32) (hu' : u' < 2 ^ 32)
    (hv' : v' < 2 ^ 32) where
  under_mask_iff :
      (under_mask (bswap64 (leading_mask n)) u v ≡ under_mask (bswap64 (leading_mask n)) u' v')
      ↔ (half64 u v / 2 ^ (64 - n) ≡ half64 u' v' / 2 ^ (64 - n))
  under_mask_iff = (
    (λ e.
        (digits_unique (2 ^ (64 - n)) 0 0 (half64 u v / 2 ^ (64 - n)) (half64 u' v' / 2 ^ (64 - n))
          (one-le-pow (64 - n) 2 (omega arith)) (one-le-pow (64 - n) 2 (omega arith))
          (omega (
            arith,
            bswap64-under_mask n u v hn hu hv,
            bswap64-under_mask n u' v' hn hu' hv',
            ap bswap64 e,
          ))).1),
    (λ e.
        bswap64-injective _ _ (under_mask-lt (bswap64 (leading_mask n)) u v hu hv)
          (under_mask-lt (bswap64 (leading_mask n)) u' v' hu' hv')
          (bswap64-under_mask n u v hn hu hv
            ∙ ap (λ (q : ℕ). q * 2 ^ (64 - n)) e
            ∙ sym (bswap64-under_mask n u' v' hn hu' hv'))),
  )

  -- Two half addresses agree under the mask exactly when their `n` leading bits agree.
  pub half_iff :
      ((bit_and u (bit_and (bswap64 (leading_mask n)) 0xFFFF_FFFF)
          ≡ bit_and u' (bit_and (bswap64 (leading_mask n)) 0xFFFF_FFFF))
        × (bit_and v (bswap64 (leading_mask n) / 2 ^ 32)
            ≡ bit_and v' (bswap64 (leading_mask n) / 2 ^ 32)))
      ↔ (half64 u v / 2 ^ (64 - n) ≡ half64 u' v' / 2 ^ (64 - n))
  half_iff =
      let p = parts_iff (bswap64 (leading_mask n)) u v u' v' hu hu' in
      ((λ e. under_mask_iff.0 (p.0 e)), (λ e. p.1 (under_mask_iff.1 e)))
