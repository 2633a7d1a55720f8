-- ===== src/Prelude/Words.antt =====
-- Machine words as native numbers: byte order, masks of leading ones, wrapping subtraction.
use Prim.Native.Nat.{ℕ, zero, suc, ◌+◌, ◌-◌, ◌*◌, ◌/◌, ◌%◌, ◌^◌, ◌≤◌, ◌<◌, bit_and}
use mathlib.Core.Path.{◌≡◌, refl, sym, ap, ◌∙◌}
use mathlib.Core.Logic.{◌↔◌}
use native.Mathlib.Nat.{pow-suc, one-le-pow, div-lt_iff_lt-mul, div-add-mod, mul-add-div_right}
use native.Mathlib.Numerals.{towards_suc}
use native.Mathlib.Omega.{arith}
use foren6_analyzer.Prelude.Bits.{bit_and_split, bit_and-zero, bit_and-ones, bit_and-lt}

-- The lowest `n` bytes of a word in the opposite order.
abbrev pub rev_bytes : ℕ → ℕ → ℕ
rev_bytes zero x = 0
rev_bytes (suc n) x = rev_bytes n (x / 256) + x % 256 * 2 ^ (8 * n)

-- `be32toh` and `htobe64` on a little-endian host.
unfoldable pub bswap32 : ℕ → ℕ
bswap32 x = rev_bytes 4 x

unfoldable pub bswap64 : ℕ → ℕ
bswap64 x = rev_bytes 8 x

-- Subtraction of 32-bit words.
unfoldable pub sub32 : ℕ → ℕ → ℕ
sub32 a b = (a + 2 ^ 32 - b) % 2 ^ 32

-- Addition of 32-bit words.
unfoldable pub add32 : ℕ → ℕ → ℕ
add32 a b = (a + b) % 2 ^ 32

pub sub32-eq-zero_iff : (a b : ℕ) → a < 2 ^ 32 → b < 2 ^ 32 → (sub32 a b ≡ 0) ↔ (a ≡ b)
unfolding sub32
sub32-eq-zero_iff a b p q = ((λ h. omega arith), (λ h. omega arith))

byte_pow : (n : ℕ) → 2 ^ (8 * suc n) ≡ 2 ^ (8 * n) * 256
byte_pow n = let e : 8 * suc n ≡ 8 * n + 8 = omega arith in rw e (simp towards_suc (omega arith))

-- Two digits to the base `p` are determined by their sum.
pub digits_unique : (p r s q t : ℕ) → r < p → s < p → r + q * p ≡ s + t * p → (r ≡ s) × (q ≡ t)
digits_unique p r s zero zero hr hs e = omega arith
digits_unique p r s zero (suc t) hr hs e = absurd (omega arith)
digits_unique p r s (suc q) zero hr hs e = absurd (omega arith)
digits_unique p r s (suc q) (suc t) hr hs e =
    omega (arith, digits_unique p r s q t hr hs (omega arith))

rev_bytes-lt : (n x : ℕ) → rev_bytes n x < 2 ^ (8 * n)
rev_bytes-lt zero x = omega arith
rev_bytes-lt (suc n) x = grind (arith, byte_pow n, rev_bytes-lt n (x / 256))

-- The bytes of `a & b` are those of `a` and of `b`, byte by byte.
bit_and-byte :
    (a b : ℕ)
    → (bit_and a b % 256 ≡ bit_and (a % 256) (b % 256))
      × (bit_and a b / 256 ≡ bit_and (a / 256) (b / 256))
bit_and-byte a b = ground (
  arith,
  bit_and_split 8 (a % 256) (b % 256) (a / 256) (b / 256),
  bit_and-lt 8 (a % 256) (b % 256),
)

pub rev_bytes-bit_and :
    (n a b : ℕ) → rev_bytes n (bit_and a b) ≡ bit_and (rev_bytes n a) (rev_bytes n b)
rev_bytes-bit_and zero a b = refl
rev_bytes-bit_and (suc n) a b = ground (
  arith,
  rev_bytes-bit_and n (a / 256) (b / 256),
  bit_and-byte a b,
  bit_and_split (8 * n) (rev_bytes n (a / 256)) (rev_bytes n (b / 256)) (a % 256) (b % 256),
  rev_bytes-lt n (a / 256),
  rev_bytes-lt n (b / 256),
)

pub rev_bytes-injective :
    (n a b : ℕ) → a < 2 ^ (8 * n) → b < 2 ^ (8 * n) → rev_bytes n a ≡ rev_bytes n b → a ≡ b
rev_bytes-injective zero a b p q h = omega arith
rev_bytes-injective (suc n) a b p q h =
    let (rest, low) =
      digits_unique (2 ^ (8 * n)) (rev_bytes n (a / 256)) (rev_bytes n (b / 256)) (a % 256)
        (b % 256) (rev_bytes-lt n (a / 256)) (rev_bytes-lt n (b / 256)) h in
    omega (
      arith,
      rev_bytes-injective n (a / 256) (b / 256) (omega (arith, byte_pow n))
          (omega (arith, byte_pow n)) rest,
    )

-- A mask of `m` ones above `k` zeros keeps the leading digits.
pub bit_and-leading :
    (m k x : ℕ) → x < 2 ^ m * 2 ^ k → bit_and x ((2 ^ m - 1) * 2 ^ k) ≡ x / 2 ^ k * 2 ^ k
bit_and-leading m k x p = ground (
  arith,
  bit_and_split k (x % 2 ^ k) 0 (x / 2 ^ k) (2 ^ m - 1),
  bit_and-zero (x % 2 ^ k),
  bit_and-ones m (x / 2 ^ k),
  div-lt_iff_lt-mul {k = 2 ^ k} {x = x} {y = 2 ^ m},
  one-le-pow k 2,
  div-add-mod x (2 ^ k),
)

pub bswap64-bit_and : (a b : ℕ) → bswap64 (bit_and a b) ≡ bit_and (bswap64 a) (bswap64 b)
unfolding bswap64
bswap64-bit_and a b = rev_bytes-bit_and 8 a b

pub bswap64-injective : (a b : ℕ) → a < 2 ^ 64 → b < 2 ^ 64 → bswap64 a ≡ bswap64 b → a ≡ b
unfolding bswap64
bswap64-injective a b p q h = rev_bytes-injective 8 a b p q h

pub bswap32-lt : (x : ℕ) → bswap32 x < 2 ^ 32
unfolding bswap32
bswap32-lt x = rev_bytes-lt 4 x

-- Reversing twice gives the word back.
pub bswap32-bswap32 : (x : ℕ) → x < 2 ^ 32 → bswap32 (bswap32 x) ≡ x
unfolding bswap32
bswap32-bswap32 x h = omega arith

pub pow_add : (a b : ℕ) → 2 ^ (a + b) ≡ 2 ^ a * 2 ^ b
pow_add zero b = let e : zero + b ≡ b = omega arith in rw e (omega arith)
pow_add (suc a) b =
    let e : suc a + b ≡ suc (a + b) = omega arith in
    ap (λ (t : ℕ). 2 ^ t) e
    ∙ omega (arith, pow-suc 2 (a + b), pow_add a b, ap (λ (t : ℕ). t * 2 ^ b) (pow-suc 2 a))

pow_split : (k : ℕ) → k ≤ 64 → 2 ^ (64 - k) * 2 ^ k ≡ 2 ^ 64
pow_split k h =
    let e : 64 - k + k ≡ 64 = omega arith in sym (pow_add (64 - k) k) ∙ ap (λ (t : ℕ). 2 ^ t) e

-- The leading digits of a double word whose low word is cut at `k`.
pub double_word-div :
    (k hi lo : ℕ) → k ≤ 64 → (hi * 2 ^ 64 + lo) / 2 ^ k ≡ lo / 2 ^ k + hi * 2 ^ (64 - k)
double_word-div k hi lo h =
    ap (λ (t : ℕ). (t + lo) / 2 ^ k) (omega (arith, ap (λ (t : ℕ). hi * t) (pow_split k h)))
    ∙ mul-add-div_right (one-le-pow k 2 (omega arith)) (hi * 2 ^ (64 - k)) lo
    ∙ omega arith

pub word-div-lt : (k lo : ℕ) → k ≤ 64 → lo < 2 ^ 64 → lo / 2 ^ k < 2 ^ (64 - k)
word-div-lt k lo h p =
    (div-lt_iff_lt-mul (one-le-pow k 2 (omega arith))).1 (omega (arith, pow_split k h))

pub sub32-grown : (a b : ℕ) → b ≤ a → a < 2 ^ 32 → sub32 a b ≡ a - b
unfolding sub32
sub32-grown a b p q = omega arith
