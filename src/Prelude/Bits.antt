-- ===== src/Prelude/Bits.antt =====
-- Laws of `&` and `^` at variables, from their recursion on binary digits.
use Prim.Native.Nat.{
  ℕ, zero, suc, ◌+◌, ◌-◌, ◌*◌, ◌/◌, ◌%◌, ◌^◌, ◌≤◌, ◌<◌, min, digits, bitwise, bit_and, bit_xor,
  bit_and-bitwise, bit_xor-bitwise, differ, max, bit_or, bit_or-bitwise,
}
use mathlib.Core.Path.{◌≡◌, refl, ap}
use native.Mathlib.Nat.{le_refl, pow-suc, one-le-pow, div-add-mod'}
use native.Mathlib.Omega.{arith}

-- The count of digits to go does not matter once it is large enough.
module _ (z : ℕ → ℕ) (f : ℕ → ℕ → ℕ) where
  digits_enough : (n m a b : ℕ) → a ≤ n → a ≤ m → digits z f n a b ≡ digits z f m a b
  digits_enough zero zero a b p q = refl
  digits_enough zero (suc m) zero b p q = refl
  digits_enough zero (suc m) (suc a) b p q = absurd (omega arith)
  digits_enough (suc n) zero zero b p q = refl
  digits_enough (suc n) zero (suc a) b p q = absurd (omega arith)
  digits_enough (suc n) (suc m) zero b p q = refl
  digits_enough (suc n) (suc m) (suc a) b p q =
      rw (digits_enough n m (suc a / 2) (b / 2) (omega arith) (omega arith))

  lowest_digit :
      (a b : ℕ)
      → bitwise z f (suc a) b ≡ bitwise z f (suc a / 2) (b / 2) * 2 + f (suc a % 2) (b % 2)
  lowest_digit a b =
      omega (arith, digits_enough a (suc a / 2) (suc a / 2) (b / 2) (omega arith) (le_refl _))

and_step : (a b : ℕ) → bit_and a b ≡ bit_and (a / 2) (b / 2) * 2 + min (a % 2) (b % 2)
and_step zero b = simp bit_and-bitwise (omega arith)
and_step (suc a) b = simp bit_and-bitwise (lowest_digit (λ y. 0) min a b)

differ-digits : (a b : ℕ) → a < 2 → b < 2 → differ a b ≡ (a + b) % 2
differ-digits zero b p q = omega arith
differ-digits (suc zero) zero p q = refl
differ-digits (suc zero) (suc zero) p q = refl
differ-digits (suc zero) (suc (suc b)) p q = absurd (omega arith)
differ-digits (suc (suc a)) b p q = absurd (omega arith)

xor_step : (a b : ℕ) → bit_xor a b ≡ bit_xor (a / 2) (b / 2) * 2 + (a % 2 + b % 2) % 2
xor_step zero b = simp bit_xor-bitwise (omega arith)
xor_step (suc a) b = simp bit_xor-bitwise (
    omega (
      arith,
      lowest_digit (λ y. y) differ a b,
      differ-digits (suc a % 2) (b % 2) (omega arith) (omega arith),
    ))

and_zero_enough : (n a : ℕ) → a ≤ n → bit_and a 0 ≡ 0
and_zero_enough n zero h = refl
and_zero_enough zero (suc a) h = absurd (omega arith)
and_zero_enough (suc n) (suc a) h =
    omega (arith, and_step (suc a) 0, and_zero_enough n (suc a / 2) (omega arith))

pub bit_and-zero : (a : ℕ) → bit_and a 0 ≡ 0
bit_and-zero a = and_zero_enough a a (le_refl a)

-- `^` by the same word twice gives the word back.
xor_twice_enough : (n a c : ℕ) → a ≤ n → c ≤ n → bit_xor (bit_xor a c) c ≡ a
xor_twice_enough zero a c p q =
    let ea : a ≡ 0 = omega arith in let ec : c ≡ 0 = omega arith in rw (ea, ec)
xor_twice_enough (suc n) a c p q = omega (
  arith,
  xor_step (bit_xor a c) c,
  xor_step a c,
  xor_twice_enough n (a / 2) (c / 2) (omega arith) (omega arith),
  half,
)
  where
    half : bit_xor (bit_xor a c / 2) (c / 2) ≡ bit_xor (bit_xor (a / 2) (c / 2)) (c / 2)
    half = ap (λ (t : ℕ). bit_xor t (c / 2)) (omega (arith, xor_step a c))

pub bit_xor-bit_xor : (a c : ℕ) → bit_xor (bit_xor a c) c ≡ a
bit_xor-bit_xor a c = xor_twice_enough (a + c) a c (omega arith) (omega arith)

-- `^` stays inside a word.
pub bit_xor-lt : (k a c : ℕ) → a < 2 ^ k → c < 2 ^ k → bit_xor a c < 2 ^ k
bit_xor-lt zero a c p q =
    let ea : a ≡ 0 = omega arith in let ec : c ≡ 0 = omega arith in rw (ea, ec) (omega arith)
bit_xor-lt (suc k) a c p q = omega (
  arith,
  pow-suc 2 k,
  xor_step a c,
  bit_xor-lt k (a / 2) (c / 2) (omega (arith, pow-suc 2 k)) (omega (arith, pow-suc 2 k)),
)

double_pow : (q k : ℕ) → q * 2 ^ suc k ≡ q * 2 ^ k * 2
double_pow q k = omega (arith, ap (λ (t : ℕ). q * t) (pow-suc 2 k))

-- `&` works on the low `k` digits and on the rest of each word by themselves.
pub bit_and_split :
    (k r s q t : ℕ)
    → r < 2 ^ k
    → s < 2 ^ k
    → bit_and (r + q * 2 ^ k) (s + t * 2 ^ k) ≡ bit_and r s + bit_and q t * 2 ^ k
bit_and_split zero r s q t p p' =
    let er : r ≡ 0 = omega arith in let es : s ≡ 0 = omega arith in rw (er, es) (ground arith)
bit_and_split (suc k) r s q t p p' = ground (
  arith,
  and_step (r + q * 2 ^ suc k) (s + t * 2 ^ suc k),
  and_step r s,
  double_pow q k,
  double_pow t k,
  double_pow (bit_and q t) k,
  pow-suc 2 k,
  bit_and_split k (r / 2) (s / 2) q t,
)

pub bit_and-lt : (k a b : ℕ) → a < 2 ^ k → bit_and a b < 2 ^ k
bit_and-lt zero a b p = let ea : a ≡ 0 = omega arith in rw ea (omega (arith, bit_and-bitwise 0 b))
bit_and-lt (suc k) a b p =
    omega
      (arith, pow-suc 2 k, and_step a b, bit_and-lt k (a / 2) (b / 2) (omega (arith, pow-suc 2 k)))

-- A mask of `k` low ones is the remainder by `2 ^ k`.
pub bit_and-ones : (k a : ℕ) → a < 2 ^ k → bit_and a (2 ^ k - 1) ≡ a
bit_and-ones zero a p = let ea : a ≡ 0 = omega arith in rw ea refl
bit_and-ones (suc k) a p =
    ground (arith, and_step a (2 ^ suc k - 1), pow-suc 2 k, one-le-pow k 2, bit_and-ones k (a / 2))

pub bit_and-low : (k a : ℕ) → bit_and a (2 ^ k - 1) ≡ a % 2 ^ k
bit_and-low k a = ground (
  arith,
  bit_and_split k (a % 2 ^ k) (2 ^ k - 1) (a / 2 ^ k) 0,
  bit_and-ones k (a % 2 ^ k),
  bit_and-zero (a / 2 ^ k),
  one-le-pow k 2,
  div-add-mod' a (2 ^ k),
)

or_step : (a b : ℕ) → bit_or a b ≡ bit_or (a / 2) (b / 2) * 2 + max (a % 2) (b % 2)
or_step zero b = simp bit_or-bitwise (omega arith)
or_step (suc a) b = simp bit_or-bitwise (lowest_digit (λ y. y) max a b)

or_zero_enough : (n a : ℕ) → a ≤ n → bit_or a 0 ≡ a
or_zero_enough n zero h = refl
or_zero_enough zero (suc a) h = absurd (omega arith)
or_zero_enough (suc n) (suc a) h =
    omega (arith, or_step (suc a) 0, or_zero_enough n (suc a / 2) (omega arith))

-- `|` of a word shifted up by `k` digits with one that fits `k` digits is their sum.
pub bit_or-disjoint : (k q r : ℕ) → r < 2 ^ k → bit_or (q * 2 ^ k) r ≡ q * 2 ^ k + r
bit_or-disjoint zero q r p =
    let e : r ≡ 0 = omega arith in rw e (omega (arith, or_zero_enough (q * 2 ^ 0) (q * 2 ^ 0)))
bit_or-disjoint (suc k) q r p =
    ground
      (arith, or_step (q * 2 ^ suc k) r, double_pow q k, pow-suc 2 k, bit_or-disjoint k q (r / 2))
