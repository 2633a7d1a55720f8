-- ===== src/CircularBuffer/Memory.antt =====
-- Bytes at offsets: what `memcpy` writes into an array and what a pointer into it reads.
use foren6_analyzer.Prelude.{
  ℕ, zero, suc, ◌+◌, ◌*◌, ◌≤◌, ◌<◌, List, [], ◌∷◌, take, drop, length, ◌≡◌, ◌≢◌, refl, ap, sym, ◌∙◌,
  arith,
}
use native.Mathlib.Decide.{dec_lt}

-- Bytes that would fall past the end are not written.
unfoldable pub overwrite : List ℕ → ℕ → List ℕ → List ℕ
overwrite [] o xs = []
overwrite (b ∷ bs) zero [] = b ∷ bs
overwrite (b ∷ bs) zero (x ∷ xs) = x ∷ overwrite bs zero xs
overwrite (b ∷ bs) (suc o) xs = b ∷ overwrite bs o xs

abbrev pub read_at : List ℕ → ℕ → ℕ → List ℕ
read_at bs p n = take n (drop p bs)

pub length-overwrite : (bs : List ℕ) (o : ℕ) (xs : List ℕ) → length (overwrite bs o xs) ≡ length bs
unfolding overwrite
length-overwrite [] o xs = refl
length-overwrite (b ∷ bs) zero [] = refl
length-overwrite (b ∷ bs) zero (x ∷ xs) = ap suc (length-overwrite bs zero xs)
length-overwrite (b ∷ bs) (suc o) xs = ap suc (length-overwrite bs o xs)

-- A read of what has just been written.
pub read_at-overwrite_self :
    (bs : List ℕ) (o : ℕ) (xs : List ℕ)
    → o + length xs ≤ length bs
    → read_at (overwrite bs o xs) o (length xs) ≡ xs
unfolding overwrite
read_at-overwrite_self [] zero [] h = refl
read_at-overwrite_self [] zero (x ∷ xs) h = absurd (omega arith)
read_at-overwrite_self [] (suc o) xs h = absurd (omega arith)
read_at-overwrite_self (b ∷ bs) zero [] h = refl
read_at-overwrite_self (b ∷ bs) zero (x ∷ xs) h =
    ap (◌∷◌ x) (read_at-overwrite_self bs zero xs (omega arith))
read_at-overwrite_self (b ∷ bs) (suc o) xs h = read_at-overwrite_self bs o xs (omega arith)

-- A read behind what has been written.
drop-overwrite :
    (bs : List ℕ) (o : ℕ) (xs : List ℕ) (p : ℕ)
    → o + length xs ≤ p
    → drop p (overwrite bs o xs) ≡ drop p bs
unfolding overwrite
drop-overwrite [] o xs p h = refl
drop-overwrite (b ∷ bs) zero [] p h = refl
drop-overwrite (b ∷ bs) zero (x ∷ xs) zero h = absurd (omega arith)
drop-overwrite (b ∷ bs) zero (x ∷ xs) (suc p) h = drop-overwrite bs zero xs p (omega arith)
drop-overwrite (b ∷ bs) (suc o) xs zero h = absurd (omega arith)
drop-overwrite (b ∷ bs) (suc o) xs (suc p) h = drop-overwrite bs o xs p (omega arith)

-- A read before what has been written.
read_at-overwrite_before :
    (bs : List ℕ) (o : ℕ) (xs : List ℕ) (p n : ℕ)
    → p + n ≤ o
    → read_at (overwrite bs o xs) p n ≡ read_at bs p n
unfolding overwrite
read_at-overwrite_before [] o xs p n h = refl
read_at-overwrite_before (b ∷ bs) zero xs zero zero h = refl
read_at-overwrite_before (b ∷ bs) zero xs zero (suc n) h = absurd (omega arith)
read_at-overwrite_before (b ∷ bs) zero xs (suc p) n h = absurd (omega arith)
read_at-overwrite_before (b ∷ bs) (suc o) xs zero zero h = refl
read_at-overwrite_before (b ∷ bs) (suc o) xs zero (suc n) h =
    ap (◌∷◌ b) (read_at-overwrite_before bs o xs zero n (omega arith))
read_at-overwrite_before (b ∷ bs) (suc o) xs (suc p) n h =
    read_at-overwrite_before bs o xs p n (omega arith)

-- The element of `n` bytes in slot `i`.
abbrev pub slot : List ℕ → ℕ → ℕ → List ℕ
slot bs n i = read_at bs (i * n) n

slots_apart : (n i j : ℕ) → i < j → i * n + n ≤ j * n
slots_apart n zero (suc j) h = omega arith
slots_apart n (suc i) (suc j) h = omega (arith, slots_apart n i j (omega arith))
slots_apart n i zero h = absurd (omega arith)

-- A write to one slot is read back, and is not seen in any other.
pub slot-overwrite_self :
    (bs : List ℕ) (n i : ℕ) (xs : List ℕ)
    → length xs ≡ n
    → i * n + n ≤ length bs
    → slot (overwrite bs (i * n) xs) n i ≡ xs
slot-overwrite_self bs n i xs e h =
    ap (λ (k : ℕ). read_at (overwrite bs (i * n) xs) (i * n) k) (sym e)
    ∙ read_at-overwrite_self bs (i * n) xs (omega arith)

pub slot-overwrite_ne :
    (bs : List ℕ) (n i j : ℕ) (xs : List ℕ)
    → length xs ≡ n
    → i ≢ j
    → slot (overwrite bs (i * n) xs) n j ≡ slot bs n j
slot-overwrite_ne bs n i j xs e h = elim (dec_lt i j) [
  | yes p ↦ ap (take n) (drop-overwrite bs (i * n) xs (j * n) (omega (arith, slots_apart n i j p)))
  | no p ↦ read_at-overwrite_before bs (i * n) xs (j * n) n (slots_apart n j i (omega arith))
]

-- A slot below the size lies inside the array.
pub slot_in_bounds : (n size i : ℕ) → i < size → i * n + n ≤ size * n
slot_in_bounds n size i h = slots_apart n i size h
