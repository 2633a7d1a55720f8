-- ===== src/CircularBuffer/Window.antt =====
-- The slots that a walk over the ring visits, in the order of `next_index`.
use foren6_analyzer.Prelude.{
  ℕ, zero, suc, ◌+◌, ◌-◌, ◌*◌, ◌≤◌, ◌<◌, List, [], ◌∷◌, ◌++◌, length, ltb, if◌then◌else◌, ◌≡◌, ◌≢◌,
  refl, ap, arith,
}
use foren6_analyzer.CircularBuffer.{next_index}
use foren6_analyzer.CircularBuffer.Queue.{Elements}
use foren6_analyzer.CircularBuffer.Memory.{overwrite, slot, slot-overwrite_ne}

-- The slot `n` steps behind `i`.
abbrev pub advance : ℕ → ℕ → ℕ → ℕ
advance size i zero = i
advance size i (suc n) = advance size (next_index size i) n

-- The elements in `n` slots from `i` on, each of `width` bytes.
abbrev pub window : ℕ → ℕ → List ℕ → ℕ → ℕ → Elements
window size width bs i zero = []
window size width bs i (suc n) = slot bs width i ∷ window size width bs (next_index size i) n

pub advance_lem :
    (size i n : ℕ)
    → i < size
    → n ≤ size
    → advance size i n ≡ (if ltb (i + n) size then i + n else i + n - size)
advance_lem size i zero i_in h = ground arith
advance_lem size i (suc n) i_in h =
    ground (arith, advance_lem size (next_index size i) n (ground arith) (omega arith))

pub length-window : (size width : ℕ) (bs : List ℕ) (i n : ℕ) → length (window size width bs i n) ≡ n
length-window size width bs i zero = refl
length-window size width bs i (suc n) = ap suc (length-window size width bs (next_index size i) n)

-- One more slot at the end.
pub window-suc :
    (size width : ℕ) (bs : List ℕ) (i n : ℕ)
    → window size width bs i (suc n)
      ≡ (window size width bs i n ++ (slot bs width (advance size i n) ∷ []))
window-suc size width bs i zero = refl
window-suc size width bs i (suc n) =
    ap (◌∷◌ (slot bs width i)) (window-suc size width bs (next_index size i) n)

-- A write to a slot outside a window is not seen in it.
pub window-overwrite :
    (size width : ℕ) (bs : List ℕ) (j : ℕ) (xs : List ℕ) (i n : ℕ)
    → length xs ≡ width
    → ((k : ℕ) → k < n → j ≢ advance size i k)
    → window size width (overwrite bs (j * width) xs) i n ≡ window size width bs i n
window-overwrite size width bs j xs i zero e apart = refl
window-overwrite size width bs j xs i (suc n) e apart =
    let head = slot-overwrite_ne bs width j i xs e (apart 0 (omega arith)) in
    let later = λ (k : ℕ) (k_in : k < n). apart (suc k) (omega arith) in
    rw (head, window-overwrite size width bs j xs (next_index size i) n e later)
