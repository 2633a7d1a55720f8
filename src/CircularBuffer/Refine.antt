-- ===== src/CircularBuffer/Refine.antt =====
-- The buffer refines a queue of one element less than its size.
use foren6_analyzer.Prelude.{
  ℕ, suc, ◌+◌, ◌-◌, ◌*◌, ◌<◌, false, List, [], ◌∷◌, ◌++◌, ◌==◌, length, take, take-length,
  Bool-cases, inl, inr, leb, All, if◌then◌else◌, ◌≡◌, ◌≢◌, refl, ap, sym, ◌∙◌, arith,
}
use foren6_analyzer.CircularBuffer.{
  CircularBuffer, next_index, circular_buffer_push_front, circular_buffer_pop_back,
  circular_buffer_is_empty, circular_buffer_is_full, circular_buffer_inc_write_idx,
  circular_buffer_inc_read_idx, read_ptr, run,
}
use foren6_analyzer.CircularBuffer.Inv.{IsValid, push_front-IsValid, pop_back-IsValid}
use foren6_analyzer.CircularBuffer.Memory.{overwrite, slot, slot-overwrite_self, slot_in_bounds}
use foren6_analyzer.CircularBuffer.Queue.{
  Op, push, pop, Reply, pushed, popped, Elements, enqueue, dequeue,
}
use foren6_analyzer.CircularBuffer.Queue
use foren6_analyzer.CircularBuffer.Window.{
  advance, window, advance_lem, length-window, window-suc, window-overwrite,
}

-- How many elements are stored.
abbrev pub count : CircularBuffer → ℕ
count buf =
    if leb buf.read_idx buf.write_idx
    then buf.write_idx - buf.read_idx
    else buf.write_idx + buf.size - buf.read_idx

-- The elements stored, oldest first.
abbrev pub contents : CircularBuffer → Elements
contents buf = window buf.size buf.element_size buf.bytes buf.read_idx (count buf)

module _ (buf : CircularBuffer) (v : IsValid buf) where
  count_bound : count buf < buf.size
  count_bound = ground arith

  is_full_lem : circular_buffer_is_full buf ≡ (count buf == (buf.size - 1))
  unfolding circular_buffer_is_full
  is_full_lem = ground arith

  is_empty_lem : circular_buffer_is_empty buf ≡ (count buf == 0)
  unfolding circular_buffer_is_empty
  is_empty_lem = ground arith

  -- The slot to write is the one behind the elements, and none of theirs.
  advance-count : advance buf.size buf.read_idx (count buf) ≡ buf.write_idx
  advance-count =
      ground (arith, advance_lem buf.size buf.read_idx (count buf) (omega arith) (ground arith))

  advance_apart : (k : ℕ) → k < count buf → buf.write_idx ≢ advance buf.size buf.read_idx k
  advance_apart k h =
      ground (arith, advance_lem buf.size buf.read_idx k (omega arith) (ground arith))

-- The buffer after `x` is stored, and after the oldest element is given up.
abbrev stored : CircularBuffer → List ℕ → CircularBuffer
stored buf x = record buf {
  bytes = overwrite buf.bytes (buf.write_idx * buf.element_size) (take buf.element_size x);
  write_idx = next_index buf.size buf.write_idx;
}

abbrev released : CircularBuffer → CircularBuffer
released buf = record buf { read_idx = next_index buf.size buf.read_idx }

module _ (buf : CircularBuffer) (v : IsValid buf) where
  count-stored :
      (x : List ℕ) → circular_buffer_is_full buf ≡ false → count (stored buf x) ≡ suc (count buf)
  unfolding circular_buffer_is_full
  count-stored x e = ground arith

  count-released : circular_buffer_is_empty buf ≡ false → count buf ≡ suc (count (released buf))
  unfolding circular_buffer_is_empty
  count-released e = ground arith

  contents-stored :
      (x : List ℕ)
      → length x ≡ buf.element_size
      → circular_buffer_is_full buf ≡ false
      → contents (stored buf x) ≡ (contents buf ++ (x ∷ []))
  contents-stored x fit e =
      let whole : take buf.element_size x ≡ x = rw (← fit) (take-length x) in
      let room = slot_in_bounds buf.element_size buf.size buf.write_idx v.write_in in
      let fresh =
        slot-overwrite_self buf.bytes buf.element_size buf.write_idx x fit
          (omega (arith, room, v.storage)) in
      let kept =
        window-overwrite buf.size buf.element_size buf.bytes buf.write_idx x buf.read_idx
          (count buf) fit (advance_apart buf v) in
      rw (count-stored x e, window-suc, whole, advance-count buf v, fresh, kept)

  contents-released :
      circular_buffer_is_empty buf ≡ false
      → contents buf ≡ (slot buf.bytes buf.element_size buf.read_idx ∷ contents (released buf))
  contents-released e = rw (count-released e)

-- An element that a client pushes has the element size.
unfoldable pub Fits : ℕ → Op → Type 0
Fits width (push x) = length x ≡ width
Fits width pop = Unit

-- On a valid buffer, `circular_buffer_push_front` answers what the queue of `size - 1` elements
-- answers, and the elements stored afterwards are those of that queue.
pub push_front-enqueue :
    (buf : CircularBuffer) (x : List ℕ)
    → IsValid buf
    → length x ≡ buf.element_size
    → (((circular_buffer_push_front buf x).0 ≡ (enqueue (buf.size - 1) (contents buf) x).0)
        × (contents (circular_buffer_push_front buf x).1
            ≡ (enqueue (buf.size - 1) (contents buf) x).1))
unfolding circular_buffer_push_front circular_buffer_inc_write_idx enqueue
push_front-enqueue buf x v fit =
    let full = is_full_lem buf v in
    let size = length-window buf.size buf.element_size buf.bytes buf.read_idx (count buf) in
    elim (Bool-cases (circular_buffer_is_full buf)) [
      | inl e ↦ let e' = sym full ∙ e in rw (e, size, e') (refl, refl)
      | inr e ↦ let e' = sym full ∙ e in rw (e, size, e') (refl, contents-stored buf v x fit e)
    ]

pub pop_back-dequeue :
    (buf : CircularBuffer)
    → IsValid buf
    → ((read_ptr (circular_buffer_pop_back buf).1 (circular_buffer_pop_back buf).0
          ≡ (dequeue (contents buf)).0)
        × (contents (circular_buffer_pop_back buf).1 ≡ (dequeue (contents buf)).1))
unfolding circular_buffer_pop_back circular_buffer_inc_read_idx dequeue
pop_back-dequeue buf v = elim (Bool-cases (circular_buffer_is_empty buf)) [
  | inl e ↦ let z : count buf ≡ 0 = grind (arith, is_empty_lem buf v) in rw (e, z) (refl, refl)
  | inr e ↦ rw (e, contents-released buf v e) (refl, refl)
]

-- Neither operation changes a size.
push_front-size :
    (buf : CircularBuffer) (x : List ℕ)
    → (((circular_buffer_push_front buf x).1.size ≡ buf.size)
        × ((circular_buffer_push_front buf x).1.element_size ≡ buf.element_size))
unfolding circular_buffer_push_front circular_buffer_inc_write_idx
push_front-size buf x = ground arith

pop_back-size :
    (buf : CircularBuffer)
    → (((circular_buffer_pop_back buf).1.size ≡ buf.size)
        × ((circular_buffer_pop_back buf).1.element_size ≡ buf.element_size))
unfolding circular_buffer_pop_back circular_buffer_inc_read_idx
pop_back-size buf = ground arith

cons_both : {x y : Reply} {xs ys : List Reply} → x ≡ y → xs ≡ ys → (x ∷ xs) ≡ (y ∷ ys)
cons_both p q = cc

-- A client that pushes elements of the element size and pops in any order sees the same replies
-- from a valid buffer as from a queue of at most `size - 1` elements that holds what the buffer
-- holds: the pushes that are refused, and of each pop the bytes at the pointer.
pub run-queue :
    (buf : CircularBuffer) (ops : List Op)
    → IsValid buf
    → All (Fits buf.element_size) ops
    → run buf ops ≡ Queue.run (buf.size - 1) (contents buf) ops
unfolding run Queue.run Fits
run-queue buf [] v fit = refl
run-queue buf (push x ∷ ops) v (x_fits, fit) =
    let buf' = (circular_buffer_push_front buf x).1 in
    let (answer, state) = push_front-enqueue buf x v x_fits in
    let (same, same_width) = push_front-size buf x in
    let fit' : All (Fits buf'.element_size) ops = rw same_width fit in
    let rest =
      run-queue buf' ops (push_front-IsValid buf x v) fit'
      ∙ ap (λ (n : ℕ). Queue.run (n - 1) (contents buf') ops) same
      ∙ ap (λ (q : Elements). Queue.run (buf.size - 1) q ops) state in
    cons_both (ap pushed answer) rest
run-queue buf (pop ∷ ops) v (_, fit) =
    let buf' = (circular_buffer_pop_back buf).1 in
    let (answer, state) = pop_back-dequeue buf v in
    let (same, same_width) = pop_back-size buf in
    let fit' : All (Fits buf'.element_size) ops = rw same_width fit in
    let rest =
      run-queue buf' ops (pop_back-IsValid buf v) fit'
      ∙ ap (λ (n : ℕ). Queue.run (n - 1) (contents buf') ops) same
      ∙ ap (λ (q : Elements). Queue.run (buf.size - 1) q ops) state in
    cons_both (ap popped answer) rest
