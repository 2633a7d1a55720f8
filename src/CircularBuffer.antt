-- ===== src/CircularBuffer.antt =====
-- src/circular_buffer.c: a ring of elements of a fixed size, of which one slot is kept free.
-- `data` is the allocated bytes; a pointer into it is an offset. The `int` fields are numbers, not
-- negative; the product that is passed to `malloc` wraps to 32 bits. The offset of a slot is less than the
-- product of the sizes, so that it does not wrap either where that product is an `int`.
pub mod Inv
pub mod Memory
pub mod Pointer
pub mod Queue
pub mod Refine
pub mod Window
mod Tests
use foren6_analyzer.Prelude.{
  ℕ, zero, suc, ◌+◌, ◌*◌, Bool, true, false, List, [], ◌∷◌, Option, none, some, ◌==◌, ◌%◌, ◌^◌, ◌-◌,
  ltb, leb, take, drop, if◌then◌else◌,
}
use foren6_analyzer.CircularBuffer.Queue.{Op, push, pop, Reply, pushed, popped, Elements}
use foren6_analyzer.CircularBuffer.Memory.{overwrite, read_at}

pub record CircularBuffer : Type 0 where
  pub bytes : List ℕ
  pub size : ℕ
  pub element_size : ℕ
  pub read_idx : ℕ
  pub write_idx : ℕ

-- An `int` of 32 bits as a `size_t` of 64 bits: a negative one has its sign extended.
abbrev pub size_of_int : ℕ → ℕ
size_of_int n = if ltb n (2 ^ 31) then n else n + (2 ^ 64 - 2 ^ 32)

-- `malloc` of the structure succeeds or not, and `malloc` of the data returns its bytes or fails.
-- On failure what was allocated is freed and `NULL` returned.
unfoldable pub circular_buffer_create : Bool → (ℕ → Option (List ℕ)) → ℕ → ℕ → Option CircularBuffer
circular_buffer_create false malloc size element_size = none
circular_buffer_create true malloc size element_size =
    elim (malloc (size_of_int ((size * element_size) % 2 ^ 32))) [
      | none ↦ none
      | some bytes ↦ some (record {
        bytes = bytes;
        size = size;
        element_size = element_size;
        read_idx = 0;
        write_idx = 0;
      })
    ]

pub circular_buffer_is_empty : CircularBuffer → Bool
circular_buffer_is_empty buf = buf.read_idx == buf.write_idx

-- `i + 1`, or 0 past the end
abbrev pub next_index : ℕ → ℕ → ℕ
next_index size i = if leb size (i + 1) then 0 else i + 1

pub circular_buffer_is_full : CircularBuffer → Bool
circular_buffer_is_full buf = buf.read_idx == next_index buf.size buf.write_idx

circular_buffer_inc_write_idx : CircularBuffer → CircularBuffer
circular_buffer_inc_write_idx buf = record buf { write_idx = next_index buf.size buf.write_idx }

circular_buffer_inc_read_idx : CircularBuffer → CircularBuffer
circular_buffer_inc_read_idx buf = record buf { read_idx = next_index buf.size buf.read_idx }

-- `data` points to at least `element_size` bytes.
pub circular_buffer_push_front : CircularBuffer → List ℕ → Bool × CircularBuffer
unfolding circular_buffer_is_full circular_buffer_inc_write_idx
circular_buffer_push_front buf bytes = if circular_buffer_is_full buf then (false, buf) else (
  true,
  circular_buffer_inc_write_idx (record buf {
    bytes = overwrite buf.bytes (buf.write_idx * buf.element_size) (take buf.element_size bytes);
  }),
)

-- The pointer that is returned, as an offset in the data.
unfoldable pub circular_buffer_pop_back : CircularBuffer → Option ℕ × CircularBuffer
unfolding circular_buffer_is_empty circular_buffer_inc_read_idx
circular_buffer_pop_back buf =
    if circular_buffer_is_empty buf
    then (none, buf)
    else (some (buf.read_idx * buf.element_size), circular_buffer_inc_read_idx buf)

-- The element at a pointer that `circular_buffer_pop_back` returned.
abbrev pub read_ptr : CircularBuffer → Option ℕ → Option (List ℕ)
read_ptr buf none = none
read_ptr buf (some p) = some (read_at buf.bytes p buf.element_size)

-- The calls of a client in order, with what each returns: of a pop, the bytes at the pointer.
pub run : CircularBuffer → List Op → List Reply
run buf [] = []
run buf (push x ∷ ops) =
    let (done, buf') = circular_buffer_push_front buf x in pushed done ∷ run buf' ops
run buf (pop ∷ ops) =
    let (ptr, buf') = circular_buffer_pop_back buf in popped (read_ptr buf' ptr) ∷ run buf' ops

-- The writes of a producer, one after the other.
pub push_all : CircularBuffer → Elements → CircularBuffer
push_all buf [] = buf
push_all buf (x ∷ xs) = push_all (circular_buffer_push_front buf x).1 xs
