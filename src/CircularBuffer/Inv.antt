-- ===== src/CircularBuffer/Inv.antt =====
-- The invariant of the buffer: indices below the size, and all slots inside the data.
use foren6_analyzer.Prelude.{
  ℕ, ◌*◌, ◌^◌, ◌%◌, ◌<◌, Bool, true, false, List, Option, some, length, take, ◌≡◌, arith,
}
use foren6_analyzer.CircularBuffer.{
  CircularBuffer, size_of_int, circular_buffer_create, circular_buffer_push_front,
  circular_buffer_pop_back, circular_buffer_is_empty,
}
use foren6_analyzer.CircularBuffer.Memory.{length-overwrite}

pub record IsValid (buf : CircularBuffer) : Type 0 where
  pub storage : length buf.bytes ≡ buf.size * buf.element_size
  pub read_in : buf.read_idx < buf.size
  pub write_in : buf.write_idx < buf.size

size_of_product : (n : ℕ) → n < 2 ^ 31 → size_of_int (n % 2 ^ 32) ≡ n
size_of_product n h = ground arith

-- If `malloc` returns as many bytes as it is asked for, the size is positive and the product of the
-- sizes is an `int`, the buffer that `circular_buffer_create` returns is valid and empty.
pub circular_buffer_create-IsValid :
    (ok : Bool) (malloc : ℕ → Option (List ℕ)) (size element_size : ℕ) {buf : CircularBuffer}
    → ((n : ℕ) (bs : List ℕ) → malloc n ≡ some bs → length bs ≡ n)
    → 0 < size
    → size * element_size < 2 ^ 31
    → circular_buffer_create ok malloc size element_size ≡ some buf
    → IsValid buf × (circular_buffer_is_empty buf ≡ true)
unfolding circular_buffer_create circular_buffer_is_empty
circular_buffer_create-IsValid true malloc size element_size exact pos small e =
    grind (arith, size_of_product (size * element_size) small)
circular_buffer_create-IsValid false malloc size element_size exact pos small e = grind arith

-- Both operations keep the invariant and the sizes.
pub push_front-IsValid :
    (buf : CircularBuffer) (x : List ℕ) → IsValid buf → IsValid (circular_buffer_push_front buf x).1
unfolding circular_buffer_push_front
push_front-IsValid buf x v =
    ground (
      arith,
      length-overwrite buf.bytes (buf.write_idx * buf.element_size) (take buf.element_size x),
    )

pub pop_back-IsValid :
    (buf : CircularBuffer) → IsValid buf → IsValid (circular_buffer_pop_back buf).1
unfolding circular_buffer_pop_back
pop_back-IsValid buf v = ground arith
