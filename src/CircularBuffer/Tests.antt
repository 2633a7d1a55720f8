-- ===== src/CircularBuffer/Tests.antt =====
-- The buffer at concrete inputs.
use foren6_analyzer.Prelude.{
  ℕ, true, List, [], ◌∷◌, Option, none, some, ◌==◌, if◌then◌else◌, length, ◌≡◌, refl, arith,
}
use foren6_analyzer.CircularBuffer.{
  CircularBuffer, circular_buffer_create, circular_buffer_is_empty, circular_buffer_pop_back,
  push_all, run,
}
use foren6_analyzer.CircularBuffer.Inv.{IsValid, circular_buffer_create-IsValid}
use foren6_analyzer.CircularBuffer.Memory.{read_at}
use foren6_analyzer.CircularBuffer.Pointer.{pop_back-push_all}
use foren6_analyzer.CircularBuffer.Queue.{Op, push, pop, Reply}
use foren6_analyzer.CircularBuffer.Queue
use foren6_analyzer.CircularBuffer.Refine.{Fits, contents, run-queue}

-- Three slots of two bytes; the last slot holds an element.
abbrev wrapping : CircularBuffer
wrapping = record {
  bytes = 1 ∷ 2 ∷ 3 ∷ 4 ∷ 5 ∷ 6 ∷ [];
  size = 3;
  element_size = 2;
  read_idx = 2;
  write_idx = 0;
}

wrapping-IsValid : IsValid wrapping
wrapping-IsValid = record { storage = refl; read_in = omega arith; write_in = omega arith }

abbrev six_ops : List Op
six_ops = push (7 ∷ 8 ∷ []) ∷ push (9 ∷ 10 ∷ []) ∷ pop ∷ pop ∷ pop ∷ push (11 ∷ 12 ∷ []) ∷ []

-- An allocator of at most six bytes.
abbrev six_bytes : ℕ → Option (List ℕ)
six_bytes n = if n == 6 then some (1 ∷ 2 ∷ 3 ∷ 4 ∷ 5 ∷ 6 ∷ []) else none

six_bytes_exact : (n : ℕ) (bs : List ℕ) → six_bytes n ≡ some bs → length bs ≡ n
six_bytes_exact n bs e = ground arith

abbrev created : CircularBuffer
created = record {
  bytes = 1 ∷ 2 ∷ 3 ∷ 4 ∷ 5 ∷ 6 ∷ [];
  size = 3;
  element_size = 2;
  read_idx = 0;
  write_idx = 0;
}

circular_buffer_create-IsValid_example : IsValid created × (circular_buffer_is_empty created ≡ true)
unfolding circular_buffer_create
circular_buffer_create-IsValid_example =
    circular_buffer_create-IsValid true six_bytes 3 2 six_bytes_exact (omega arith) (omega arith)
      refl

run-queue_example : run wrapping six_ops ≡ Queue.run 2 (contents wrapping) six_ops
unfolding Fits
run-queue_example =
    run-queue wrapping six_ops wrapping-IsValid (refl, (refl, (_, (_, (_, (refl, _))))))

pop_back-push_all_example :
    read_at
      (push_all (circular_buffer_pop_back wrapping).1 ((7 ∷ 8 ∷ []) ∷ (9 ∷ 10 ∷ []) ∷ [])).bytes
      4
      2
    ≡ (5 ∷ 6 ∷ [])
unfolding circular_buffer_pop_back
pop_back-push_all_example =
    pop_back-push_all wrapping 4 ((7 ∷ 8 ∷ []) ∷ (9 ∷ 10 ∷ []) ∷ []) refl (refl, (refl, _))
