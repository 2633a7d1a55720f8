-- ===== src/CircularBuffer/Queue.antt =====
-- The specification: a queue of at most `cap` elements, oldest first.
use foren6_analyzer.Prelude.{
  ℕ, Bool, true, false, List, [], ◌∷◌, ◌++◌, Option, none, some, ◌==◌, length, if◌then◌else◌,
}

-- What a client can ask of a buffer, and what it sees of each call.
pub data Op : Type 0 where
  push : List ℕ → Op
  pop : Op

pub data Reply : Type 0 where
  pushed : Bool → Reply
  popped : Option (List ℕ) → Reply

abbrev pub Elements : Type 0
Elements = List (List ℕ)

unfoldable pub enqueue : ℕ → Elements → List ℕ → Bool × Elements
enqueue cap q x = if length q == cap then (false, q) else (true, q ++ (x ∷ []))

unfoldable pub dequeue : Elements → Option (List ℕ) × Elements
dequeue [] = (none, [])
dequeue (x ∷ q) = (some x, q)

unfoldable pub run : ℕ → Elements → List Op → List Reply
run cap q [] = []
run cap q (push x ∷ ops) = let (done, q') = enqueue cap q x in pushed done ∷ run cap q' ops
run cap q (pop ∷ ops) = let (x, q') = dequeue q in popped x ∷ run cap q' ops
