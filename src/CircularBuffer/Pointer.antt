-- ===== src/CircularBuffer/Pointer.antt =====
-- The pointer that `circular_buffer_pop_back` returns, while the producer goes on.
use foren6_analyzer.Prelude.{
  ℕ, none, some, ◌*◌, false, List, [], ◌∷◌, length, take, take-length, All, Bool-cases, inl, inr,
  ◌≡◌, ◌≢◌, refl, ap, sym, ◌∙◌, arith,
}
use foren6_analyzer.CircularBuffer.{
  CircularBuffer, next_index, circular_buffer_push_front, circular_buffer_pop_back,
  circular_buffer_is_empty, circular_buffer_is_full, circular_buffer_inc_write_idx,
  circular_buffer_inc_read_idx, push_all,
}
use foren6_analyzer.CircularBuffer.Memory.{slot, read_at, slot-overwrite_ne}
use foren6_analyzer.CircularBuffer.Queue.{Elements}

-- The elements pushed have the size of a slot.
abbrev FitsAll : CircularBuffer → Elements → Type 0
FitsAll buf = All (λ (x : List ℕ). length x ≡ buf.element_size)

room_apart :
    (buf : CircularBuffer) (i : ℕ)
    → circular_buffer_is_full buf ≡ false
    → buf.read_idx ≡ next_index buf.size i
    → buf.write_idx ≢ i
unfolding circular_buffer_is_full
room_apart buf i room e = ground arith

-- A push does not write the slot just before the one to read next.
slot-push_front :
    (buf : CircularBuffer) (x : List ℕ) (i : ℕ)
    → length x ≡ buf.element_size
    → buf.read_idx ≡ next_index buf.size i
    → slot (circular_buffer_push_front buf x).1.bytes buf.element_size i
      ≡ slot buf.bytes buf.element_size i
unfolding circular_buffer_push_front circular_buffer_inc_write_idx
slot-push_front buf x i fit e =
    let whole : take buf.element_size x ≡ x = rw (← fit) (take-length x) in
    elim (Bool-cases (circular_buffer_is_full buf)) [
      | inl full ↦ rw full
      | inr room ↦
          rw (room, whole)
            (slot-overwrite_ne buf.bytes buf.element_size buf.write_idx i x fit
              (room_apart buf i room e))
    ]

push_front-frame :
    (buf : CircularBuffer) (x : List ℕ)
    → (((circular_buffer_push_front buf x).1.size ≡ buf.size)
        × ((circular_buffer_push_front buf x).1.element_size ≡ buf.element_size)
        × ((circular_buffer_push_front buf x).1.read_idx ≡ buf.read_idx))
unfolding circular_buffer_push_front circular_buffer_inc_write_idx
push_front-frame buf x = ground arith

slot-push_all :
    (buf : CircularBuffer) (xs : Elements) (i : ℕ)
    → FitsAll buf xs
    → buf.read_idx ≡ next_index buf.size i
    → slot (push_all buf xs).bytes buf.element_size i ≡ slot buf.bytes buf.element_size i
unfolding push_all
slot-push_all buf [] i fit e = refl
slot-push_all buf (x ∷ xs) i (x_fits, fit) e =
    let buf' = (circular_buffer_push_front buf x).1 in
    let (size_same, width_same, read_same) = push_front-frame buf x in
    let fit' : FitsAll buf' xs = rw width_same fit in
    let e' : buf'.read_idx ≡ next_index buf'.size i = rw (size_same, read_same) e in
    let later = slot-push_all buf' xs i fit' e' in
    ap (λ (n : ℕ). slot (push_all buf' xs).bytes n i) (sym width_same)
    ∙ later
    ∙ ap (λ (n : ℕ). slot buf'.bytes n i) width_same
    ∙ slot-push_front buf x i x_fits e

-- The bytes at the pointer that `circular_buffer_pop_back` returned do not change while the
-- producer pushes any number of elements of the element size, also when the buffer fills up.
pub pop_back-push_all :
    (buf : CircularBuffer) (p : ℕ) (xs : Elements)
    → (circular_buffer_pop_back buf).0 ≡ some p
    → FitsAll buf xs
    → read_at (push_all (circular_buffer_pop_back buf).1 xs).bytes p buf.element_size
      ≡ read_at buf.bytes p buf.element_size
unfolding circular_buffer_pop_back circular_buffer_inc_read_idx
pop_back-push_all buf p xs e fit = elim (Bool-cases (circular_buffer_is_empty buf)) [
  | inl none_left ↦ absurd (let gone : none ≡ some p = rw none_left at e in ground arith)
  | inr left ↦
      let given : some (buf.read_idx * buf.element_size) ≡ some p = rw left at e in
      let here : buf.read_idx * buf.element_size ≡ p = ground arith in
      let after = record buf { read_idx = next_index buf.size buf.read_idx } in
      rw (left, ← here) (slot-push_all after xs buf.read_idx fit refl)
]
