-- ===== src/HashContainer/Iterator.antt =====
-- The iterators of src/data_info/hash_container.c.
use foren6_analyzer.Prelude.{
  ℕ, zero, suc, ◌-◌, Bool, true, false, ltb, ◌==◌, List, length, Option, none, some, if◌then◌else◌,
}

-- A `hash_container_el_t *`: the position of an element of the table, or the address of one that
-- has been freed.
pub data Pointer : Type 0 where
  null : Pointer
  element : ℕ → Pointer
  freed : Pointer

-- `container` is an argument of the functions.
pub record HashIterator : Type 0 where
  pub current_data : Pointer
  pub next : Pointer
  pub prev : Pointer

-- The element at a position, NULL behind the last one.
abbrev pub point : {A : Type 0} → List A → ℕ → Pointer
point head i = if ltb i (length head) then element i else null

-- The element before a position.
abbrev pub before : ℕ → Pointer
before zero = null
before (suc i) = element i

module _ {A : Type 0} where
  -- `current_data = element; next = element->hh.next; prev = element->hh.prev`
  abbrev pub hash_it_at : List A → ℕ → HashIterator
  hash_it_at head i = record {
    current_data = element i;
    next = point head (suc i);
    prev = before i;
  }

  -- `hash_end`: `prev` is the tail of the table.
  abbrev pub hash_it_end : List A → HashIterator
  hash_it_end head = record { current_data = null; next = null; prev = before (length head) }

  -- `hash_begin`
  abbrev pub first : List A → HashIterator
  first head = if length head == 0 then hash_it_end head else hash_it_at head 0

  unfoldable pub hash_it_inc : List A → HashIterator → Option HashIterator
  hash_it_inc head it = elim it.next [
    | null ↦ some (record { current_data = null; next = null; prev = it.current_data })
    | element i ↦
        some
          (record { current_data = element i; next = point head (suc i); prev = it.current_data })
    | freed ↦ none
  ]

  unfoldable pub hash_it_dec : List A → HashIterator → Option HashIterator
  hash_it_dec head it = elim it.prev [
    | null ↦ some (record { current_data = null; next = it.current_data; prev = null })
    | element i ↦
        some (record { current_data = element i; next = it.current_data; prev = before i })
    | freed ↦ none
  ]

-- `it->current_data == other_it->current_data`; no address that has been freed is handed out again.
unfoldable pub hash_it_equ : HashIterator → HashIterator → Bool
hash_it_equ it other_it = elim it.current_data [
  | null ↦ (elim other_it.current_data [ null ↦ true | _ ↦ false ])
  | element i ↦ (elim other_it.current_data [ element j ↦ i == j | _ ↦ false ])
  | freed ↦ false
]

-- A pointer once the element at a position is freed: the ones behind it move up.
abbrev pub moved : ℕ → Pointer → Pointer
moved i null = null
moved i freed = freed
moved i (element j) = if i == j then freed else if ltb i j then element (j - 1) else element j

abbrev pub after_delete : ℕ → HashIterator → HashIterator
after_delete i it = record {
  current_data = moved i it.current_data;
  next = moved i it.next;
  prev = moved i it.prev;
}
