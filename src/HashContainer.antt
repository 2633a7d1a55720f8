-- ===== src/HashContainer.antt =====
-- The hash containers of src/data_info/hash_container.c: a hash table of uthash.h with iterators.
-- A pointer to an element is its position in the table, which moves when an element before it is
-- removed. The spin lock is left out: each operation is modelled as it runs while it holds it. A
-- result of `none` is an access to freed memory or through NULL.
pub mod Contents
pub mod Iterator
mod Tests
pub mod Walk
use foren6_analyzer.Prelude.{
  ℕ, Bool, true, false, List, [], ◌∷◌, length, Option, none, some, if◌then◌else◌, ◌≡◌,
}
use foren6_analyzer.Refs.{Key}
use foren6_analyzer.Uthash.{Uthash}
use foren6_analyzer.Uthash.Assoc.{get_elem?, set_value}
use foren6_analyzer.HashContainer.Iterator.{
  Pointer, null, element, freed, HashIterator, hash_it_at, hash_it_end, hash_it_inc, hash_it_equ,
  after_delete, first,
}

pub data HashAddMode : Type 0 where
  ham_no_check : HashAddMode
  ham_fail_if_exists : HashAddMode
  ham_overwrite_if_exists : HashAddMode

pub data HashValueMode : Type 0 where
  hvm_fail_if_non_existant : HashValueMode
  hvm_create_if_non_existant : HashValueMode

-- `zero_data` is the memory that `calloc(1, data_size)` returns.
pub record HashContainer (K V : Type 0) : Type 0 where
  pub head : List (K × V)
  pub zero_data : V
  pub data_constructor : Option (V → K → V)

-- What `hash_add` returns: its result, `*was_existing`, `*iterator` and the container.
pub record HashAdd (K V : Type 0) : Type 0 where
  pub added : Bool
  pub was_existing : Bool
  pub iterator : HashIterator
  pub container : HashContainer K V

-- What `hash_value` returns: the element whose data its result points to, or NULL,
-- `*was_created` and the container.
pub record HashValue (K V : Type 0) : Type 0 where
  pub value : Pointer
  pub was_created : Bool
  pub container : HashContainer K V

abbrev pub checks : HashAddMode → Bool
checks ham_no_check = false
checks ham_fail_if_exists = true
checks ham_overwrite_if_exists = true

module _ {K V : Type 0} where
  abbrev pub data_at : Option (K × V) → Option V
  data_at none = none
  data_at (some e) = some e.1

  abbrev pub key_at : Option (K × V) → Option K
  key_at none = none
  key_at (some e) = some e.0

  unfoldable pub hash_create : V → Option (V → K → V) → HashContainer K V
  hash_create zero_data data_constructor = record {
    head = [];
    zero_data = zero_data;
    data_constructor = data_constructor;
  }

  unfoldable pub hash_size : HashContainer K V → ℕ
  hash_size container = length container.head

  abbrev pub hash_begin : HashContainer K V → HashIterator
  hash_begin container = first container.head

  abbrev pub hash_end : HashContainer K V → HashIterator
  hash_end container = hash_it_end container.head

  -- The data of a new element that the caller gives no data for.
  abbrev pub constructed : HashContainer K V → K → V
  constructed container k = elim container.data_constructor [
    | none ↦ container.zero_data
    | some construct ↦ construct container.zero_data k
  ]

  -- What a pointer to an element's data or key points to; `none` is NULL.
  abbrev pub pointed : HashContainer K V → Pointer → Option (K × V)
  pointed container null = none
  pointed container (element i) = get_elem? container.head i
  pointed container freed = none

  unfoldable pub hash_it_value : HashContainer K V → HashIterator → Option V
  hash_it_value container it = data_at (pointed container it.current_data)

  unfoldable pub hash_it_key : HashContainer K V → HashIterator → Option K
  hash_it_key container it = key_at (pointed container it.current_data)

module _ {K V : Type 0} ⦃key : Key K⦄ ⦃ut : Uthash K V⦄ where
  -- The element that `hash_add_ref` finds, which it looks for unless the mode is HAM_NoCheck.
  abbrev pub existing : HashContainer K V → K → HashAddMode → Option ℕ
  existing container k mode = if checks mode then ut.hash_find container.head k else none

  abbrev pub add_new : HashContainer K V → K → V → HashAdd K V
  add_new container k data_content =
      let head = ut.hash_add_keyptr container.head k data_content in
      record {
        added = true;
        was_existing = false;
        iterator = hash_it_at head (length container.head);
        container = record container { head = head };
      }

  abbrev pub add_to : HashContainer K V → V → HashAddMode → ℕ → HashAdd K V
  add_to container data_content ham_fail_if_exists i = record {
    added = false;
    was_existing = true;
    iterator = hash_it_at container.head i;
    container = container;
  }
  add_to container data_content mode i = record {
    added = true;
    was_existing = true;
    iterator = hash_it_at container.head i;
    container = record container { head = set_value container.head i data_content };
  }

  abbrev pub add_at : HashContainer K V → K → V → HashAddMode → Option ℕ → HashAdd K V
  add_at container k data_content mode none = add_new container k data_content
  add_at container k data_content mode (some i) = add_to container data_content mode i

  unfoldable pub hash_add_ref : HashContainer K V → K → V → HashAddMode → HashAdd K V
  hash_add_ref container k data_content mode =
      add_at container k data_content mode (existing container k mode)

  -- The data of a new element.
  abbrev pub content : HashContainer K V → K → Option V → V
  content container k none = constructed container k
  content container k (some data_content) = data_content

  unfoldable pub hash_add : HashContainer K V → K → Option V → HashAddMode → HashAdd K V
  unfolding hash_add_ref
  hash_add container k data_content mode =
      hash_add_ref container k (content container k data_content) mode

  abbrev pub found_at : HashContainer K V → Option ℕ → Bool × HashIterator
  found_at container none = (false, hash_end container)
  found_at container (some i) = (true, hash_it_at container.head i)

  unfoldable pub hash_find : HashContainer K V → K → Bool × HashIterator
  hash_find container k = found_at container (ut.hash_find container.head k)

  -- `hash_value` after its `hash_find`.
  abbrev pub value_found :
      HashContainer K V → K → HashValueMode → Bool × HashIterator → HashValue K V
  value_found container k hvm_create_if_non_existant (false, it) =
      let r = hash_add container k none ham_no_check in
      record {
        value = if r.added then r.iterator.current_data else null;
        was_created = true;
        container = r.container;
      }
  value_found container k mode (found, it) = record {
    value = it.current_data;
    was_created = false;
    container = container;
  }

  unfoldable pub hash_value : HashContainer K V → K → HashValueMode → HashValue K V
  unfolding hash_find
  hash_value container k mode = value_found container k mode (hash_find container k)

  -- The container and the iterator after the element that it points to is removed. The iterator
  -- then points to the next one; its `prev` is the address of the element that is freed.
  unfoldable pub hash_it_delete_value :
      HashContainer K V → HashIterator → Option (HashContainer K V × HashIterator)
  unfolding hash_it_inc
  hash_it_delete_value container it = elim it.current_data [
    | null ↦ none
    | freed ↦ none
    | element i ↦ (elim (hash_it_inc container.head it) [
      | none ↦ none
      | some next_it ↦
          some (record container { head = ut.hash_del container.head i }, after_delete i next_it)
    ])
  ]

  -- As `hash_it_delete_value`; the data is not freed.
  unfoldable pub hash_it_remove_ref :
      HashContainer K V → HashIterator → Option (HashContainer K V × HashIterator)
  unfolding hash_it_inc
  hash_it_remove_ref container it = elim it.current_data [
    | null ↦ none
    | freed ↦ none
    | element i ↦ (elim (hash_it_inc container.head it) [
      | none ↦ none
      | some next_it ↦
          some (record container { head = ut.hash_del container.head i }, after_delete i next_it)
    ])
  ]

  unfoldable pub delete_found :
      HashContainer K V → Bool × HashIterator → Option (Bool × HashContainer K V)
  unfolding hash_it_delete_value
  delete_found container (false, it) = some (false, container)
  delete_found container (true, it) = elim (hash_it_delete_value container it) [
    | none ↦ none
    | some r ↦ some (true, r.0)
  ]

  unfoldable pub hash_delete : HashContainer K V → K → Option (Bool × HashContainer K V)
  unfolding hash_find
  hash_delete container k = delete_found container (hash_find container k)

  abbrev pub remove_found :
      HashContainer K V → Bool × HashIterator → Option (Option V × HashContainer K V)
  unfolding hash_it_remove_ref
  remove_found container (false, it) = some (none, container)
  remove_found container (true, it) = elim (hash_it_remove_ref container it) [
    | none ↦ none
    | some r ↦ some (none, r.0)
  ]

  -- `data_ptr` is never set: the first component is NULL.
  unfoldable pub hash_remove_ref : HashContainer K V → K → Option (Option V × HashContainer K V)
  unfolding hash_find
  hash_remove_ref container k = remove_found container (hash_find container k)

  -- HASH_ITER over the elements that are left, each of which is the first one when it is deleted.
  abbrev pub clear_each : List (K × V) → List (K × V) → List (K × V)
  clear_each [] head = head
  clear_each (e ∷ left) head = clear_each left (ut.hash_del head 0)

  unfoldable pub hash_clear : HashContainer K V → HashContainer K V
  hash_clear container = record container { head = clear_each container.head container.head }

  -- The body of the `for` of `hash_dup`, and its `hash_it_inc`.
  unfoldable pub copy_at :
      HashContainer K V
      → HashContainer K V
      → Option (K × V)
      → Option HashIterator
      → Option (HashIterator × HashContainer K V)
  unfolding hash_add
  copy_at container new_hash none next_it = none
  copy_at container new_hash (some e) none = none
  copy_at container new_hash (some e) (some next_it) =
      some (next_it, (hash_add new_hash e.0 (some e.1) ham_no_check).container)

  -- The `for` of `hash_dup`; `none` also when the fuel runs out.
  unfoldable pub dup_from :
      ℕ → HashContainer K V → HashIterator → HashContainer K V → Option (HashContainer K V)
  unfolding copy_at hash_it_inc hash_it_equ
  dup_from ℕ.zero container it new_hash = none
  dup_from (ℕ.suc fuel) container it new_hash =
      if hash_it_equ it (hash_end container)
      then some new_hash
      else (elim (copy_at container new_hash (pointed container it.current_data)
          (hash_it_inc container.head it)) [
            | none ↦ none
            | some r ↦ dup_from fuel container r.0 r.1
          ])

  unfoldable pub hash_dup : ℕ → HashContainer K V → Option (HashContainer K V)
  unfolding dup_from
  hash_dup fuel container =
      dup_from fuel container (hash_begin container) (record container { head = [] })
