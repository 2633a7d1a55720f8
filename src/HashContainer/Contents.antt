-- ===== src/HashContainer/Contents.antt =====
-- What the operations of src/data_info/hash_container.c do to the elements: a container is a map
-- from keys to data.
use foren6_analyzer.Prelude.{
  ℕ, suc, Bool, true, false, ltb, List, [], ◌∷◌, length, Option, none, some, is_some, if◌then◌else◌,
  Returns, ◌≡◌, ◌≢◌, not, ◌&&◌, ◌++◌, Bool-cases, refl, ap, arith, inl, inr, sym, ◌∙◌,
}
use foren6_analyzer.Refs.{Key}
use foren6_analyzer.Uthash.{Uthash}
use foren6_analyzer.Uthash.Assoc.{
  lookup, get_elem?, Absent, IsDistinct, At, Outcome, position-Outcome, lookup-Absent,
  lookup-append, IsDistinct-append, IsDistinct-set_value, IsDistinct-remove_at, same_refl,
}
use foren6_analyzer.HashContainer.{
  delete_found, HashContainer, HashAdd, HashAddMode, ham_no_check, ham_fail_if_exists,
  ham_overwrite_if_exists, HashValueMode, hvm_fail_if_non_existant, hvm_create_if_non_existant,
  hash_add_ref, hash_add, hash_find, hash_value, hash_delete, hash_it_value, constructed, add_new,
  add_to, data_at, add_at, content, pointed, found_at, HashValue, delete_found, value_found,
  hash_it_delete_value, hash_remove_ref, hash_it_remove_ref, remove_found,
}
use foren6_analyzer.HashContainer.Iterator.{hash_it_inc}

abbrev pub is_create : HashValueMode → Bool
is_create hvm_create_if_non_existant = true
is_create hvm_fail_if_non_existant = false

abbrev is_fail_if_exists : HashAddMode → Bool
is_fail_if_exists ham_fail_if_exists = true
is_fail_if_exists mode = false

get_elem?-append :
    {A : Type 0} (xs : List A) (x : A) → get_elem? (xs ++ (x ∷ [])) (length xs) ≡ some x
get_elem?-append [] x = refl
get_elem?-append (y ∷ xs) x = get_elem?-append xs x

module _ {K V : Type 0} ⦃key : Key K⦄ where
  -- The data that a key has in a container.
  abbrev pub get : HashContainer K V → K → Option V
  get container k = lookup k container.head

  -- No two elements have one key.
  abbrev pub IsMap : HashContainer K V → Type 0
  IsMap container = IsDistinct container.head

module _ {K V : Type 0} ⦃key : Key K⦄ ⦃ut : Uthash K V⦄ (container : HashContainer K V)
    (k : K) where
  -- What a call of `hash_add_ref` must do, given what the key had before it.
  pub record Added (data_content : V) (mode : HashAddMode) (r : HashAdd K V) : Type 0 where
    pub ok : IsMap r.container
    pub stored :
        (j : K)
        → get r.container j ≡ (
            if key.same k j
            then (if r.added then some data_content else get container k)
            else get container j)
    pub decided : r.added ≡ not (is_some (get container k) && is_fail_if_exists mode)
    pub existed : r.was_existing ≡ is_some (get container k)
    pub points : hash_it_value r.container r.iterator ≡ get r.container k

  find-Outcome : IsMap container → Outcome container.head k (ut.hash_find container.head k)
  find-Outcome d = rw (ut.hash_find_law container.head k d) (position-Outcome k container.head)

  new-Added :
      (v : V) (mode : HashAddMode)
      → IsMap container
      → Absent k container.head
      → Added v mode (add_new container k v)
  unfolding hash_it_value
  new-Added v mode d absent =
      let appended = ut.hash_add_keyptr_law container.head k v in
      let missing = lookup-Absent k container.head absent in
      record {
        ok = rw appended (IsDistinct-append k v container.head absent d);
        stored = λ j. rw appended (lookup-append j k v container.head absent);
        decided = rw missing refl;
        existed = rw missing refl;
        points =
            rw
              (
                appended,
                get_elem?-append container.head (k, v),
                lookup-append k k v container.head absent,
                same_refl k,
              )
              refl;
      }

  unchanged :
      (o : Option V) (j : K)
      → lookup k container.head ≡ o
      → lookup j container.head ≡ (if key.same k j then o else lookup j container.head)
  unchanged o j e = elim (Bool-cases (key.same k j)) [
    | inl s ↦ rw (s, sym ((key.same_iff k j).0 s)) e
    | inr s ↦ rw s refl
  ]

  old-Added :
      (v : V) (mode : HashAddMode) (i : ℕ)
      → mode ≢ ham_no_check
      → IsMap container
      → At container.head k i
      → Added v mode (add_to container v mode i)
  unfolding hash_it_value
  old-Added v ham_no_check i n d at = absurd (n refl)
  old-Added v ham_fail_if_exists i n d at = record {
    ok = d;
    stored = λ j. unchanged (lookup k container.head) j refl;
    decided = rw at.known refl;
    existed = rw at.known refl;
    points = ap data_at at.here ∙ sym at.known;
  }
  old-Added v ham_overwrite_if_exists i n d at = record {
    ok = IsDistinct-set_value container.head i v d;
    stored = λ j. at.stored j v;
    decided = rw at.known refl;
    existed = rw at.known refl;
    points = rw (at.stored k v, same_refl k) (ap data_at (at.stored_here v));
  }

  found-Added :
      (v : V) (mode : HashAddMode) (o : Option ℕ)
      → mode ≢ ham_no_check
      → IsMap container
      → Outcome container.head k o
      → Added v mode (add_at container k v mode o)
  found-Added v mode none n d absent = new-Added v mode d absent
  found-Added v mode (some i) n d at = old-Added v mode i n d at

  -- HAM_NoCheck is for keys that the container does not have.
  abbrev pub Allowed : HashAddMode → Type 0
  Allowed mode = mode ≡ ham_no_check → Absent k container.head

  add_ref-Added :
      (v : V) (mode : HashAddMode)
      → IsMap container
      → Allowed mode
      → Added v mode (hash_add_ref container k v mode)
  unfolding hash_add_ref
  add_ref-Added v ham_no_check d a = new-Added v ham_no_check d (a refl)
  add_ref-Added v ham_fail_if_exists d a =
      found-Added v ham_fail_if_exists (ut.hash_find container.head k) (λ e. ground arith) d
        (find-Outcome d)
  add_ref-Added v ham_overwrite_if_exists d a =
      found-Added v ham_overwrite_if_exists (ut.hash_find container.head k) (λ e. ground arith) d
        (find-Outcome d)

  -- In a container where no two elements have one key, and with HAM_NoCheck only for a key that has
  -- no data: `hash_add` fails exactly if the key has data and the mode is HAM_FailIfExists.
  -- Afterwards the key has the new data if it did not fail and its old data if it did, every other
  -- key has what it had, `*iterator` points to the key's data, `*was_existing` says whether the key
  -- had data, and still no two elements have one key.
  pub hash_add-Added :
      (data_content : Option V) (mode : HashAddMode)
      → IsMap container
      → Allowed mode
      → Added (content container k data_content) mode (hash_add container k data_content mode)
  unfolding hash_add
  hash_add-Added data_content mode d a = add_ref-Added (content container k data_content) mode d a

  -- What a call of `hash_value` must do.
  pub record Valued (mode : HashValueMode) (r : HashValue K V) : Type 0 where
    pub ok : IsMap r.container
    pub created : r.was_created ≡ not (is_some (get container k)) && is_create mode
    pub value : data_at (pointed r.container r.value) ≡ get r.container k
    pub stored :
        (j : K)
        → get r.container j ≡ (
            if key.same k j
            then (if r.was_created then some (constructed container k) else get container k)
            else get container j)

  missing-Valued :
      (mode : HashValueMode)
      → IsMap container
      → Absent k container.head
      → Valued mode (value_found container k mode (found_at container none))
  unfolding hash_it_value hash_add
  missing-Valued hvm_fail_if_non_existant d absent =
      let missing = lookup-Absent k container.head absent in
      record {
        ok = d;
        created = rw missing refl;
        value = sym missing;
        stored = λ j. unchanged (lookup k container.head) j refl;
      }
  missing-Valued hvm_create_if_non_existant d absent =
      let r = hash_add-Added none ham_no_check d (λ e. absent) in
      record {
        ok = r.ok;
        created = rw (lookup-Absent k container.head absent) refl;
        value = r.points;
        stored = r.stored;
      }

  here-Valued :
      (mode : HashValueMode) (i : ℕ)
      → IsMap container
      → At container.head k i
      → Valued mode (value_found container k mode (found_at container (some i)))
  unfolding hash_it_value hash_add
  here-Valued hvm_fail_if_non_existant i d at = record {
    ok = d;
    created = rw at.known refl;
    value = ap data_at at.here ∙ sym at.known;
    stored = λ j. unchanged (lookup k container.head) j refl;
  }
  here-Valued hvm_create_if_non_existant i d at = record {
    ok = d;
    created = rw at.known refl;
    value = ap data_at at.here ∙ sym at.known;
    stored = λ j. unchanged (lookup k container.head) j refl;
  }

  found-Valued :
      (mode : HashValueMode) (o : Option ℕ)
      → IsMap container
      → Outcome container.head k o
      → Valued mode (value_found container k mode (found_at container o))
  found-Valued mode none d out = missing-Valued mode d out
  found-Valued mode (some i) d out = here-Valued mode i d out

  -- In a container where no two elements have one key, the result of `hash_value` points to the
  -- data that the key then has and is NULL if it has none. Exactly if the key had none and the mode
  -- is HVM_CreateIfNonExistant, `*was_created` is set and the key gets the data that the
  -- constructor makes. Every other key has what it had, and still no two elements have one key.
  pub hash_value-Valued :
      (mode : HashValueMode) → IsMap container → Valued mode (hash_value container k mode)
  unfolding hash_value hash_find
  hash_value-Valued mode d = found-Valued mode (ut.hash_find container.head k) d (find-Outcome d)

  -- What a call of `hash_delete` must do.
  pub record Deleted (r : Bool × HashContainer K V) : Type 0 where
    pub ok : IsMap r.1
    pub found : r.0 ≡ is_some (get container k)
    pub stored : (j : K) → get r.1 j ≡ (if key.same k j then none else get container j)

  At-Deleted :
      (i : ℕ)
      → IsMap container
      → At container.head k i
      → Deleted (true, record container { head = ut.hash_del container.head i })
  At-Deleted i d at =
      let deleted = ut.hash_del_law container.head i at.inside in
      record {
        ok = rw deleted (IsDistinct-remove_at container.head i d);
        found = rw at.known refl;
        stored = λ j. rw deleted (at.removed j d);
      }

  Absent-Deleted : IsMap container → Absent k container.head → Deleted (false, container)
  Absent-Deleted d absent = record {
    ok = d;
    found = rw (lookup-Absent k container.head absent) refl;
    stored = λ j. unchanged none j (lookup-Absent k container.head absent);
  }

  found-Deleted :
      (o : Option ℕ)
      → IsMap container
      → Outcome container.head k o
      → Returns Deleted (delete_found container (found_at container o))
  unfolding hash_it_delete_value hash_it_inc delete_found
  found-Deleted none d absent = Absent-Deleted d absent
  found-Deleted (some i) d at = elim (Bool-cases (ltb (suc i) (length container.head))) [
    | inl more ↦ rw more (At-Deleted i d at)
    | inr last ↦ rw last (At-Deleted i d at)
  ]

  -- In a container where no two elements have one key, `hash_delete` returns. Its result says
  -- whether the key had data. Afterwards the key has none, every other key has the data it had,
  -- and still no two elements have one key.
  pub hash_delete-Deleted : IsMap container → Returns Deleted (hash_delete container k)
  unfolding hash_delete hash_find
  hash_delete-Deleted d = found-Deleted (ut.hash_find container.head k) d (find-Outcome d)

  -- What a call of `hash_remove_ref` does: as `hash_delete`, but its result is NULL.
  pub record Emptied (r : Option V × HashContainer K V) : Type 0 where
    pub result : r.0 ≡ none
    pub removed : Deleted (is_some (get container k), r.1)

  found-Emptied :
      (o : Option ℕ)
      → IsMap container
      → Outcome container.head k o
      → Returns Emptied (remove_found container (found_at container o))
  unfolding hash_it_remove_ref hash_it_inc
  found-Emptied none d absent = record {
    result = refl;
    removed = rw (lookup-Absent k container.head absent) (Absent-Deleted d absent);
  }
  found-Emptied (some i) d at =
      let after : Emptied (none, record container { head = ut.hash_del container.head i }) =
        record { result = refl; removed = rw at.known (At-Deleted i d at) } in
      elim (Bool-cases (ltb (suc i) (length container.head))) [
        | inl more ↦ rw more after
        | inr last ↦ rw last after
      ]

  -- In a container where no two elements have one key, `hash_remove_ref` returns and removes what
  -- the key had, like `hash_delete`. Its result is NULL, whether or not the key had data.
  pub hash_remove_ref-Emptied : IsMap container → Returns Emptied (hash_remove_ref container k)
  unfolding hash_remove_ref hash_find
  hash_remove_ref-Emptied d = found-Emptied (ut.hash_find container.head k) d (find-Outcome d)

-- HAM_OverwriteIfExists never fails.
pub Added-overwrite :
    {K V : Type 0} ⦃key : Key K⦄ ⦃ut : Uthash K V⦄ {container : HashContainer K V} {k : K} {v : V}
    (r : HashAdd K V)
    → Added container k v ham_overwrite_if_exists r
    → r.added ≡ true
Added-overwrite {container = container} {k = k} r a =
    elim (Bool-cases (is_some (get container k))) [
      | inl known ↦ rw known at a.decided
      | inr fresh ↦ rw fresh at a.decided
    ]
