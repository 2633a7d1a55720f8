-- ===== src/HashContainer/Tests.antt =====
-- The containers of src/data_info/hash_container.c on concrete tables, and the theorems applied.
use foren6_analyzer.Prelude.{ℕ, true, false, [], ◌∷◌, none, some, ◌≡◌, refl, arith, Returns}
use foren6_analyzer.Refs.{DiRplInstanceRef, rpl_instance_ref_key, same_rpl_instance_ref}
use foren6_analyzer.Uthash.{Uthash, plain_tables}
use foren6_analyzer.HashContainer.{
  HashContainer, ham_no_check, ham_fail_if_exists, ham_overwrite_if_exists,
  hvm_create_if_non_existant, hash_add, hash_value, hash_delete, hash_dup, hash_remove_ref,
  hash_it_delete_value, content, delete_found, remove_found, hash_begin,
}
use foren6_analyzer.HashContainer.Iterator.{element, null, freed}
use foren6_analyzer.HashContainer.Contents.{
  Added, Valued, Deleted, hash_add-Added, hash_value-Valued, hash_delete-Deleted, Emptied,
  hash_remove_ref-Emptied,
}
use foren6_analyzer.HashContainer.Walk.{hash_dup_total}

instance abbrev tables : Uthash DiRplInstanceRef ℕ
tables = plain_tables

abbrev id : ℕ → DiRplInstanceRef
id n = record { rpl_instance = n }

abbrev two : HashContainer DiRplInstanceRef ℕ
two = record {
  head = (id 1, 10) ∷ (id 2, 20) ∷ [];
  zero_data = 0;
  data_constructor = some (λ zeros k. k.rpl_instance);
}

overwrite :
    (hash_add two (id 1) (some 11) ham_overwrite_if_exists).container.head
    ≡ ((id 1, 11) ∷ (id 2, 20) ∷ [])
unfolding hash_add same_rpl_instance_ref
overwrite = refl

refuse : (hash_add two (id 1) (some 11) ham_fail_if_exists).added ≡ false
unfolding hash_add same_rpl_instance_ref
refuse = refl

construct : (hash_value two (id 3) hvm_create_if_non_existant).value ≡ element 2
unfolding hash_value hash_add same_rpl_instance_ref
construct = refl

delete_first : hash_delete two (id 1) ≡ some (true, record two { head = (id 2, 20) ∷ [] })
unfolding hash_delete delete_found same_rpl_instance_ref
delete_first = refl

-- The reference is removed, but its data is not returned.
remove_ref_first : hash_remove_ref two (id 1) ≡ some (none, record two { head = (id 2, 20) ∷ [] })
unfolding hash_remove_ref remove_found same_rpl_instance_ref
remove_ref_first = refl

-- After a deletion the iterator's `prev` is the address of the element that was freed.
deleted_prev :
    hash_it_delete_value two (hash_begin two)
    ≡ some (
      record two { head = (id 2, 20) ∷ [] },
      record { current_data = element 0; next = null; prev = freed },
    )
unfolding hash_it_delete_value
deleted_prev = refl

two_distinct : (id 2 ≡ id 1) → ⊥
two_distinct e = ground arith

hash_add-Added_example :
    Added two (id 3) (content two (id 3) none) ham_no_check (hash_add two (id 3) none ham_no_check)
hash_add-Added_example =
    hash_add-Added two (id 3) none ham_no_check ((two_distinct, _), (_, _))
      (λ e. ((λ h. ground arith), ((λ h. ground arith), _)))

hash_value-Valued_example :
    Valued two (id 3) hvm_create_if_non_existant (hash_value two (id 3) hvm_create_if_non_existant)
hash_value-Valued_example =
    hash_value-Valued two (id 3) hvm_create_if_non_existant ((two_distinct, _), (_, _))

hash_delete-Deleted_example : Returns (Deleted two (id 1)) (hash_delete two (id 1))
hash_delete-Deleted_example = hash_delete-Deleted two (id 1) ((two_distinct, _), (_, _))

hash_remove_ref-Emptied_example : Returns (Emptied two (id 1)) (hash_remove_ref two (id 1))
hash_remove_ref-Emptied_example = hash_remove_ref-Emptied two (id 1) ((two_distinct, _), (_, _))

hash_dup_total_example : hash_dup 3 two ≡ some two
hash_dup_total_example = hash_dup_total two 3 (omega arith)
