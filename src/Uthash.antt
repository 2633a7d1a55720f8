-- ===== src/Uthash.antt =====
-- The hash table macros of uthash.h that hash_container.c uses, as an interface: a table is the
-- sequence of its elements in the order in which they were added, which is the order of
-- `hh.next`, and a pointer to an element is its position.
pub mod Assoc
use foren6_analyzer.Prelude.{ℕ, ◌<◌, List, [], ◌∷◌, ◌++◌, length, Option, ◌≡◌, refl}
use foren6_analyzer.Refs.{Key}
use foren6_analyzer.Uthash.Assoc.{position, remove_at, IsDistinct}

pub record Uthash (K V : Type 0) ⦃key : Key K⦄ : Type 0 where
  -- HASH_FIND
  pub hash_find : List (K × V) → K → Option ℕ
  -- HASH_ADD_KEYPTR
  pub hash_add_keyptr : List (K × V) → K → V → List (K × V)
  -- HASH_DEL
  pub hash_del : List (K × V) → ℕ → List (K × V)
  pub hash_find_law : (xs : List (K × V)) (k : K) → IsDistinct xs → hash_find xs k ≡ position xs k
  pub hash_add_keyptr_law :
      (xs : List (K × V)) (k : K) (v : V) → hash_add_keyptr xs k v ≡ (xs ++ ((k, v) ∷ []))
  pub hash_del_law : (xs : List (K × V)) (i : ℕ) → i < length xs → hash_del xs i ≡ remove_at xs i

-- Tables without buckets, for runs on concrete inputs.
abbrev pub plain_tables : {K V : Type 0} ⦃key : Key K⦄ → Uthash K V
plain_tables = record {
  hash_find = position;
  hash_add_keyptr = λ xs k v. xs ++ ((k, v) ∷ []);
  hash_del = remove_at;
  hash_find_law = λ xs k d. refl;
  hash_add_keyptr_law = λ xs k v. refl;
  hash_del_law = λ xs i h. refl;
}
