-- ===== src/RplData.antt =====
-- src/data_info/rpl_data.c: the versions of the network. The four kinds of object (nodes, DODAGs,
-- RPL instances, links) are kept the same way: version 0 is the working one, and each later version
-- is a table from references to copies of the objects.
pub mod Invariant
pub mod Kinds
pub mod Objects
pub mod Snapshot
mod Tests
pub mod Turns
pub mod Wsn
use foren6_analyzer.Prelude.{
  ℕ, zero, suc, Bool, true, false, List, [], ◌∷◌, ◌++◌, length, Option, none, some, if◌then◌else◌,
}
use foren6_analyzer.Refs.{Key}
use foren6_analyzer.Uthash.{Uthash}
use foren6_analyzer.Uthash.Assoc.{get_elem?}
use foren6_analyzer.HashContainer.{
  HashContainer, HashAdd, HashValue, data_at, pointed, hvm_fail_if_non_existant, ham_no_check,
  hash_create, hash_add, hash_value,
}

-- A pointer in the table of a version: NULL, to the working object with the same reference, or to a
-- copy.
pub data ObjectPtr : Type 0 where
  no_object : ObjectPtr
  working_object : ObjectPtr
  copied : ℕ → ObjectPtr

-- What `rpldata_add_node_version` and its three siblings do with the objects of a kind.
-- `reset_changed` takes the flag down; `dup` gives the object that is copied as it is afterwards, and
-- the copy; `fill_delta` completes the copy with the object of the last version; `missing` is the pointer that is stored for an object
-- that has not changed and is not in the last version, `none` where a pointer to it is read first.
pub record Kind (K O : Type 0) : Type 0 where
  pub ref : O → K
  pub has_changed : O → Bool
  pub reset_changed : O → O
  pub dup : O → O × O
  pub fill_delta : O → Option O → O
  pub missing : Option ObjectPtr

-- `copies` are the copies in the order in which they were made, `tables` the versions from 1 on, the
-- last one first. The container of containers that the source finds a version in is this list: a
-- version is added under the number that follows the last one.
pub record Versions (K O : Type 0) : Type 0 where
  pub working : HashContainer K O
  pub copies : List O
  pub tables : List (HashContainer K ObjectPtr)

-- What a pointer of the last version points to, where the working object is `object`.
abbrev pub deref : {O : Type 0} → List O → O → Option ObjectPtr → Option O
deref copies object none = none
deref copies object (some no_object) = none
deref copies object (some working_object) = some object
deref copies object (some (copied i)) = get_elem? copies i

module _ {K O : Type 0} where
  abbrev pub last_version : Versions K O → ℕ
  last_version s = length s.tables

  -- In version 0 every reference is that of the working object.
  abbrev pub originals : List (K × O) → List (K × ObjectPtr)
  originals [] = []
  originals (e ∷ es) = (e.0, working_object) ∷ originals es

  abbrev pub last_container : Versions K O → HashContainer K ObjectPtr
  last_container s = elim s.tables [
    | [] ↦ record {
      head = originals s.working.head;
      zero_data = no_object;
      data_constructor = none;
    }
    | table ∷ tables ↦ table
  ]

abbrev pub unchanged :
    {O : Type 0} → O → Option ObjectPtr → List O → Option (O × ObjectPtr × List O)
unchanged object none copies = none
unchanged object (some p) copies = some (object, p, copies)

-- The pointer that is stored for an object that has not changed.
abbrev pub kept : {K O : Type 0} → Kind K O → Option ObjectPtr → Option ObjectPtr
kept kind none = kind.missing
kept kind (some p) = some p

-- The objects after the loop over them, the copies, and the table of the new version.
abbrev pub Loop : Type 0 → Type 0 → Type 0
Loop K O = List (K × O) × List O × HashContainer K ObjectPtr

abbrev pub cons_object : {K O : Type 0} → K → O → Option (Loop K O) → Option (Loop K O)
cons_object k object none = none
cons_object k object (some (es, copies, table)) = some ((k, object) ∷ es, copies, table)

-- `hash_value(container, ref, HVM_FailIfNonExistant, NULL)` and what it points to.
abbrev pub found :
    {K : Type 0} ⦃key : Key K⦄ ⦃tables : Uthash K ObjectPtr⦄
    → HashContainer K ObjectPtr
    → K
    → Option ObjectPtr
unfolding hash_value
found container k =
    let r = hash_value container k hvm_fail_if_non_existant in data_at (pointed r.container r.value)

-- The end of an iteration, which adds the pointer under the object's reference, and the others.
abbrev pub iterate :
    {K O : Type 0} ⦃key : Key K⦄ ⦃tables : Uthash K ObjectPtr⦄
    → (List O → HashContainer K ObjectPtr → Option (Loop K O))
    → K
    → K
    → HashContainer K ObjectPtr
    → Option (O × ObjectPtr × List O)
    → Option (Loop K O)
iterate again k ref table none = none
iterate again k ref table (some (object, p, copies)) =
    cons_object k object (again copies (hash_add table ref (some p) ham_no_check).container)

abbrev pub added : {K O : Type 0} → Versions K O → Option (Loop K O) → Option (Versions K O)
added s none = none
added s (some (es, copies, table)) = some (record {
  working = record (s.working) { head = es };
  copies = copies;
  tables = table ∷ s.tables;
})

module _ {K O : Type 0} ⦃key : Key K⦄ ⦃tables : Uthash K ObjectPtr⦄ (kind : Kind K O) where
  -- What an iteration makes of an object: the object afterwards, the pointer that is stored, and the
  -- copies.
  abbrev pub new_object : O → Option ObjectPtr → List O → Option (O × ObjectPtr × List O)
  new_object object last copies =
      if kind.has_changed object
      then (let pair = kind.dup (kind.reset_changed object) in
          some (
            pair.0,
            copied (length copies),
            copies ++ (kind.fill_delta pair.1 (deref copies pair.0 last) ∷ []),
          ))
      else unchanged object (kept kind last) copies

  -- The loop over the working container.
  unfoldable pub version_loop :
      HashContainer K ObjectPtr
      → List (K × O)
      → List O
      → HashContainer K ObjectPtr
      → Option (Loop K O)
  version_loop last [] copies table = some ([], copies, table)
  version_loop last ((k, object) ∷ es) copies table =
      iterate (version_loop last es) k (kind.ref object) table
        (new_object object (found last (kind.ref object)) copies)

  unfoldable pub add_version : Versions K O → Option (Versions K O)
  unfolding version_loop
  add_version s =
      added s (version_loop (last_container s) s.working.head s.copies (hash_create no_object none))
