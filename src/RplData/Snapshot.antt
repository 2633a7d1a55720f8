-- ===== src/RplData/Snapshot.antt =====
-- What a new version of src/data_info/rpl_data.c holds.
use foren6_analyzer.Prelude.{
  ℕ, ◌≤◌, ◌<◌, true, false, Bool-cases, List, [], ◌∷◌, ◌++◌, length, append_assoc, All, Option,
  none, some, is_some, if◌then◌else◌, if_true, if_false, Returns, ◌≡◌, ◌≢◌, refl, sym, ◌∙◌, inl,
  inr,
}
use foren6_analyzer.Refs.{Key}
use foren6_analyzer.Uthash.{Uthash}
use foren6_analyzer.Uthash.Assoc.{
  get_elem?, Absent, Absent-append, lookup-Absent, same_ne, same_refl,
}
use foren6_analyzer.HashContainer.{
  constructed, HashContainer, ham_no_check, hvm_fail_if_non_existant, hash_add, hash_add_ref,
  hash_value,
}
use foren6_analyzer.HashContainer.Contents.{get, IsMap, Added, hash_add-Added, hash_value-Valued}
use foren6_analyzer.RplData.{ObjectPtr, copied, Kind, deref, kept, found, Loop, cons_object}

module _ {K O : Type 0} ⦃key : Key K⦄ (kind : Kind K O) where
  -- A working object that has changed, after a version of it is made.
  abbrev pub renewed : O → O
  renewed object = (kind.dup (kind.reset_changed object)).0

  -- The copy of it: a duplicate of the object with its flag down, with its differences from `before`.
  abbrev pub copy_of : O → Option O → O
  copy_of object before = kind.fill_delta (kind.dup (kind.reset_changed object)).1 before

  -- What making a version relies on for a kind of object: the reference stays, the flag of the object
  -- and of its copy is down, and what is stored for an object without a copy is not a copy.
  pub record IsKind : Type 0 where
    pub renewed_ref : (object : O) → kind.ref (renewed object) ≡ kind.ref object
    pub renewed_down : (object : O) → kind.has_changed (renewed object) ≡ false
    pub copy_ref :
        (object : O) (before : Option O) → kind.ref (copy_of object before) ≡ kind.ref object
    pub copy_down :
        (object : O) (before : Option O) → kind.has_changed (copy_of object before) ≡ false
    pub missing : (i : ℕ) → kind.missing ≢ some (copied i)

  -- The pointers to copies in a table are to copies that there are.
  abbrev pub AreInside : List O → HashContainer K ObjectPtr → Type 0
  AreInside copies table = (k : K) (i : ℕ) → get table k ≡ some (copied i) → i < length copies

  -- What an object of the working version is in the new version, where `old` are the copies of the
  -- earlier versions and `last` is the last one. An object that has changed is a new copy with its
  -- reference and its flag down, with its differences from what the last version has; another one
  -- is what the last version has.
  abbrev pub IsSnapshot :
      HashContainer K ObjectPtr → List O → List O → HashContainer K ObjectPtr → K × O → Type 0
  IsSnapshot last old copies table (k, object) =
      let copy = copy_of object (deref old (renewed object) (get last k)) in
      if kind.has_changed object
      then ((i : ℕ) × (length old ≤ i)
          × (get table k ≡ some (copied i))
          × (get_elem? copies i ≡ some copy)
          × (kind.ref copy ≡ k)
          × (kind.has_changed copy ≡ false))
      else (get table k ≡ kept kind (get last k)) × (is_some (get table k) ≡ true)

  -- The working objects with their flags down.
  abbrev pub reset_all : List (K × O) → List (K × O)
  reset_all [] = []
  reset_all ((k, object) ∷ es) =
      (k, if kind.has_changed object then renewed object else object) ∷ reset_all es

  -- The objects are under their own references.
  abbrev pub AreKeyed : List (K × O) → Type 0
  AreKeyed = All (λ (e : K × O). kind.ref e.1 ≡ e.0)

  -- An object that has not changed is in the last version, or NULL is stored for it.
  abbrev pub AreKnown : HashContainer K ObjectPtr → List (K × O) → Type 0
  AreKnown last =
      All (λ (e : K × O). kind.has_changed e.1 ≡ false → is_some (kept kind (get last e.0)) ≡ true)

  -- What the loop makes of the copies and the table, for the objects that are left.
  pub record Looped (last : HashContainer K ObjectPtr) (old : List O) (es : List (K × O))
      (copies : List O) (table : HashContainer K ObjectPtr) (r : Loop K O) : Type 0 where
    pub working : r.0 ≡ reset_all es
    pub more : (new : List O) × (r.1 ≡ (copies ++ new))
    pub ok : IsMap r.2
    pub others : (k : K) → Absent k es → get r.2 k ≡ get table k
    pub inside : AreInside r.1 r.2
    pub snapshots : All (IsSnapshot last old r.1 r.2) es

module _ {K O : Type 0} ⦃key : Key K⦄ ⦃tables : Uthash K ObjectPtr⦄ (kind : Kind K O)
    (last : HashContainer K ObjectPtr) (old : List O) (k : K) (object : O) (es : List (K × O))
    (table : HashContainer K ObjectPtr) (ok : IsMap table) (keyed : kind.ref object ≡ k)
    (apart : Absent k es) (fresh : Absent k table.head) where
  -- The table after a pointer is added for the object.
  abbrev next_table : ObjectPtr → HashContainer K ObjectPtr
  next_table p = (hash_add table k (some p) ham_no_check).container

  pub next-Added :
      (p : ObjectPtr) → Added table k p ham_no_check (hash_add table k (some p) ham_no_check)
  next-Added p = hash_add-Added table k (some p) ham_no_check ok (λ e. fresh)

  pub next-stored :
      (p : ObjectPtr) (j : K)
      → get (next_table p) j ≡ (if key.same k j then some p else get table j)
  next-stored p j =
      let a = next-Added p in
      let new : (hash_add table k (some p) ham_no_check).added ≡ true =
        rw (lookup-Absent k table.head fresh) at a.decided in
      rw new at (a.stored j)

  -- One turn: the object, its pointer, and the copies after it.
  cons-Looped :
      (object' : O) (p : ObjectPtr) (copies more : List O) (r : Loop K O)
      → object' ≡ (if kind.has_changed object then renewed kind object else object)
      → ((new : List O)
          → get r.2 k ≡ some p
          → r.1 ≡ ((copies ++ more) ++ new)
          → IsSnapshot kind last old r.1 r.2 (k, object))
      → Looped kind last old es (copies ++ more) (next_table p) r
      → Looped kind last old ((k, object) ∷ es) copies table ((k, object') ∷ r.0, r.1, r.2)
  cons-Looped object' p copies more r e snap l =
      let here : get r.2 k ≡ some p =
        l.others k apart ∙ next-stored p k ∙ if_true _ (same_refl k) in
      record {
        working = rw (e, l.working) refl;
        more = (more ++ l.more.0, l.more.1 ∙ append_assoc copies more l.more.0);
        ok = l.ok;
        inside = l.inside;
        others =
            λ j absent. l.others j absent.1 ∙ next-stored p j ∙ if_false _ (same_ne k j absent.0);
        snapshots = (snap l.more.0 here l.more.1, l.snapshots);
      }

  pub cons-Returns :
      (object' : O) (p : ObjectPtr) (copies more : List O) (o : Option (Loop K O))
      → object' ≡ (if kind.has_changed object then renewed kind object else object)
      → ((r : Loop K O) (new : List O)
          → get r.2 k ≡ some p
          → r.1 ≡ ((copies ++ more) ++ new)
          → IsSnapshot kind last old r.1 r.2 (k, object))
      → Returns (Looped kind last old es (copies ++ more) (next_table p)) o
      → Returns (Looped kind last old ((k, object) ∷ es) copies table) (cons_object k object' o)
  cons-Returns object' p copies more none e snap l = l
  cons-Returns object' p copies more (some r) e snap l =
      cons-Looped object' p copies more r e (snap r) l

-- What `hash_value` with HVM_FailIfNonExistant reads.
pub found-get :
    {K : Type 0} ⦃key : Key K⦄ ⦃tables : Uthash K ObjectPtr⦄ (last : HashContainer K ObjectPtr)
    (k : K)
    → IsMap last
    → found last k ≡ get last k
unfolding found
found-get last k d =
    let v = hash_value-Valued last k hvm_fail_if_non_existant d in
    let none_new : (hash_value last k hvm_fail_if_non_existant).was_created ≡ false =
      elim (Bool-cases (is_some (get last k))) [
        | inl known ↦ rw known at v.created
        | inr absent ↦ rw absent at v.created
      ] in
    v.value ∙ v.stored k ∙ if_true _ (same_refl k) ∙ if_false (some (constructed last k)) none_new

-- The table does not have the objects that are left.
abbrev pub AreNew : {K O : Type 0} → HashContainer K ObjectPtr → List (K × O) → Type 0
AreNew {K = K} {O = O} table = All (λ (e : K × O). Absent e.0 table.head)

module _ {K O : Type 0} ⦃key : Key K⦄ ⦃tables : Uthash K ObjectPtr⦄ where
  pub AreNew-next :
      (k : K) (p : ObjectPtr) (table : HashContainer K ObjectPtr) (es : List (K × O))
      → Absent k es
      → AreNew table es
      → AreNew (hash_add table k (some p) ham_no_check).container es
  unfolding hash_add hash_add_ref
  AreNew-next k p table [] apart new = _
  AreNew-next k p table (e ∷ es) apart new = (
    rw (tables.hash_add_keyptr_law table.head k p)
        (Absent-append e.0 k p table.head (λ q. apart.0 (sym q)) new.0),
    AreNew-next k p table es apart.1 new.1,
  )
