-- ===== src/RplData/Invariant.antt =====
-- Every version of src/data_info/rpl_data.c is a snapshot of the working one.
use foren6_analyzer.Prelude.{
  ℕ, ◌≢◌, sym, append-nil, none_ne_some, some_injective, true_ne_false, Bool, true, false,
  Bool-cases, List, [], ◌∷◌, ◌++◌, All, Option, none, some, is_some, if◌then◌else◌, Returns, ◌≡◌,
  refl, ap, ◌∙◌, inl, inr, arith,
}
use foren6_analyzer.Refs.{Key}
use foren6_analyzer.Uthash.{Uthash}
use foren6_analyzer.Uthash.Assoc.{lookup, Absent, IsDistinct}
use foren6_analyzer.HashContainer.{HashContainer, hash_create}
use foren6_analyzer.HashContainer.Contents.{get, IsMap}
use foren6_analyzer.RplData.{
  ObjectPtr, no_object, working_object, copied, kept, Kind, Versions, originals, last_container,
  Loop, version_loop, added, add_version,
}
use foren6_analyzer.RplData.Snapshot.{
  renewed, IsKind, AreInside, IsSnapshot, AreKeyed, AreKnown, AreNew, Looped, reset_all,
}
use foren6_analyzer.RplData.Turns.{version_loop-Looped}

module _ {K O : Type 0} where
  originals-Absent : (k : K) (es : List (K × O)) → Absent k es → Absent k (originals es)
  originals-Absent k [] h = _
  originals-Absent k (e ∷ es) h = (h.0, originals-Absent k es h.1)

  pub originals-IsDistinct : (es : List (K × O)) → IsDistinct es → IsDistinct (originals es)
  originals-IsDistinct [] d = _
  originals-IsDistinct (e ∷ es) d = (originals-Absent e.0 es d.0, originals-IsDistinct es d.1)

abbrev is_working : ObjectPtr → Bool
is_working working_object = true
is_working no_object = false
is_working (copied i) = false

-- The pointers of version 0 are to the working objects.
pub originals-working :
    {K O : Type 0} ⦃key : Key K⦄ (es : List (K × O)) (k : K) (i : ℕ)
    → lookup k (originals es) ≢ some (copied i)
originals-working ⦃key = key⦄ [] k i e = none_ne_some e
originals-working ⦃key = key⦄ (x ∷ es) k i e = elim (Bool-cases (key.same x.0 k)) [
  | inl same ↦
      let p : some working_object ≡ some (copied i) = rw same at e in
      true_ne_false (ap is_working (some_injective p))
  | inr other ↦ originals-working es k i (rw other at e)
]

module _ {K O : Type 0} ⦃key : Key K⦄ (kind : Kind K O) where
  reset_all-Absent : (k : K) (es : List (K × O)) → Absent k es → Absent k (reset_all kind es)
  reset_all-Absent k [] h = _
  reset_all-Absent k ((j, object) ∷ es) h = (h.0, reset_all-Absent k es h.1)

  reset_all-IsDistinct : (es : List (K × O)) → IsDistinct es → IsDistinct (reset_all kind es)
  reset_all-IsDistinct [] d = _
  reset_all-IsDistinct ((k, object) ∷ es) d =
      (reset_all-Absent k es d.0, reset_all-IsDistinct es d.1)

  if-ref :
      IsKind kind
      → (b : Bool) (object : O)
      → kind.ref (if b then renewed kind object else object) ≡ kind.ref object
  if-ref laws true object = laws.renewed_ref object
  if-ref laws false object = refl

  -- The working objects have their flags down.
  abbrev pub AreDown : List (K × O) → Type 0
  AreDown = All (λ (e : K × O). kind.has_changed e.1 ≡ false)

  reset_all-AreDown : IsKind kind → (es : List (K × O)) → AreDown (reset_all kind es)
  reset_all-AreDown laws [] = _
  reset_all-AreDown laws ((k, object) ∷ es) = (
    elim (Bool-cases (kind.has_changed object)) [
      | inl changed ↦ rw changed (laws.renewed_down object)
      | inr same ↦ rw same same
    ],
    reset_all-AreDown laws es,
  )

  reset_all-AreKeyed :
      IsKind kind → (es : List (K × O)) → AreKeyed kind es → AreKeyed kind (reset_all kind es)
  reset_all-AreKeyed laws [] h = _
  reset_all-AreKeyed laws ((k, object) ∷ es) h =
      (if-ref laws (kind.has_changed object) object ∙ h.0, reset_all-AreKeyed laws es h.1)

  kept-some : (o : Option ObjectPtr) → is_some o ≡ true → is_some (kept kind o) ≡ true
  kept-some none h = ground arith
  kept-some (some p) h = refl

  -- After a version is added the new version has every working object.
  IsSnapshot-some :
      (last : HashContainer K ObjectPtr) (old copies : List O) (table : HashContainer K ObjectPtr)
      (k : K) (object : O)
      → IsSnapshot kind last old copies table (k, object)
      → is_some (get table k) ≡ true
  IsSnapshot-some last old copies table k object h = elim (Bool-cases (kind.has_changed object)) [
    | inl changed ↦ let snap = rw changed at h in ap is_some (snap.2)
    | inr same ↦ let snap = rw same at h in snap.1
  ]

  snapshots-AreKnown :
      (last : HashContainer K ObjectPtr) (old copies : List O) (table : HashContainer K ObjectPtr)
      (es : List (K × O))
      → All (IsSnapshot kind last old copies table) es
      → AreKnown kind table (reset_all kind es)
  snapshots-AreKnown last old copies table [] h = _
  snapshots-AreKnown last old copies table ((k, object) ∷ es) h = (
    λ e. kept-some (get table k) (IsSnapshot-some last old copies table k object h.0),
    snapshots-AreKnown last old copies table es h.1,
  )

  -- The state between two versions: working objects are under their own references, no table has
  -- two elements with one key, the pointers of the last one are to copies that there are, and an
  -- object that has not changed is in the last version, or NULL
  -- is stored for objects that are not.
  pub record IsVersioned (s : Versions K O) : Type 0 where
    pub working : IsMap s.working
    pub keyed : AreKeyed kind s.working.head
    pub last : IsMap (last_container s)
    pub inside : AreInside kind s.copies (last_container s)
    pub known : AreKnown kind (last_container s) s.working.head

  -- What adding a version must do.
  pub record Next (s t : Versions K O) : Type 0 where
    pub versioned : IsVersioned t
    pub working : t.working.head ≡ reset_all kind s.working.head
    pub down : AreDown t.working.head
    pub copies : (new : List O) × (t.copies ≡ (s.copies ++ new))
    pub table :
        (table : HashContainer K ObjectPtr) × (t.tables ≡ (table ∷ s.tables))
        × All (IsSnapshot kind (last_container s) s.copies t.copies table) s.working.head

module _ {K O : Type 0} ⦃key : Key K⦄ ⦃tables : Uthash K ObjectPtr⦄ (kind : Kind K O) where
  added-Next :
      (s : Versions K O) (o : Option (Loop K O)) (start : HashContainer K ObjectPtr)
      → IsKind kind
      → IsVersioned kind s
      → Returns (Looped kind (last_container s) s.copies s.working.head s.copies start) o
      → Returns (Next kind s) (added s o)
  added-Next s none start laws v l = l
  added-Next s (some (es, copies, table)) start laws v l = record {
    versioned = record {
      working = rw l.working (reset_all-IsDistinct kind s.working.head v.working);
      keyed = rw l.working (reset_all-AreKeyed kind laws s.working.head v.keyed);
      last = l.ok;
      inside = l.inside;
      known = rw l.working (
          snapshots-AreKnown kind (last_container s) s.copies copies table s.working.head
            l.snapshots);
    };
    working = l.working;
    down = rw l.working (reset_all-AreDown kind laws s.working.head);
    copies = l.more;
    table = (table, refl, l.snapshots);
  }

  AreNew-create : (es : List (K × O)) → AreNew (hash_create no_object none) es
  unfolding hash_create
  AreNew-create [] = _
  AreNew-create (e ∷ es) = (_, AreNew-create es)

  -- In a state between two versions, for a kind of object of which a reset takes the flag down,
  -- nothing changes the reference, and what is stored for an object without a copy is not a copy:
  -- adding a version returns, without a read through NULL. For every
  -- working object that had changed, the new version points to a copy that is none of the earlier
  -- ones: the duplicate of the object made after its flag was reset, completed with the object that
  -- the last version has, if any; its flag is down. For every other object it has what the last
  -- version has. The flags of all working objects are down, the copies and tables of the earlier
  -- versions stay, and the state is again one between two versions.
  pub add_version-Next :
      (s : Versions K O)
      → IsKind kind
      → IsVersioned kind s
      → Returns (Next kind s) (add_version kind s)
  unfolding add_version hash_create
  add_version-Next s laws v =
      let start = hash_create no_object none in
      added-Next s (version_loop kind (last_container s) s.working.head s.copies start) start laws v
        (version_loop-Looped kind laws (last_container s) v.last s.copies v.inside s.working.head
          s.copies start _ v.working v.keyed (AreNew-create s.working.head) v.known
          ([], sym (append-nil s.copies)) (λ k i e. absurd (none_ne_some e)))
