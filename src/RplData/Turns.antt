-- ===== src/RplData/Turns.antt =====
-- The loop over the working objects in src/data_info/rpl_data.c, turn by turn.
use foren6_analyzer.Prelude.{
  ℕ, zero, suc, ◌+◌, ◌≤◌, ◌<◌, true, false, true_ne_false, Bool-cases, List, [], ◌∷◌, ◌++◌, length,
  append_assoc, append-nil, Option, Option-cases, none, some, is_some, if◌then◌else◌, if_true,
  if_false, Returns, ◌≡◌, length-append, some_injective, arith, refl, sym, ap, subst, ◌∙◌, inl, inr,
}
use foren6_analyzer.Refs.{Key}
use foren6_analyzer.Uthash.{Uthash}
use foren6_analyzer.Uthash.Assoc.{get_elem?, Absent, IsDistinct}
use foren6_analyzer.HashContainer.{HashContainer, ham_no_check, hash_add}
use foren6_analyzer.HashContainer.Contents.{get, IsMap}
use foren6_analyzer.RplData.{
  ObjectPtr, copied, no_object, working_object, Kind, deref, kept, found, new_object, iterate,
  version_loop,
}
use foren6_analyzer.RplData.Snapshot.{
  renewed, copy_of, IsKind, AreInside, AreKeyed, AreKnown, Looped, next-Added, next-stored,
  cons-Returns, found-get, AreNew, AreNew-next,
}

get_elem?_end :
    {A : Type 0} (xs ys : List A) (x : A) → get_elem? (xs ++ (x ∷ ys)) (length xs) ≡ some x
get_elem?_end [] ys x = refl
get_elem?_end (y ∷ xs) ys x = get_elem?_end xs ys x

abbrev copy_index : ObjectPtr → ℕ
copy_index (copied i) = i
copy_index no_object = 0
copy_index working_object = 0

get_elem?_append :
    {A : Type 0} (xs ys : List A) (i : ℕ) → i < length xs → get_elem? (xs ++ ys) i ≡ get_elem? xs i
get_elem?_append [] ys i h = absurd (omega arith)
get_elem?_append (x ∷ xs) ys zero h = refl
get_elem?_append (x ∷ xs) ys (suc i) h = get_elem?_append xs ys i (omega arith)

-- A pointer of the last version is not affected by copies that are made since.
deref_append :
    {O : Type 0} (old more : List O) (object : O) (p : Option ObjectPtr)
    → ((i : ℕ) → p ≡ some (copied i) → i < length old)
    → deref (old ++ more) object p ≡ deref old object p
deref_append old more object none h = refl
deref_append old more object (some no_object) h = refl
deref_append old more object (some working_object) h = refl
deref_append old more object (some (copied i)) h = get_elem?_append old more i (h i refl)

module _ {K O : Type 0} ⦃key : Key K⦄ ⦃tables : Uthash K ObjectPtr⦄ (kind : Kind K O)
    (laws : IsKind kind) (last : HashContainer K ObjectPtr) (last_ok : IsMap last) (old : List O)
    (last_inside : AreInside kind old last) where
  -- The copies are those of the earlier versions and those made since.
  abbrev pub Grown : List O → Type 0
  Grown copies = (more : List O) × (copies ≡ (old ++ more))

  kept_inside :
      (o : Option ObjectPtr) (i : ℕ)
      → ((j : ℕ) → o ≡ some (copied j) → j < length old)
      → kept kind o ≡ some (copied i)
      → i < length old
  kept_inside none i h e = absurd (laws.missing i e)
  kept_inside (some p) i h e = h i e

  next_inside :
      (copies copies' : List O) (k : K) (table table' : HashContainer K ObjectPtr) (p : ObjectPtr)
      → length copies ≤ length copies'
      → ((j : K) → get table' j ≡ (if key.same k j then some p else get table j))
      → ((i : ℕ) → p ≡ copied i → i < length copies')
      → AreInside kind copies table
      → AreInside kind copies' table'
  next_inside copies copies' k table table' p longer stored new inside j i e =
      elim (Bool-cases (key.same k j)) [
        | inl same ↦ new i (some_injective (sym (if_true _ same) ∙ sym (stored j) ∙ e))
        | inr other ↦
            let here = inside j i (sym (if_false _ other) ∙ sym (stored j) ∙ e) in omega arith
      ]

  Grown-length : (copies : List O) → Grown copies → length old ≤ length copies
  Grown-length copies g = let e = ap length g.1 ∙ length-append old g.0 in omega arith

  Grown-cons : (copies : List O) (copy : O) → Grown copies → Grown (copies ++ (copy ∷ []))
  Grown-cons copies copy g =
      (g.0 ++ (copy ∷ []), ap (λ xs. xs ++ (copy ∷ [])) g.1 ∙ append_assoc old g.0 (copy ∷ []))

  kept-Grown :
      (copies : List O) (k : K) (i : ℕ)
      → Grown copies
      → kept kind (get last k) ≡ some (copied i)
      → i < length copies
  kept-Grown copies k i g e =
      let here = kept_inside (get last k) i (last_inside k) e in
      let longer = Grown-length copies g in omega arith

  -- What an object of the last version was does not depend on the copies that were made since.
  pinned :
      (copies : List O) (object : O)
      → Grown copies
      → deref copies (renewed kind object) (get last (kind.ref object))
        ≡ deref old (renewed kind object) (get last (kind.ref object))
  pinned copies object g =
      let k = kind.ref object in
      rw g.1 (deref_append old g.0 (renewed kind object) (get last k) (last_inside k))

  -- What an iteration must do for an object with a reference, given what the others do after it.
  Turn : O → List (K × O) → List O → HashContainer K ObjectPtr → K → Type 0
  Turn object es copies table k =
      IsMap table
      → Absent k es
      → Absent k table.head
      → (kind.has_changed object ≡ false → is_some (kept kind (get last k)) ≡ true)
      → Grown copies
      → AreInside kind copies table
      → ((copies' : List O) (p : ObjectPtr)
          → Grown copies'
          → AreInside kind copies' (hash_add table k (some p) ham_no_check).container
          → Returns
              (Looped kind last old es copies' (hash_add table k (some p) ham_no_check).container)
              (version_loop kind last es copies'
                (hash_add table k (some p) ham_no_check).container))
      → Returns (Looped kind last old ((k, object) ∷ es) copies table) (
          iterate (version_loop kind last es) k k table
            (new_object kind object (found last k) copies))

  changed-Looped :
      (object : O) (es : List (K × O)) (copies : List O) (table : HashContainer K ObjectPtr)
      → kind.has_changed object ≡ true
      → Turn object es copies table (kind.ref object)
  unfolding Turn
  changed-Looped object es copies table changed ok apart fresh known grown inside again =
      let ref = kind.ref object in
      let i = length copies in
      let next = (hash_add table ref (some (copied i)) ham_no_check).container in
      let copy = copy_of kind object (deref copies (renewed kind object) (get last ref)) in
      let copies' = copies ++ (copy ∷ []) in
      let longer : length copies' ≡ i + 1 = length-append copies (copy ∷ []) in
      rw (found-get last ref last_ok, changed)
        (cons-Returns kind last old ref object es table ok refl apart fresh (renewed kind object)
          (copied i) copies (copy ∷ []) (version_loop kind last es copies' next)
          (sym (if_true _ changed))
          (λ r new here more. rw changed (
            i,
            Grown-length copies grown,
            here,
            rw (more, append_assoc copies (copy ∷ []) new)
                (get_elem?_end copies new copy
                  ∙ ap (λ o. some (copy_of kind object o)) (pinned copies object grown)),
            laws.copy_ref object _,
            laws.copy_down object _,
          ))
          (again copies' (copied i) (Grown-cons copies copy grown) (
            next_inside copies copies' ref table next (copied i) (omega arith)
              (next-stored kind last old ref object es table ok refl apart fresh (copied i))
              (λ j e. let same = ap copy_index e in omega (arith, longer)) inside)))

  same-Looped :
      (object : O) (es : List (K × O)) (copies : List O) (table : HashContainer K ObjectPtr)
      → kind.has_changed object ≡ false
      → Turn object es copies table (kind.ref object)
  unfolding Turn
  same-Looped object es copies table same ok apart fresh known grown inside again =
      let ref = kind.ref object in
      rw (found-get last ref last_ok) (elim (Option-cases (kept kind (get last ref))) [
        | inl absent ↦ absurd (true_ne_false (sym (known same) ∙ ap is_some absent))
        | inr (p, e) ↦
            let next = (hash_add table ref (some p) ham_no_check).container in
            rw (same, e)
              (cons-Returns kind last old ref object es table ok refl apart fresh object p copies []
                (version_loop kind last es copies next) (sym (if_false _ same))
                (λ r new here more. rw same (here ∙ sym e, ap is_some here))
                (rw (append-nil copies) (
                  again copies p grown (
                    next_inside copies copies ref table next p (omega arith)
                      (next-stored kind last old ref object es table ok refl apart fresh p)
                      (λ i q. kept-Grown copies ref i grown (e ∙ ap some q)) inside))))
      ])

  iterate-Looped :
      (object : O) (es : List (K × O)) (copies : List O) (table : HashContainer K ObjectPtr)
      → Turn object es copies table (kind.ref object)
  iterate-Looped object es copies table = elim (Bool-cases (kind.has_changed object)) [
    | inl changed ↦ changed-Looped object es copies table changed
    | inr same ↦ same-Looped object es copies table same
  ]

  pub version_loop-Looped :
      (es : List (K × O)) (copies : List O) (table : HashContainer K ObjectPtr)
      → IsMap table
      → IsDistinct es
      → AreKeyed kind es
      → AreNew table es
      → AreKnown kind last es
      → Grown copies
      → AreInside kind copies table
      → Returns (Looped kind last old es copies table) (version_loop kind last es copies table)
  unfolding version_loop Turn
  version_loop-Looped [] copies table ok distinct keyed new known grown inside = record {
    working = refl;
    more = ([], sym (append-nil copies));
    ok = ok;
    others = λ k absent. refl;
    inside = inside;
    snapshots = _;
  }
  version_loop-Looped ((k, object) ∷ es) copies table ok distinct keyed new known grown inside =
      let turn =
        subst (Turn object es copies table) keyed.0 (iterate-Looped object es copies table) in
      rw keyed.0 (
        turn ok distinct.0 new.0 known.0 grown inside (λ copies' p grown' inside'.
          let a = next-Added kind last old k object es table ok keyed.0 distinct.0 new.0 p in
          version_loop-Looped es copies' (hash_add table k (some p) ham_no_check).container a.ok
            distinct.1 keyed.1 (AreNew-next k p table es distinct.0 new.1) known.1 grown' inside'))
