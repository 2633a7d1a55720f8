-- ===== src/RplData/Objects.antt =====
-- How the working objects are found and created: `rpldata_get_object` of src/data_info/rpl_data.c
-- and its four uses, and `rpldata_del_link`. The working container holds pointers to the objects, no
-- two of them equal and none of them NULL, so that an element stands for its object.
use foren6_analyzer.Prelude.{
  ℕ, Bool, true, false, not, ◌&&◌, Bool-cases, List, Option, none, some, is_some, if◌then◌else◌,
  if_true, if_false, ◌≡◌, refl, sym, ◌∙◌, inl, inr,
}
use foren6_analyzer.Utlist.{Utlist}
use foren6_analyzer.Uthash.{Uthash}
use foren6_analyzer.Uthash.Assoc.{Absent-lookup, same_refl}
use foren6_analyzer.Refs.{
  Key, DiNodeRef, DiLinkRef, DiDodagRef, DiRplInstanceRef, node_ref_key, link_ref_key,
  dodag_ref_key, rpl_instance_ref_key,
}
use foren6_analyzer.RplEvent.{RplEventEl}
use foren6_analyzer.HashContainer.{
  HashContainer, HashValueMode, hvm_fail_if_non_existant, hvm_create_if_non_existant, ham_no_check,
  hash_value, hash_add, hash_find, hash_it_delete_value, hash_it_value, pointed, data_at,
}
use foren6_analyzer.HashContainer.Iterator.{Pointer, null, HashIterator}
use foren6_analyzer.HashContainer.Contents.{
  get, IsMap, is_create, hash_value-Valued, hash_add-Added,
}
use foren6_analyzer.Prelude.Double.{Double}
use foren6_analyzer.Node.{DiNode}
use foren6_analyzer.Node.Delta.{node_init}
use foren6_analyzer.Link.{DiLink, link_init}
use foren6_analyzer.Dodag.{DiDodag, dodag_init}
use foren6_analyzer.RplInstance.{DiRplInstance, rpl_instance_init}

-- The working objects of a kind, the references of those that are to be destroyed at the end, and
-- the queue of events.
pub record Objects (K O E : Type 0) : Type 0 where
  pub container : HashContainer K O
  pub allocated : List K
  pub events : E

-- The object that a call returns, `*was_created`, and the objects.
pub record GotObject (K O E : Type 0) : Type 0 where
  pub object : Pointer
  pub was_created : Bool
  pub objects : Objects K O E

module _ {K O E : Type 0} ⦃key : Key K⦄ ⦃ut : Uthash K O⦄ ⦃dl : Utlist K⦄
    (on_init : K → E → O × E) where
  -- A new object.
  abbrev pub create_object : K → Objects K O E → GotObject K O E
  create_object k s =
      let new = on_init k s.events in
      let r = hash_add s.container k (some new.0) ham_no_check in
      record {
        object = r.iterator.current_data;
        was_created = true;
        objects = record {
          container = r.container;
          allocated = dl.dl_append s.allocated k;
          events = new.1;
        };
      }

  -- What is found, or a new object.
  abbrev pub got_object : K → HashValueMode → Objects K O E → Pointer → Option O → GotObject K O E
  got_object k mode s p (some object) = record { object = p; was_created = false; objects = s }
  got_object k hvm_create_if_non_existant s p none = create_object k s
  got_object k hvm_fail_if_non_existant s p none = record {
    object = null;
    was_created = false;
    objects = s;
  }

  unfoldable pub rpldata_get_object : K → HashValueMode → Objects K O E → GotObject K O E
  rpldata_get_object k value_mode s =
      let p = (hash_value s.container k hvm_fail_if_non_existant).value in
      got_object k value_mode s p (data_at (pointed s.container p))

  -- What a call of `rpldata_get_object` must do.
  pub record Got (k : K) (value_mode : HashValueMode) (s : Objects K O E) (r : GotObject K O E)
      : Type 0 where
    pub ok : IsMap r.objects.container
    pub created : r.was_created ≡ not (is_some (get s.container k)) && is_create value_mode
    pub points : data_at (pointed r.objects.container r.object) ≡ get r.objects.container k
    pub stored :
        (j : K)
        → get r.objects.container j ≡ (
            if key.same k j
            then (if r.was_created then some (on_init k s.events).0 else get s.container k)
            else get s.container j)
    pub queue : r.objects.events ≡ (if r.was_created then (on_init k s.events).1 else s.events)

  unchanged :
      (s : Objects K O E) (k j : K) (o : Option O)
      → get s.container k ≡ o
      → get s.container j ≡ (if key.same k j then o else get s.container j)
  unchanged s k j o e = elim (Bool-cases (key.same k j)) [
    | inl same ↦ rw (same, sym ((key.same_iff k j).0 same)) e
    | inr other ↦ rw other refl
  ]

  got_object-Got :
      (k : K) (value_mode : HashValueMode) (s : Objects K O E) (p : Pointer) (o : Option O)
      → IsMap s.container
      → data_at (pointed s.container p) ≡ o
      → get s.container k ≡ o
      → Got k value_mode s (got_object k value_mode s p o)
  unfolding hash_it_value
  got_object-Got k value_mode s p (some object) d here e = record {
    ok = d;
    created = rw e refl;
    points = here ∙ sym e;
    stored = λ j. unchanged s k j (get s.container k) refl;
    queue = refl;
  }
  got_object-Got k hvm_fail_if_non_existant s p none d here e = record {
    ok = d;
    created = rw e refl;
    points = sym e;
    stored = λ j. unchanged s k j (get s.container k) refl;
    queue = refl;
  }
  got_object-Got k hvm_create_if_non_existant s p none d here e =
      let absent = Absent-lookup k s.container.head e in
      let a =
        hash_add-Added s.container k (some (on_init k s.events).0) ham_no_check d (λ q. absent) in
      let added : (hash_add s.container k (some (on_init k s.events).0) ham_no_check).added ≡ true =
        rw e at a.decided in
      record {
        ok = a.ok;
        created = rw e refl;
        points = a.points;
        stored = λ j. rw added at (a.stored j);
        queue = refl;
      }

  hash_value-container :
      (s : Objects K O E) (k : K)
      → (hash_value s.container k hvm_fail_if_non_existant).container ≡ s.container
  unfolding hash_value
  hash_value-container s k = refl

  -- In a container where no two elements have one key, the result of `rpldata_get_object` points to
  -- the working object that the reference then has, and is NULL if it has none. Exactly if it had
  -- none and one is to be created, `*was_created` is set, and the object and the queue are what the
  -- initialisation makes. The other objects stay, and still no two elements have one key.
  pub rpldata_get_object-Got :
      (k : K) (value_mode : HashValueMode) (s : Objects K O E)
      → IsMap s.container
      → Got k value_mode s (rpldata_get_object k value_mode s)
  unfolding rpldata_get_object
  rpldata_get_object-Got k value_mode s d =
      let r = hash_value s.container k hvm_fail_if_non_existant in
      let v = hash_value-Valued s.container k hvm_fail_if_non_existant d in
      let none_new : r.was_created ≡ false = elim (Bool-cases (is_some (get s.container k))) [
        | inl known ↦ rw known at v.created
        | inr absent ↦ rw absent at v.created
      ] in
      let same = v.stored k ∙ if_true _ (same_refl k) ∙ if_false _ none_new in
      let here : data_at (pointed s.container r.value) ≡ get s.container k =
        rw (hash_value-container s k) at (v.value ∙ same) in
      got_object-Got k value_mode s r.value (data_at (pointed s.container r.value)) d refl
        (sym here)

-- The working nodes with the counter of `node_init`; `zeros` is the node in cleared memory.
unfoldable pub rpldata_get_node :
    {D : Type 0} ⦃f : Double D⦄ ⦃ut : Uthash DiNodeRef (DiNode D)⦄ ⦃dl : Utlist DiNodeRef⦄
    ⦃queue : Utlist (RplEventEl D)⦄
    → DiNode D
    → DiNodeRef
    → HashValueMode
    → Objects DiNodeRef (DiNode D) (List (RplEventEl D) × ℕ)
    → GotObject DiNodeRef (DiNode D) (List (RplEventEl D) × ℕ)
rpldata_get_node zeros = rpldata_get_object (λ ref events.
    let r =
      node_init events.1 (record { ref = ref })
        (record { node = zeros; old = none; head = events.0 }) in
    (r.1.node, (r.1.head, r.0)))

unfoldable pub rpldata_get_dodag :
    {D : Type 0} ⦃ut : Uthash DiDodagRef DiDodag⦄ ⦃dl : Utlist DiDodagRef⦄
    ⦃queue : Utlist (RplEventEl D)⦄
    → DiNodeRef
    → DiDodagRef
    → HashValueMode
    → Objects DiDodagRef DiDodag (List (RplEventEl D))
    → GotObject DiDodagRef DiDodag (List (RplEventEl D))
rpldata_get_dodag zeros =
    rpldata_get_object (λ ref head. let r = dodag_init ref zeros head in (r.dodag, r.head))

unfoldable pub rpldata_get_rpl_instance :
    {D : Type 0} ⦃ut : Uthash DiRplInstanceRef DiRplInstance⦄ ⦃dl : Utlist DiRplInstanceRef⦄
    ⦃queue : Utlist (RplEventEl D)⦄
    → DiRplInstance
    → DiDodagRef
    → DiRplInstanceRef
    → HashValueMode
    → Objects DiRplInstanceRef DiRplInstance (List (RplEventEl D))
    → GotObject DiRplInstanceRef DiRplInstance (List (RplEventEl D))
rpldata_get_rpl_instance memory zeros =
    rpldata_get_object
      (λ ref head. let r = rpl_instance_init memory ref zeros head in (r.rpl_instance, r.head))

unfoldable pub rpldata_get_link :
    {D : Type 0} ⦃ut : Uthash DiLinkRef DiLink⦄ ⦃dl : Utlist DiLinkRef⦄
    ⦃queue : Utlist (RplEventEl D)⦄
    → DiLink
    → DiLinkRef
    → HashValueMode
    → Objects DiLinkRef DiLink (List (RplEventEl D))
    → GotObject DiLinkRef DiLink (List (RplEventEl D))
rpldata_get_link memory =
    rpldata_get_object (λ ref head. let r = link_init memory ref head in (r.link, r.head))

module _ ⦃ut : Uthash DiLinkRef DiLink⦄ where
  abbrev pub deleted_link :
      Option DiLink
      → Option (HashContainer DiLinkRef DiLink × HashIterator)
      → Option (Option DiLink × HashContainer DiLinkRef DiLink)
  deleted_link link none = none
  deleted_link link (some r) = some (link, r.0)

  abbrev pub del_link_found :
      HashContainer DiLinkRef DiLink
      → Bool × HashIterator
      → Option (Option DiLink × HashContainer DiLinkRef DiLink)
  del_link_found links (false, it) = some (none, links)
  del_link_found links (true, it) =
      deleted_link (hash_it_value links it) (hash_it_delete_value links it)

  -- The link that was deleted, or NULL.
  unfoldable pub rpldata_del_link :
      DiLinkRef
      → HashContainer DiLinkRef DiLink
      → Option (Option DiLink × HashContainer DiLinkRef DiLink)
  rpldata_del_link link_ref links = del_link_found links (hash_find links link_ref)
