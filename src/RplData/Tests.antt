-- ===== src/RplData/Tests.antt =====
-- Versions of src/data_info/rpl_data.c on concrete objects, and the theorems applied.
use foren6_analyzer.Prelude.{
  ◌+◌, ℕ, true, false, [], ◌∷◌, none, some, some_injective, none_ne_some, Bool-cases, inl, inr, ap,
  ◌≡◌, ◌≢◌, Returns, refl, arith,
}
use foren6_analyzer.Prelude.Double.{whole_double}
use foren6_analyzer.Uthash.{Uthash, plain_tables}
use foren6_analyzer.Refs.{DiNodeRef, DiLinkRef, node_ref_key, link_ref_key, same_link_ref}
use foren6_analyzer.Link.{DiLink}
use foren6_analyzer.RplData.{
  ObjectPtr, copied, no_object, working_object, Versions, last_container, add_version,
}
use foren6_analyzer.RplData.Snapshot.{AreInside}
use foren6_analyzer.RplData.Invariant.{IsVersioned, Next, add_version-Next}
use foren6_analyzer.RplData.Kinds.{link_kind, link_kind-IsKind}
use foren6_analyzer.Utlist.{Utlist, plain_lists}
use foren6_analyzer.HashContainer.{hvm_create_if_non_existant}
use foren6_analyzer.RplData.Objects.{Objects, Got, rpldata_get_object, rpldata_get_object-Got}
use foren6_analyzer.RplData.Wsn.{
  WsnVersions, LastVersions, Created, rpldata_wsn_create_version, create_version-Created,
}

instance abbrev link_tables : Uthash DiLinkRef ObjectPtr
link_tables = plain_tables

instance abbrev node_tables : Uthash DiNodeRef ObjectPtr
node_tables = plain_tables

abbrev ref : DiLinkRef
ref = record { child = record { wpan_address = 5 }; parent = record { wpan_address = 1 } }

abbrev link : DiLink
link = record {
  key = record { ref = ref };
  metric = record { type = none; value = 0 };
  last_update = 0;
  expiration_time = 0;
  packet_count = 1;
  deprecated = false;
  has_changed = true;
}

abbrev links : Versions DiLinkRef DiLink
links = record {
  working = record { head = (ref, link) ∷ []; zero_data = link; data_constructor = none };
  copies = [];
  tables = [];
}

abbrev other : DiLinkRef
other = record { child = record { wpan_address = 5 }; parent = record { wpan_address = 2 } }

-- A later version: `ref` has changed since, and `other` has not.
abbrev kept_link : DiLink
kept_link = record link { key = record { ref = other }; has_changed = false }

abbrev later : Versions DiLinkRef DiLink
later = record {
  working = record {
    head = (ref, record link { packet_count = 2 }) ∷ (other, kept_link) ∷ [];
    zero_data = link;
    data_constructor = none;
  };
  copies = record link { has_changed = false } ∷ kept_link ∷ [];
  tables =
      record {
        head = (ref, copied 0) ∷ (other, copied 1) ∷ [];
        zero_data = no_object;
        data_constructor = none;
      }
      ∷ [];
}

other_ref : other ≢ ref
other_ref q = let w = ap (λ (r : DiLinkRef). r.parent.wpan_address) q in omega arith

abbrev index : ObjectPtr → ℕ
index (copied i) = i
index no_object = 0
index working_object = 0

later_inside : AreInside link_kind later.copies (last_container later)
unfolding link_kind
later_inside k i e = elim (Bool-cases (same_link_ref ref k)) [
  | inl first ↦
      let p : some (copied 0) ≡ some (copied i) = rw first at e in
      let w = ap index (some_injective p) in omega arith
  | inr rest ↦ elim (Bool-cases (same_link_ref other k)) [
    | inl second ↦
        let p : some (copied 1) ≡ some (copied i) = rw (rest, second) at e in
        let w = ap index (some_injective p) in omega arith
    | inr neither ↦ absurd (none_ne_some (rw (rest, neither) at e))
  ]
]

later-IsVersioned : IsVersioned link_kind later
unfolding link_kind same_link_ref
later-IsVersioned = record {
  working = ((other_ref, _), (_, _));
  keyed = (refl, (refl, _));
  last = ((other_ref, _), (_, _));
  inside = later_inside;
  known = ((λ e. ground arith), ((λ e. refl), _));
}

add_version-Next_example : Returns (Next link_kind later) (add_version link_kind later)
unfolding link_kind
add_version-Next_example = add_version-Next link_kind later link_kind-IsKind later-IsVersioned

instance abbrev link_table : Uthash DiLinkRef DiLink
link_table = plain_tables

instance abbrev link_list : Utlist DiLinkRef
link_list = plain_lists

abbrev objects : Objects DiLinkRef DiLink ℕ
objects = record { container = links.working; allocated = ref ∷ []; events = 3 }

-- Counts the initialisations.
abbrev init : DiLinkRef → ℕ → DiLink × ℕ
init k count = (record link { key = record { ref = k } }, count + 1)

rpldata_get_object-Got_example :
    Got init other hvm_create_if_non_existant objects
      (rpldata_get_object init other hvm_create_if_non_existant objects)
rpldata_get_object-Got_example =
    rpldata_get_object-Got init other hvm_create_if_non_existant objects (_, _)

abbrev no_versions : LastVersions
no_versions = record {
  node_last_version = 1;
  dodag_last_version = 0;
  rpl_instance_last_version = 0;
  link_last_version = 0;
}

-- The array is full.
abbrev full : WsnVersions ℕ
full = record {
  wsn_versions = λ i. record {
    node_version = 0;
    dodag_version = 0;
    rpl_instance_version = 0;
    links_version = 0;
    timestamp = 0;
    packet_id = 0;
    has_errors = 0;
  };
  wsn_version_array_size = 256;
  wsn_last_version = 255;
  node_last_version_has_errors = 3;
}

create_version-Created_example :
    Returns (Created no_versions 9 40 full) (rpldata_wsn_create_version no_versions 9 40 full)
create_version-Created_example =
    create_version-Created no_versions 9 40 full (record { inside = omega arith }) (omega arith)
      (omega arith)
