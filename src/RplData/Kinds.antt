-- ===== src/RplData/Kinds.antt =====
-- The four kinds of object of src/data_info/rpl_data.c and how a version of each is added.
use foren6_analyzer.Prelude.{
  ℕ, suc, ◌+◌, ◌<◌, ◌%◌, ◌^◌, false, List, [], ◌∷◌, length, drop, Option, none, some, none_ne_some,
  arith, Returns, ap, ◌≡◌, refl,
}
use foren6_analyzer.Prelude.Double.{Double}
use foren6_analyzer.Uthash.{Uthash}
use foren6_analyzer.Refs.{
  DiNodeRef, DiLinkRef, DiDodagRef, DiRplInstanceRef, node_ref_key, link_ref_key, dodag_ref_key,
  rpl_instance_ref_key,
}
use foren6_analyzer.HashContainer.Walk.{hash_dup_total}
use foren6_analyzer.Node.{DiNode}
use foren6_analyzer.Node.Delta.{node_dup, node_fill_delta}
use foren6_analyzer.Link.{DiLink}
use foren6_analyzer.Dodag.{DiDodag, dodag_dup}
use foren6_analyzer.RplInstance.{DiRplInstance, rpl_instance_dup}
use foren6_analyzer.RplData.{ObjectPtr, no_object, Kind, Versions, add_version}
use foren6_analyzer.RplData.Snapshot.{IsKind}
use foren6_analyzer.RplData.Invariant.{IsVersioned, Next, add_version-Next}

unfoldable pub link_kind : Kind DiLinkRef DiLink
link_kind = record {
  ref = λ link. link.key.ref;
  has_changed = λ link. link.has_changed;
  reset_changed = λ link. record link { has_changed = false };
  dup = λ link. (link, link);
  fill_delta = λ link last. link;
  missing = none;
}

abbrev pub or_else : {A : Type 0} → A → Option A → A
or_else a none = a
or_else a (some b) = b

-- More fuel than `hash_dup` needs, so that `dodag_dup` returns.
unfoldable pub dodag_kind : ⦃ut : Uthash DiNodeRef DiNodeRef⦄ → Kind DiDodagRef DiDodag
dodag_kind = record {
  ref = λ dodag. dodag.key.ref;
  has_changed = λ dodag. dodag.has_changed;
  reset_changed = λ dodag. record dodag { has_changed = false };
  dup = λ dodag. (dodag, or_else dodag (dodag_dup (suc (length dodag.nodes.head)) dodag));
  fill_delta = λ dodag last. dodag;
  missing = none;
}

unfoldable pub rpl_instance_kind :
    ⦃ut : Uthash DiDodagRef DiDodagRef⦄ → Kind DiRplInstanceRef DiRplInstance
rpl_instance_kind = record {
  ref = λ rpl_instance. rpl_instance.key.ref;
  has_changed = λ rpl_instance. rpl_instance.has_changed;
  reset_changed = λ rpl_instance. record rpl_instance { has_changed = false };
  dup = λ rpl_instance. (
    rpl_instance,
    or_else rpl_instance (rpl_instance_dup (suc (length rpl_instance.dodags.head)) rpl_instance),
  );
  fill_delta = λ rpl_instance last. rpl_instance;
  missing = none;
}

-- `node_dup` also changes the node that is copied.
unfoldable pub node_kind : {D : Type 0} ⦃f : Double D⦄ → Kind DiNodeRef (DiNode D)
unfolding node_dup node_fill_delta
node_kind = record {
  ref = λ node. node.key.ref;
  has_changed = λ node. node.has_changed;
  reset_changed = λ node. record node { has_changed = false };
  dup = node_dup;
  fill_delta = node_fill_delta;
  missing = some no_object;
}

-- Given more fuel than the DODAG has nodes, `dodag_dup` returns, and the copy is equal.
pub dodag_dup_total :
    ⦃ut : Uthash DiNodeRef DiNodeRef⦄ (fuel : ℕ) (dodag : DiDodag)
    → length dodag.nodes.head < fuel
    → dodag_dup fuel dodag ≡ some dodag
unfolding dodag_dup
dodag_dup_total fuel dodag h = rw (hash_dup_total dodag.nodes fuel h, dodag_dup) refl

unfoldable pub rpldata_add_link_version :
    ⦃tables : Uthash DiLinkRef ObjectPtr⦄
    → Versions DiLinkRef DiLink
    → Option (Versions DiLinkRef DiLink)
unfolding link_kind
rpldata_add_link_version s = add_version link_kind s

unfoldable pub rpldata_add_dodag_version :
    ⦃ut : Uthash DiNodeRef DiNodeRef⦄ ⦃tables : Uthash DiDodagRef ObjectPtr⦄
    → Versions DiDodagRef DiDodag
    → Option (Versions DiDodagRef DiDodag)
unfolding dodag_kind
rpldata_add_dodag_version s = add_version dodag_kind s

unfoldable pub rpldata_add_rpl_instance_version :
    ⦃ut : Uthash DiDodagRef DiDodagRef⦄ ⦃tables : Uthash DiRplInstanceRef ObjectPtr⦄
    → Versions DiRplInstanceRef DiRplInstance
    → Option (Versions DiRplInstanceRef DiRplInstance)
unfolding rpl_instance_kind
rpldata_add_rpl_instance_version s = add_version rpl_instance_kind s

-- The errors of copies, which `node_last_version_has_errors` counts in 32 bits.
abbrev pub errors_of : {D : Type 0} → List (DiNode D) → ℕ
errors_of [] = 0
errors_of (node ∷ nodes) = (node.has_errors + errors_of nodes) % 2 ^ 32

abbrev pub counted :
    {D : Type 0}
    → Versions DiNodeRef (DiNode D)
    → Option (Versions DiNodeRef (DiNode D))
    → Option (Versions DiNodeRef (DiNode D) × ℕ)
counted s none = none
counted s (some t) = some (t, errors_of (drop (length s.copies) t.copies))

unfoldable pub rpldata_add_node_version :
    {D : Type 0} ⦃f : Double D⦄ ⦃tables : Uthash DiNodeRef ObjectPtr⦄
    → Versions DiNodeRef (DiNode D)
    → Option (Versions DiNodeRef (DiNode D) × ℕ)
unfolding node_kind
rpldata_add_node_version s = counted s (add_version node_kind s)

pub link_kind-IsKind : IsKind link_kind
unfolding link_kind
link_kind-IsKind = record {
  renewed_ref = λ link. refl;
  renewed_down = λ link. refl;
  copy_ref = λ link last. refl;
  copy_down = λ link last. refl;
  missing = λ i e. none_ne_some e;
}

node_kind-IsKind : {D : Type 0} ⦃f : Double D⦄ → IsKind (node_kind {D = D})
unfolding node_kind node_dup node_fill_delta
node_kind-IsKind = record {
  renewed_ref = λ node. refl;
  renewed_down = λ node. refl;
  copy_ref = λ node last. refl;
  copy_down = λ node last. refl;
  missing = λ i e. ground arith;
}

abbrev unmarked : DiDodag → DiDodag
unmarked dodag = record dodag { has_changed = false }

dodag_copy :
    ⦃ut : Uthash DiNodeRef DiNodeRef⦄ (dodag : DiDodag)
    → or_else dodag (dodag_dup (suc (length dodag.nodes.head)) dodag) ≡ dodag
dodag_copy dodag = rw (dodag_dup_total (suc (length dodag.nodes.head)) dodag (omega arith)) refl

dodag_kind-IsKind : ⦃ut : Uthash DiNodeRef DiNodeRef⦄ → IsKind dodag_kind
unfolding dodag_kind
dodag_kind-IsKind = record {
  renewed_ref = λ dodag. refl;
  renewed_down = λ dodag. refl;
  copy_ref = λ dodag last. ap (λ (d : DiDodag). d.key.ref) (dodag_copy (unmarked dodag));
  copy_down = λ dodag last. ap (λ (d : DiDodag). d.has_changed) (dodag_copy (unmarked dodag));
  missing = λ i e. none_ne_some e;
}

abbrev unmarked_instance : DiRplInstance → DiRplInstance
unmarked_instance rpl_instance = record rpl_instance { has_changed = false }

rpl_instance_copy :
    ⦃ut : Uthash DiDodagRef DiDodagRef⦄ (r : DiRplInstance)
    → or_else r (rpl_instance_dup (suc (length r.dodags.head)) r) ≡ r
unfolding rpl_instance_dup
rpl_instance_copy r =
    rw (hash_dup_total r.dodags (suc (length r.dodags.head)) (omega arith), rpl_instance_dup) refl

rpl_instance_kind-IsKind : ⦃ut : Uthash DiDodagRef DiDodagRef⦄ → IsKind rpl_instance_kind
unfolding rpl_instance_kind
rpl_instance_kind-IsKind = record {
  renewed_ref = λ r. refl;
  renewed_down = λ r. refl;
  copy_ref =
      λ r last. ap (λ (c : DiRplInstance). c.key.ref) (rpl_instance_copy (unmarked_instance r));
  copy_down =
      λ r last. ap (λ (c : DiRplInstance). c.has_changed) (rpl_instance_copy (unmarked_instance r));
  missing = λ i e. none_ne_some e;
}

counted-Next :
    {D : Type 0} ⦃f : Double D⦄ (s : Versions DiNodeRef (DiNode D))
    (o : Option (Versions DiNodeRef (DiNode D)))
    → Returns (Next node_kind s) o
    → Returns (λ r. Next node_kind s r.0) (counted s o)
counted-Next s none n = n
counted-Next s (some t) n = n

-- In a state between two versions `rpldata_add_node_version` returns. The new version has a new copy
-- of every node that had changed, with its differences from the last version, and for every other
-- node what the last version has; the flags of all nodes are reset, the earlier versions stay, and
-- the state is again one between two versions.
pub add_node_version-Next :
    {D : Type 0} ⦃f : Double D⦄ ⦃tables : Uthash DiNodeRef ObjectPtr⦄
    (s : Versions DiNodeRef (DiNode D))
    → IsVersioned node_kind s
    → Returns (λ r. Next node_kind s r.0) (rpldata_add_node_version s)
unfolding rpldata_add_node_version node_kind node_dup
add_node_version-Next s v =
    counted-Next s (add_version node_kind s) (add_version-Next node_kind s node_kind-IsKind v)

-- The same for the links, each of which must be in the last version or have changed.
pub add_link_version-Next :
    ⦃tables : Uthash DiLinkRef ObjectPtr⦄ (s : Versions DiLinkRef DiLink)
    → IsVersioned link_kind s
    → Returns (Next link_kind s) (rpldata_add_link_version s)
unfolding rpldata_add_link_version link_kind
add_link_version-Next s v = add_version-Next link_kind s link_kind-IsKind v

-- The same for the DODAGs.
pub add_dodag_version-Next :
    ⦃ut : Uthash DiNodeRef DiNodeRef⦄ ⦃tables : Uthash DiDodagRef ObjectPtr⦄
    (s : Versions DiDodagRef DiDodag)
    → IsVersioned dodag_kind s
    → Returns (Next dodag_kind s) (rpldata_add_dodag_version s)
unfolding rpldata_add_dodag_version dodag_kind
add_dodag_version-Next s v = add_version-Next dodag_kind s dodag_kind-IsKind v

-- The same for the RPL instances.
pub add_rpl_instance_version-Next :
    ⦃ut : Uthash DiDodagRef DiDodagRef⦄ ⦃tables : Uthash DiRplInstanceRef ObjectPtr⦄
    (s : Versions DiRplInstanceRef DiRplInstance)
    → IsVersioned rpl_instance_kind s
    → Returns (Next rpl_instance_kind s) (rpldata_add_rpl_instance_version s)
unfolding rpldata_add_rpl_instance_version rpl_instance_kind
add_rpl_instance_version-Next s v = add_version-Next rpl_instance_kind s rpl_instance_kind-IsKind v
