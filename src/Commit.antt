-- ===== src/Commit.antt =====
-- `rpl_event_commit_changed_objects` and `rpl_event_process_events` of
-- src/data_collector/rpl_event_callbacks.c: the queue of events makes the next version of the network
-- and is then reported. `none` is an access through NULL or behind the end of an array.
pub mod Progress
mod Tests
use foren6_analyzer.Prelude.{
  ℕ, zero, suc, ◌+◌, ◌-◌, ◌%◌, ◌^◌, Bool, true, false, ◌||◌, ltb, List, [], ◌∷◌, length, Option,
  none, some, and_then, if◌then◌else◌,
}
use foren6_analyzer.Prelude.Double.{Double}
use foren6_analyzer.Uthash.{Uthash}
use foren6_analyzer.Uthash.Assoc.{get_elem?}
use foren6_analyzer.Refs.{
  Key, DiNodeRef, DiLinkRef, DiDodagRef, DiRplInstanceRef, node_ref_key, link_ref_key,
  dodag_ref_key, rpl_instance_ref_key,
}
use foren6_analyzer.RplEvent.{
  RplEventEl, RplEventType, RplObject, ret_created, ret_updated, ret_deleted, rot_node, rot_dodag,
  rot_link, rot_rpl_instance, rot_packet,
}
use foren6_analyzer.HashContainer.{HashContainer}
use foren6_analyzer.Node.{DiNode}
use foren6_analyzer.Link.{DiLink}
use foren6_analyzer.Dodag.{DiDodag}
use foren6_analyzer.RplInstance.{DiRplInstance}
use foren6_analyzer.RplData.{ObjectPtr, no_object, Versions, last_version, originals, found}
use foren6_analyzer.RplData.Kinds.{
  rpldata_add_node_version, rpldata_add_dodag_version, rpldata_add_rpl_instance_version,
  rpldata_add_link_version,
}
use foren6_analyzer.RplData.Wsn.{WsnVersions, LastVersions, rpldata_wsn_create_version}

-- The versions of all objects and of the network.
pub record Network (D : Type 0) : Type 0 where
  pub nodes : Versions DiNodeRef (DiNode D)
  pub dodags : Versions DiDodagRef DiDodag
  pub rpl_instances : Versions DiRplInstanceRef DiRplInstance
  pub links : Versions DiLinkRef DiLink
  pub wsn : WsnVersions D

-- The local variables of `rpl_event_commit_changed_objects` with the network.
pub record CommitState (D : Type 0) : Type 0 where
  pub node : Bool
  pub dodag : Bool
  pub link : Bool
  pub rpl_instance : Bool
  pub network : Network D

-- The hash tables of the versions and of the members of DODAGs and instances.
pub record Tables : Type 0 where
  pub nodes : Uthash DiNodeRef ObjectPtr
  pub dodags : Uthash DiDodagRef ObjectPtr
  pub rpl_instances : Uthash DiRplInstanceRef ObjectPtr
  pub links : Uthash DiLinkRef ObjectPtr
  pub members : Uthash DiNodeRef DiNodeRef
  pub instance_members : Uthash DiDodagRef DiDodagRef

module _ {D : Type 0} where
  abbrev pub with_nodes :
      CommitState D → Option (Versions DiNodeRef (DiNode D) × ℕ) → Option (CommitState D)
  with_nodes s none = none
  with_nodes s (some (nodes, errors)) = some (record s {
    node = true;
    network = record (s.network) {
      nodes = nodes;
      wsn = record (s.network.wsn) { node_last_version_has_errors = errors };
    };
  })

  abbrev pub with_dodags :
      CommitState D → Option (Versions DiDodagRef DiDodag) → Option (CommitState D)
  with_dodags s none = none
  with_dodags s (some dodags) =
      some (record s { dodag = true; network = record (s.network) { dodags = dodags } })

  abbrev pub with_links :
      CommitState D → Option (Versions DiLinkRef DiLink) → Option (CommitState D)
  with_links s none = none
  with_links s (some links) =
      some (record s { link = true; network = record (s.network) { links = links } })

  abbrev pub with_rpl_instances :
      CommitState D → Option (Versions DiRplInstanceRef DiRplInstance) → Option (CommitState D)
  with_rpl_instances s none = none
  with_rpl_instances s (some rpl_instances) = some (record s {
    rpl_instance = true;
    network = record (s.network) { rpl_instances = rpl_instances };
  })

module _ {D : Type 0} ⦃f : Double D⦄ (tables : Tables) where
  -- One turn of the loop.
  abbrev pub commit_event : RplObject D → CommitState D → Option (CommitState D)
  commit_event (rot_node ref) s =
      if s.node
      then some s
      else with_nodes s (rpldata_add_node_version ⦃tables = tables.nodes⦄ s.network.nodes)
  commit_event (rot_dodag ref) s =
      if s.dodag
      then some s
      else with_dodags s (
          rpldata_add_dodag_version ⦃ut = tables.members⦄ ⦃tables = tables.dodags⦄ s.network.dodags)
  commit_event (rot_link ref) s =
      if s.link
      then some s
      else with_links s (rpldata_add_link_version ⦃tables = tables.links⦄ s.network.links)
  commit_event (rot_rpl_instance ref) s =
      if s.rpl_instance
      then some s
      else with_rpl_instances s (
          rpldata_add_rpl_instance_version ⦃ut = tables.instance_members⦄
            ⦃tables = tables.rpl_instances⦄ s.network.rpl_instances)
  commit_event (rot_packet packet_id info) s = some s

  -- The loop over the queue.
  unfoldable pub commit_loop : List (RplEventEl D) → CommitState D → Option (CommitState D)
  commit_loop [] s = some s
  commit_loop (event ∷ events) s = and_then (commit_event event.object s) (commit_loop events)

abbrev pub last_versions : {D : Type 0} → Network D → LastVersions
last_versions n = record {
  node_last_version = last_version n.nodes;
  dodag_last_version = last_version n.dodags;
  rpl_instance_last_version = last_version n.rpl_instances;
  link_last_version = last_version n.links;
}

-- The table of a version of a kind of object, `rpldata_get_nodes` and its siblings, where the
-- argument is the member of `wsn_versions` for the kind.
abbrev pub table_of : {K O : Type 0} → Versions K O → ℕ → Option (HashContainer K ObjectPtr)
table_of s zero =
    some
      (record { head = originals s.working.head; zero_data = no_object; data_constructor = none })
table_of s (suc version) =
    if ltb (length s.tables) (suc version)
    then none
    else get_elem? s.tables (length s.tables - suc version)

-- `*hash_value(container, ref, HVM_FailIfNonExistant, NULL)`, where the container may be NULL.
abbrev pub object_in :
    {K : Type 0} ⦃key : Key K⦄
    → Uthash K ObjectPtr
    → Option (HashContainer K ObjectPtr)
    → K
    → Option ObjectPtr
object_in ut none ref = none
object_in ut (some container) ref = found ⦃tables = ut⦄ container ref

-- A deleted object is looked for in the version before.
abbrev pub version_of : RplEventType → ℕ → ℕ
version_of ret_deleted wsn_version = (wsn_version + 4294967295) % 2 ^ 32
version_of type wsn_version = wsn_version

-- A call of a callback: the event and the pointer to its object, NULL for a packet.
pub record EventCall (D : Type 0) : Type 0 where
  pub event : RplEventEl D
  pub object : ObjectPtr

-- What the commit returns, with the calls of callbacks; the queue is empty then.
pub record Committed (D : Type 0) : Type 0 where
  pub has_changed : Bool
  pub network : Network D
  pub calls : List (EventCall D)

module _ {D : Type 0} (tables : Tables) where
  abbrev pub object_of : Network D → ℕ → RplObject D → Option ObjectPtr
  object_of n version (rot_node ref) =
      object_in tables.nodes (table_of n.nodes (n.wsn.wsn_versions version).node_version) ref
  object_of n version (rot_dodag ref) =
      object_in tables.dodags (table_of n.dodags (n.wsn.wsn_versions version).dodag_version) ref
  object_of n version (rot_rpl_instance ref) =
      object_in tables.rpl_instances
        (table_of n.rpl_instances (n.wsn.wsn_versions version).rpl_instance_version) ref
  object_of n version (rot_link ref) =
      object_in tables.links (table_of n.links (n.wsn.wsn_versions version).links_version) ref
  object_of n version (rot_packet packet_id info) = some no_object

  -- `rpl_event_process_events`, where all callbacks are set. It leaves the queue empty.
  unfoldable pub rpl_event_process_events :
      Network D → ℕ → List (RplEventEl D) → Option (List (EventCall D))
  rpl_event_process_events n wsn_version [] = some []
  rpl_event_process_events n wsn_version (event ∷ events) =
      let rest = rpl_event_process_events n wsn_version events in
      elim (object_of n (version_of event.type wsn_version) event.object) [
        | none ↦ none
        | some object ↦ (elim rest [
          | none ↦ none
          | some calls ↦ some (record { event = event; object = object } ∷ calls)
        ])
      ]

  abbrev pub reported : Bool → Network D → Option (List (EventCall D)) → Option (Committed D)
  reported has_changed n none = none
  reported has_changed n (some calls) =
      some (record { has_changed = has_changed; network = n; calls = calls })

  abbrev pub with_wsn :
      List (RplEventEl D) → Network D → Option (WsnVersions D) → Option (Committed D)
  with_wsn head n none = none
  with_wsn head n (some wsn) =
      let n' = record n { wsn = wsn } in
      reported true n' (rpl_event_process_events n' wsn.wsn_last_version head)

  abbrev pub any : CommitState D → Bool
  any s = s.node || s.link || s.dodag || s.rpl_instance

  -- `rpl_event_commit_changed_objects` after its loop. Creating a version of the network processes
  -- the queue, and the processing that follows finds it empty.
  abbrev pub commit_end :
      ℕ → D → List (RplEventEl D) → Option (CommitState D) → Option (Committed D)
  commit_end packet_id timestamp head none = none
  commit_end packet_id timestamp head (some s) =
      let n = s.network in
      if any s
      then with_wsn head n (rpldata_wsn_create_version (last_versions n) packet_id timestamp n.wsn)
      else reported false n (rpl_event_process_events n n.wsn.wsn_last_version head)

  unfoldable pub rpl_event_commit_changed_objects :
      ⦃f : Double D⦄ → ℕ → D → List (RplEventEl D) → Network D → Option (Committed D)
  unfolding commit_loop
  rpl_event_commit_changed_objects packet_id timestamp head network =
      commit_end packet_id timestamp head (
        commit_loop tables head (record {
          node = false;
          dodag = false;
          link = false;
          rpl_instance = false;
          network = network;
        }))
