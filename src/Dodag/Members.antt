-- ===== src/Dodag/Members.antt =====
-- The nodes of a DODAG: `dodag_add_node` and `dodag_del_node` of src/data_info/dodag.c. They change
-- the DODAG, the DODAG that the node was in before, and the node.
use foren6_analyzer.Prelude.{Bool, true, false, not, ◌&&◌, ltb, Option, none, some, if◌then◌else◌}
use foren6_analyzer.Address.{init_ipv6_addr}
use foren6_analyzer.Utlist.{Utlist}
use foren6_analyzer.Uthash.{Uthash}
use foren6_analyzer.Refs.{DiNodeRef, DiDodagRef, same_dodag_ref, node_ref_key}
use foren6_analyzer.RplEvent.{RplEventEl}
use foren6_analyzer.HashContainer.{
  HashContainer, HashAdd, ham_overwrite_if_exists, hash_add, hash_delete,
}
use foren6_analyzer.Dodag.{DiDodag, dodag_set_changed}
use foren6_analyzer.Node.{NodeState}
use foren6_analyzer.Node.Base.{node_set_dodag}

-- A DODAG and a node with its copy in the last version and the queue of events.
pub record MemberState (D : Type 0) : Type 0 where
  pub dodag : DiDodag
  pub nodes : NodeState D

-- `{ {{{0}}}, -1 }` with 16 bits for -1
unfoldable pub null_ref : DiDodagRef
unfolding init_ipv6_addr
null_ref = record { dodagid = init_ipv6_addr; version = 65535 }

-- `version >= 0` of 16 bits with a sign; for any other version of a node's DODAG, `node_get_dodag`
-- returns NULL.
abbrev pub is_versioned : DiDodagRef → Bool
is_versioned ref = ltb ref.version 32768

abbrev pub with_nodes : HashContainer DiNodeRef DiNodeRef → DiDodag → DiDodag
with_nodes nodes dodag = record dodag { nodes = nodes }

module _ {D : Type 0} ⦃dl : Utlist (RplEventEl D)⦄ ⦃ut : Uthash DiNodeRef DiNodeRef⦄ where
  -- `dodag_set_changed` where the queue is that of the node's state.
  unfoldable pub mark_dodag : MemberState D → MemberState D
  mark_dodag s =
      let r = dodag_set_changed (record { dodag = s.dodag; head = s.nodes.head }) in
      record { dodag = r.dodag; nodes = record (s.nodes) { head = r.head } }

  -- `dodag_del_node` after its `hash_delete`.
  abbrev pub del_found :
      Option (Bool × HashContainer DiNodeRef DiNodeRef) → MemberState D → Option (MemberState D)
  del_found none s = none
  del_found (some (false, nodes)) s = some (record s { dodag = with_nodes nodes s.dodag })
  del_found (some (true, nodes)) s = some (
      mark_dodag
        (record { dodag = with_nodes nodes s.dodag; nodes = node_set_dodag null_ref s.nodes }))

  unfoldable pub dodag_del_node : MemberState D → Option (MemberState D)
  dodag_del_node s = del_found (hash_delete s.dodag.nodes s.nodes.node.key.ref) s

  -- `dodag_add_node` after its `hash_add`; `none` is a failed assertion, or a read through
  -- `previous_dodag_ref`. It is NULL or not from the start, and else points to the node's DODAG as
  -- it is now.
  abbrev pub add_found : Bool → HashAdd DiNodeRef DiNodeRef → MemberState D → Option (MemberState D)
  add_found has_previous r s =
      let s' = record s { dodag = with_nodes r.container s.dodag } in
      if r.was_existing
      then (if has_previous && same_dodag_ref s.nodes.node.dodag s.dodag.key.ref
          then some s'
          else none)
      else some (mark_dodag (record s' { nodes = node_set_dodag s.dodag.key.ref s.nodes }))

  unfoldable pub add_member : Bool → MemberState D → Option (MemberState D)
  add_member has_previous s =
      let ref = s.nodes.node.key.ref in
      add_found has_previous (hash_add s.dodag.nodes ref (some ref) ham_overwrite_if_exists) s

  -- The part of `dodag_add_node` that leaves the node's previous DODAG, which is the argument if
  -- there is one.
  abbrev pub is_other : MemberState D → Bool
  is_other s =
      let ref = s.nodes.node.dodag in is_versioned ref && not (same_dodag_ref ref s.dodag.key.ref)

  abbrev pub left_previous :
      MemberState D → Option (MemberState D) → Option (Option DiDodag × MemberState D)
  left_previous s none = none
  left_previous s (some t) = some (some t.dodag, record s { nodes = t.nodes })

  unfoldable pub leave_previous :
      Option DiDodag → MemberState D → Option (Option DiDodag × MemberState D)
  leave_previous none s = some (none, s)
  leave_previous (some previous) s =
      if is_other s
      then left_previous s (dodag_del_node (record s { dodag = previous }))
      else some (some previous, s)

  abbrev pub joined :
      Option DiDodag → Option (MemberState D) → Option (Option DiDodag × MemberState D)
  joined previous none = none
  joined previous (some s) = some (previous, s)

  abbrev pub join_after :
      Bool → Option (Option DiDodag × MemberState D) → Option (Option DiDodag × MemberState D)
  join_after has_previous none = none
  join_after has_previous (some (previous, t)) = joined previous (add_member has_previous t)

  -- `previous` is what `rpldata_get_dodag` returns for the node's DODAG.
  unfoldable pub dodag_add_node :
      Option DiDodag → MemberState D → Option (Option DiDodag × MemberState D)
  dodag_add_node previous s =
      join_after (is_versioned s.nodes.node.dodag) (leave_previous previous s)
