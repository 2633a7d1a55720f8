-- ===== src/Dodag/Once.antt =====
-- When a DODAG of src/data_info/dodag.c is reported, whatever messages change it.
use foren6_analyzer.Prelude.{
  Bool, true, false, ◌&&◌, Bool-cases, List, [], ◌∷◌, Option, none, some, and_then, Returns,
  Returns-map, After, ◌≡◌, refl, subst, arith, inl, inr,
}
use foren6_analyzer.Utlist.{Utlist}
use foren6_analyzer.Uthash.{Uthash}
use foren6_analyzer.Refs.{DiNodeRef, DiDodagRef, same_dodag_ref, node_ref_key}
use foren6_analyzer.RplEvent.{RplEventEl, rpl_event_node, rpl_event_dodag}
use foren6_analyzer.HashContainer.{
  HashContainer, HashAdd, ham_overwrite_if_exists, hash_add, hash_delete,
}
use foren6_analyzer.Node.{NodeState}
use foren6_analyzer.Node.Base.{node_set_dodag, node_set_changed, forget_dodag}
use foren6_analyzer.Dodag.{
  DiDodag, DodagState, dodag_set_changed, dodag_update_from_dio, dodag_update_from_dodag_config,
  dodag_update_from_dodag_prefix_info, dodag_set_rpl_instance,
}
use foren6_analyzer.Dodag.Members.{
  MemberState, is_versioned, is_other, mark_dodag, with_nodes, del_found, dodag_del_node, add_found,
  add_member, left_previous, leave_previous, joined, join_after, dodag_add_node, null_ref,
}
use foren6_analyzer.Dodag.Join.{Joined, Gone, dodag_add_node-Joined, dodag_del_node-Gone}
use foren6_analyzer.Dodag.Operations.{
  DodagOp, from_dio, from_dodag_config, from_prefix_info, set_rpl_instance, add_node, del_node,
  with_node, dodag_of, apply_dodag_op, run_dodag_ops, IsPrevious, Fits, AllFit,
}
use foren6_analyzer.Dodag.Events.{
  Reported, Reported-refl, Reported-trans, Quiet, Quiet-refl, Quiet-trans, Quiet-append,
  Quiet-Reported, set_changed-Reported, if-Reported, with_config-Reported, with_prefix-Reported,
}

module _ {D : Type 0} ⦃dl : Utlist (RplEventEl D)⦄ ⦃ut : Uthash DiNodeRef DiNodeRef⦄ where
  set_dodag-Quiet :
      (ref dodag : DiDodagRef) (n : NodeState D) → Quiet ref n.head (node_set_dodag dodag n).head
  unfolding node_set_dodag node_set_changed rpl_event_node forget_dodag
  set_dodag-Quiet ref dodag n = elim (Bool-cases (same_dodag_ref n.node.dodag dodag)) [
    | inl same ↦ rw same (Quiet-refl ref n.head)
    | inr other ↦ rw other (elim (Bool-cases n.node.has_changed) [
      | inl marked ↦ rw marked (Quiet-refl ref n.head)
      | inr first ↦ rw first (Quiet-append ref n.head _ refl)
    ])
  ]

  -- Another DODAG is marked.
  mark-Quiet :
      (ref : DiDodagRef) (m : MemberState D)
      → same_dodag_ref m.dodag.key.ref ref ≡ false
      → Quiet ref m.nodes.head (mark_dodag m).nodes.head
  unfolding mark_dodag dodag_set_changed rpl_event_dodag
  mark-Quiet ref m other = elim (Bool-cases m.dodag.has_changed) [
    | inl marked ↦ rw marked (Quiet-refl ref m.nodes.head)
    | inr first ↦ rw first (Quiet-append ref m.nodes.head _ other)
  ]

  -- This DODAG is marked, after its members and other objects have changed.
  mark-Reported :
      (s : DodagState D) (nodes : HashContainer DiNodeRef DiNodeRef) (n : NodeState D)
      → Quiet s.dodag.key.ref s.head n.head
      → Reported s (dodag_of (mark_dodag (record { dodag = with_nodes nodes s.dodag; nodes = n })))
  unfolding mark_dodag
  mark-Reported s nodes n q =
      let t : DodagState D = record { dodag = with_nodes nodes s.dodag; head = n.head } in
      Reported-trans s t _ (Quiet-Reported s t refl refl q)
        (set_changed-Reported t t.dodag refl refl)

  del_found-Quiet :
      (ref : DiDodagRef) (m : MemberState D) (o : Option (Bool × HashContainer DiNodeRef DiNodeRef))
      → same_dodag_ref m.dodag.key.ref ref ≡ false
      → After (λ (t : MemberState D). Quiet ref m.nodes.head t.nodes.head) (del_found o m)
  del_found-Quiet ref m none other = _
  del_found-Quiet ref m (some (false, nodes)) other = Quiet-refl ref m.nodes.head
  del_found-Quiet ref m (some (true, nodes)) other =
      Quiet-trans ref m.nodes.head (node_set_dodag null_ref m.nodes).head _
        (set_dodag-Quiet ref null_ref m.nodes)
        (mark-Quiet ref
          (record { dodag = with_nodes nodes m.dodag; nodes = node_set_dodag null_ref m.nodes })
          other)

  del_found-Reported :
      (s : DodagState D) (n : NodeState D) (o : Option (Bool × HashContainer DiNodeRef DiNodeRef))
      → Quiet s.dodag.key.ref s.head n.head
      → After
          (λ (t : MemberState D). Reported s (dodag_of t))
          (del_found o (record { dodag = s.dodag; nodes = n }))
  del_found-Reported s n none q = _
  del_found-Reported s n (some (false, nodes)) q = Quiet-Reported s _ refl refl q
  del_found-Reported s n (some (true, nodes)) q =
      mark-Reported s nodes (node_set_dodag null_ref n)
        (Quiet-trans s.dodag.key.ref s.head n.head _ q (set_dodag-Quiet s.dodag.key.ref null_ref n))

  add_found-Reported :
      (s : DodagState D) (n : NodeState D) (has_previous : Bool) (r : HashAdd DiNodeRef DiNodeRef)
      → Quiet s.dodag.key.ref s.head n.head
      → After
          (λ (t : MemberState D). Reported s (dodag_of t))
          (add_found has_previous r (record { dodag = s.dodag; nodes = n }))
  add_found-Reported s n has_previous r q = elim (Bool-cases r.was_existing) [
    | inl known ↦
        rw known (elim (Bool-cases (has_previous && same_dodag_ref n.node.dodag s.dodag.key.ref)) [
          | inl says ↦ rw says (Quiet-Reported s _ refl refl q)
          | inr fails ↦ rw fails _
        ])
    | inr fresh ↦ rw fresh (
        mark-Reported s r.container (node_set_dodag s.dodag.key.ref n) (
          Quiet-trans s.dodag.key.ref s.head n.head _ q
            (set_dodag-Quiet s.dodag.key.ref s.dodag.key.ref n)))
  ]

  -- The state after the node has left the DODAG before.
  abbrev HasLeft : MemberState D → Option DiDodag × MemberState D → Type 0
  HasLeft m r = (r.1.dodag ≡ m.dodag) × Quiet m.dodag.key.ref m.nodes.head r.1.nodes.head

  left_previous-HasLeft :
      (m : MemberState D) (o : Option (MemberState D))
      → After (λ (t : MemberState D). Quiet m.dodag.key.ref m.nodes.head t.nodes.head) o
      → After (HasLeft m) (left_previous m o)
  left_previous-HasLeft m none q = _
  left_previous-HasLeft m (some t) q = (refl, q)

  other_dodag :
      (m : MemberState D)
      → is_other m ≡ true
      → same_dodag_ref m.nodes.node.dodag m.dodag.key.ref ≡ false
  other_dodag m other = ground arith

  leave_previous-HasLeft :
      (previous : Option DiDodag) (m : MemberState D)
      → IsPrevious previous m.nodes.node
      → After (HasLeft m) (leave_previous previous m)
  unfolding leave_previous dodag_del_node
  leave_previous-HasLeft none m e = (refl, Quiet-refl m.dodag.key.ref m.nodes.head)
  leave_previous-HasLeft (some p) m e = elim (Bool-cases (is_other m)) [
    | inl other ↦ rw other (
        left_previous-HasLeft m (dodag_del_node (record m { dodag = p })) (
          del_found-Quiet m.dodag.key.ref (record m { dodag = p })
            (hash_delete p.nodes m.nodes.node.key.ref) (rw e (other_dodag m other))))
    | inr stays ↦ rw stays (refl, Quiet-refl m.dodag.key.ref m.nodes.head)
  ]

  joined-Reported :
      (s : DodagState D) (previous : Option DiDodag) (o : Option (MemberState D))
      → After (λ (t : MemberState D). Reported s (dodag_of t)) o
      → After
          (λ (r : Option DiDodag × MemberState D). Reported s (dodag_of r.1))
          (joined previous o)
  joined-Reported s previous none r = _
  joined-Reported s previous (some t) r = r

  join_after-Reported :
      (m : MemberState D) (has_previous : Bool) (o : Option (Option DiDodag × MemberState D))
      → After (HasLeft m) o
      → After
          (λ (r : Option DiDodag × MemberState D). Reported (dodag_of m) (dodag_of r.1))
          (join_after has_previous o)
  unfolding add_member
  join_after-Reported m has_previous none l = _
  join_after-Reported m has_previous (some (previous, t)) l =
      let key = t.nodes.node.key.ref in
      let r = hash_add t.dodag.nodes key (some key) ham_overwrite_if_exists in
      let start : DiDodag → DodagState D = λ d. record { dodag = d; head = m.nodes.head } in
      joined-Reported (dodag_of m) previous (add_found has_previous r t) (
        subst
          (λ d.
            After (λ (u : MemberState D). Reported (start d) (dodag_of u))
              (add_found has_previous r t))
          (l.0) (add_found-Reported (start t.dodag) t.nodes has_previous r (rw l.0 (l.1))))

  map-After :
      {A : Type 0} (s : DodagState D) (f : A → MemberState D) (o : Option A)
      → After (λ a. Reported s (dodag_of (f a))) o
      → After (Reported s) (and_then o (λ a. some (dodag_of (f a))))
  map-After s f none r = _
  map-After s f (some a) r = r

  map-Returns :
      {A : Type 0} (P : A → Type 0) (s : DodagState D) (f : A → DodagState D) (o : Option A)
      → Returns P o
      → After (Reported s) (and_then o (λ a. some (f a)))
      → Returns (Reported s) (and_then o (λ a. some (f a)))
  map-Returns P s f none p q = p
  map-Returns P s f (some a) p q = q

  apply_dodag_op-Reported :
      (op : DodagOp D) (s : DodagState D) → Fits op s → Returns (Reported s) (apply_dodag_op op s)
  unfolding apply_dodag_op dodag_update_from_dio dodag_update_from_dodag_config
      dodag_update_from_dodag_prefix_info dodag_set_rpl_instance dodag_add_node dodag_del_node
  apply_dodag_op-Reported (from_dio none) s fits = Reported-refl s
  apply_dodag_op-Reported (from_dio (some dio)) s fits =
      if-Reported _ s _ _ (set_changed-Reported s _ refl refl) (Reported-refl s)
  apply_dodag_op-Reported (from_dodag_config none) s fits =
      with_config-Reported false s _
        (if-Reported _ s _ _ (set_changed-Reported s _ refl refl) (Reported-refl s))
  apply_dodag_op-Reported (from_dodag_config (some config)) s fits =
      with_config-Reported true s _
        (if-Reported _ s _ _ (set_changed-Reported s _ refl refl) (Reported-refl s))
  apply_dodag_op-Reported (from_prefix_info none) s fits =
      with_prefix-Reported false s _
        (if-Reported _ s _ _ (set_changed-Reported s _ refl refl) (Reported-refl s))
  apply_dodag_op-Reported (from_prefix_info (some prefix)) s fits =
      with_prefix-Reported true s _
        (if-Reported _ s _ _ (set_changed-Reported s _ refl refl) (Reported-refl s))
  apply_dodag_op-Reported (set_rpl_instance rpl_instance) s fits =
      if-Reported _ s _ _ (Reported-refl s) (set_changed-Reported s _ refl refl)
  apply_dodag_op-Reported (add_node previous node old) s fits =
      let m = with_node node old s in
      map-Returns (Joined m previous) s (λ r. dodag_of r.1) (dodag_add_node previous m)
        (dodag_add_node-Joined previous m (fits.1) (fits.2) (fits.3) (fits.4))
        (map-After s (λ r. r.1) (dodag_add_node previous m)
          (join_after-Reported m (is_versioned node.dodag) (leave_previous previous m)
            (leave_previous-HasLeft previous m (fits.0))))
  apply_dodag_op-Reported (del_node node old) s fits =
      let m = with_node node old s in
      map-Returns (Gone m) s dodag_of (dodag_del_node m) (dodag_del_node-Gone m fits) (
        map-After s (λ t. t) (dodag_del_node m)
          (del_found-Reported s m.nodes (hash_delete s.dodag.nodes node.key.ref)
            (Quiet-refl s.dodag.key.ref s.head)))

  then-Reported :
      (s : DodagState D) (ops : List (DodagOp D)) (o : Option (DodagState D))
      → ((t : DodagState D) → AllFit ops t → Returns (Reported t) (run_dodag_ops ops t))
      → Returns (Reported s) o
      → After (AllFit ops) o
      → Returns (Reported s) (and_then o (run_dodag_ops ops))
  then-Reported s ops none again r fit = r
  then-Reported s ops (some t) again r fit =
      Returns-map (Reported t) (Reported s) (run_dodag_ops ops t) (λ u q. Reported-trans s t u r q)
        (again t fit)

  -- For operations by which messages change a DODAG, in whatever order, each of which fits the state
  -- that those before it leave: they all return, so that no assertion fails. The key of the DODAG
  -- stays, its flag never goes down, and of the events that they all queue, those of the DODAG are
  -- one update if the flag goes up and none otherwise.
  pub run_dodag_ops-Reported :
      (ops : List (DodagOp D)) (s : DodagState D)
      → AllFit ops s
      → Returns (Reported s) (run_dodag_ops ops s)
  run_dodag_ops-Reported [] s fit = Reported-refl s
  run_dodag_ops-Reported (op ∷ ops) s fit =
      then-Reported s ops (apply_dodag_op op s) (run_dodag_ops-Reported ops)
        (apply_dodag_op-Reported op s (fit.0)) (fit.1)
