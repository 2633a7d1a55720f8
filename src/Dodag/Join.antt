-- ===== src/Dodag/Join.antt =====
-- What `dodag_add_node` and `dodag_del_node` of src/data_info/dodag.c do to the members of the
-- DODAGs.
use foren6_analyzer.Prelude.{
  Bool, true, false, ◌&&◌, Bool-cases, Option, none, some, is_some, if◌then◌else◌, Returns,
  Returns-if_true, Returns-if_false, ◌≡◌, refl, sym, ◌∙◌, inl, inr, arith,
}
use foren6_analyzer.Utlist.{Utlist}
use foren6_analyzer.Uthash.{Uthash}
use foren6_analyzer.Refs.{
  DiNodeRef, DiDodagRef, same_dodag_ref, same_dodag_ref_iff, same_node_ref, node_ref_key,
}
use foren6_analyzer.RplEvent.{RplEventEl}
use foren6_analyzer.HashContainer.{
  HashContainer, HashAdd, ham_overwrite_if_exists, hash_add, hash_delete,
}
use foren6_analyzer.HashContainer.Contents.{
  get, IsMap, Added, Added-overwrite, Deleted, hash_add-Added, hash_delete-Deleted,
}
use foren6_analyzer.Dodag.{DiDodag, dodag_set_changed}
use foren6_analyzer.Dodag.Members.{
  MemberState, is_versioned, is_other, mark_dodag, del_found, dodag_del_node, add_found, add_member,
  leave_previous, left_previous, joined, join_after, dodag_add_node, null_ref,
}
use foren6_analyzer.Node.{NodeState}
use foren6_analyzer.Node.Base.{node_set_dodag, node_set_changed, forget_dodag}

both : {a b : Bool} → a ≡ true → b ≡ true → (a && b) ≡ true
both p q = rw (p, q) refl

module _ {D : Type 0} ⦃dl : Utlist (RplEventEl D)⦄ where
  node_set_dodag-dodag :
      (dodag : DiDodagRef) (s : NodeState D) → (node_set_dodag dodag s).node.dodag ≡ dodag
  unfolding node_set_dodag node_set_changed forget_dodag
  node_set_dodag-dodag dodag s = elim (Bool-cases (same_dodag_ref s.node.dodag dodag)) [
    | inl same ↦ rw same ((same_dodag_ref_iff s.node.dodag dodag).0 same)
    | inr other ↦ rw other refl
  ]

  node_set_dodag-key :
      (dodag : DiDodagRef) (s : NodeState D) → (node_set_dodag dodag s).node.key ≡ s.node.key
  unfolding node_set_dodag node_set_changed forget_dodag
  node_set_dodag-key dodag s = elim (Bool-cases (same_dodag_ref s.node.dodag dodag)) [
    | inl same ↦ rw same refl
    | inr other ↦ rw other refl
  ]

-- The previous DODAG, if there is one, has no two elements with one key.
abbrev pub IsMaps : Option DiDodag → Type 0
IsMaps none = Unit
IsMaps (some p) = IsMap p.nodes

abbrev pub ref_of : {D : Type 0} → MemberState D → DiNodeRef
ref_of s = s.nodes.node.key.ref

module _ {D : Type 0} ⦃dl : Utlist (RplEventEl D)⦄ ⦃ut : Uthash DiNodeRef DiNodeRef⦄
    (s : MemberState D) where
  -- After `dodag_del_node` the node is not in the DODAG; the others are.
  pub record Gone (t : MemberState D) : Type 0 where
    pub ok : IsMap t.dodag.nodes
    pub stored :
        (j : DiNodeRef)
        → get t.dodag.nodes j ≡ (if same_node_ref (ref_of s) j then none else get s.dodag.nodes j)
    pub key : t.nodes.node.key ≡ s.nodes.node.key

  del_found-Gone :
      (o : Option (Bool × HashContainer DiNodeRef DiNodeRef))
      → Returns (Deleted s.dodag.nodes (ref_of s)) o
      → Returns Gone (del_found o s)
  unfolding mark_dodag dodag_set_changed
  del_found-Gone none h = h
  del_found-Gone (some (false, nodes)) h = record { ok = h.ok; stored = h.stored; key = refl }
  del_found-Gone (some (true, nodes)) h = record {
    ok = h.ok;
    stored = h.stored;
    key = node_set_dodag-key null_ref s.nodes;
  }

  pub dodag_del_node-Gone : IsMap s.dodag.nodes → Returns Gone (dodag_del_node s)
  unfolding dodag_del_node
  dodag_del_node-Gone d =
      del_found-Gone (hash_delete s.dodag.nodes (ref_of s))
        (hash_delete-Deleted s.dodag.nodes (ref_of s) d)

module _ {D : Type 0} ⦃dl : Utlist (RplEventEl D)⦄ ⦃ut : Uthash DiNodeRef DiNodeRef⦄
    (s : MemberState D) where
  -- A node in the DODAG says so.
  abbrev pub Consistent : Type 0
  Consistent = is_some (get s.dodag.nodes (ref_of s)) ≡ true → s.nodes.node.dodag ≡ s.dodag.key.ref

  -- For a node in the DODAG, `previous_dodag_ref` is not NULL.
  abbrev pub Known : Bool → Type 0
  Known has_previous = is_some (get s.dodag.nodes (ref_of s)) ≡ true → has_previous ≡ true

  -- After `add_member` the node is in the DODAG, and says so.
  pub record Member (t : MemberState D) : Type 0 where
    pub ok : IsMap t.dodag.nodes
    pub stored :
        (j : DiNodeRef)
        → get t.dodag.nodes j
          ≡ (if same_node_ref (ref_of s) j then some (ref_of s) else get s.dodag.nodes j)
    pub says : t.nodes.node.dodag ≡ s.dodag.key.ref

  add_found-Member :
      (has_previous : Bool) (r : HashAdd DiNodeRef DiNodeRef)
      → Consistent
      → Known has_previous
      → Added s.dodag.nodes (ref_of s) (ref_of s) ham_overwrite_if_exists r
      → Returns Member (add_found has_previous r s)
  unfolding mark_dodag dodag_set_changed
  add_found-Member has_previous r c k a =
      let added : r.added ≡ true = Added-overwrite r a in
      let stored : (j : DiNodeRef)
          → get r.container j
            ≡ (if same_node_ref (ref_of s) j then some (ref_of s) else get s.dodag.nodes j) =
        rw added at a.stored in
      elim (Bool-cases r.was_existing) [
        | inl known ↦
            let here = c (sym a.existed ∙ known) in
            Returns-if_true Member _ _ known (
              Returns-if_true Member _ _
                (both (k (sym a.existed ∙ known))
                  ((same_dodag_ref_iff s.nodes.node.dodag s.dodag.key.ref).1 here))
                (record { ok = a.ok; stored = stored; says = here }))
        | inr fresh ↦ Returns-if_false Member _ _ fresh (record {
          ok = a.ok;
          stored = stored;
          says = node_set_dodag-dodag s.dodag.key.ref s.nodes;
        })
      ]

  add_member-Member :
      (has_previous : Bool)
      → IsMap s.dodag.nodes
      → Consistent
      → Known has_previous
      → Returns Member (add_member has_previous s)
  unfolding add_member
  add_member-Member has_previous d c k =
      add_found-Member has_previous
        (hash_add s.dodag.nodes (ref_of s) (some (ref_of s)) ham_overwrite_if_exists) c k
        (hash_add-Added s.dodag.nodes (ref_of s) (some (ref_of s)) ham_overwrite_if_exists d
          (λ e. ground arith))

  -- What is left of the previous DODAG.
  abbrev pub Left : Option DiDodag → Option DiDodag → Type 0
  Left none none = Unit
  Left none (some p) = ⊥
  Left (some p) none = ⊥
  Left (some p) (some q) =
      IsMap q.nodes
      × ((j : DiNodeRef)
          → get q.nodes j
            ≡ (if is_other s && same_node_ref (ref_of s) j then none else get p.nodes j))

  -- The state between the two parts of `dodag_add_node`.
  record Ready (previous : Option DiDodag) (r : Option DiDodag × MemberState D) : Type 0 where
    left : Left previous r.0
    dodag : r.1.dodag ≡ s.dodag
    key : r.1.nodes.node.key ≡ s.nodes.node.key
    says :
        Consistent
        → is_some (get s.dodag.nodes (ref_of s)) ≡ true
        → r.1.nodes.node.dodag ≡ s.dodag.key.ref

  other-absent : is_other s ≡ true → Consistent → is_some (get s.dodag.nodes (ref_of s)) ≡ true → ⊥
  other-absent other c here =
      let same = (same_dodag_ref_iff s.nodes.node.dodag s.dodag.key.ref).1 (c here) in ground arith

  Gone-Ready :
      (p : DiDodag) (o : Option (MemberState D))
      → is_other s ≡ true
      → Returns (Gone (record s { dodag = p })) o
      → Returns (Ready (some p)) (left_previous s o)
  Gone-Ready p none other h = h
  Gone-Ready p (some t) other h = record {
    left = (h.ok, λ j. rw other (h.stored j));
    dodag = refl;
    key = h.key;
    says = λ c here. absurd (other-absent other c here);
  }

  leave_previous-Ready :
      (previous : Option DiDodag)
      → IsMaps previous
      → Returns (Ready previous) (leave_previous previous s)
  unfolding leave_previous
  leave_previous-Ready none d = record {
    left = _;
    dodag = refl;
    key = refl;
    says = λ c here. c here;
  }
  leave_previous-Ready (some p) d = elim (Bool-cases (is_other s)) [
    | inl other ↦ Returns-if_true (Ready (some p)) _ _ other (
        Gone-Ready p (dodag_del_node (record s { dodag = p })) other
          (dodag_del_node-Gone (record s { dodag = p }) d))
    | inr stays ↦ Returns-if_false (Ready (some p)) _ _ stays (record {
      left = (d, λ j. rw stays refl);
      dodag = refl;
      key = refl;
      says = λ c here. c here;
    })
  ]

  -- What a call of `dodag_add_node` must do.
  pub record Joined (previous : Option DiDodag) (r : Option DiDodag × MemberState D) : Type 0 where
    member : Member r.1
    left : Left previous r.0

-- The second part of `dodag_add_node`.
module _ {D : Type 0} ⦃dl : Utlist (RplEventEl D)⦄ ⦃ut : Uthash DiNodeRef DiNodeRef⦄ where
  Member-Joined :
      (s : MemberState D) (previous left : Option DiDodag) (o : Option (MemberState D))
      → Left s previous left
      → Returns (Member s) o
      → Returns (Joined s previous) (joined left o)
  Member-Joined s previous left none l m = m
  Member-Joined s previous left (some u) l m = record { member = m; left = l }

  Member-transport :
      (s t u : MemberState D)
      → t.dodag ≡ s.dodag
      → t.nodes.node.key ≡ s.nodes.node.key
      → Member t u
      → Member s u
  Member-transport s t u e k m = record {
    ok = m.ok;
    stored = λ j. rw (e, k) at (m.stored j);
    says = rw e at m.says;
  }

  Returns-Member :
      (s t : MemberState D) (o : Option (MemberState D))
      → t.dodag ≡ s.dodag
      → t.nodes.node.key ≡ s.nodes.node.key
      → Returns (Member t) o
      → Returns (Member s) o
  Returns-Member s t none e k m = m
  Returns-Member s t (some u) e k m = Member-transport s t u e k m

  Ready-Joined :
      (s : MemberState D) (has_previous : Bool) (previous : Option DiDodag)
      (o : Option (Option DiDodag × MemberState D))
      → IsMap s.dodag.nodes
      → Consistent s
      → Known s has_previous
      → Returns (Ready s previous) o
      → Returns (Joined s previous) (join_after has_previous o)
  Ready-Joined s has_previous previous none d c k r = r
  Ready-Joined s has_previous previous (some (left, t)) d c k r =
      let consistent : Consistent t = λ here. rw r.dodag (r.says c (rw (r.dodag, r.key) at here)) in
      let known : Known t has_previous = λ here. k (rw (r.dodag, r.key) at here) in
      Member-Joined s previous left (add_member has_previous t) r.left (
        Returns-Member s t (add_member has_previous t) r.dodag r.key
          (add_member-Member t has_previous (rw r.dodag d) consistent known))

  -- If no container of nodes has two elements with one key, the version of the DODAG is not negative,
  -- and the node, when it is in the DODAG, says so, then `dodag_add_node` returns and its assertion neither reads through NULL nor fails. Afterwards the node is in the DODAG
  -- and says so, and the DODAG has the other members it had. If the node was in another DODAG that
  -- has a version, it is no longer in that one, if it was known; its other members stay.
  pub dodag_add_node-Joined :
      (previous : Option DiDodag) (s : MemberState D)
      → IsMaps previous
      → IsMap s.dodag.nodes
      → is_versioned s.dodag.key.ref ≡ true
      → Consistent s
      → Returns (Joined s previous) (dodag_add_node previous s)
  unfolding dodag_add_node
  dodag_add_node-Joined previous s p d v c =
      Ready-Joined s (is_versioned s.nodes.node.dodag) previous (leave_previous previous s) d c
        (λ here. rw (c here) v) (leave_previous-Ready s previous p)
