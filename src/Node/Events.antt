-- ===== src/Node/Events.antt =====
-- When the operations of node.c report the node as updated.
use foren6_analyzer.Prelude.{
  Bool, true, false, List, [], ◌∷◌, ◌++◌, if◌then◌else◌, ◌⊎◌, inl, inr, ◌≡◌, refl, ◌∙◌, ap,
}
use foren6_analyzer.Utlist.{Utlist}
use foren6_analyzer.RplEvent.{RplEventEl, rot_node, ret_updated, rpl_event_node}
use foren6_analyzer.Refs.{DiNodeRef}
use foren6_analyzer.Node.{DiNode, NodeState, modify}
use foren6_analyzer.Node.Base.{node_set_changed}

abbrev pub updated : {D : Type 0} → DiNodeRef → RplEventEl D
updated ref = record { type = ret_updated; object = rot_node ref }

-- From a node that is not marked: not marked and not reported, or marked and reported once.
abbrev pub Reported : {D : Type 0} → NodeState D → NodeState D → Type 0
Reported s s' =
    ((s'.node.has_changed ≡ false) × (s'.head ≡ s.head))
    ⊎ ((s'.node.has_changed ≡ true)
        × ((ref : DiNodeRef) × (s'.head ≡ (s.head ++ (updated ref ∷ [])))))

-- The report comes exactly when the flag goes from false to true.
pub record Signals {D : Type 0} (s s' : NodeState D) : Type 0 where
  pub already : s.node.has_changed ≡ true → (s'.node.has_changed ≡ true) × (s'.head ≡ s.head)
  pub fresh : s.node.has_changed ≡ false → Reported s s'

module _ {D : Type 0} where
  pub Signals-silent :
      {s s' : NodeState D}
      → s'.node.has_changed ≡ s.node.has_changed
      → s'.head ≡ s.head
      → Signals s s'
  Signals-silent p q = record { already = λ e. (p ∙ e, q); fresh = λ e. inl (p ∙ e, q) }

  prepend_silent : (s t u : NodeState D) → t.head ≡ s.head → Reported t u → Reported s u
  prepend_silent s t u h (inl (d, k)) = inl (d, k ∙ h)
  prepend_silent s t u h (inr (d, (ref, k))) =
      inr (d, (ref, k ∙ ap (λ (l : List (RplEventEl D)). l ++ (updated ref ∷ [])) h))

  Reported-trans : (s t u : NodeState D) → Reported s t → Signals t u → Reported s u
  Reported-trans s t u (inl (c, h)) b = prepend_silent s t u h (b.fresh c)
  Reported-trans s t u (inr (c, (ref, h))) b = let (d, k) = b.already c in inr (d, (ref, k ∙ h))

  pub Signals-trans : {s t u : NodeState D} → Signals s t → Signals t u → Signals s u
  Signals-trans {s = s} {t = t} {u = u} a b = record {
    already = λ e. let (c, h) = a.already e in let (d, k) = b.already c in (d, k ∙ h);
    fresh = λ e. Reported-trans s t u (a.fresh e) b;
  }

  pub Signals-if :
      {s t u : NodeState D} (b : Bool) → Signals s t → Signals s u → Signals s (if b then t else u)
  Signals-if true p q = p
  Signals-if false p q = q

  module _ ⦃dl : Utlist (RplEventEl D)⦄ where
    pub node_set_changed-Signals : (s : NodeState D) → Signals s (node_set_changed s)
    unfolding node_set_changed rpl_event_node
    node_set_changed-Signals s = record {
      already = λ e. rw e (refl, refl);
      fresh = λ e.
          rw e (inr (refl, (s.node.key.ref, dl.dl_append_law s.head (updated s.node.key.ref))));
    }

    -- An assignment that keeps the flag, followed by the report.
    pub marked-Signals :
        (s : NodeState D) (g : DiNode D → DiNode D)
        → (g s.node).has_changed ≡ s.node.has_changed
        → Signals s (node_set_changed (modify g s))
    marked-Signals s g e =
        Signals-trans (Signals-silent e refl) (node_set_changed-Signals (modify g s))
