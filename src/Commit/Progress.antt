-- ===== src/Commit/Progress.antt =====
-- How many versions one commit of src/data_collector/rpl_event_callbacks.c adds.
use foren6_analyzer.Prelude.{
  ℕ, Bool, true, false, Bool-cases, List, [], ◌∷◌, Option, none, some, Returns, Returns-if_true,
  Returns-if_false, Returns-and_then, ◌≡◌, refl, inl, inr,
}
use foren6_analyzer.Prelude.Double.{Double}
use foren6_analyzer.Refs.{
  Key, DiNodeRef, DiDodagRef, DiLinkRef, DiRplInstanceRef, node_ref_key, link_ref_key,
  dodag_ref_key, rpl_instance_ref_key,
}
use foren6_analyzer.RplEvent.{
  RplEventEl, RplObject, rot_node, rot_dodag, rot_link, rot_rpl_instance, rot_packet,
}
use foren6_analyzer.Node.{DiNode}
use foren6_analyzer.Link.{DiLink}
use foren6_analyzer.Dodag.{DiDodag}
use foren6_analyzer.RplInstance.{DiRplInstance}
use foren6_analyzer.RplData.{Kind, Versions}
use foren6_analyzer.RplData.Invariant.{IsVersioned, Next}
use foren6_analyzer.RplData.Kinds.{
  link_kind, dodag_kind, rpl_instance_kind, node_kind, add_node_version-Next, add_link_version-Next,
  add_dodag_version-Next, add_rpl_instance_version-Next, rpldata_add_node_version,
  rpldata_add_dodag_version, rpldata_add_rpl_instance_version, rpldata_add_link_version,
}
use foren6_analyzer.Commit.{
  Network, CommitState, Tables, with_nodes, with_dodags, with_links, with_rpl_instances,
  commit_event, commit_loop,
}

-- One version of a kind has been added if the flag is set, and otherwise nothing has changed.
abbrev pub Did :
    {K O : Type 0} ⦃key : Key K⦄ → Kind K O → Versions K O → Versions K O → Bool → Type 0
Did kind s t true = Next kind s t
Did kind s t false = IsVersioned kind s × (t ≡ s)

module _ {K O : Type 0} ⦃key : Key K⦄ (kind : Kind K O) (s t : Versions K O) where
  Did-IsVersioned : Did kind s t false → IsVersioned kind t
  Did-IsVersioned (v, e) = rw e v

  Did-Next : (u : Versions K O) → Did kind s t false → Next kind t u → Next kind s u
  Did-Next u (v, e) n = rw e at n

abbrev pub of_dodags : Tables → Kind DiDodagRef DiDodag
of_dodags tables = dodag_kind ⦃ut = tables.members⦄

abbrev pub of_instances : Tables → Kind DiRplInstanceRef DiRplInstance
of_instances tables = rpl_instance_kind ⦃ut = tables.instance_members⦄

-- No flag is set yet.
abbrev pub start : {D : Type 0} → Network D → CommitState D
start n = record { node = false; dodag = false; link = false; rpl_instance = false; network = n }

module _ {D : Type 0} ⦃f : Double D⦄ (tables : Tables) where
  -- What the loop has done of the network so far.
  pub record Progress (n : Network D) (s : CommitState D) : Type 0 where
    pub nodes : Did node_kind n.nodes s.network.nodes s.node
    pub dodags : Did (of_dodags tables) n.dodags s.network.dodags s.dodag
    pub rpl_instances :
        Did (of_instances tables) n.rpl_instances s.network.rpl_instances s.rpl_instance
    pub links : Did link_kind n.links s.network.links s.link

  with_nodes-Progress :
      (n : Network D) (s : CommitState D) (o : Option (Versions DiNodeRef (DiNode D) × ℕ))
      → Progress n s
      → Did node_kind n.nodes s.network.nodes false
      → Returns (λ r. Next node_kind s.network.nodes r.0) o
      → Returns (Progress n) (with_nodes s o)
  with_nodes-Progress n s none p d h = h
  with_nodes-Progress n s (some (nodes, errors)) p d h = record {
    nodes = Did-Next node_kind n.nodes s.network.nodes nodes d h;
    dodags = p.dodags;
    rpl_instances = p.rpl_instances;
    links = p.links;
  }

  node-Progress :
      (n : Network D) (s : CommitState D) (ref : DiNodeRef)
      → Progress n s
      → Returns (Progress n) (commit_event tables (rot_node ref) s)
  node-Progress n s ref p = elim (Bool-cases s.node) [
    | inl e ↦ Returns-if_true (Progress n) _ _ e p
    | inr e ↦
        let d : Did node_kind n.nodes s.network.nodes false = rw e at p.nodes in
        Returns-if_false (Progress n) _ _ e (
          with_nodes-Progress n s (rpldata_add_node_version ⦃tables = tables.nodes⦄ s.network.nodes)
            p d
            (add_node_version-Next ⦃tables = tables.nodes⦄ s.network.nodes
              (Did-IsVersioned node_kind n.nodes s.network.nodes d)))
  ]

  with_dodags-Progress :
      (n : Network D) (s : CommitState D) (o : Option (Versions DiDodagRef DiDodag))
      → Progress n s
      → Did (of_dodags tables) n.dodags s.network.dodags false
      → Returns (Next (of_dodags tables) s.network.dodags) o
      → Returns (Progress n) (with_dodags s o)
  with_dodags-Progress n s none p d h = h
  with_dodags-Progress n s (some dodags) p d h = record {
    nodes = p.nodes;
    dodags = Did-Next (of_dodags tables) n.dodags s.network.dodags dodags d h;
    rpl_instances = p.rpl_instances;
    links = p.links;
  }

  dodag-Progress :
      (n : Network D) (s : CommitState D) (ref : DiDodagRef)
      → Progress n s
      → Returns (Progress n) (commit_event tables (rot_dodag ref) s)
  dodag-Progress n s ref p = elim (Bool-cases s.dodag) [
    | inl e ↦ Returns-if_true (Progress n) _ _ e p
    | inr e ↦
        let d : Did (of_dodags tables) n.dodags s.network.dodags false = rw e at p.dodags in
        Returns-if_false (Progress n) _ _ e (
          with_dodags-Progress n s
            (rpldata_add_dodag_version ⦃ut = tables.members⦄ ⦃tables = tables.dodags⦄
              s.network.dodags)
            p d
            (add_dodag_version-Next ⦃ut = tables.members⦄ ⦃tables = tables.dodags⦄ s.network.dodags
              (Did-IsVersioned (of_dodags tables) n.dodags s.network.dodags d)))
  ]

  with_links-Progress :
      (n : Network D) (s : CommitState D) (o : Option (Versions DiLinkRef DiLink))
      → Progress n s
      → Did link_kind n.links s.network.links false
      → Returns (Next link_kind s.network.links) o
      → Returns (Progress n) (with_links s o)
  with_links-Progress n s none p d h = h
  with_links-Progress n s (some links) p d h = record {
    nodes = p.nodes;
    dodags = p.dodags;
    rpl_instances = p.rpl_instances;
    links = Did-Next link_kind n.links s.network.links links d h;
  }

  link-Progress :
      (n : Network D) (s : CommitState D) (ref : DiLinkRef)
      → Progress n s
      → Returns (Progress n) (commit_event tables (rot_link ref) s)
  link-Progress n s ref p = elim (Bool-cases s.link) [
    | inl e ↦ Returns-if_true (Progress n) _ _ e p
    | inr e ↦
        let d : Did link_kind n.links s.network.links false = rw e at p.links in
        Returns-if_false (Progress n) _ _ e (
          with_links-Progress n s (rpldata_add_link_version ⦃tables = tables.links⦄ s.network.links)
            p d
            (add_link_version-Next ⦃tables = tables.links⦄ s.network.links
              (Did-IsVersioned link_kind n.links s.network.links d)))
  ]

  with_rpl_instances-Progress :
      (n : Network D) (s : CommitState D) (o : Option (Versions DiRplInstanceRef DiRplInstance))
      → Progress n s
      → Did (of_instances tables) n.rpl_instances s.network.rpl_instances false
      → Returns (Next (of_instances tables) s.network.rpl_instances) o
      → Returns (Progress n) (with_rpl_instances s o)
  with_rpl_instances-Progress n s none p d h = h
  with_rpl_instances-Progress n s (some rpl_instances) p d h = record {
    nodes = p.nodes;
    dodags = p.dodags;
    rpl_instances =
        Did-Next (of_instances tables) n.rpl_instances s.network.rpl_instances rpl_instances d h;
    links = p.links;
  }

  rpl_instance-Progress :
      (n : Network D) (s : CommitState D) (ref : DiRplInstanceRef)
      → Progress n s
      → Returns (Progress n) (commit_event tables (rot_rpl_instance ref) s)
  rpl_instance-Progress n s ref p = elim (Bool-cases s.rpl_instance) [
    | inl e ↦ Returns-if_true (Progress n) _ _ e p
    | inr e ↦
        let d : Did (of_instances tables) n.rpl_instances s.network.rpl_instances false =
          rw e at p.rpl_instances in
        Returns-if_false (Progress n) _ _ e (
          with_rpl_instances-Progress n s
            (rpldata_add_rpl_instance_version ⦃ut = tables.instance_members⦄
              ⦃tables = tables.rpl_instances⦄ s.network.rpl_instances)
            p d
            (add_rpl_instance_version-Next ⦃ut = tables.instance_members⦄
              ⦃tables = tables.rpl_instances⦄ s.network.rpl_instances
              (Did-IsVersioned (of_instances tables) n.rpl_instances s.network.rpl_instances d)))
  ]

  event-Progress :
      (n : Network D) (s : CommitState D) (object : RplObject D)
      → Progress n s
      → Returns (Progress n) (commit_event tables object s)
  event-Progress n s (rot_node ref) p = node-Progress n s ref p
  event-Progress n s (rot_dodag ref) p = dodag-Progress n s ref p
  event-Progress n s (rot_link ref) p = link-Progress n s ref p
  event-Progress n s (rot_rpl_instance ref) p = rpl_instance-Progress n s ref p
  event-Progress n s (rot_packet packet_id info) p = p

  loop-Progress :
      (n : Network D) (events : List (RplEventEl D)) (s : CommitState D)
      → Progress n s
      → Returns (Progress n) (commit_loop tables events s)
  unfolding commit_loop
  loop-Progress n [] s p = p
  loop-Progress n (event ∷ events) s p =
      Returns-and_then (Progress n) (commit_event tables event.object s) (commit_loop tables events)
        (event-Progress n s event.object p) (λ t q. loop-Progress n events t q)

  -- Whatever the queue of events holds: when the objects of each kind are between two versions, the
  -- loop of `rpl_event_commit_changed_objects` returns, and for each kind of object it has either set
  -- the flag and added exactly one version, or changed nothing.
  pub commit_loop-Progress :
      (n : Network D) (events : List (RplEventEl D))
      → IsVersioned node_kind n.nodes
      → IsVersioned (of_dodags tables) n.dodags
      → IsVersioned (of_instances tables) n.rpl_instances
      → IsVersioned link_kind n.links
      → Returns (Progress n) (commit_loop tables events (start n))
  commit_loop-Progress n events v d r l = loop-Progress n events (start n) (record {
    nodes = (v, refl);
    dodags = (d, refl);
    rpl_instances = (r, refl);
    links = (l, refl);
  })
