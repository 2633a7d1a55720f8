-- ===== src/Dodag/Operations.antt =====
-- The calls that messages make on a DODAG of src/data_info/dodag.c.
use foren6_analyzer.Prelude.{true, List, [], ◌∷◌, Option, none, some, and_then, After, ◌≡◌}
use foren6_analyzer.RplDef.Types.{RplDio, RplDodagConfig, RplPrefix}
use foren6_analyzer.Utlist.{Utlist}
use foren6_analyzer.Uthash.{Uthash}
use foren6_analyzer.Refs.{DiNodeRef, DiRplInstanceRef, node_ref_key}
use foren6_analyzer.RplEvent.{RplEventEl}
use foren6_analyzer.HashContainer.Contents.{IsMap}
use foren6_analyzer.Node.{DiNode}
use foren6_analyzer.Dodag.{
  DiDodag, DodagState, dodag_update_from_dio, dodag_update_from_dodag_config,
  dodag_update_from_dodag_prefix_info, dodag_set_rpl_instance,
}
use foren6_analyzer.Dodag.Members.{MemberState, is_versioned, dodag_del_node, dodag_add_node}
use foren6_analyzer.Dodag.Join.{IsMaps, Consistent}

-- The operations by which messages change a DODAG. The members come with the node as it is then,
-- its copy in the last version, and for `add_node` the node's DODAG before, if it is found.
pub data DodagOp (D : Type 0) : Type 0 where
  from_dio : Option RplDio → DodagOp D
  from_dodag_config : Option RplDodagConfig → DodagOp D
  from_prefix_info : Option RplPrefix → DodagOp D
  set_rpl_instance : DiRplInstanceRef → DodagOp D
  add_node : Option DiDodag → DiNode D → Option (DiNode D) → DodagOp D
  del_node : DiNode D → Option (DiNode D) → DodagOp D

module _ {D : Type 0} where
  -- A DODAG with a node, and without it.
  abbrev pub with_node : DiNode D → Option (DiNode D) → DodagState D → MemberState D
  with_node node old s = record {
    dodag = s.dodag;
    nodes = record { node = node; old = old; head = s.head };
  }

  abbrev pub dodag_of : MemberState D → DodagState D
  dodag_of m = record { dodag = m.dodag; head = m.nodes.head }

module _ {D : Type 0} ⦃dl : Utlist (RplEventEl D)⦄ ⦃ut : Uthash DiNodeRef DiNodeRef⦄ where
  -- `none` is a failed assertion of `dodag_add_node`.
  unfoldable pub apply_dodag_op : DodagOp D → DodagState D → Option (DodagState D)
  apply_dodag_op (from_dio dio) s = some (dodag_update_from_dio dio s)
  apply_dodag_op (from_dodag_config config) s = some (dodag_update_from_dodag_config config s)
  apply_dodag_op (from_prefix_info prefix) s = some (dodag_update_from_dodag_prefix_info prefix s)
  apply_dodag_op (set_rpl_instance rpl_instance) s = some (dodag_set_rpl_instance rpl_instance s)
  apply_dodag_op (add_node previous node old) s =
      and_then (dodag_add_node previous (with_node node old s)) (λ r. some (dodag_of r.1))
  apply_dodag_op (del_node node old) s =
      and_then (dodag_del_node (with_node node old s)) (λ m. some (dodag_of m))

  abbrev pub run_dodag_ops : List (DodagOp D) → DodagState D → Option (DodagState D)
  run_dodag_ops [] s = some s
  run_dodag_ops (op ∷ ops) s = and_then (apply_dodag_op op s) (run_dodag_ops ops)

  -- The DODAG that `rpldata_get_dodag` finds is the node's.
  abbrev pub IsPrevious : Option DiDodag → DiNode D → Type 0
  IsPrevious none node = Unit
  IsPrevious (some p) node = p.key.ref ≡ node.dodag

  -- What an operation relies on in a state: containers without two elements with one key, and for
  -- `add_node` a DODAG whose version is not negative, and that a node in it says so.
  abbrev pub Fits : DodagOp D → DodagState D → Type 0
  Fits (from_dio dio) s = Unit
  Fits (from_dodag_config config) s = Unit
  Fits (from_prefix_info prefix) s = Unit
  Fits (set_rpl_instance rpl_instance) s = Unit
  Fits (add_node previous node old) s =
      IsPrevious previous node
      × IsMaps previous
      × IsMap s.dodag.nodes
      × (is_versioned s.dodag.key.ref ≡ true)
      × Consistent (with_node node old s)
  Fits (del_node node old) s = IsMap s.dodag.nodes

  -- Each operation fits the state that the operations before it leave.
  abbrev pub AllFit : List (DodagOp D) → DodagState D → Type 0
  AllFit [] s = Unit
  AllFit (op ∷ ops) s = Fits op s × After (AllFit ops) (apply_dodag_op op s)
