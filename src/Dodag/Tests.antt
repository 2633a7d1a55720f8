-- ===== src/Dodag/Tests.antt =====
-- A DODAG of src/data_info/dodag.c on concrete inputs, and the theorems applied.
use foren6_analyzer.Prelude.{
  ℕ, List, [], ◌∷◌, Option, none, some, Returns, ◌≡◌, ◌≢◌, refl, ap, arith,
}
use foren6_analyzer.Utlist.{Utlist, plain_lists}
use foren6_analyzer.Uthash.{Uthash, plain_tables}
use foren6_analyzer.Refs.{DiNodeRef, DiDodagRef, node_ref_key, same_node_ref, same_dodag_ref}
use foren6_analyzer.RplEvent.{RplEventEl}
use foren6_analyzer.Node.Sample.{no_address, new_node, start}
use foren6_analyzer.Dodag.{
  DiDodag, DodagState, dodag_init, dodag_reset_changed, dodag_set_changed, dodag_set_rpl_instance,
}
use foren6_analyzer.HashContainer.{
  hash_add, hash_add_ref, hash_delete, hash_find, delete_found, hash_it_delete_value,
}
use foren6_analyzer.HashContainer.Iterator.{hash_it_inc}
use foren6_analyzer.Dodag.Members.{
  MemberState, dodag_add_node, leave_previous, add_member, dodag_del_node, mark_dodag, null_ref,
}
use foren6_analyzer.Address.{init_ipv6_addr}
use foren6_analyzer.Node.{NodeState}
use foren6_analyzer.Node.Base.{node_set_dodag, node_set_changed, forget_dodag}
use foren6_analyzer.Dodag.Join.{Joined, dodag_add_node-Joined}
use foren6_analyzer.Dodag.Operations.{
  DodagOp, add_node, set_rpl_instance, del_node, apply_dodag_op, run_dodag_ops, AllFit,
}
use foren6_analyzer.Dodag.Events.{Reported}
use foren6_analyzer.Dodag.Once.{run_dodag_ops-Reported}

instance abbrev events : Utlist (RplEventEl ℕ)
events = plain_lists

instance abbrev tables : Uthash DiNodeRef DiNodeRef
tables = plain_tables

abbrev node_ref : ℕ → DiNodeRef
node_ref a = record { wpan_address = a }

abbrev members : List ℕ → List (DiNodeRef × DiNodeRef)
members [] = []
members (a ∷ rest) = (node_ref a, node_ref a) ∷ members rest

abbrev root_ref : DiDodagRef
root_ref = record { dodagid = no_address; version = 3 }

abbrev new_dodag : DodagState ℕ
new_dodag = dodag_reset_changed (dodag_init root_ref (record { wpan_address = 0 }) [])

-- A DODAG with the nodes of some addresses.
abbrev dodag_of : ℕ → List ℕ → DiDodag
dodag_of version addresses = record (new_dodag.dodag) {
  key = record { ref = record { dodagid = no_address; version = version } };
  nodes = record { head = members addresses; zero_data = node_ref 0; data_constructor = none };
}

-- The node 1 is in the version 2 of the DODAG, with the node 7.
abbrev moving : NodeState ℕ
moving = record start {
  node = record new_node {
    key = record { ref = record { wpan_address = 1 } };
    dodag = record { dodagid = no_address; version = 2 };
  };
}

abbrev before : Option DiDodag
before = some (dodag_of 2 (1 ∷ 7 ∷ []))

seven_one : node_ref 7 ≢ node_ref 1
seven_one q = let w = ap (λ (r : DiNodeRef). r.wpan_address) q in omega arith

-- It is added to the version 3, which has the node 8.
abbrev joining : MemberState ℕ
joining = record { dodag = dodag_of 3 (8 ∷ []); nodes = moving }

dodag_add_node-Joined_example : Returns (Joined joining before) (dodag_add_node before joining)
unfolding same_node_ref
dodag_add_node-Joined_example =
    dodag_add_node-Joined before joining ((seven_one, _), (_, _)) (_, _) refl (λ e. ground arith)

-- A node that is in a DODAG of a negative version: its assertion reads through NULL.
abbrev unversioned : MemberState ℕ
unversioned = record {
  dodag = dodag_of 65535 (1 ∷ []);
  nodes = record moving {
    node = record (moving.node) { dodag = record { dodagid = no_address; version = 65535 } };
  };
}

null_is_read : dodag_add_node none unversioned ≡ none
unfolding dodag_add_node leave_previous add_member hash_add hash_add_ref same_node_ref
null_is_read = refl

-- The node 1 joins, and is taken out again after its DODAG has another instance.
abbrev start_state : DodagState ℕ
start_state = record { dodag = dodag_of 3 (8 ∷ []); head = [] }

abbrev three_ops : List (DodagOp ℕ)
three_ops =
    add_node before moving.node none
    ∷ set_rpl_instance (record { rpl_instance = 30 })
    ∷ del_node (record (moving.node) { dodag = record { dodagid = no_address; version = 3 } }) none
    ∷ []

one_eight : node_ref 1 ≢ node_ref 8
one_eight q = let w = ap (λ (r : DiNodeRef). r.wpan_address) q in omega arith

three_ops-AllFit : AllFit three_ops start_state
unfolding dodag_init dodag_reset_changed same_dodag_ref same_node_ref apply_dodag_op
    dodag_set_rpl_instance dodag_set_changed dodag_add_node dodag_del_node leave_previous add_member
    mark_dodag hash_add hash_add_ref hash_delete delete_found hash_find hash_it_delete_value
    hash_it_inc null_ref init_ipv6_addr forget_dodag node_set_dodag node_set_changed
three_ops-AllFit = (
  (refl, ((seven_one, _), (_, _)), (_, _), refl, λ e. ground arith),
  (_, (((one_eight, _), (_, _)), _)),
)

run_dodag_ops-Reported_example :
    Returns (Reported start_state) (run_dodag_ops three_ops start_state)
run_dodag_ops-Reported_example = run_dodag_ops-Reported three_ops start_state three_ops-AllFit
