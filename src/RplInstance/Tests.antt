-- ===== src/RplInstance/Tests.antt =====
-- An instance of src/data_info/rpl_instance.c on concrete inputs, and the theorems applied.
use foren6_analyzer.Prelude.{ℕ, false, [], none, arith}
use foren6_analyzer.Utlist.{Utlist, plain_lists}
use foren6_analyzer.Uthash.{Uthash, plain_tables}
use foren6_analyzer.Refs.{DiDodagRef, dodag_ref_key}
use foren6_analyzer.RplEvent.{RplEventEl}
use foren6_analyzer.Node.Sample.{no_address}
use foren6_analyzer.Dodag.{dodag_init}
use foren6_analyzer.RplInstance.{InstanceDodagState, rpl_instance_add_dodag}
use foren6_analyzer.RplInstance.Dodags.{Has, rpl_instance_add_dodag-Has}

instance abbrev events : Utlist (RplEventEl ℕ)
events = plain_lists

instance abbrev tables : Uthash DiDodagRef DiDodagRef
tables = plain_tables

abbrev root_ref : DiDodagRef
root_ref = record { dodagid = no_address; version = 3 }

abbrev state : InstanceDodagState ℕ
state = record {
  rpl_instance = record {
    key = record { ref = record { rpl_instance = 30 } };
    dodags = record { head = []; zero_data = root_ref; data_constructor = none };
    mode_of_operation = 2;
    has_changed = false;
  };
  dodags = dodag_init root_ref (record { wpan_address = 0 }) [];
}

rpl_instance_add_dodag-Has_example : Has state (rpl_instance_add_dodag state)
rpl_instance_add_dodag-Has_example = rpl_instance_add_dodag-Has state _ (λ e. ground arith)
