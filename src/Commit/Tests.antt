-- ===== src/Commit/Tests.antt =====
-- A commit of src/data_collector/rpl_event_callbacks.c of one new link.
use foren6_analyzer.Prelude.{
  none_ne_some, ℕ, true, false, [], ◌∷◌, none, Returns, refl, arith, List,
}
use foren6_analyzer.Prelude.Double.{whole_double}
use foren6_analyzer.Uthash.{plain_tables}
use foren6_analyzer.Refs.{
  DiLinkRef, DiDodagRef, node_ref_key, link_ref_key, dodag_ref_key, rpl_instance_ref_key,
}
use foren6_analyzer.RplEvent.{RplEventEl, ret_created, rot_link}
use foren6_analyzer.Node.Sample.{new_node, no_address}
use foren6_analyzer.Link.{DiLink}
use foren6_analyzer.Dodag.{DodagState, dodag_init}
use foren6_analyzer.RplData.{Versions}
use foren6_analyzer.RplData.Invariant.{originals-working, IsVersioned}
use foren6_analyzer.RplData.Kinds.{link_kind}
use foren6_analyzer.Utlist.{Utlist, plain_lists}
use foren6_analyzer.Commit.{Network, Tables, commit_loop}
use foren6_analyzer.Commit.Progress.{Progress, start, commit_loop-Progress}

instance abbrev queue : Utlist (RplEventEl ℕ)
queue = plain_lists

abbrev tables : Tables
tables = record {
  nodes = plain_tables;
  dodags = plain_tables;
  rpl_instances = plain_tables;
  links = plain_tables;
  members = plain_tables;
  instance_members = plain_tables;
}

abbrev ref : DiLinkRef
ref = record { child = record { wpan_address = 5 }; parent = record { wpan_address = 1 } }

abbrev link : DiLink
link = record {
  key = record { ref = ref };
  metric = record { type = none; value = 0 };
  last_update = 0;
  expiration_time = 0;
  packet_count = 1;
  deprecated = false;
  has_changed = true;
}

abbrev root_ref : DiDodagRef
root_ref = record { dodagid = no_address; version = 3 }

abbrev none_yet : {K O : Type 0} → O → Versions K O
none_yet zeros = record {
  working = record { head = []; zero_data = zeros; data_constructor = none };
  copies = [];
  tables = [];
}

abbrev new_dodag : DodagState ℕ
new_dodag = dodag_init root_ref (record { wpan_address = 0 }) []

abbrev network : Network ℕ
network = record {
  nodes = none_yet new_node;
  dodags = none_yet new_dodag.dodag;
  rpl_instances = none_yet (record {
    key = record { ref = record { rpl_instance = 0 } };
    dodags = record { head = []; zero_data = root_ref; data_constructor = none };
    mode_of_operation = 0;
    has_changed = false;
  });
  links = record {
    working = record { head = (ref, link) ∷ []; zero_data = link; data_constructor = none };
    copies = [];
    tables = [];
  };
  wsn = record {
    wsn_versions = λ i. record {
      node_version = 0;
      dodag_version = 0;
      rpl_instance_version = 0;
      links_version = 0;
      timestamp = 0;
      packet_id = 0;
      has_errors = 0;
    };
    wsn_version_array_size = 256;
    wsn_last_version = 0;
    node_last_version_has_errors = 0;
  };
}

abbrev created : List (RplEventEl ℕ)
created = record { type = ret_created; object = rot_link ref } ∷ []

links-IsVersioned : IsVersioned link_kind network.links
unfolding link_kind
links-IsVersioned = record {
  working = (_, _);
  keyed = (refl, _);
  last = (_, _);
  inside = λ k i e. absurd (originals-working network.links.working.head k i e);
  known = ((λ e. ground arith), _);
}

commit_loop-Progress_example :
    Returns (Progress tables network) (commit_loop tables created (start network))
commit_loop-Progress_example =
    commit_loop-Progress tables network created
      (record {
        working = _;
        keyed = _;
        last = _;
        inside = λ k i e. absurd (none_ne_some e);
        known = _;
      })
      (record {
        working = _;
        keyed = _;
        last = _;
        inside = λ k i e. absurd (none_ne_some e);
        known = _;
      })
      (record {
        working = _;
        keyed = _;
        last = _;
        inside = λ k i e. absurd (none_ne_some e);
        known = _;
      })
      links-IsVersioned
