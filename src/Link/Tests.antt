-- ===== src/Link/Tests.antt =====
-- The loops of src/data_info/link.c on two links, and the theorems applied.
use foren6_analyzer.Prelude.{ℕ, true, false, [], ◌∷◌, ◌++◌, none, some, ◌≡◌, refl, arith}
use foren6_analyzer.Utlist.{Utlist, plain_lists}
use foren6_analyzer.Uthash.{Uthash, plain_tables}
use foren6_analyzer.Refs.{DiNodeRef, DiLinkRef, link_ref_key}
use foren6_analyzer.RplEvent.{RplEventEl, ret_updated, ret_deleted, rot_link, rpl_event_link}
use foren6_analyzer.HashContainer.{hash_it_delete_value}
use foren6_analyzer.HashContainer.Iterator.{hash_it_inc, hash_it_equ}
use foren6_analyzer.Link.{DiLink, LinkState, link_update, link_set_changed}
use foren6_analyzer.Link.Loops.{
  LinksState, links_deprecate_all_from, links_clear_all_deprecated, deprecate_from, deprecate_turn,
  deprecate, clear_from, clear_scan,
}
use foren6_analyzer.Link.Deprecate.{all_left, updates_of, links_deprecate_all_from_total}
use foren6_analyzer.Link.Clear.{cleared, links_clear_all_deprecated_total}
use foren6_analyzer.Link.Events.{Seen, link_update-Seen}

instance abbrev events : Utlist (RplEventEl ℕ)
events = plain_lists

instance abbrev tables : Uthash DiLinkRef DiLink
tables = plain_tables

abbrev node : ℕ → DiNodeRef
node a = record { wpan_address = a }

abbrev from_to : ℕ → ℕ → DiLinkRef
from_to c p = record { child = node c; parent = node p }

abbrev link : ℕ → ℕ → DiLink
link c p = record {
  key = record { ref = from_to c p };
  metric = record { type = none; value = 0 };
  last_update = 0;
  expiration_time = 0;
  packet_count = 4294967295;
  deprecated = false;
  has_changed = false;
}

abbrev two : LinksState ℕ
two = record {
  links = record {
    head = (from_to 5 1, link 5 1) ∷ (from_to 5 2, link 5 2) ∷ [];
    zero_data = link 0 0;
    data_constructor = none;
  };
  head = [];
}

abbrev one_left : LinksState ℕ
one_left = record {
  links = record (two.links) {
    head =
        (from_to 5 1, record (link 5 1) { deprecated = true; has_changed = true })
        ∷ (from_to 5 2, link 5 2)
        ∷ [];
  };
  head = record { type = ret_updated; object = rot_link (from_to 5 1) } ∷ [];
}

deprecate_other : links_deprecate_all_from 3 (from_to 5 2) two ≡ some one_left
unfolding links_deprecate_all_from deprecate_from deprecate_turn deprecate link_set_changed
    rpl_event_link hash_it_inc hash_it_equ
deprecate_other = refl

-- The link that was left goes, with an event.
clear_one :
    links_clear_all_deprecated 3 one_left
    ≡ some (record {
      links = record (two.links) { head = (from_to 5 2, link 5 2) ∷ [] };
      head = one_left.head ++ (record { type = ret_deleted; object = rot_link (from_to 5 1) } ∷ []);
    })
unfolding links_clear_all_deprecated clear_from clear_scan rpl_event_link hash_it_inc hash_it_equ
    hash_it_delete_value
clear_one = refl

links_deprecate_all_from_total_example :
    links_deprecate_all_from 3 (from_to 5 2) two
    ≡ some (record {
      links = record (two.links) { head = all_left (from_to 5 2) two.links.head };
      head = two.head ++ updates_of (from_to 5 2) two.links.head;
    })
links_deprecate_all_from_total_example =
    links_deprecate_all_from_total 3 (from_to 5 2) two (omega arith)

links_clear_all_deprecated_total_example :
    links_clear_all_deprecated 3 one_left ≡ some (cleared one_left)
links_clear_all_deprecated_total_example = links_clear_all_deprecated_total 3 one_left (omega arith)

abbrev only_link : LinkState ℕ
only_link = record { link = link 5 1; head = [] }

link_update-Seen_example : Seen 2 only_link none (link_update 9 2 (only_link, none))
link_update-Seen_example = link_update-Seen 9 2 only_link none
