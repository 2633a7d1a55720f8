-- ===== src/Link.antt =====
-- src/data_info/link.c: a link from a node to its parent, and the loops over the links of the
-- network. The operations change the link, the copy of it in the last version of the network, and
-- the queue of events.
pub mod Clear
pub mod Deprecate
pub mod Events
pub mod Loops
mod Tests
use foren6_analyzer.Prelude.{
  ℕ, ◌+◌, ◌%◌, ◌^◌, Bool, true, false, not, ◌&&◌, ◌||◌, ◌!=◌, List, Option, none, some,
  if◌then◌else◌,
}
use foren6_analyzer.Utlist.{Utlist}
use foren6_analyzer.Refs.{DiNodeRef, DiLinkRef, same_link_ref}
use foren6_analyzer.Metric.{DiMetric}
use foren6_analyzer.RplEvent.{RplEventEl, ret_created, ret_updated, rpl_event_link}

pub record DiLinkKey : Type 0 where
  pub ref : DiLinkRef

pub record DiLink : Type 0 where
  pub key : DiLinkKey
  pub metric : DiMetric
  pub last_update : ℕ
  pub expiration_time : ℕ
  pub packet_count : ℕ
  pub deprecated : Bool
  pub has_changed : Bool

-- `head` is the queue of events.
pub record LinkState (D : Type 0) : Type 0 where
  pub link : DiLink
  pub head : List (RplEventEl D)

abbrev pub same_type : Option ℕ → Option ℕ → Bool
same_type none none = true
same_type (some i) (some j) = not (i != j)
same_type none (some j) = false
same_type (some i) none = false

unfoldable pub link_key_init : DiNodeRef → DiNodeRef → ℕ → DiLinkKey
link_key_init child parent version = record { ref = record { child = child; parent = parent } }

unfoldable pub link_ref_init : DiNodeRef → DiNodeRef → DiLinkRef
link_ref_init child parent = record { child = child; parent = parent }

-- `link_update_old_field` for `packet_count`; the argument is the link with the same key in the
-- last version of the network, where there is one and it is another object.
unfoldable pub link_update_old_field : DiLink → Option DiLink → Option DiLink
link_update_old_field link none = none
link_update_old_field link (some old) = some (record old { packet_count = link.packet_count })

module _ {D : Type 0} ⦃dl : Utlist (RplEventEl D)⦄ where
  -- The link in memory that holds `memory`.
  unfoldable pub link_init : DiLink → DiLinkRef → List (RplEventEl D) → LinkState D
  link_init memory key head = record {
    link = record memory { key = record { ref = key }; has_changed = true };
    head = rpl_event_link head key ret_created;
  }

  unfoldable pub link_set_changed : LinkState D → LinkState D
  link_set_changed s = record {
    link = record (s.link) { has_changed = true };
    head = if s.link.has_changed then s.head else rpl_event_link s.head s.link.key.ref ret_updated;
  }

  unfoldable pub link_update : ℕ → ℕ → LinkState D × Option DiLink → LinkState D × Option DiLink
  link_update time added_packet_count (s, old) =
      let link = record (s.link) {
        last_update = time;
        packet_count = (s.link.packet_count + added_packet_count) % 2 ^ 32;
      } in
      let s' =
        if link.deprecated
        then link_set_changed (record s { link = record link { deprecated = false } })
        else record s { link = link } in
      (s', link_update_old_field link old)

  unfoldable pub link_set_key : DiLinkKey → LinkState D → LinkState D
  link_set_key key s =
      if same_link_ref s.link.key.ref key.ref
      then s
      else link_set_changed (record s { link = record (s.link) { key = key } })

  unfoldable pub link_set_metric : DiMetric → LinkState D → LinkState D
  link_set_metric metric s =
      if not (same_type s.link.metric.type metric.type) || (s.link.metric.value != metric.value)
      then link_set_changed (record s { link = record (s.link) { metric = metric } })
      else s

  unfoldable pub link_has_changed : LinkState D → Bool
  link_has_changed s = s.link.has_changed

  unfoldable pub link_reset_changed : LinkState D → LinkState D
  link_reset_changed s = record s { link = record (s.link) { has_changed = false } }
