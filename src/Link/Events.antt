-- ===== src/Link/Events.antt =====
-- What `link_update` of src/data_info/link.c makes of a link, its copy and the queue.
use foren6_analyzer.Prelude.{
  ℕ, ◌+◌, ◌%◌, ◌^◌, true, false, not, ◌&&◌, [], ◌∷◌, ◌++◌, append-nil, Option, none, some,
  if◌then◌else◌, Bool-cases, inl, inr, ◌≡◌, refl,
}
use foren6_analyzer.Utlist.{Utlist}
use foren6_analyzer.RplEvent.{RplEventEl, ret_updated, rot_link, rpl_event_link}
use foren6_analyzer.Link.{DiLink, LinkState, link_update, link_set_changed, link_update_old_field}

-- The copy in the last version, where there is one, with a packet count.
abbrev pub counted : ℕ → Option DiLink → Option DiLink
counted packet_count none = none
counted packet_count (some old) = some (record old { packet_count = packet_count })

link_update_old_field-counted :
    (link : DiLink) (old : Option DiLink)
    → link_update_old_field link old ≡ counted link.packet_count old
unfolding link_update_old_field
link_update_old_field-counted link none = refl
link_update_old_field-counted link (some old) = refl

module _ {D : Type 0} ⦃dl : Utlist (RplEventEl D)⦄ where
  -- What a call of `link_update` must do.
  pub record Seen (added : ℕ) (s : LinkState D) (old : Option DiLink)
      (r : LinkState D × Option DiLink) : Type 0 where
    live : r.0.link.deprecated ≡ false
    count : r.0.link.packet_count ≡ (s.link.packet_count + added) % 2 ^ 32
    copied : r.1 ≡ counted r.0.link.packet_count old
    reported : r.0.head ≡ (
        s.head
        ++ (if s.link.deprecated && not s.link.has_changed
            then record { type = ret_updated; object = rot_link s.link.key.ref } ∷ []
            else []))
    marked : r.0.link.has_changed ≡ (if s.link.deprecated then true else s.link.has_changed)

  -- After `link_update` the link is not deprecated, its packet count is 32 bits wide and has grown
  -- by what was added, and the copy in the last version, where there is one, has the same count and
  -- is otherwise as it was. An update is queued exactly if the link was deprecated and was not
  -- marked as changed; a link that was deprecated is marked, any other keeps its mark.
  pub link_update-Seen :
      (time added : ℕ) (s : LinkState D) (old : Option DiLink)
      → Seen added s old (link_update time added (s, old))
  unfolding link_update link_set_changed rpl_event_link
  link_update-Seen time added s old = elim (Bool-cases s.link.deprecated) [
    | inr kept ↦ record {
      live = rw kept refl;
      count = rw kept refl;
      copied = rw (link_update_old_field-counted _ old, kept) refl;
      reported = rw (kept, append-nil s.head) refl;
      marked = rw kept refl;
    }
    | inl dead ↦ record {
      live = rw dead refl;
      count = rw dead refl;
      copied = rw (link_update_old_field-counted _ old, dead) refl;
      reported = elim (Bool-cases s.link.has_changed) [
        | inl known ↦ rw (dead, known, append-nil s.head) refl
        | inr fresh ↦ rw (dead, fresh, dl.dl_append_law s.head _) refl
      ];
      marked = rw dead refl;
    }
  ]
