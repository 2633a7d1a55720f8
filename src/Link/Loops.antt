-- ===== src/Link/Loops.antt =====
-- The loops of src/data_info/link.c over the links of the network. The working container holds
-- pointers to the links; no two of them are equal, so that an element stands for its link. A loop
-- without fuel left, and an access through NULL or to freed memory, is `none`.
use foren6_analyzer.Prelude.{
  ℕ, Bool, true, ◌&&◌, ◌==◌, ◌!=◌, List, Option, none, some, if◌then◌else◌,
}
use foren6_analyzer.Utlist.{Utlist}
use foren6_analyzer.Uthash.{Uthash}
use foren6_analyzer.Uthash.Assoc.{set_value}
use foren6_analyzer.Refs.{DiLinkRef, link_ref_key}
use foren6_analyzer.RplEvent.{RplEventEl, ret_deleted, rpl_event_link}
use foren6_analyzer.HashContainer.{
  HashContainer, hash_begin, hash_end, pointed, hash_it_delete_value,
}
use foren6_analyzer.HashContainer.Iterator.{
  Pointer, null, element, freed, HashIterator, hash_it_inc, hash_it_equ,
}
use foren6_analyzer.Link.{DiLink, LinkState, link_set_changed}

-- The links of the network, and the queue of events.
pub record LinksState (D : Type 0) : Type 0 where
  pub links : HashContainer DiLinkRef DiLink
  pub head : List (RplEventEl D)

-- A change of the link that an iterator points to.
abbrev pub store :
    HashContainer DiLinkRef DiLink → Pointer → DiLink → HashContainer DiLinkRef DiLink
store container null link = container
store container freed link = container
store container (element i) link = record container { head = set_value container.head i link }

-- The condition of `links_deprecate_all_from`: the child has another parent now.
abbrev pub is_left : DiLinkRef → DiLink → Bool
is_left new_link_ref link =
    (link.key.ref.child.wpan_address == new_link_ref.child.wpan_address)
    && (link.key.ref.parent.wpan_address != new_link_ref.parent.wpan_address)

-- What the inner loop of `links_clear_all_deprecated` ends with: the container and the link of the
-- element that it deleted, or nothing when it comes to the end.
abbrev pub Scan : Type 0
Scan = Option (HashContainer DiLinkRef DiLink × DiLink)

abbrev pub deleted : DiLink → Option (HashContainer DiLinkRef DiLink × HashIterator) → Option Scan
deleted link none = none
deleted link (some r) = some (some (r.0, link))

module _ ⦃ut : Uthash DiLinkRef DiLink⦄ where
  unfoldable pub clear_scan :
      ℕ → HashContainer DiLinkRef DiLink → HashIterator → HashIterator → Option Scan
  unfolding hash_it_delete_value
  clear_scan ℕ.zero links it it_end = none
  clear_scan (ℕ.suc fuel) links it it_end =
      if hash_it_equ it it_end then some none else (elim (pointed links it.current_data) [
        | none ↦ none
        | some e ↦
            if e.1.deprecated
            then deleted e.1 (hash_it_delete_value links it)
            else (elim (hash_it_inc links.head it) [
              | none ↦ none
              | some it ↦ clear_scan fuel links it it_end
            ])
      ])

module _ {D : Type 0} ⦃dl : Utlist (RplEventEl D)⦄ ⦃ut : Uthash DiLinkRef DiLink⦄ where
  unfoldable pub deprecate : LinkState D → LinkState D
  deprecate s = link_set_changed (record s { link = record (s.link) { deprecated = true } })

  -- The body of the loop of `links_deprecate_all_from`.
  abbrev pub deprecate_at :
      DiLinkRef → HashIterator → Option (DiLinkRef × DiLink) → LinksState D → Option (LinksState D)
  deprecate_at new_link_ref it none s = none
  deprecate_at new_link_ref it (some (k, link)) s =
      let r = deprecate (record { link = link; head = s.head }) in
      some (
        if is_left new_link_ref link
        then record { links = store s.links it.current_data r.link; head = r.head }
        else s)

  abbrev pub moved_on : LinksState D → Option HashIterator → Option (HashIterator × LinksState D)
  moved_on s none = none
  moved_on s (some it) = some (it, s)

  -- Its `hash_it_inc`.
  abbrev pub step : HashIterator → Option (LinksState D) → Option (HashIterator × LinksState D)
  step it none = none
  step it (some s) = moved_on s (hash_it_inc s.links.head it)

  -- One turn of the loop.
  unfoldable pub deprecate_turn :
      DiLinkRef → HashIterator → LinksState D → Option (HashIterator × LinksState D)
  deprecate_turn new_link_ref it s =
      step it (deprecate_at new_link_ref it (pointed s.links it.current_data) s)

  unfoldable pub deprecate_from :
      ℕ → DiLinkRef → HashIterator → HashIterator → LinksState D → Option (LinksState D)
  unfolding deprecate_turn hash_it_equ
  deprecate_from ℕ.zero new_link_ref it it_end s = none
  deprecate_from (ℕ.suc fuel) new_link_ref it it_end s =
      if hash_it_equ it it_end then some s else (elim (deprecate_turn new_link_ref it s) [
        | none ↦ none
        | some r ↦ deprecate_from fuel new_link_ref r.0 it_end r.1
      ])

  unfoldable pub links_deprecate_all_from : ℕ → DiLinkRef → LinksState D → Option (LinksState D)
  unfolding deprecate_from
  links_deprecate_all_from fuel new_link_ref s =
      deprecate_from fuel new_link_ref (hash_begin s.links) (hash_end s.links) s

  abbrev pub rescan :
      (LinksState D → Option (LinksState D)) → LinksState D → Option Scan → Option (LinksState D)
  rescan again s none = none
  rescan again s (some none) = some s
  rescan again s (some (some (links, link))) =
      again (record { links = links; head = rpl_event_link s.head link.key.ref ret_deleted })

  -- The outer loop; `inner` is the fuel of each turn.
  unfoldable pub clear_from : ℕ → ℕ → LinksState D → Option (LinksState D)
  clear_from ℕ.zero inner s = none
  clear_from (ℕ.suc fuel) inner s =
      rescan (clear_from fuel inner) s
        (clear_scan inner s.links (hash_begin s.links) (hash_end s.links))

  unfoldable pub links_clear_all_deprecated : ℕ → LinksState D → Option (LinksState D)
  unfolding clear_from
  links_clear_all_deprecated fuel s = clear_from fuel fuel s
