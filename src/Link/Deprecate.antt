-- ===== src/Link/Deprecate.antt =====
-- What `links_deprecate_all_from` of src/data_info/link.c does to the links and the queue.
use foren6_analyzer.Prelude.{
  ℕ, zero, suc, ◌<◌, true, false, Bool-cases, ltb, List, [], ◌∷◌, ◌++◌, length, length-append,
  append_assoc, append-nil, some, if◌then◌else◌, ◌≡◌, refl, ap, ◌∙◌, arith, inl, inr,
}
use foren6_analyzer.Utlist.{Utlist}
use foren6_analyzer.Uthash.{Uthash}
use foren6_analyzer.Uthash.Assoc.{get_elem?, set_value}
use foren6_analyzer.Refs.{DiLinkRef, link_ref_key}
use foren6_analyzer.RplEvent.{RplEventEl, ret_updated, rot_link, rpl_event_link}
use foren6_analyzer.HashContainer.{HashContainer}
use foren6_analyzer.HashContainer.Iterator.{
  Pointer, null, element, HashIterator, point, before, hash_it_inc, hash_it_equ,
}
use foren6_analyzer.HashContainer.Walk.{walk_at, first-walk_at, hash_it_inc_next}
use foren6_analyzer.Link.{DiLink, link_set_changed}
use foren6_analyzer.Link.Loops.{
  LinksState, is_left, deprecate, deprecate_at, step, deprecate_turn, deprecate_from,
  links_deprecate_all_from,
}

-- A list in two parts.
module _ {K V : Type 0} (k : K) (v : V) (rest : List (K × V)) where
  get_elem?_split :
      (pre : List (K × V)) → get_elem? (pre ++ ((k, v) ∷ rest)) (length pre) ≡ some (k, v)
  get_elem?_split [] = refl
  get_elem?_split (x ∷ pre) = get_elem?_split pre

  set_value_split :
      (w : V) (pre : List (K × V))
      → set_value (pre ++ ((k, v) ∷ rest)) (length pre) w ≡ (pre ++ ((k, w) ∷ rest))
  set_value_split w [] = refl
  set_value_split w (x ∷ pre) = rw (set_value_split w pre) refl

  length_split :
      (w : V) (pre : List (K × V))
      → length (pre ++ ((k, v) ∷ rest)) ≡ length (pre ++ ((k, w) ∷ rest))
  length_split w pre =
      omega (arith, length-append pre ((k, v) ∷ rest), length-append pre ((k, w) ∷ rest))

  -- `hash_it_inc` after the value of the element has changed.
  hash_it_inc_split :
      (w : V) (pre : List (K × V)) (prev : Pointer)
      → hash_it_inc (pre ++ ((k, w) ∷ rest)) (record {
        current_data = element (length pre);
        next = point (pre ++ ((k, v) ∷ rest)) (suc (length pre));
        prev = prev;
      })
        ≡ some (walk_at (pre ++ ((k, w) ∷ rest)) (suc (length pre)) (element (length pre)))
  hash_it_inc_split w pre prev =
      rw (length_split w pre)
        (hash_it_inc_next (pre ++ ((k, w) ∷ rest)) (length pre) (element (length pre)) prev)

  within_split : (pre : List (K × V)) → ltb (length pre) (length (pre ++ ((k, v) ∷ rest))) ≡ true
  within_split pre = ground (arith, length-append pre ((k, v) ∷ rest))

-- A link after the loop, and the event that it makes.
abbrev pub left : DiLinkRef → DiLink → DiLink
left new_link_ref link =
    if is_left new_link_ref link
    then record link { deprecated = true; has_changed = true }
    else link

abbrev pub all_left : DiLinkRef → List (DiLinkRef × DiLink) → List (DiLinkRef × DiLink)
all_left new_link_ref [] = []
all_left new_link_ref ((k, link) ∷ links) =
    (k, left new_link_ref link) ∷ all_left new_link_ref links

module _ {D : Type 0} where
  abbrev pub update_of : DiLinkRef → DiLink → List (RplEventEl D)
  update_of new_link_ref link =
      if is_left new_link_ref link
      then (if link.has_changed
          then []
          else (record { type = ret_updated; object = rot_link link.key.ref } ∷ []))
      else []

  abbrev pub updates_of : DiLinkRef → List (DiLinkRef × DiLink) → List (RplEventEl D)
  updates_of new_link_ref [] = []
  updates_of new_link_ref ((k, link) ∷ links) =
      update_of new_link_ref link ++ updates_of new_link_ref links

module _ {D : Type 0} ⦃dl : Utlist (RplEventEl D)⦄ ⦃ut : Uthash DiLinkRef DiLink⦄
    (new_link_ref : DiLinkRef) (container : HashContainer DiLinkRef DiLink) where
  abbrev holding : List (DiLinkRef × DiLink) → List (RplEventEl D) → LinksState D
  holding links head = record { links = record container { head = links }; head = head }

  deprecate_at_split :
      (pre rest : List (DiLinkRef × DiLink)) (k : DiLinkRef) (link : DiLink) (next prev : Pointer)
      (head : List (RplEventEl D))
      → deprecate_at new_link_ref
          (record { current_data = element (length pre); next = next; prev = prev })
          (some (k, link))
          (holding (pre ++ ((k, link) ∷ rest)) head)
        ≡ some (
            holding
              (pre ++ ((k, left new_link_ref link) ∷ rest))
              (head ++ update_of new_link_ref link))
  unfolding deprecate link_set_changed rpl_event_link
  deprecate_at_split pre rest k link next prev head =
      let stored =
        set_value_split k link rest (record link { deprecated = true; has_changed = true }) pre in
      elim (Bool-cases (is_left new_link_ref link)) [
        | inr stays ↦ rw (stays, append-nil head) refl
        | inl moves ↦ elim (Bool-cases link.has_changed) [
          | inl known ↦ rw (moves, stored, known, append-nil head) refl
          | inr fresh ↦ rw (moves, stored, fresh, dl.dl_append_law head _) refl
        ]
      ]

  deprecate_turn_split :
      (pre rest : List (DiLinkRef × DiLink)) (k : DiLinkRef) (link : DiLink) (prev : Pointer)
      (head : List (RplEventEl D))
      → deprecate_turn new_link_ref
          (walk_at (pre ++ ((k, link) ∷ rest)) (length pre) prev)
          (holding (pre ++ ((k, link) ∷ rest)) head)
        ≡ some (
          walk_at
              (pre ++ ((k, left new_link_ref link) ∷ rest))
              (suc (length pre))
              (element (length pre)),
          holding
              (pre ++ ((k, left new_link_ref link) ∷ rest))
              (head ++ update_of new_link_ref link),
        )
  unfolding deprecate_turn
  deprecate_turn_split pre rest k link prev head =
      let next = point (pre ++ ((k, link) ∷ rest)) (suc (length pre)) in
      let it : HashIterator = record {
        current_data = element (length pre);
        next = next;
        prev = prev;
      } in
      rw (within_split k link rest pre, get_elem?_split k link rest pre)
        (ap (step it) (deprecate_at_split pre rest k link next prev head)
          ∙ rw (hash_it_inc_split k link rest (left new_link_ref link) pre prev) refl)

  deprecate_from_split :
      (fuel : ℕ) (pre rest : List (DiLinkRef × DiLink)) (prev tail : Pointer)
      (head : List (RplEventEl D))
      → length rest < fuel
      → deprecate_from fuel new_link_ref
          (walk_at (pre ++ rest) (length pre) prev)
          (record { current_data = null; next = null; prev = tail })
          (holding (pre ++ rest) head)
        ≡ some (holding (pre ++ all_left new_link_ref rest) (head ++ updates_of new_link_ref rest))
  unfolding deprecate_from hash_it_equ
  deprecate_from_split zero pre rest prev tail head h = ground arith
  deprecate_from_split (suc fuel) pre [] prev tail head h =
      let over : ltb (length pre) (length (pre ++ [])) ≡ false =
        ground (arith, length-append pre []) in
      rw (over, append-nil head) refl
  deprecate_from_split (suc fuel) pre ((k, link) ∷ rest) prev tail head h =
      let y = left new_link_ref link in
      let ev : List (RplEventEl D) = update_of new_link_ref link in
      let longer : length (pre ++ ((k, y) ∷ [])) ≡ suc (length pre) =
        omega (arith, length-append pre ((k, y) ∷ [])) in
      let later =
        deprecate_from_split fuel (pre ++ ((k, y) ∷ [])) rest (element (length pre)) tail
          (head ++ ev) (omega (arith, h)) in
      rw (deprecate_turn_split pre rest k link prev head, within_split k link rest pre)
        (rw
          (
            append_assoc pre ((k, y) ∷ []) rest,
            longer,
            append_assoc pre ((k, y) ∷ []) (all_left new_link_ref rest),
            append_assoc head ev (updates_of new_link_ref rest),
          )
          at later)

-- Given more fuel than there are links, `links_deprecate_all_from` returns. Then exactly the links
-- from the child to other parents are deprecated and marked as changed, nothing else is different,
-- and the queue has in addition one update for each of them that was not marked before, in order.
pub links_deprecate_all_from_total :
    {D : Type 0} ⦃dl : Utlist (RplEventEl D)⦄ ⦃ut : Uthash DiLinkRef DiLink⦄ (fuel : ℕ)
    (new_link_ref : DiLinkRef) (s : LinksState D)
    → length s.links.head < fuel
    → links_deprecate_all_from fuel new_link_ref s
      ≡ some (record {
        links = record (s.links) { head = all_left new_link_ref s.links.head };
        head = s.head ++ updates_of new_link_ref s.links.head;
      })
unfolding links_deprecate_all_from
links_deprecate_all_from_total fuel new_link_ref s h = rw (first-walk_at s.links.head) (
    deprecate_from_split new_link_ref s.links fuel [] s.links.head null
      (before (length s.links.head)) s.head h)
