-- ===== src/Link/Clear.antt =====
-- What `links_clear_all_deprecated` of src/data_info/link.c does to the links and the queue.
use foren6_analyzer.Prelude.{
  ℕ, zero, suc, ◌+◌, ◌<◌, ◌≤◌, true, false, Bool-cases, ltb, List, [], ◌∷◌, ◌++◌, length, take,
  append_assoc, append-nil, Option-cases, none, some, if◌then◌else◌, Returns, Returns-if_true,
  Returns-if_false, if_true, if_false, none_ne_some, some_injective, ◌≡◌, refl, sym, ap, subst, ◌∙◌,
  arith, inl, inr,
}
use foren6_analyzer.Utlist.{Utlist}
use foren6_analyzer.Uthash.{Uthash}
use foren6_analyzer.Uthash.Assoc.{get_elem?, remove_at}
use foren6_analyzer.Refs.{DiLinkRef, link_ref_key}
use foren6_analyzer.RplEvent.{RplEventEl, ret_deleted, rot_link, rpl_event_link}
use foren6_analyzer.HashContainer.{HashContainer, hash_begin, hash_end, hash_it_delete_value}
use foren6_analyzer.HashContainer.Iterator.{
  Pointer, null, element, HashIterator, point, before, hash_it_equ, after_delete,
}
use foren6_analyzer.HashContainer.Walk.{walk_at, first-walk_at, hash_it_inc_next, get_elem?_cases}
use foren6_analyzer.Link.{DiLink}
use foren6_analyzer.Link.Loops.{
  LinksState, Scan, clear_scan, clear_from, links_clear_all_deprecated,
}

abbrev Links : Type 0
Links = List (DiLinkRef × DiLink)

-- The links that stay, and the events of those that go.
abbrev pub kept : List (DiLinkRef × DiLink) → List (DiLinkRef × DiLink)
kept [] = []
kept ((k, link) ∷ links) = if link.deprecated then kept links else (k, link) ∷ kept links

abbrev pub deletion : {D : Type 0} → DiLink → RplEventEl D
deletion link = record { type = ret_deleted; object = rot_link link.key.ref }

abbrev pub deletions : {D : Type 0} → List (DiLinkRef × DiLink) → List (RplEventEl D)
deletions [] = []
deletions ((k, link) ∷ links) =
    if link.deprecated then deletion link ∷ deletions links else deletions links

-- No link is deprecated.
abbrev pub Live : List (DiLinkRef × DiLink) → Type 0
Live [] = Unit
Live ((k, link) ∷ links) = (link.deprecated ≡ false) × Live links

kept-Live : (links : Links) → Live links → kept links ≡ links
kept-Live [] live = refl
kept-Live ((k, link) ∷ links) (e, live) = if_false _ e ∙ ap (◌∷◌ (k, link)) (kept-Live links live)

deletions-Live : {D : Type 0} (links : Links) → Live links → deletions {D = D} links ≡ []
deletions-Live [] live = refl
deletions-Live ((k, link) ∷ links) (e, live) = if_false _ e ∙ deletions-Live links live

Live-append :
    (links : Links) (k : DiLinkRef) (link : DiLink)
    → Live links
    → link.deprecated ≡ false
    → Live (links ++ ((k, link) ∷ []))
Live-append [] k link live e = (e, _)
Live-append ((j, first_link) ∷ links) k link (d, live) e = (d, Live-append links k link live e)

-- The first deprecated link is at a position.
record FirstAt (links : Links) (i : ℕ) : Type 0 where
  key : DiLinkRef
  link : DiLink
  inside : i < length links
  here : get_elem? links i ≡ some (key, link)
  deprecated : link.deprecated ≡ true
  live : Live (take i links)

-- Removing it keeps the links that stay, and takes away the first event.
record Removed (links : Links) (i : ℕ) (link : DiLink) : Type 1 where
  keeps : kept (remove_at links i) ≡ kept links
  events : {D : Type 0} → deletions {D = D} links ≡ (deletion link ∷ deletions (remove_at links i))
  shorter : suc (length (remove_at links i)) ≡ length links

first-Removed :
    (j k : DiLinkRef) (l link : DiLink) (links : Links)
    → Path (DiLinkRef × DiLink) (j, l) (k, link)
    → link.deprecated ≡ true
    → Removed ((j, l) ∷ links) 0 link
first-Removed j k l link links here e =
    let same : l ≡ link = ap (λ (x : DiLinkRef × DiLink). x.1) here in
    rw same (record { keeps = sym (if_true _ e); events = if_true _ e; shorter = refl })

FirstAt-Removed :
    (links : Links) (i : ℕ) (k : DiLinkRef) (link : DiLink)
    → get_elem? links i ≡ some (k, link)
    → link.deprecated ≡ true
    → Live (take i links)
    → Removed links i link
FirstAt-Removed [] i k link here e live = absurd (none_ne_some here)
FirstAt-Removed ((j, l) ∷ links) zero k link here e live =
    first-Removed j k l link links (some_injective here) e
FirstAt-Removed ((j, l) ∷ links) (suc i) k link here e (d, live) =
    let later = FirstAt-Removed links i k link here e live in
    record {
      keeps = if_false _ d ∙ ap (◌∷◌ (j, l)) later.keeps ∙ sym (if_false _ d);
      events = if_false _ d ∙ later.events ∙ ap (◌∷◌ (deletion link)) (sym (if_false _ d));
      shorter = omega (arith, later.shorter);
    }

module _ ⦃ut : Uthash DiLinkRef DiLink⦄ (container : HashContainer DiLinkRef DiLink) where
  -- What the inner loop ends with.
  abbrev Ends : Scan → Type 0
  Ends none = Live container.head
  Ends (some (c, link)) =
      (i : ℕ) × (at : FirstAt container.head i) × (link ≡ at.link)
      × (c ≡ record container { head = ut.hash_del container.head i })

  -- An iterator at an element that is there.
  abbrev inside_at : ℕ → Pointer → HashIterator
  inside_at i prev = record {
    current_data = element i;
    next = point container.head (suc i);
    prev = prev;
  }

  delete-inside_at :
      (i : ℕ) (prev : Pointer)
      → hash_it_delete_value container (inside_at i prev)
        ≡ some (
          record container { head = ut.hash_del container.head i },
          after_delete i (walk_at container.head (suc i) (element i)),
        )
  unfolding hash_it_delete_value
  delete-inside_at i prev =
      rw (hash_it_inc_next container.head i (element i) prev, hash_it_delete_value) refl

  clear_scan-Ends :
      (fuel i : ℕ) (prev tail : Pointer)
      → i ≤ length container.head
      → length container.head < fuel + i
      → Live (take i container.head)
      → Returns Ends (
          clear_scan fuel container
            (walk_at container.head i prev)
            (record { current_data = null; next = null; prev = tail }))
  unfolding clear_scan hash_it_equ
  clear_scan-Ends zero i prev tail b h live = ground arith
  clear_scan-Ends (suc fuel) i prev tail b h live = elim (get_elem?_cases container.head i) [
    | inl (behind, all) ↦
        let over : ltb i (length container.head) ≡ false = ground arith in rw over (rw all at live)
    | inr (e, inside, here, next) ↦
        let within : ltb i (length container.head) ≡ true = ground arith in
        let it_end : HashIterator = record { current_data = null; next = null; prev = tail } in
        let turn : Returns Ends (clear_scan (suc fuel) container (inside_at i prev) it_end) =
          rw here (elim (Bool-cases e.1.deprecated) [
            | inl dead ↦ Returns-if_true Ends _ _ dead (
                rw (delete-inside_at i prev) (
                  i,
                  record {
                    key = e.0;
                    link = e.1;
                    inside = inside;
                    here = here;
                    deprecated = dead;
                    live = live;
                  },
                  refl,
                  refl,
                ))
            | inr alive ↦ Returns-if_false Ends _ _ alive (
                rw (hash_it_inc_next container.head i (element i) prev) (
                  clear_scan-Ends fuel (suc i) (element i) tail (omega (arith, inside))
                    (omega (arith, h))
                    (rw next (Live-append (take i container.head) e.0 e.1 live alive))))
          ]) in
        let same : walk_at container.head i prev ≡ inside_at i prev = rw within refl in
        subst (λ it. Returns Ends (clear_scan (suc fuel) container it it_end)) (sym same) turn
  ]

module _ {D : Type 0} ⦃dl : Utlist (RplEventEl D)⦄ ⦃ut : Uthash DiLinkRef DiLink⦄ where
  -- The links and the queue after the loops.
  abbrev pub cleared : LinksState D → LinksState D
  cleared s = record {
    links = record (s.links) { head = kept s.links.head };
    head = s.head ++ deletions s.links.head;
  }

  cleared-Live : (s : LinksState D) → Live s.links.head → cleared s ≡ s
  cleared-Live s live =
      rw (kept-Live s.links.head live, deletions-Live {D = D} s.links.head live, append-nil s.head)
        refl

  -- After the first deprecated link is deleted.
  next_state : LinksState D → ℕ → DiLink → LinksState D
  next_state s i link = record {
    links = record (s.links) { head = remove_at s.links.head i };
    head = s.head ++ (deletion link ∷ []);
  }

  next_state-cleared :
      (s : LinksState D) (i : ℕ) (link : DiLink)
      → Removed s.links.head i link
      → cleared (next_state s i link) ≡ cleared s
  unfolding next_state
  next_state-cleared s i link r =
      rw
        (
          r.keeps,
          r.events,
          append_assoc s.head (deletion link ∷ []) (deletions (remove_at s.links.head i)),
        )
        refl

  scan-cleared :
      (fuel inner : ℕ) (s : LinksState D) (o : Scan)
      → ((t : LinksState D)
          → length t.links.head < fuel
          → length t.links.head < inner
          → clear_from fuel inner t ≡ some (cleared t))
      → length s.links.head < suc fuel
      → length s.links.head < inner
      → Ends s.links o
      → clear_scan inner s.links (hash_begin s.links) (hash_end s.links) ≡ some o
      → clear_from (suc fuel) inner s ≡ some (cleared s)
  unfolding clear_from rpl_event_link next_state
  scan-cleared fuel inner s none again h g live e = rw (e, cleared-Live s live) refl
  scan-cleared fuel inner s (some (c, link)) again h g (i, at, l, d) e =
      let removed = FirstAt-Removed s.links.head i at.key at.link at.here at.deprecated at.live in
      let shorter = removed.shorter in
      let later =
        again (next_state s i at.link) (omega (arith, shorter)) (omega (arith, shorter)) in
      rw
        (
          e,
          d,
          l,
          ut.hash_del_law s.links.head i at.inside,
          dl.dl_append_law s.head (deletion at.link),
        )
        (later ∙ ap some (next_state-cleared s i at.link removed))

  clear_from_total :
      (fuel inner : ℕ) (s : LinksState D)
      → length s.links.head < fuel
      → length s.links.head < inner
      → clear_from fuel inner s ≡ some (cleared s)
  clear_from_total zero inner s h g = ground arith
  clear_from_total (suc fuel) inner s h g =
      let end_at = before (length s.links.head) in
      let ends : Returns (Ends s.links)
          (clear_scan inner s.links (hash_begin s.links) (hash_end s.links)) =
        rw (first-walk_at s.links.head)
          (clear_scan-Ends s.links inner 0 null end_at (omega arith) (omega (arith, g)) _) in
      elim (Option-cases (clear_scan inner s.links (hash_begin s.links) (hash_end s.links))) [
        | inl fault ↦ absurd (rw fault at ends)
        | inr (o, e) ↦
            scan-cleared fuel inner s o (clear_from_total fuel inner) h g (rw e at ends) e
      ]

  -- Given more fuel than there are links, `links_clear_all_deprecated` returns. Then exactly the
  -- links that are not deprecated are left, in the order and with the contents they had, and the
  -- queue has in addition one deletion for each of the others, in order.
  pub links_clear_all_deprecated_total :
      (fuel : ℕ) (s : LinksState D)
      → length s.links.head < fuel
      → links_clear_all_deprecated fuel s ≡ some (cleared s)
  unfolding links_clear_all_deprecated
  links_clear_all_deprecated_total fuel s h = clear_from_total fuel fuel s h h
