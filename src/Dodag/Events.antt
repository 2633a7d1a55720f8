-- ===== src/Dodag/Events.antt =====
-- The events of a DODAG of src/data_info/dodag.c between two resets of its flag.
use foren6_analyzer.Prelude.{
  Bool, true, false, true_ne_false, not, ◌&&◌, Bool-cases, List, [], ◌∷◌, ◌++◌, append-nil,
  append_assoc, if◌then◌else◌, ◌≡◌, refl, sym, ap, ◌∙◌, inl, inr,
}
use foren6_analyzer.Utlist.{Utlist}
use foren6_analyzer.Refs.{DiDodagRef, same_dodag_ref, same_dodag_ref_iff}
use foren6_analyzer.RplEvent.{
  RplObject, RplEventEl, ret_updated, rot_node, rot_dodag, rot_link, rot_rpl_instance, rot_packet,
  rpl_event_dodag,
}
use foren6_analyzer.Dodag.{
  DiDodag, DodagState, dodag_set_changed, with_dodag_config, with_prefix_info,
}

module _ {D : Type 0} where
  abbrev pub is_about : DiDodagRef → RplObject D → Bool
  is_about ref (rot_dodag other) = same_dodag_ref other ref
  is_about ref (rot_node node) = false
  is_about ref (rot_link link) = false
  is_about ref (rot_rpl_instance rpl_instance) = false
  is_about ref (rot_packet id packet) = false

  -- The events of a DODAG among others.
  abbrev pub about : DiDodagRef → List (RplEventEl D) → List (RplEventEl D)
  about ref [] = []
  about ref (event ∷ events) =
      let rest = about ref events in if is_about ref event.object then event ∷ rest else rest

  about-append :
      (ref : DiDodagRef) (xs ys : List (RplEventEl D))
      → about ref (xs ++ ys) ≡ (about ref xs ++ about ref ys)
  about-append ref [] ys = refl
  about-append ref (event ∷ xs) ys = elim (Bool-cases (is_about ref event.object)) [
    | inl mine ↦ rw mine (ap (λ zs. event ∷ zs) (about-append ref xs ys))
    | inr other ↦ rw other (about-append ref xs ys)
  ]

  -- What joins the queue when the flag of a DODAG goes from `p` to `q`.
  abbrev pub alert : DiDodagRef → Bool → Bool → List (RplEventEl D)
  alert ref p q =
      if q && not p then record { type = ret_updated; object = rot_dodag ref } ∷ [] else []

  pub about-alert : (ref : DiDodagRef) (p q : Bool) → about ref (alert ref p q) ≡ alert ref p q
  about-alert ref true true = refl
  about-alert ref true false = refl
  about-alert ref false true = rw ((same_dodag_ref_iff ref ref).1 refl) refl
  about-alert ref false false = refl

  alert_trans :
      (ref : DiDodagRef) (p q r : Bool)
      → (p ≡ true → q ≡ true)
      → (q ≡ true → r ≡ true)
      → (alert ref p q ++ alert ref q r) ≡ alert ref p r
  alert_trans ref true true true f g = refl
  alert_trans ref true true false f g = absurd (true_ne_false (sym (g refl)))
  alert_trans ref true false r f g = absurd (true_ne_false (sym (f refl)))
  alert_trans ref false true true f g = refl
  alert_trans ref false true false f g = absurd (true_ne_false (sym (g refl)))
  alert_trans ref false false true f g = refl
  alert_trans ref false false false f g = refl

  -- The event that is due when the flag of the DODAG goes up.
  abbrev pub due : DodagState D → DodagState D → List (RplEventEl D)
  due s t = alert s.dodag.key.ref s.dodag.has_changed t.dodag.has_changed

  -- The key stays, the flag does not go down, and of the events that join the queue those of the
  -- DODAG are the one that is due.
  pub record Reported (s t : DodagState D) : Type 0 where
    pub key : t.dodag.key ≡ s.dodag.key
    pub stays : s.dodag.has_changed ≡ true → t.dodag.has_changed ≡ true
    pub more : List (RplEventEl D)
    pub queue : t.head ≡ (s.head ++ more)
    pub once : about s.dodag.key.ref more ≡ due s t

  -- A queue that others join.
  pub record Quiet (ref : DiDodagRef) (before after : List (RplEventEl D)) : Type 0 where
    pub more : List (RplEventEl D)
    pub queue : after ≡ (before ++ more)
    pub none_about : about ref more ≡ []

  pub Quiet-refl : (ref : DiDodagRef) (head : List (RplEventEl D)) → Quiet ref head head
  Quiet-refl ref head = record { more = []; queue = sym (append-nil head); none_about = refl }

  pub Quiet-trans :
      (ref : DiDodagRef) (a b c : List (RplEventEl D))
      → Quiet ref a b
      → Quiet ref b c
      → Quiet ref a c
  Quiet-trans ref a b c p q = record {
    more = p.more ++ q.more;
    queue = q.queue ∙ ap (λ zs. zs ++ q.more) p.queue ∙ append_assoc a p.more q.more;
    none_about = about-append ref p.more q.more ∙ rw (p.none_about, q.none_about) refl;
  }

  pub Quiet-append :
      ⦃dl : Utlist (RplEventEl D)⦄ (ref : DiDodagRef) (head : List (RplEventEl D))
      (event : RplEventEl D)
      → is_about ref event.object ≡ false
      → Quiet ref head (dl.dl_append head event)
  Quiet-append ⦃dl = dl⦄ ref head event other = record {
    more = event ∷ [];
    queue = dl.dl_append_law head event;
    none_about = rw other refl;
  }

  alert_same : (ref : DiDodagRef) (p : Bool) → alert ref p p ≡ []
  alert_same ref true = refl
  alert_same ref false = refl

  -- Other objects are reported, and other fields of the DODAG change.
  pub Quiet-Reported :
      (s t : DodagState D)
      → t.dodag.key ≡ s.dodag.key
      → t.dodag.has_changed ≡ s.dodag.has_changed
      → Quiet s.dodag.key.ref s.head t.head
      → Reported s t
  Quiet-Reported s t k c q = record {
    key = k;
    stays = λ e. c ∙ e;
    more = q.more;
    queue = q.queue;
    once = q.none_about ∙ sym (rw c (alert_same s.dodag.key.ref s.dodag.has_changed));
  }

  pub Reported-refl : (s : DodagState D) → Reported s s
  Reported-refl s = Quiet-Reported s s refl refl (Quiet-refl s.dodag.key.ref s.head)

  pub Reported-trans : (s t u : DodagState D) → Reported s t → Reported t u → Reported s u
  Reported-trans s t u a b = record {
    key = b.key ∙ a.key;
    stays = λ e. b.stays (a.stays e);
    more = a.more ++ b.more;
    queue = b.queue ∙ ap (λ zs. zs ++ b.more) a.queue ∙ append_assoc s.head a.more b.more;
    once =
        let second = rw a.key at b.once in
        about-append s.dodag.key.ref a.more b.more
        ∙ rw (a.once, second)
            (alert_trans s.dodag.key.ref s.dodag.has_changed t.dodag.has_changed u.dodag.has_changed
              a.stays b.stays);
  }

module _ {D : Type 0} ⦃dl : Utlist (RplEventEl D)⦄ where
  -- `dodag_set_changed` after assignments to other fields.
  pub set_changed-Reported :
      (s : DodagState D) (dodag : DiDodag)
      → dodag.key ≡ s.dodag.key
      → dodag.has_changed ≡ s.dodag.has_changed
      → Reported s (dodag_set_changed (record { dodag = dodag; head = s.head }))
  unfolding dodag_set_changed rpl_event_dodag
  set_changed-Reported s dodag k c = record {
    key = k;
    stays = λ e. refl;
    more = due s (dodag_set_changed (record { dodag = dodag; head = s.head }));
    queue = elim (Bool-cases s.dodag.has_changed) [
      | inl e ↦ rw (c, e, append-nil s.head) refl
      | inr e ↦ rw (c, e, k, dl.dl_append_law s.head _) refl
    ];
    once = about-alert s.dodag.key.ref s.dodag.has_changed true;
  }

  pub if-Reported :
      (b : Bool) (s t u : DodagState D)
      → Reported s t
      → Reported s u
      → Reported s (if b then t else u)
  if-Reported true s t u p q = p
  if-Reported false s t u p q = q

  pub with_config-Reported :
      (b : Bool) (s t : DodagState D) → Reported s t → Reported s (with_dodag_config b t)
  with_config-Reported b s t r = record {
    key = r.key;
    stays = r.stays;
    more = r.more;
    queue = r.queue;
    once = r.once;
  }

  pub with_prefix-Reported :
      (b : Bool) (s t : DodagState D) → Reported s t → Reported s (with_prefix_info b t)
  with_prefix-Reported b s t r = record {
    key = r.key;
    stays = r.stays;
    more = r.more;
    queue = r.queue;
    once = r.once;
  }
