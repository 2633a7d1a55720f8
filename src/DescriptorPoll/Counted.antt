-- ===== src/DescriptorPoll/Counted.antt =====
-- The counter `poll_number` of src/descriptor_poll.c.
use foren6_analyzer.Prelude.{
  ℕ, zero, suc, ◌+◌, ◌-◌, Bool, true, false, List, [], ◌∷◌, Option, none, some, ◌==◌, if◌then◌else◌,
  ◌≡◌, refl, sym, ap, subst, ◌∙◌, some_injective, none_ne_some, arith,
}
use foren6_analyzer.DescriptorPoll.{
  DescPollInfo, DescPoll, slot, set_slot, Found, empty_at, same_at, past_end, next, find_add,
  add_at, desc_poll_add, find_del, del_at, desc_poll_del, run_slot, run_from, selected, read_set,
  max_fd, fd_isset, select_fd_num, desc_poll_process_events,
}

abbrev pub used : {A : Type 0} → List (Option A) → ℕ
used [] = 0
used (none ∷ slots) = used slots
used (some x ∷ slots) = used slots + 1

minus_one : {a u : ℕ} (v : ℕ) → a ≡ u → v + 1 ≡ u → a - 1 ≡ v
minus_one v e f = omega arith

module _ {C U : Type 0} where
  -- The counter is the number of slots in use.
  abbrev pub Counted : DescPoll C U → Type 0
  Counted s = s.poll_number ≡ used s.poll_data

  -- What a loop that returns an index promises of the table.
  abbrev At : List (Option (DescPollInfo C U)) → Found → Type 0
  At slots (empty_at i) = (x : DescPollInfo C U) → used (set_slot slots i (some x)) ≡ used slots + 1
  At slots (same_at i) =
      ((x : DescPollInfo C U) → used (set_slot slots i (some x)) ≡ used slots)
      × (used (set_slot slots i none) + 1 ≡ used slots)
  At slots past_end = Unit {0}

  next-At :
      (slots : List (Option (DescPollInfo C U))) (x : Option (DescPollInfo C U)) (f : Found)
      → At slots f
      → At (x ∷ slots) (next f)
  next-At slots none (empty_at i) h = h
  next-At slots (some y) (empty_at i) h = λ x. ap (λ n. n + 1) (h x)
  next-At slots none (same_at i) h = h
  next-At slots (some y) (same_at i) h = (λ x. ap (λ n. n + 1) (h.0 x), ap (λ n. n + 1) (h.1))
  next-At slots x past_end h = tt

  found-At :
      (slots : List (Option (DescPollInfo C U))) (info : DescPollInfo C U) (same : Bool) (f : Found)
      → At slots f
      → At (some info ∷ slots) (if same then same_at 0 else next f)
  found-At slots info true f h = (λ x. refl, refl)
  found-At slots info false f h = next-At slots (some info) f h

  find_add-At : (fd : ℕ) (slots : List (Option (DescPollInfo C U))) → At slots (find_add fd slots)
  unfolding find_add
  find_add-At fd [] = tt
  find_add-At fd (none ∷ slots) = λ x. refl
  find_add-At fd (some info ∷ slots) =
      found-At slots info (info.fd == fd) (find_add fd slots) (find_add-At fd slots)

  find_del-At : (fd : ℕ) (slots : List (Option (DescPollInfo C U))) → At slots (find_del fd slots)
  unfolding find_del
  find_del-At fd [] = tt
  find_del-At fd (none ∷ slots) = next-At slots none (find_del fd slots) (find_del-At fd slots)
  find_del-At fd (some info ∷ slots) =
      found-At slots info (info.fd == fd) (find_del fd slots) (find_del-At fd slots)

  add_at-Counted :
      (f : Found) (x : DescPollInfo C U) (s : DescPoll C U)
      → At s.poll_data f
      → Counted s
      → Counted ((add_at f x s).1)
  add_at-Counted (empty_at i) x s h c = ap (λ n. n + 1) c ∙ sym (h x)
  add_at-Counted (same_at i) x s h c = c ∙ sym (h.0 x)
  add_at-Counted past_end x s h c = c

  -- `desc_poll_add` keeps `poll_number` the number of slots in use, also where the table is full.
  pub desc_poll_add-Counted :
      (fd : ℕ) (callback : C) (user_data : U) (s : DescPoll C U)
      → Counted s
      → Counted ((desc_poll_add fd callback user_data s).1)
  unfolding desc_poll_add
  desc_poll_add-Counted fd callback user_data s =
      add_at-Counted (find_add fd s.poll_data) _ s (find_add-At fd s.poll_data)

  del_at-Counted :
      (f : Found) (s : DescPoll C U)
      → At s.poll_data f
      → Counted s
      → (t : DescPoll C U) → del_at f s ≡ some t
      → Counted t
  del_at-Counted (empty_at i) s h c t e = subst Counted (some_injective e) c
  del_at-Counted (same_at i) s h c t e = subst Counted (some_injective e) (minus_one _ c (h.1))
  del_at-Counted past_end s h c t e = absurd (none_ne_some e)

  -- `desc_poll_del` keeps `poll_number` the number of slots in use, where it reads no slot past the
  -- end of the table.
  pub desc_poll_del-Counted :
      (fd : ℕ) (s t : DescPoll C U) → Counted s → desc_poll_del fd s ≡ some t → Counted t
  unfolding desc_poll_del
  desc_poll_del-Counted fd s t c =
      del_at-Counted (find_del fd s.poll_data) s (find_del-At fd s.poll_data) c t

Counted-if :
    {C U : Type 0} (s t : DescPoll C U) (b : Bool)
    → Counted s
    → Counted t
    → Counted (if b then s else t)
Counted-if s t true h k = h
Counted-if s t false h k = k

-- The callbacks may be any that keep the counter.
module _ {C U : Type 0} (run : C → ℕ → U → DescPoll C U → DescPoll C U) where
  abbrev pub KeepsCounted : Type 0
  KeepsCounted =
      (callback : C) (fd : ℕ) (user_data : U) (s : DescPoll C U)
      → Counted s
      → Counted (run callback fd user_data s)

  run_slot-Counted :
      (ready : List ℕ) (info : Option (DescPollInfo C U)) (s : DescPoll C U)
      → KeepsCounted
      → Counted s
      → Counted (run_slot run ready info s)
  run_slot-Counted ready none s keeps c = c
  run_slot-Counted ready (some info) s keeps c =
      Counted-if _ _ (fd_isset info.fd ready) (keeps info.callback info.fd info.user_data s c) c

  run_from-Counted :
      (count i : ℕ) (ready : List ℕ) (s : DescPoll C U)
      → KeepsCounted
      → Counted s
      → Counted (run_from run count i ready s)
  unfolding run_from
  run_from-Counted zero i ready s keeps c = c
  run_from-Counted (suc count) i ready s keeps c =
      run_from-Counted count (suc i) ready (run_slot run ready (slot s.poll_data i) s) keeps
        (run_slot-Counted ready (slot s.poll_data i) s keeps c)

  selected-Counted :
      (ready : Option (List ℕ)) (s : DescPoll C U)
      → KeepsCounted
      → Counted s
      → Counted (selected run ready s)
  selected-Counted none s keeps c = c
  selected-Counted (some []) s keeps c = c
  selected-Counted (some (fd ∷ fds)) s keeps c =
      let after = run_from-Counted select_fd_num 0 (fd ∷ fds) s keeps c in
      Counted-if _ _ (fd_isset (run_from run select_fd_num 0 (fd ∷ fds) s).abort_fd (fd ∷ fds))
        after after

  -- One turn of the polling thread keeps `poll_number` the number of slots in use, if each callback
  -- does, whatever `select` returns.
  pub process_events-Counted :
      (select : ℕ → List ℕ → Option (List ℕ)) (s : DescPoll C U)
      → KeepsCounted
      → Counted s
      → Counted (desc_poll_process_events run select s)
  unfolding desc_poll_process_events
  process_events-Counted select s keeps c =
      let fds = read_set s.poll_data in
      let ready = select (max_fd (max_fd 0 fds) (s.abort_fd ∷ [])) (s.abort_fd ∷ fds) in
      Counted-if _ _ (max_fd 0 fds == 0) c (selected-Counted ready s keeps c)
