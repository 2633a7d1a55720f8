-- ===== src/DescriptorPoll.antt =====
-- src/descriptor_poll.c: the table of the descriptors that are polled. A callback is of the type
-- `C` and its user data of the type `U`; a descriptor is not negative. The thread, its start and
-- end, signals and the lock are left out: an operation is modelled as it runs while it holds the
-- lock, and a callback, which runs without it, may change the table.
pub mod Counted
mod Tests
use foren6_analyzer.Prelude.{
  ℕ, zero, suc, ◌+◌, ◌-◌, Bool, true, false, List, [], ◌∷◌, ◌++◌, drop, Option, none, some, ltb,
  ◌==◌, if◌then◌else◌,
}

-- SELECT_FD_NUM
abbrev pub select_fd_num : ℕ
select_fd_num = 10

pub record DescPollInfo (C U : Type 0) : Type 0 where
  pub fd : ℕ
  pub callback : C
  pub user_data : U

-- `abort_fd` is `poll_abort_pipe[0]`, and `abort_pipe` holds the bytes that are in the pipe, which
-- is taken to have room for one more.
pub record DescPoll (C U : Type 0) : Type 0 where
  pub poll_data : List (Option (DescPollInfo C U))
  pub poll_number : ℕ
  pub abort_fd : ℕ
  pub abort_pipe : List ℕ

-- The slot at an index, `none` where it is empty or past the end.
abbrev pub slot : {A : Type 0} → List (Option A) → ℕ → Option A
slot [] i = none
slot (x ∷ xs) zero = x
slot (x ∷ xs) (suc i) = slot xs i

abbrev pub set_slot : {A : Type 0} → List (Option A) → ℕ → Option A → List (Option A)
set_slot [] i y = []
set_slot (x ∷ xs) zero y = y ∷ xs
set_slot (x ∷ xs) (suc i) y = x ∷ set_slot xs i y

-- Whether an index is found by a loop, and whether the slot there was empty.
pub data Found : Type 0 where
  empty_at : ℕ → Found
  same_at : ℕ → Found
  past_end : Found

abbrev pub next : Found → Found
next (empty_at i) = empty_at (suc i)
next (same_at i) = same_at (suc i)
next past_end = past_end

module _ {C U : Type 0} where
  -- The loop of `desc_poll_add`: the first slot that is empty or has the descriptor.
  unfoldable pub find_add : ℕ → List (Option (DescPollInfo C U)) → Found
  find_add fd [] = past_end
  find_add fd (none ∷ slots) = empty_at 0
  find_add fd (some info ∷ slots) =
      let rest = find_add fd slots in if info.fd == fd then same_at 0 else next rest

  -- The table at the end of the loop, and the result.
  abbrev pub add_at : Found → DescPollInfo C U → DescPoll C U → Bool × DescPoll C U
  add_at (empty_at i) data_new s = (
    true,
    record s {
      poll_data = set_slot s.poll_data i (some data_new);
      poll_number = s.poll_number + 1;
      abort_pipe = s.abort_pipe ++ (97 ∷ []);
    },
  )
  add_at (same_at i) data_new s =
      (true, record s { poll_data = set_slot s.poll_data i (some data_new) })
  add_at past_end data_new s = (false, s)

  unfoldable pub desc_poll_add : ℕ → C → U → DescPoll C U → Bool × DescPoll C U
  desc_poll_add fd callback user_data s =
      add_at (find_add fd s.poll_data)
        (record { fd = fd; callback = callback; user_data = user_data }) s

  -- The loop of `desc_poll_del`: the first slot that has the descriptor.
  unfoldable pub find_del : ℕ → List (Option (DescPollInfo C U)) → Found
  find_del fd [] = past_end
  find_del fd (none ∷ slots) = next (find_del fd slots)
  find_del fd (some info ∷ slots) =
      let rest = find_del fd slots in if info.fd == fd then same_at 0 else next rest

  -- The test after the loop reads `poll_data[i]` before it compares `i` with the size: where no slot
  -- has the descriptor it reads past the end of the table, which is `none`.
  abbrev pub del_at : Found → DescPoll C U → Option (DescPoll C U)
  del_at (empty_at i) s = some s
  del_at (same_at i) s = some (record s {
    poll_data = set_slot s.poll_data i none;
    poll_number = s.poll_number - 1;
    abort_pipe = s.abort_pipe ++ (100 ∷ []);
  })
  del_at past_end s = none

  unfoldable pub desc_poll_del : ℕ → DescPoll C U → Option (DescPoll C U)
  desc_poll_del fd s = del_at (find_del fd s.poll_data) s

  -- The first loop of `desc_poll_process_events`: the descriptors to read, and `maxfd + 1`.
  unfoldable pub read_set : List (Option (DescPollInfo C U)) → List ℕ
  read_set [] = []
  read_set (none ∷ slots) = read_set slots
  read_set (some info ∷ slots) = info.fd ∷ read_set slots

unfoldable pub max_fd : ℕ → List ℕ → ℕ
max_fd count [] = count
max_fd count (fd ∷ fds) = max_fd (if ltb count (fd + 1) then fd + 1 else count) fds

-- A set of descriptors is the list of its members.
abbrev pub fd_isset : ℕ → List ℕ → Bool
fd_isset fd [] = false
fd_isset fd (x ∷ xs) = let rest = fd_isset fd xs in if x == fd then true else rest

-- `run` is a callback with its descriptor and user data; `select` is given the bound and the
-- descriptors, and returns those that are ready, or `none` for -1.
module _ {C U : Type 0} (run : C → ℕ → U → DescPoll C U → DescPoll C U) where
  abbrev pub run_slot : List ℕ → Option (DescPollInfo C U) → DescPoll C U → DescPoll C U
  run_slot ready none s = s
  run_slot ready (some info) s =
      if fd_isset info.fd ready then run info.callback info.fd info.user_data s else s

  -- The second loop, for `count` slots from the slot `i`.
  unfoldable pub run_from : ℕ → ℕ → List ℕ → DescPoll C U → DescPoll C U
  run_from zero i ready s = s
  run_from (suc count) i ready s =
      run_from count (suc i) ready (run_slot ready (slot s.poll_data i) s)

  abbrev pub read_abort : List ℕ → DescPoll C U → DescPoll C U
  read_abort ready s =
      if fd_isset s.abort_fd ready then record s { abort_pipe = drop 1 s.abort_pipe } else s

  abbrev pub selected : Option (List ℕ) → DescPoll C U → DescPoll C U
  selected none s = s
  selected (some []) s = s
  selected (some (fd ∷ fds)) s = read_abort (fd ∷ fds) (run_from select_fd_num 0 (fd ∷ fds) s)

  unfoldable pub desc_poll_process_events :
      (ℕ → List ℕ → Option (List ℕ)) → DescPoll C U → DescPoll C U
  desc_poll_process_events select s =
      let fds = read_set s.poll_data in
      let count = max_fd 0 fds in
      if count == 0
      then s
      else selected (select (max_fd count (s.abort_fd ∷ [])) (s.abort_fd ∷ fds)) s
