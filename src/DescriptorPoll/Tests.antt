-- ===== src/DescriptorPoll/Tests.antt =====
-- The table of src/descriptor_poll.c on concrete inputs.
use foren6_analyzer.Prelude.{ℕ, ◌+◌, true, [], ◌∷◌, none, some, ◌≡◌, refl}
use foren6_analyzer.DescriptorPoll.{
  DescPollInfo, DescPoll, find_add, desc_poll_add, find_del, desc_poll_del, read_set, max_fd,
  run_from, desc_poll_process_events,
}

abbrev empty : DescPoll ℕ ℕ
empty = record {
  poll_data = none ∷ none ∷ none ∷ none ∷ none ∷ none ∷ none ∷ none ∷ none ∷ none ∷ [];
  poll_number = 0;
  abort_fd = 3;
  abort_pipe = [];
}

abbrev info : ℕ → ℕ → DescPollInfo ℕ ℕ
info fd callback = record { fd = fd; callback = callback; user_data = 0 }

-- A table with one descriptor after a free slot.
abbrev gap : DescPoll ℕ ℕ
gap = record empty {
  poll_data = none ∷ some (info 8 1) ∷ none ∷ none ∷ none ∷ none ∷ none ∷ none ∷ none ∷ none ∷ [];
  poll_number = 1;
}

make_gap :
    (desc_poll_del 7 ((desc_poll_add 8 1 0 ((desc_poll_add 7 0 0 empty).1)).1))
    ≡ some (record gap { abort_pipe = 97 ∷ 97 ∷ 100 ∷ [] })
unfolding desc_poll_add find_add desc_poll_del find_del
make_gap = refl

-- The descriptor 8 is added again before its own slot, so that it is there twice.
add_twice : desc_poll_add 8 2 0 gap ≡ (
  true,
  record gap {
    poll_data =
        some (info 8 2)
        ∷ some (info 8 1)
        ∷ none
        ∷ none
        ∷ none
        ∷ none
        ∷ none
        ∷ none
        ∷ none
        ∷ none
        ∷ [];
    poll_number = 2;
    abort_pipe = 97 ∷ [];
  },
)
unfolding desc_poll_add find_add
add_twice = refl

-- The removal of a descriptor that is not there reads past the end of the table.
del_missing : desc_poll_del 5 gap ≡ none
unfolding desc_poll_del find_del
del_missing = refl

-- The callback 1 counts its calls in `poll_number`.
abbrev count_calls : ℕ → ℕ → ℕ → DescPoll ℕ ℕ → DescPoll ℕ ℕ
count_calls callback fd user_data s = record s { poll_number = s.poll_number + callback }

process_one :
    desc_poll_process_events count_calls (λ n fds. some fds) (record gap { abort_pipe = 97 ∷ [] })
    ≡ record gap { poll_number = 2 }
unfolding desc_poll_process_events read_set max_fd run_from
process_one = refl
