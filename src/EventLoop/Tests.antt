-- ===== src/EventLoop/Tests.antt =====
-- Runs of the event loop of libsponge/util/eventloop.cc.
use csed353_sponge.Common.{◌≡◌, refl, true, false, some, List, [], ◌∷◌}
use csed353_sponge.FileDescriptor.{FileDescriptor, new_descriptor, register_read}
use csed353_sponge.EventLoop.{
  in_, Rule, Polled, PollResult, failed, ready, success, set_up, wait_next_event,
}
use csed353_sponge.EventLoop.Rounds.{poll_failure_ignored}

-- The state is one descriptor, and the rule reads it.
abbrev reader : Rule FileDescriptor
reader = record {
  fd = λ fd. fd;
  direction = in_;
  callback = λ fd. some (register_read fd);
  interest = λ fd. true;
  cancel = λ fd. some fd;
}

abbrev readable : List (Polled FileDescriptor) → PollResult
readable polled =
    ready (record { poll_error = false; poll_hup = false; readable = true; writable = false } ∷ [])

served :
    wait_next_event readable (reader ∷ []) new_descriptor
    ≡ some (register_read new_descriptor, reader ∷ [], success)
unfolding wait_next_event csed353_sponge.EventLoop.dispatch set_up
served = refl

poll_failure_ignored_example :
    wait_next_event (λ _. failed) (reader ∷ []) new_descriptor
    ≡ some (new_descriptor, reader ∷ [], success)
unfolding set_up
poll_failure_ignored_example =
    poll_failure_ignored (λ _. failed) (reader ∷ []) new_descriptor new_descriptor
      ((reader, true) ∷ []) refl refl refl
