-- ===== src/StreamCopy/Tests.antt =====
-- A run of apps/bidirectional_stream_copy.cc.
use csed353_sponge.Common.{
  OnSuccess, ℕ, ◌≡◌, refl, Bool, true, false, Option, none, some, List, [], ◌∷◌,
}
use csed353_sponge.FileDescriptor
use csed353_sponge.FileDescriptor.{write_from, new_descriptor}
use csed353_sponge.EventLoop.{
  dispatch, Rule, Polled, PollResult, Revents, ready, set_up, wait_next_event,
}
use csed353_sponge.Buffer.{views_remove_prefix}
use csed353_sponge.ByteStream
use csed353_sponge.StreamCopy.{
  Copy, new_pipe, new_copy, rules, copy_loop, read_input, write_socket, fill, drain, popped,
}
use csed353_sponge.StreamCopy.Whole.{IsCopy, copy_loop-IsCopy}

-- Three bytes come in on standard input, and the socket takes two.
abbrev start : Copy
start =
    new_copy new_descriptor (new_pipe (some (7 ∷ 8 ∷ 9 ∷ []) ∷ []) (some 2 ∷ [])) (new_pipe [] [])

abbrev idle : Revents
idle = record { poll_error = false; poll_hup = false; readable = false; writable = false }

abbrev input_ready : List (Polled Copy) → PollResult
input_ready polled = ready (record idle { readable = true } ∷ idle ∷ idle ∷ idle ∷ [])

abbrev socket_ready : List (Polled Copy) → PollResult
socket_ready polled = ready (idle ∷ record idle { writable = true } ∷ idle ∷ idle ∷ [])

abbrev outbound_bytes : Option (Copy × List (Rule Copy) × Bool) → List ℕ × List ℕ
outbound_bytes none = ([], [])
outbound_bytes (some (c, rs, ended)) = (c.outbound.given, c.outbound.stream.buffer)

copied :
    outbound_bytes (copy_loop (input_ready ∷ socket_ready ∷ []) rules start) ≡ (7 ∷ 8 ∷ [], 9 ∷ [])
unfolding copy_loop rules wait_next_event set_up dispatch read_input write_socket fill drain popped
    ByteStream.init ByteStream.write ByteStream.peek_output ByteStream.pop_output
    FileDescriptor.read write_from views_remove_prefix
copied = refl

copy_loop-IsCopy_example :
    OnSuccess (λ r. IsCopy r.0) (copy_loop (input_ready ∷ socket_ready ∷ []) rules start)
unfolding ByteStream.init
copy_loop-IsCopy_example = copy_loop-IsCopy (input_ready ∷ socket_ready ∷ []) start (refl, refl)
