-- ===== src/StreamReassembler/Tests.antt =====
-- Concrete runs of the reassembler of libsponge/stream_reassembler.cc.
use csed353_sponge.Common.{
  length, get_or, take, get_or_default, ℕ, ◌+◌, ◌≤◌, ◌<◌, ◌≡◌, refl, true, false, List, [], ◌∷◌,
  ◌++◌, arith,
}
use csed353_sponge.ByteStream
use csed353_sponge.StreamReassembler.{
  StreamReassembler, init, push_substring, store, place, retrieve,
}
use csed353_sponge.StreamReassembler.Invariant.{IsValid}
use csed353_sponge.StreamReassembler.Push.{Pushed, seen_eof}
use csed353_sponge.StreamReassembler.Push.Correct.{push_substring_lem}
use csed353_sponge.StreamReassembler.Stream.{Event, arrive, consume, step, run, AreParts}
use csed353_sponge.StreamReassembler.Stream.Run.{run-prefix}
use csed353_sponge.StreamReassembler.Stream.End.{AreFinal, run_ended}

abbrev stream : List ℕ
stream = 10 ∷ 20 ∷ 30 ∷ []

-- The bytes come out of order and one at a time, and the reader takes some between.
abbrev events : List Event
events =
    arrive (30 ∷ []) 2 true ∷ arrive (10 ∷ []) 0 false ∷ consume 1 ∷ arrive (20 ∷ []) 1 false ∷ []

single :
    (b index : ℕ)
    → get_or stream index 0 ≡ b
    → (i : ℕ) → i < length (b ∷ [])
    → get_or (b ∷ []) i 0 ≡ get_or stream (index + i) 0
single b index e i h = ground (arith, e)

events-AreParts : AreParts stream events
events-AreParts = (
  (omega arith, single 30 2 refl),
  ((omega arith, single 10 0 refl), (tt, ((omega arith, single 20 1 refl), tt))),
)

run-prefix_example :
    let (r, delivered) = run events (init 8) in
    (delivered ++ r.output.buffer ≡ take r.output.bytes_written stream)
    × (r.output.bytes_written ≤ length stream)
    × IsValid r
run-prefix_example = run-prefix stream 8 events (omega arith) (omega arith) events-AreParts

events-AreFinal : AreFinal stream events
events-AreFinal = (
  (λ e. (refl, omega arith)),
  ((λ e. absurd (ground (arith, e))), (tt, ((λ e. absurd (ground (arith, e))), tt))),
)

events_ended : (run events (init 8)).0.output.input_ended ≡ true
unfolding run step init push_substring store place retrieve ByteStream.init ByteStream.write
    ByteStream.read ByteStream.end_input
events_ended = refl

run_ended_example : (run events (init 8)).1 ++ (run events (init 8)).0.output.buffer ≡ stream
run_ended_example =
    run_ended stream 8 events (omega arith) (omega arith) events-AreParts events-AreFinal
      events_ended

-- A reassembler with a window of four bytes, of which the third waits.
abbrev holding : StreamReassembler
holding = record {
  output = record {
    capacity = 4;
    bytes_written = 0;
    bytes_read = 0;
    input_ended = false;
    buffer = [];
    error = false;
  };
  capacity = 4;
  unassembled_bytes = 1;
  eof = false;
  buffer = 32 ∷ 32 ∷ 30 ∷ 32 ∷ [];
  state = false ∷ false ∷ true ∷ false ∷ [];
}

holding-IsValid : IsValid holding
holding-IsValid = record {
  out = omega arith;
  same_capacity = refl;
  len_buffer = refl;
  len_state = refl;
  counted = refl;
  windowed = λ i h. get_or_default holding.state i false h;
}

push_substring_lem_example :
    (written : List ℕ) × Pushed
      (10 ∷ 20 ∷ [])
      0
      (seen_eof (10 ∷ 20 ∷ []) 0 false holding)
      holding
      (push_substring (10 ∷ 20 ∷ []) 0 false holding)
      written
push_substring_lem_example =
    push_substring_lem (10 ∷ 20 ∷ []) 0 false holding-IsValid (omega arith, omega arith)

-- Nothing waits.
abbrev idle : StreamReassembler
idle = record holding { unassembled_bytes = 0; state = false ∷ false ∷ false ∷ false ∷ [] }

idle-IsValid : IsValid idle
idle-IsValid = record {
  out = omega arith;
  same_capacity = refl;
  len_buffer = refl;
  len_state = refl;
  counted = refl;
  windowed = λ i h. get_or_default idle.state i false h;
}
