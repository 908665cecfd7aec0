-- ===== src/StreamCopy.antt =====
-- apps/bidirectional_stream_copy.cc: copying between standard input, a socket and standard output
-- over two byte streams, by four rules of an event loop.
pub mod Whole
mod Tests
use csed353_sponge.Common.{
  ltb, if◌then◌else◌, take, ℕ, min, Bool, true, false, not, ◌&&◌, ◌||◌, Option, none, some, List,
  [], ◌∷◌, ◌++◌,
}
use csed353_sponge.ByteStream
use csed353_sponge.ByteStream.{ByteStream}
use csed353_sponge.FileDescriptor
use csed353_sponge.FileDescriptor.{
  FileDescriptor, new_descriptor, shutdown_write, WriteResult, returned, failed, waiting,
}
use csed353_sponge.EventLoop.{in_, out, Rule, Polled, PollResult, is_exit, wait_next_event}

abbrev pub max_copy_length : ℕ
max_copy_length = 65536

abbrev pub buffer_size : ℕ
buffer_size = 1048576

-- One direction: its stream and its flag. The results that `read` and `writev` are still to return
-- for it come from outside; `taken` and `given` record the bytes that were read for it and written.
pub record Pipe : Type 0 where
  pub stream : ByteStream
  pub is_shutdown : Bool
  pub reads : List (Option (List ℕ))
  pub writes : List (Option ℕ)
  pub taken : List ℕ
  pub given : List ℕ

abbrev pub new_pipe : List (Option (List ℕ)) → List (Option ℕ) → Pipe
new_pipe reads writes = record {
  stream = ByteStream.init buffer_size;
  is_shutdown = false;
  reads = reads;
  writes = writes;
  taken = [];
  given = [];
}

-- The variables of the function.
pub record Copy : Type 0 where
  pub input : FileDescriptor
  pub output : FileDescriptor
  pub socket : FileDescriptor
  pub outbound : Pipe
  pub inbound : Pipe

abbrev pub new_copy : FileDescriptor → Pipe → Pipe → Copy
new_copy socket outbound inbound = record {
  input = new_descriptor;
  output = new_descriptor;
  socket = socket;
  outbound = outbound;
  inbound = inbound;
}

abbrev pub end_pipe : Pipe → Pipe
end_pipe p = record p { stream = ByteStream.end_input p.stream }

abbrev pub note_eof : FileDescriptor → Pipe → Pipe
note_eof fd p = if fd.eof then end_pipe p else p

-- The callbacks of rules 1 and 3: `none` is an exception, or that the results are used up.
pub fill : FileDescriptor → Pipe → Option (FileDescriptor × Pipe)
fill fd p = elim p.reads [
  | [] ↦ none
  | result ∷ results ↦
      elim (FileDescriptor.read (ByteStream.remaining_capacity p.stream) result fd) [
        | none ↦ none
        | some (after, bytes) ↦ some (
          after,
          note_eof after (record p {
            stream = (ByteStream.write bytes p.stream).0;
            reads = results;
            taken = p.taken ++ bytes;
          }),
        )
      ]
]

abbrev pub fill_interest : Pipe → Pipe → Bool
fill_interest p other =
    not p.stream.error && ltb 0 (ByteStream.remaining_capacity p.stream) && not other.stream.error

-- The first three lines of rules 2 and 4.
abbrev pub offered : Pipe → List ℕ
offered p = ByteStream.peek_output (min max_copy_length (ByteStream.buffer_size p.stream)) p.stream

pub popped : WriteResult → Pipe → Option (FileDescriptor × Pipe)
popped (returned fd bytes_written) p = some (
  fd,
  record p {
    stream = ByteStream.pop_output bytes_written p.stream;
    given = p.given ++ take bytes_written (offered p);
  },
)
popped failed p = none
popped waiting p = none

pub drain : FileDescriptor → Pipe → Option (FileDescriptor × Pipe)
drain fd p = elim p.writes [
  | [] ↦ none
  | result ∷ results ↦
      popped (FileDescriptor.write false (result ∷ []) (offered p ∷ []) fd)
        (record p { writes = results })
]

abbrev pub drain_interest : Pipe → Bool
drain_interest p =
    not (ByteStream.buffer_empty p.stream) || (ByteStream.eof p.stream && not p.is_shutdown)

-- Rule 1.
pub read_input : Copy → Option Copy
read_input c = elim (fill c.input c.outbound) [
  | none ↦ none
  | some (fd, p) ↦ some (record c { input = fd; outbound = p })
]

-- Rule 2.
abbrev pub shut_socket : FileDescriptor → Pipe → Copy → Copy
shut_socket fd p c =
    let shut = record c {
      socket = shutdown_write fd;
      outbound = record p { is_shutdown = true };
    } in
    if ByteStream.eof p.stream then shut else record c { socket = fd; outbound = p }

pub write_socket : Copy → Option Copy
write_socket c = elim (drain c.socket c.outbound) [
  | none ↦ none
  | some (fd, p) ↦ some (shut_socket fd p c)
]

-- Rule 3.
pub read_socket : Copy → Option Copy
read_socket c = elim (fill c.socket c.inbound) [
  | none ↦ none
  | some (fd, p) ↦ some (record c { socket = fd; inbound = p })
]

-- Rule 4.
abbrev pub close_output : FileDescriptor → Pipe → Copy → Copy
close_output fd p c =
    let shut = record c {
      output = FileDescriptor.close fd;
      inbound = record p { is_shutdown = true };
    } in
    if ByteStream.eof p.stream then shut else record c { output = fd; inbound = p }

pub write_output : Copy → Option Copy
write_output c = elim (drain c.output c.inbound) [
  | none ↦ none
  | some (fd, p) ↦ some (close_output fd p c)
]

-- What the rules do when they are cancelled.
abbrev pub end_outbound : Copy → Copy
end_outbound c = record c { outbound = end_pipe c.outbound }

abbrev pub end_inbound : Copy → Copy
end_inbound c = record c { inbound = end_pipe c.inbound }

pub rules : List (Rule Copy)
rules =
    record {
      fd = λ c. c.input;
      direction = in_;
      callback = read_input;
      interest = λ c. fill_interest c.outbound c.inbound;
      cancel = λ c. some (end_outbound c);
    }
    ∷ record {
      fd = λ c. c.socket;
      direction = out;
      callback = write_socket;
      interest = λ c. drain_interest c.outbound;
      cancel = λ c. some (end_outbound c);
    }
    ∷ record {
      fd = λ c. c.socket;
      direction = in_;
      callback = read_socket;
      interest = λ c. fill_interest c.inbound c.outbound;
      cancel = λ c. some (end_inbound c);
    }
    ∷ record {
      fd = λ c. c.output;
      direction = out;
      callback = write_output;
      interest = λ c. drain_interest c.inbound;
      cancel = λ c. some (end_inbound c);
    }
    ∷ []

-- The loop, for as many rounds as there are functions for what `poll` reports: the variables, the
-- rules that are left, and whether the function has returned. `none` is an exception.
pub copy_loop :
    List (List (Polled Copy) → PollResult)
    → List (Rule Copy)
    → Copy
    → Option (Copy × List (Rule Copy) × Bool)
copy_loop [] rs c = some (c, rs, false)
copy_loop (poll ∷ polls) rs c = elim (wait_next_event poll rs c) [
  | none ↦ none
  | some (d, left, ret) ↦
      let again = copy_loop polls left d in if is_exit ret then some (d, left, true) else again
]
