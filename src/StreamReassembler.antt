-- ===== src/StreamReassembler.antt =====
-- libsponge/stream_reassembler.hh and stream_reassembler.cc: out-of-order, overlapping substrings
-- put together into an in-order byte stream.
pub mod Cells
pub mod Invariant
pub mod Store
pub mod Retrieve
pub mod Push
pub mod Stream
pub mod EarlyEnd
mod Tests
use csed353_sponge.Common.{
  ltb, leb, ◌==◌, if◌then◌else◌, add64, sub64, length, get_or, set, replicate, ℕ, suc, ◌+◌, Bool,
  true, false, ◌&&◌, List, [], ◌∷◌, ◌++◌,
}
use csed353_sponge.ByteStream
use csed353_sponge.ByteStream.{ByteStream}

pub record StreamReassembler : Type 0 where
  pub output : ByteStream
  pub capacity : ℕ
  pub unassembled_bytes : ℕ
  pub eof : Bool
  pub buffer : List ℕ
  pub state : List Bool

unfoldable pub init : ℕ → StreamReassembler
init capacity = record {
  output = ByteStream.init capacity;
  capacity = capacity;
  unassembled_bytes = 0;
  eof = false;
  buffer = replicate capacity b' ';
  state = replicate capacity false;
}

abbrev pub empty : StreamReassembler → Bool
empty r = r.unassembled_bytes == 0

-- The body of the first loop, at a buffer index inside the window.
pub place : ℕ → ℕ → StreamReassembler → StreamReassembler
place buffer_index byte r =
    let old = get_or r.state buffer_index false in
    record r {
      unassembled_bytes = if old then r.unassembled_bytes else add64 r.unassembled_bytes 1;
      buffer = set r.buffer buffer_index byte;
      state = if old then r.state else set r.state buffer_index true;
    }

-- The first loop. The list is `data` from `data_index` on; `continue` and `break` are the first
-- and the second test.
pub store : List ℕ → ℕ → ℕ → StreamReassembler → StreamReassembler
store [] data_index index r = r
store (byte ∷ bytes) data_index index r =
    let first_unassembled = r.output.bytes_written in
    let buffer_index = sub64 (add64 data_index index) first_unassembled in
    let skipped = store bytes (data_index + 1) index r in
    let placed = store bytes (data_index + 1) index (place buffer_index byte r) in
    if ltb (add64 data_index index) first_unassembled
    then skipped
    else if leb (ByteStream.remaining_capacity r.output) buffer_index
    then r
    else placed

-- The second loop: the bytes retrieved, and the two deques. `room` is
-- `remaining_capacity() - ret.length()`, which counts the rounds that are left. `front()` of an
-- empty deque, which C++ leaves undefined, is met only with a capacity of 0, where the model stops.
pub retrieve : ℕ → List ℕ → List Bool → List ℕ × List ℕ × List Bool
retrieve (suc room) (byte ∷ bytes) (true ∷ flags) =
    let (ret, buffer, state) = retrieve room (bytes ++ b' ' ∷ []) (flags ++ false ∷ []) in
    (byte ∷ ret, buffer, state)
retrieve _ buffer state = ([], buffer, state)

pub push_substring : List ℕ → ℕ → Bool → StreamReassembler → StreamReassembler
push_substring bytes index eof r =
    let in_window =
      leb (add64 index (length bytes)) (add64 r.output.bytes_read r.capacity) && eof in
    let seen = if in_window then true else r.eof in
    let stored = store bytes 0 index (record r { eof = seen }) in
    let (ret, buffer, state) =
      retrieve (ByteStream.remaining_capacity stored.output) stored.buffer stored.state in
    let (output, _) = ByteStream.write ret stored.output in
    let left = sub64 stored.unassembled_bytes (length ret) in
    record {
      output = if seen && left == 0 then ByteStream.end_input output else output;
      capacity = stored.capacity;
      unassembled_bytes = left;
      eof = seen;
      buffer = buffer;
      state = state;
    }
