-- ===== src/StreamReassembler/Push.antt =====
-- What `push_substring` promises: the bytes that it writes, and those that it keeps waiting.
pub mod Finish
pub mod Correct
pub mod Progress
use csed353_sponge.Common.{
  ltb, leb, ◌==◌, if◌then◌else◌, add64, length, get_or, ℕ, ◌+◌, ◌-◌, ◌^◌, ◌≤◌, ◌<◌, ◌≡◌, Bool, true,
  ◌&&◌, Option, none, some, List, ◌++◌,
}
use csed353_sponge.ByteStream
use csed353_sponge.ByteStream.{ByteStream}
use csed353_sponge.ByteStream.Laws
use csed353_sponge.ByteStream.Laws.{write_all}
use csed353_sponge.StreamReassembler.{StreamReassembler, store, retrieve, push_substring}
use csed353_sponge.StreamReassembler.Cells.{cell, count, count-le, cell-none}
use csed353_sponge.StreamReassembler.Invariant.{IsValid, IsSettled, room, held, held_past}
use csed353_sponge.StreamReassembler.Store.{Stored, store_lem}
use csed353_sponge.StreamReassembler.Retrieve.{Retrieved, retrieve_lem}

-- Indices and counters stay below 2^64.
abbrev pub Fits : List ℕ → ℕ → StreamReassembler → Type 0
Fits bytes index r = (index + length bytes < 2 ^ 64) × (r.output.bytes_read + r.capacity < 2 ^ 64)

-- The byte known for index `j` of the stream once the substring has come in: that of the substring
-- if it covers `j` inside the window, and else the one that waited before.
abbrev pub merged : List ℕ → ℕ → StreamReassembler → ℕ → Option ℕ
merged bytes index r j =
    if leb index j
      && ltb j (index + length bytes)
      && leb r.output.bytes_written j
      && ltb j (r.output.bytes_written + room r)
    then some (get_or bytes (j - index) 0)
    else held r j

-- The end has been announced by a substring that lies before the end of the window.
abbrev pub seen_eof : List ℕ → ℕ → Bool → StreamReassembler → Bool
seen_eof bytes index eof r =
    if leb (add64 index (length bytes)) (add64 r.output.bytes_read r.capacity) && eof
    then true
    else r.eof

-- What a call does: `written` is what it appends to the output, and `seen` says whether the end has
-- been announced.
pub record Pushed (bytes : List ℕ) (index : ℕ) (seen : Bool) (r t : StreamReassembler)
    (written : List ℕ) : Type 0 where
  pub valid : IsValid t
  pub settled : IsSettled t
  pub same_capacity : t.capacity ≡ r.capacity
  pub appended : t.output.buffer ≡ r.output.buffer ++ written
  pub advanced : t.output.bytes_written ≡ r.output.bytes_written + length written
  pub same_read : t.output.bytes_read ≡ r.output.bytes_read
  pub same_error : t.output.error ≡ r.output.error
  pub contiguous :
      (i : ℕ)
      → i < length written
      → merged bytes index r (r.output.bytes_written + i) ≡ some (get_or written i 0)
  pub maximal : merged bytes index r (r.output.bytes_written + length written) ≡ none
  pub waiting :
      (j : ℕ) → r.output.bytes_written + length written ≤ j → held t j ≡ merged bytes index r j
  pub noted : t.eof ≡ seen
  pub ended :
      t.output.input_ended
      ≡ (if seen && t.unassembled_bytes == 0 then true else r.output.input_ended)
