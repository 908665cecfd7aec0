-- ===== src/StreamReassembler/Stream.antt =====
-- The reassembler between a sender of one byte stream and a reader. `stream` is all that the sender
-- ever sends; substrings of it arrive in any order, overlapping and repeated, and the reader takes
-- what is ready.
pub mod Arrive
pub mod Run
pub mod End
use csed353_sponge.Common.{
  length, get_or, take, ℕ, ◌+◌, ◌^◌, ◌≤◌, ◌<◌, ◌≡◌, Bool, some, List, [], ◌∷◌, ◌++◌,
}
use csed353_sponge.ByteStream
use csed353_sponge.ByteStream.Laws
use csed353_sponge.StreamReassembler.{StreamReassembler, init, push_substring}
use csed353_sponge.StreamReassembler.Invariant.{IsValid, IsSettled, room, held, init-IsValid}
use csed353_sponge.StreamReassembler.Push.{Fits, merged, seen_eof, Pushed}
use csed353_sponge.StreamReassembler.Push.Correct.{push_substring_lem}

pub data Event : Type 0 where
  arrive : List ℕ → ℕ → Bool → Event
  consume : ℕ → Event

-- The new state, and the bytes that the reader gets.
unfoldable pub step : Event → StreamReassembler → StreamReassembler × List ℕ
step (arrive bytes index eof) r = (push_substring bytes index eof r, [])
step (consume len) r =
    let (output, bytes) = ByteStream.read len r.output in (record r { output = output }, bytes)

unfoldable pub run : List Event → StreamReassembler → StreamReassembler × List ℕ
run [] r = (r, [])
run (e ∷ es) r = let (s, bytes) = step e r in let (t, more) = run es s in (t, bytes ++ more)

module _ (stream : List ℕ) where
  -- A substring of the stream, with the end announced only by one that reaches it.
  abbrev pub IsPart : Event → Type 0
  IsPart (arrive bytes index eof) =
      (index + length bytes ≤ length stream)
      × ((i : ℕ) → i < length bytes → get_or bytes i 0 ≡ get_or stream (index + i) 0)
  IsPart (consume len) = Unit {0}

  abbrev pub AreParts : List Event → Type 0
  AreParts [] = Unit {0}
  AreParts (e ∷ es) = IsPart e × AreParts es

  -- What has been delivered and what is ready are the beginning of the stream, and what waits is in
  -- its place.
  pub record Follows (r : StreamReassembler) (delivered : List ℕ) : Type 0 where
    pub valid : IsValid r
    pub read_count : r.output.bytes_read ≡ length delivered
    pub assembled : delivered ++ r.output.buffer ≡ take r.output.bytes_written stream
    pub within : r.output.bytes_written ≤ length stream
    pub in_place : (j b : ℕ) → held r j ≡ some b → (j < length stream) × (b ≡ get_or stream j 0)
    pub small : length stream + r.capacity < 2 ^ 64
