-- ===== src/ByteStream.antt =====
-- libsponge/byte_stream.hh and byte_stream.cc: the flow-controlled in-memory byte stream.
-- A byte is only moved, never computed with, so it is any number.
pub mod Laws
pub mod Spec
pub mod Taken
mod Tests
use csed353_sponge.Common.{
  ltb, ◌==◌, if◌then◌else◌, add64, sub64, length, take, drop, ℕ, Bool, true, false, ◌&&◌, List, [],
  ◌++◌,
}

pub record ByteStream : Type 0 where
  pub capacity : ℕ
  pub bytes_written : ℕ
  pub bytes_read : ℕ
  pub input_ended : Bool
  pub buffer : List ℕ
  pub error : Bool

unfoldable pub init : ℕ → ByteStream
init capacity = record {
  capacity = capacity;
  bytes_written = 0;
  bytes_read = 0;
  input_ended = false;
  buffer = [];
  error = false;
}

-- `std::string::substr`. It throws for a position past the end: `Laws.available_output-le` shows
-- that no caller passes one.
abbrev pub substr : List ℕ → ℕ → ℕ → List ℕ
substr s pos n = take n (drop pos s)

abbrev pub buffer_size : ByteStream → ℕ
buffer_size s = length s.buffer

abbrev pub buffer_empty : ByteStream → Bool
buffer_empty s = length s.buffer == 0

abbrev pub eof : ByteStream → Bool
eof s = buffer_empty s && s.input_ended

abbrev pub remaining_capacity : ByteStream → ℕ
remaining_capacity s = sub64 s.capacity (buffer_size s)

abbrev pub available_output : ByteStream → ℕ → ℕ
available_output s len = if ltb (buffer_size s) len then buffer_size s else len

abbrev pop : ℕ → ByteStream → ByteStream
pop size s = record s {
  buffer = substr s.buffer size (buffer_size s);
  bytes_read = add64 s.bytes_read size;
}

abbrev peek : ℕ → ByteStream → List ℕ
peek size s = substr s.buffer 0 size

-- The new stream, and the number of bytes accepted.
unfoldable pub write : List ℕ → ByteStream → ByteStream × ℕ
write bytes s =
    let size =
      if ltb (remaining_capacity s) (length bytes) then remaining_capacity s else length bytes in
    (
      record s {
        buffer = s.buffer ++ substr bytes 0 size;
        bytes_written = add64 s.bytes_written size;
      },
      size,
    )

unfoldable pub peek_output : ℕ → ByteStream → List ℕ
peek_output len s = peek (available_output s len) s

unfoldable pub pop_output : ℕ → ByteStream → ByteStream
pop_output len s = pop (available_output s len) s

-- The new stream, and the bytes read.
unfoldable pub read : ℕ → ByteStream → ByteStream × List ℕ
read len s = let size = available_output s len in let bytes = peek size s in (pop size s, bytes)

unfoldable pub end_input : ByteStream → ByteStream
end_input s = record s { input_ended = true }

unfoldable pub set_error : ByteStream → ByteStream
set_error s = record s { error = true }
