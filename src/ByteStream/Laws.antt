-- ===== src/ByteStream/Laws.antt =====
-- The counters of a byte stream: what each operation does to them, and their invariant.
use csed353_sponge.Common.{
  length, take, drop, length-append, length-take, length-drop, take_all, drop_all, ℕ, ◌+◌, ◌-◌, ◌^◌,
  ◌≤◌, ◌<◌, min, ◌≡◌, refl, true, false, List, [], ◌++◌, arith,
}
use csed353_sponge.ByteStream.{
  ByteStream, init, buffer_size, remaining_capacity, available_output, write, peek_output,
  pop_output, read, end_input, set_error,
}

-- `written_fits`: fewer than 2^64 bytes go through a stream in its life.
pub record IsValid (s : ByteStream) : Type 0 where
  pub fits : length s.buffer ≤ s.capacity
  pub small : s.capacity < 2 ^ 63
  pub written_fits : s.bytes_written < 2 ^ 64
  pub counted : s.bytes_read + length s.buffer ≡ s.bytes_written

pub available_output-le : (s : ByteStream) (len : ℕ) → available_output s len ≤ buffer_size s
available_output-le s len = ground arith

pub available_output-eq :
    (s : ByteStream) (len : ℕ) → available_output s len ≡ min len (buffer_size s)
available_output-eq s len = ground arith

pub remaining_capacity-eq :
    {s : ByteStream} → IsValid s → remaining_capacity s ≡ s.capacity - length s.buffer
remaining_capacity-eq v = omega arith

pub init-IsValid : (capacity : ℕ) → capacity < 2 ^ 63 → IsValid (init capacity)
unfolding init
init-IsValid capacity h = omega arith

-- Every operation keeps the counters in step. For `write` the total must not pass 2^64.
pub write-IsValid :
    (bytes : List ℕ) {s : ByteStream}
    → IsValid s
    → s.bytes_written + length bytes < 2 ^ 64
    → IsValid (write bytes s).0
unfolding write
write-IsValid bytes {s} v h = grind (arith, length-append s.buffer, length-take)

pub pop_output-IsValid : (len : ℕ) {s : ByteStream} → IsValid s → IsValid (pop_output len s)
unfolding pop_output
pop_output-IsValid len {s} v = grind (arith, length-take, length-drop)

pub read-IsValid : (len : ℕ) {s : ByteStream} → IsValid s → IsValid (read len s).0
unfolding read
read-IsValid len {s} v = grind (arith, length-take, length-drop)

pub end_input-IsValid : {s : ByteStream} → IsValid s → IsValid (end_input s)
unfolding end_input
end_input-IsValid v = omega arith

pub set_error-IsValid : {s : ByteStream} → IsValid s → IsValid (set_error s)
unfolding set_error
set_error-IsValid v = omega arith

-- The operations of a valid stream, with no test and no wrap left.
pub write-eq :
    (bytes : List ℕ) {s : ByteStream}
    → IsValid s
    → s.bytes_written + length bytes < 2 ^ 64
    → let room = s.capacity - length s.buffer in
      write bytes s ≡ (
        record s {
          buffer = s.buffer ++ take room bytes;
          bytes_written = s.bytes_written + min (length bytes) room;
        },
        min (length bytes) room,
      )
unfolding write
write-eq bytes {s} v h =
    ground (arith, take_all (length bytes) bytes, take_all (s.capacity - length s.buffer) bytes)

pub peek_output-eq : (len : ℕ) (s : ByteStream) → peek_output len s ≡ take len s.buffer
unfolding peek_output
peek_output-eq len s = ground (arith, take_all len s.buffer, take_all (length s.buffer) s.buffer)

pub pop_output-eq :
    (len : ℕ) {s : ByteStream}
    → IsValid s
    → pop_output len s ≡ record s {
      buffer = drop len s.buffer;
      bytes_read = s.bytes_read + min len (length s.buffer);
    }
unfolding pop_output
pop_output-eq len {s} v = ground (
  arith,
  take_all (length s.buffer) (drop len s.buffer),
  take_all (length s.buffer) (drop (length s.buffer) s.buffer),
  drop_all len s.buffer,
  drop_all (length s.buffer) s.buffer,
  length-drop len s.buffer,
  length-drop (length s.buffer) s.buffer,
)

pub read-eq : (len : ℕ) (s : ByteStream) → read len s ≡ (pop_output len s, peek_output len s)
unfolding read pop_output peek_output
read-eq len s = refl

pub end_input-eq : (s : ByteStream) → end_input s ≡ record s { input_ended = true }
unfolding end_input
end_input-eq s = refl

pub set_error-eq : (s : ByteStream) → set_error s ≡ record s { error = true }
unfolding set_error
set_error-eq s = refl

pub init-capacity : (capacity : ℕ) → (init capacity).capacity ≡ capacity
unfolding init
init-capacity capacity = refl

-- A write that fits is taken whole.
pub write_all :
    (bytes : List ℕ) {s : ByteStream}
    → IsValid s
    → s.bytes_written + length bytes < 2 ^ 64
    → length bytes ≤ s.capacity - length s.buffer
    → write bytes s ≡ (
      record s { buffer = s.buffer ++ bytes; bytes_written = s.bytes_written + length bytes },
      length bytes,
    )
write_all bytes {s} v h fit =
    ground (arith, write-eq bytes v h, take_all (s.capacity - length s.buffer) bytes fit)

pub init-eq :
    (capacity : ℕ)
    → init capacity ≡ record {
      capacity = capacity;
      bytes_written = 0;
      bytes_read = 0;
      input_ended = false;
      buffer = [];
      error = false;
    }
unfolding init
init-eq capacity = refl

pub read-init :
    (capacity : ℕ)
    → let s : ByteStream = record {
      capacity = capacity;
      bytes_written = 0;
      bytes_read = 0;
      input_ended = false;
      buffer = [];
      error = false;
    } in
      read 0 s ≡ (s, [])
unfolding read
read-init capacity = refl
