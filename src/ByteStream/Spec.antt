-- ===== src/ByteStream/Spec.antt =====
-- What a byte stream promises its writer and reader: the bytes come out in the order in which they
-- were accepted, none lost and none made up. The abstract stream keeps the whole history.
pub mod Refine
use csed353_sponge.Common.{
  length, take, drop, ℕ, ◌+◌, ◌-◌, min, ◌≡◌, Bool, true, List, [], ◌∷◌, ◌++◌,
}
use csed353_sponge.ByteStream
use csed353_sponge.ByteStream.{ByteStream}
use csed353_sponge.ByteStream.Laws.{IsValid}

-- `written`: every byte ever accepted. `taken`: how many of them have been popped.
pub record History : Type 0 where
  pub capacity : ℕ
  pub written : List ℕ
  pub taken : ℕ
  pub ended : Bool

pub data Call : Type 0 where
  write : List ℕ → Call
  peek_output pop_output read : ℕ → Call
  end_input set_error : Call

pub data Reply : Type 0 where
  count : ℕ → Reply
  bytes : List ℕ → Reply
  done : Reply

-- The calls on the modelled class.
pub step : Call → ByteStream → ByteStream × Reply
step (write xs) s = let (t, n) = ByteStream.write xs s in (t, count n)
step (peek_output len) s = (s, bytes (ByteStream.peek_output len s))
step (pop_output len) s = (ByteStream.pop_output len s, done)
step (read len) s = let (t, xs) = ByteStream.read len s in (t, bytes xs)
step end_input s = (ByteStream.end_input s, done)
step set_error s = (ByteStream.set_error s, done)

pub run : List Call → ByteStream → List Reply
run [] s = []
run (c ∷ cs) s = let (t, r) = step c s in r ∷ run cs t

-- The same calls on the history.
abbrev pub pending : History → List ℕ
pending h = drop h.taken h.written

abbrev pub room : History → ℕ
room h = h.capacity - length (pending h)

pub spec_step : Call → History → History × Reply
spec_step (write xs) h =
    (record h { written = h.written ++ take (room h) xs }, count (min (length xs) (room h)))
spec_step (peek_output len) h = (h, bytes (take len (pending h)))
spec_step (pop_output len) h = (record h { taken = h.taken + min len (length (pending h)) }, done)
spec_step (read len) h =
    (record h { taken = h.taken + min len (length (pending h)) }, bytes (take len (pending h)))
spec_step end_input h = (record h { ended = true }, done)
spec_step set_error h = (h, done)

pub spec_run : List Call → History → List Reply
spec_run [] h = []
spec_run (c ∷ cs) h = let (k, r) = spec_step c h in r ∷ spec_run cs k

-- The bytes that a sequence of calls offers to the stream.
abbrev pub offered : List Call → ℕ
offered [] = 0
offered (write xs ∷ cs) = length xs + offered cs
offered (c ∷ cs) = offered cs

pub record Represents (h : History) (s : ByteStream) : Type 0 where
  pub valid : IsValid s
  pub same_capacity : s.capacity ≡ h.capacity
  pub held : s.buffer ≡ pending h
  pub total : s.bytes_written ≡ length h.written
  pub popped : s.bytes_read ≡ h.taken
  pub same_ended : s.input_ended ≡ h.ended
