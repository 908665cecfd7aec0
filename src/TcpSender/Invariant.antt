-- ===== src/TcpSender/Invariant.antt =====
-- The invariant of a sender between two calls.
pub mod Kept
pub mod Steps
pub mod Popped
pub mod Ack
use csed353_sponge.Common.{
  ◌==◌, to_ℕ, length, ℕ, ◌+◌, ◌^◌, ◌≤◌, ◌<◌, ◌≡◌, refl, not, Option, none, some, [], arith,
}
use csed353_sponge.ByteStream.Laws
use csed353_sponge.WrappingIntegers.{WrappingInt32, IsU32}
use csed353_sponge.TcpSegment.{TcpSegment, length_in_sequence_space}
use csed353_sponge.TcpSender.{TcpSender, init}
use csed353_sponge.TcpSender.Sent.{Chain}
use csed353_sponge.TcpSender.Loop.{Valid}
use csed353_sponge.TcpSender.Fill.{SynFits}

-- `oldest` is the absolute number of the first outstanding segment, or the next number if none is.
-- `accounted`: the numbers used are those of the SYN, of the bytes read from the stream, and of the
-- FIN. `total`: fewer than 2^63 bytes are ever written.
pub record Core (s : TcpSender) : Type 0 where
  pub stream : Laws.IsValid s.stream
  pub total : s.stream.bytes_written < 2 ^ 63
  pub isn : IsU32 s.isn
  pub window : s.window_size < 2 ^ 16
  pub syn_fits : SynFits s
  pub accounted : s.next_seqno ≡ to_ℕ (not (s.next_seqno == 0)) + s.stream.bytes_read + to_ℕ s.fin
  pub acked : s.current_seqno ≤ s.next_seqno
  pub oldest : ℕ
  pub oldest_le : oldest ≤ s.current_seqno
  pub flight : Chain s.isn oldest s.outstanding_segments s.next_seqno

-- The timer runs exactly while a segment is outstanding.
abbrev pub TimerFits : TcpSender → Type 0
TimerFits s = s.is_timer_on ≡ not (length s.outstanding_segments == 0)

pub record IsValid (s : TcpSender) : Type 0 where
  pub core : Core s
  pub timer : TimerFits s

pub Core-Valid : {s : TcpSender} → Core s → Valid s
Core-Valid {s} c =
    (c.stream, c.window, ground (arith, c.accounted, c.total, c.stream.counted, c.window))

chosen_isn :
    (fixed_isn : Option WrappingInt32) (random : ℕ)
    → random < 2 ^ 32
    → ((w : WrappingInt32) → fixed_isn ≡ some w → IsU32 w)
    → IsU32 (elim fixed_isn [ some isn ↦ isn | none ↦ record { raw_value = random } ])
chosen_isn none random r f = r
chosen_isn (some w) random r f = f w refl

pub init-IsValid :
    (capacity retx_timeout random : ℕ) (fixed_isn : Option WrappingInt32)
    → capacity < 2 ^ 63
    → random < 2 ^ 32
    → ((w : WrappingInt32) → fixed_isn ≡ some w → IsU32 w)
    → IsValid (init capacity retx_timeout fixed_isn random)
unfolding init
init-IsValid capacity retx_timeout random fixed_isn h r f = rw (Laws.init-eq capacity) (record {
  core = record {
    stream = omega arith;
    total = omega arith;
    isn = chosen_isn fixed_isn random r f;
    window = omega arith;
    syn_fits = λ e. omega arith;
    accounted = omega arith;
    acked = omega arith;
    oldest = 0;
    oldest_le = omega arith;
    flight = refl;
  };
  timer = ground arith;
})

pub init-queue :
    (capacity retx_timeout random : ℕ) (fixed_isn : Option WrappingInt32)
    → (init capacity retx_timeout fixed_isn random).segments_out ≡ []
unfolding init
init-queue capacity retx_timeout random fixed_isn = refl
