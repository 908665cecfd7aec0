-- ===== src/TcpSender.antt =====
-- libsponge/tcp_sender.hh and tcp_sender.cc: the sending half of a TCP endpoint, with its
-- retransmission timer.
pub mod Sent
pub mod Loop
pub mod Fill
pub mod Invariant
pub mod Timer
pub mod Window
pub mod Start
mod Tests
use csed353_sponge.Common.{
  ltb, leb, ◌==◌, if◌then◌else◌, to_ℕ, add64, sub64, to_u16, length, ℕ, zero, suc, ◌+◌, ◌*◌, ◌/◌,
  ◌%◌, ◌^◌, min, max, Bool, true, false, not, ◌&&◌, ◌||◌, Option, none, some, List, [], ◌∷◌, ◌++◌,
}
use csed353_sponge.ByteStream
use csed353_sponge.ByteStream.{ByteStream}
use csed353_sponge.WrappingIntegers.{WrappingInt32, wrap, unwrap}
use csed353_sponge.TcpConfig.{max_payload_size}
use csed353_sponge.TcpHeader.{new_header}
use csed353_sponge.TcpSegment.{TcpSegment, new_segment, length_in_sequence_space}

pub record TcpSender : Type 0 where
  pub isn : WrappingInt32
  pub window_size : ℕ
  pub receiver_window_size : ℕ
  pub segments_out : List TcpSegment
  pub outstanding_segments : List TcpSegment
  pub is_timer_on : Bool
  pub initial_retransmission_timeout : ℕ
  pub retransmission_timeout : ℕ
  pub timer_elapsed : ℕ
  pub consecutive_retransmissions : ℕ
  pub stream : ByteStream
  pub fin : Bool
  pub current_seqno : ℕ
  pub next_seqno : ℕ

-- `random` is the number that `std::random_device` yields, used if no number is fixed.
unfoldable pub init : ℕ → ℕ → Option WrappingInt32 → ℕ → TcpSender
init capacity retx_timeout fixed_isn random = record {
  isn = elim fixed_isn [ some isn ↦ isn | none ↦ record { raw_value = random } ];
  window_size = 1;
  receiver_window_size = 1;
  segments_out = [];
  outstanding_segments = [];
  is_timer_on = false;
  initial_retransmission_timeout = retx_timeout;
  retransmission_timeout = retx_timeout;
  timer_elapsed = 0;
  consecutive_retransmissions = 0;
  stream = ByteStream.init capacity;
  fin = false;
  current_seqno = 0;
  next_seqno = 0;
}

abbrev pub bytes_in_flight : TcpSender → ℕ
bytes_in_flight s = sub64 s.next_seqno s.current_seqno

-- The locals of `fill_window`.
abbrev pub has_syn : TcpSender → Bool
has_syn s = s.next_seqno == 0

abbrev pub has_fin : TcpSender → Bool
has_fin s = s.stream.input_ended && not s.fin

abbrev pub total_window_size : TcpSender → ℕ
total_window_size s =
    add64 (add64 (to_ℕ (has_syn s)) (ByteStream.buffer_size s.stream)) (to_ℕ (has_fin s))

abbrev pub reach_fin : TcpSender → Bool
reach_fin s = has_fin s && leb (total_window_size s) s.window_size

abbrev pub actual_payload_size : TcpSender → ℕ
actual_payload_size s =
    let actual_window_size = min (total_window_size s) s.window_size in
    sub64 (sub64 actual_window_size (to_ℕ (has_syn s))) (to_ℕ (reach_fin s))

abbrev pub num_segments : TcpSender → ℕ
num_segments s =
    max (sub64 (add64 (actual_payload_size s) max_payload_size) 1 / max_payload_size)
      (to_ℕ (has_syn s || reach_fin s))

-- The body of the loop, with the flags and the payload size of this round.
pub send_segment : Bool → Bool → ℕ → TcpSender → TcpSender
send_segment syn fin size s =
    let (stream, bytes) = ByteStream.read size s.stream in
    let segment : TcpSegment = record {
      header = record new_header { syn = syn; fin = fin; seqno = wrap s.next_seqno s.isn };
      payload = bytes;
    } in
    let len = length_in_sequence_space segment in
    record s {
      stream = stream;
      next_seqno = add64 s.next_seqno len;
      window_size = to_u16 (sub64 s.window_size len);
      segments_out = s.segments_out ++ segment ∷ [];
      outstanding_segments = s.outstanding_segments ++ segment ∷ [];
      fin = s.fin || fin;
      is_timer_on = true;
      retransmission_timeout =
          if s.is_timer_on then s.retransmission_timeout else s.initial_retransmission_timeout;
      timer_elapsed = if s.is_timer_on then s.timer_elapsed else 0;
      consecutive_retransmissions = if s.is_timer_on then s.consecutive_retransmissions else 0;
    }

-- The loop, on the rounds that are left. `num`, `payload`, `syn` and `fin` are `num_segments`,
-- `actual_payload_size`, `has_syn` and `reach_fin`.
pub send_segments : ℕ → ℕ → ℕ → ℕ → Bool → Bool → TcpSender → TcpSender
send_segments zero index num payload syn fin s = s
send_segments (suc rounds) index num payload syn fin s =
    let is_last = index == sub64 num 1 in
    let size = if is_last then sub64 payload (max_payload_size * index) else max_payload_size in
    send_segments rounds (index + 1) num payload syn fin
      (send_segment (index == 0 && syn) (is_last && fin) size s)

pub fill_window : TcpSender → TcpSender
fill_window s =
    send_segments (num_segments s) 0 (num_segments s) (actual_payload_size s) (has_syn s)
      (reach_fin s) s

-- The loop of `ack_received` over the outstanding segments.
pub pop_acked : List TcpSegment → TcpSender → TcpSender
pop_acked [] s = s
pop_acked (segment ∷ segments) s =
    let end =
      add64 (unwrap segment.header.seqno s.isn s.next_seqno) (length_in_sequence_space segment) in
    if ltb s.current_seqno end
    then s
    else pop_acked segments (record s {
      retransmission_timeout = s.initial_retransmission_timeout;
      consecutive_retransmissions = 0;
      timer_elapsed = 0;
      outstanding_segments = segments;
    })

-- The last statement of `ack_received`.
pub stop_timer : TcpSender → TcpSender
stop_timer s = if length s.outstanding_segments == 0 then record s { is_timer_on = false } else s

-- What `ack_received` notes of an acknowledgment that it accepts: the number, the peer's window,
-- and its own estimate of the window.
abbrev pub note_ack : ℕ → ℕ → TcpSender → TcpSender
note_ack absolute_ackno win s =
    let current = max s.current_seqno absolute_ackno in
    record s {
      current_seqno = current;
      receiver_window_size = win;
      window_size = to_u16 (max (sub64 (max win 1) (sub64 s.next_seqno current)) 0);
    }

pub ack_received : WrappingInt32 → ℕ → TcpSender → TcpSender
ack_received ackno win s =
    let absolute_ackno = unwrap ackno s.isn s.next_seqno in
    let noted = note_ack absolute_ackno win s in
    if leb absolute_ackno s.next_seqno
    then if not s.is_timer_on
      then noted
      else stop_timer (fill_window (pop_acked noted.outstanding_segments noted))
    else stop_timer s

-- `front()` of the outstanding segments. `Timer` shows that there is one while the timer runs.
abbrev pub front : List TcpSegment → TcpSegment
front [] = new_segment
front (segment ∷ segments) = segment

unfoldable pub tick : ℕ → TcpSender → TcpSender
tick ms_since_last_tick s =
    let elapsed = add64 s.timer_elapsed ms_since_last_tick in
    let backs_off = ltb 0 s.receiver_window_size in
    if not s.is_timer_on
    then s
    else if leb s.retransmission_timeout elapsed
    then record s {
      segments_out = s.segments_out ++ front s.outstanding_segments ∷ [];
      consecutive_retransmissions =
          if backs_off
          then add64 s.consecutive_retransmissions 1
          else s.consecutive_retransmissions;
      retransmission_timeout =
          if backs_off then s.retransmission_timeout * 2 % 2 ^ 32 else s.retransmission_timeout;
      timer_elapsed = 0;
    }
    else record s { timer_elapsed = elapsed }

pub send_empty_segment : TcpSender → TcpSender
send_empty_segment s =
    let segment : TcpSegment = record {
      header = record new_header { seqno = wrap s.next_seqno s.isn };
      payload = [];
    } in
    record s { segments_out = s.segments_out ++ segment ∷ [] }
