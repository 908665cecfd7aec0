-- ===== src/TcpSender/Tests.antt =====
-- Concrete states of the sender of libsponge/tcp_sender.cc.
use csed353_sponge.Common.{
  length, replicate, length-replicate, ℕ, ◌+◌, ◌^◌, ◌≤◌, min, max, ◌≡◌, refl, ◌⊎◌, true, false,
  List, [], ◌∷◌, ◌++◌, arith,
}
use csed353_sponge.WrappingIntegers.{WrappingInt32, wrap, unwrap}
use csed353_sponge.WrappingIntegers.Unwrap.{unwrap-wrap}
use csed353_sponge.TcpHeader.{new_header}
use csed353_sponge.TcpSegment.{TcpSegment}
use csed353_sponge.TcpSender.{
  TcpSender, has_syn, has_fin, actual_payload_size, bytes_in_flight, fill_window, pop_acked,
  ack_received,
}
use csed353_sponge.TcpSender.Sent.{Chain, Marked, Sent}
use csed353_sponge.TcpSender.Fill.{offered, fin_due, fill_window-Marked, fill_window_maximal}
use csed353_sponge.TcpSender.Invariant.{IsValid, Core, Core-Valid}
use csed353_sponge.TcpSender.Invariant.Popped.{FirstUnacked, pop_acked_lem}
use csed353_sponge.TcpSender.Invariant.Ack.{ack_received-IsValid}
use csed353_sponge.TcpSender.Timer.{timed_out, Waits, Retransmits, tick_lem}
use csed353_sponge.TcpSender.Window.{ack_received_overshoots}

abbrev isn : WrappingInt32
isn = record { raw_value = 17 }

abbrev segment : ℕ → List ℕ → TcpSegment
segment n payload = record { header = record new_header { seqno = wrap n isn }; payload = payload }

-- The SYN is acknowledged, and three bytes wait for a window of two.
abbrev waiting : TcpSender
waiting = record {
  isn = isn;
  window_size = 2;
  receiver_window_size = 2;
  segments_out = [];
  outstanding_segments = [];
  is_timer_on = false;
  initial_retransmission_timeout = 1000;
  retransmission_timeout = 1000;
  timer_elapsed = 0;
  consecutive_retransmissions = 0;
  stream = record {
    capacity = 8;
    bytes_written = 3;
    bytes_read = 0;
    input_ended = false;
    buffer = 1 ∷ 2 ∷ 3 ∷ [];
    error = false;
  };
  fin = false;
  current_seqno = 1;
  next_seqno = 1;
}

waiting-Core : Core waiting
waiting-Core = record {
  stream = omega arith;
  total = omega arith;
  isn = omega arith;
  window = omega arith;
  syn_fits = λ e. omega arith;
  accounted = refl;
  acked = omega arith;
  oldest = 1;
  oldest_le = omega arith;
  flight = refl;
}

fill_window-Marked_example :
    (new : List TcpSegment) × Sent
      (actual_payload_size waiting)
      (min (offered waiting) waiting.window_size)
      (fin_due waiting)
      new
      waiting
      (fill_window waiting)
    × Marked false (fin_due waiting) new
fill_window-Marked_example = fill_window-Marked waiting (Core-Valid waiting-Core) (λ e. omega arith)

fill_window_maximal_example :
    let t = fill_window waiting in
    (t.window_size ≡ 0) ⊎ ((t.stream.buffer ≡ []) × (has_fin t ≡ false) × (has_syn t ≡ false))
fill_window_maximal_example =
    fill_window_maximal waiting (Core-Valid waiting-Core) (λ e. omega arith)

-- Two segments are in flight, of two bytes and of one, and `buffer` waits.
abbrev flying : ℕ → List ℕ → TcpSender
flying current buffer = record waiting {
  window_size = 0;
  outstanding_segments = segment 1 (1 ∷ 2 ∷ []) ∷ segment 3 (3 ∷ []) ∷ [];
  is_timer_on = true;
  timer_elapsed = 900;
  stream = record {
    capacity = 70000;
    bytes_written = 3 + length buffer;
    bytes_read = 3;
    input_ended = false;
    buffer = buffer;
    error = false;
  };
  current_seqno = current;
  next_seqno = 4;
}

abbrev flying-Core :
    (current : ℕ) (buffer : List ℕ)
    → 1 ≤ current
    → current ≤ 4
    → length buffer ≤ 70000
    → Core (flying current buffer)
flying-Core current buffer h k l = record {
  stream = omega arith;
  total = omega arith;
  isn = omega arith;
  window = omega arith;
  syn_fits = λ e. omega arith;
  accounted = refl;
  acked = k;
  oldest = 1;
  oldest_le = h;
  flight = (refl, (refl, refl));
}

abbrev valid :
    (current : ℕ) (buffer : List ℕ)
    → 1 ≤ current
    → current ≤ 4
    → length buffer ≤ 70000
    → IsValid (flying current buffer)
valid current buffer h k l = record { core = flying-Core current buffer h k l; timer = refl }

pop_acked_lem_example :
    let s = flying 3 [] in
    let t = pop_acked s.outstanding_segments s in
    (done : List TcpSegment) × (upto : ℕ) × (done ++ t.outstanding_segments
      ≡ s.outstanding_segments)
    × Chain s.isn 1 done upto
    × (upto ≤ s.current_seqno)
    × FirstUnacked upto s.current_seqno t.outstanding_segments
pop_acked_lem_example =
    pop_acked_lem (flying-Core 3 [] (omega arith) (omega arith) (omega arith)) (omega arith)
      (omega arith)

ack_received-IsValid_example : IsValid (ack_received (wrap 3 isn) 5 (flying 1 []))
ack_received-IsValid_example =
    ack_received-IsValid (wrap 3 isn) 5 (valid 1 [] (omega arith) (omega arith) (omega arith))
      (omega arith) (omega arith)

tick_lem_example :
    ((timed_out 200 (flying 1 []) ≡ false) × Waits 200 (flying 1 []))
    ⊎ ((timed_out 200 (flying 1 []) ≡ true) × Retransmits 200 (flying 1 []))
tick_lem_example =
    tick_lem 200 (flying 1 []) (valid 1 [] (omega arith) (omega arith) (omega arith)) refl
      (omega arith) (omega arith) (omega arith)

abbrev plenty : List ℕ
plenty = replicate (2 ^ 16) 7

ack_read : unwrap (wrap 1 isn) isn 4 ≡ 1
ack_read = unwrap-wrap 1 4 isn (omega arith) (omega arith) (omega arith) (omega arith)

ack_received_overshoots_example :
    bytes_in_flight (ack_received (wrap 1 isn) 1 (flying 1 plenty)) ≡ max 1 1 + 2 ^ 16
ack_received_overshoots_example =
    ack_received_overshoots (wrap 1 isn) 1
      (valid 1 plenty (omega arith) (omega arith)
        (omega (arith, length-replicate {A = ℕ} (2 ^ 16) 7)))
      (omega arith) (omega arith) refl (omega (arith, ack_read)) (omega (arith, ack_read))
      (omega (arith, ack_read)) (omega (arith, length-replicate {A = ℕ} (2 ^ 16) 7))
