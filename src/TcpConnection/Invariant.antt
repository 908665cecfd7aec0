-- ===== src/TcpConnection/Invariant.antt =====
-- The invariant of a connection of libsponge/tcp_connection.cc between two calls.
use csed353_sponge.Common.{
  ltb, ◌==◌, Bool-cases, to_u32, length, ℕ, ◌+◌, ◌^◌, ◌<◌, ◌≡◌, refl, sym, subst, inl, inr, not,
  ◌&&◌, some, List, arith,
}
use csed353_sponge.WrappingIntegers.{WrappingInt32, IsU32}
use csed353_sponge.TcpConfig.{TcpConfig, max_retx_attempts}
use csed353_sponge.TcpSegment.{TcpSegment, length_in_sequence_space}
use csed353_sponge.TcpReceiver.Receive
use csed353_sponge.TcpSender.Invariant
use csed353_sponge.TcpSender.Invariant.Steps
use csed353_sponge.TcpSender.Invariant.Kept.{Kept-IsValid}
use csed353_sponge.TcpSender.Invariant.Steps.{fill_window-IsValid, send_empty_segment-IsValid}
use csed353_sponge.TcpSender.Invariant.Ack.{ack_received-IsValid}
use csed353_sponge.TcpConnection.{
  TcpConnection, init, active, take_in, report, is_keep_alive, hand_over, answer, segment_received,
  write, tick, end_input_stream, connect, destroy, send, pass_time, give_up,
}
use csed353_sponge.TcpConnection.Send.{IsDrained, send_lem}
use csed353_sponge.TcpConnection.Failure.{heard, segment_received-rst, segment_received-ordinary}

-- Both halves are valid.
record Halves (c : TcpConnection) : Type 0 where
  receiver : Receive.IsValid c.receiver
  sender : Invariant.IsValid c.sender

-- And nothing that the sender has queued waits.
pub record IsValid (c : TcpConnection) : Type 0 where
  pub receiver : Receive.IsValid c.receiver
  pub sender : Invariant.IsValid c.sender
  pub drained : IsDrained c

pub init-IsValid :
    (cfg : TcpConfig) (random : ℕ)
    → cfg.recv_capacity < 2 ^ 63
    → cfg.send_capacity < 2 ^ 63
    → random < 2 ^ 32
    → ((w : WrappingInt32) → cfg.fixed_isn ≡ some w → IsU32 w)
    → IsValid (init cfg random)
unfolding init
init-IsValid cfg random hr hs hn hf = record {
  receiver = Receive.init-IsValid cfg.recv_capacity hr;
  sender = Invariant.init-IsValid cfg.send_capacity cfg.rt_timeout random cfg.fixed_isn hs hn hf;
  drained = Invariant.init-queue cfg.send_capacity cfg.rt_timeout random cfg.fixed_isn;
}

send-IsValid : {c : TcpConnection} → Halves c → IsValid (send c)
send-IsValid {c} h = rw (send_lem c) (record {
  receiver = h.receiver;
  sender = Kept-IsValid (ground arith) h.sender;
  drained = refl;
})

report-Halves : {c : TcpConnection} → Halves c → Halves (report c)
unfolding report
report-Halves h = record {
  receiver = Receive.set_error-IsValid h.receiver;
  sender = Steps.set_error-IsValid h.sender;
}

report-IsValid : {c : TcpConnection} → IsValid c → IsValid (report c)
unfolding report
report-IsValid v = record {
  receiver = Receive.set_error-IsValid v.receiver;
  sender = Steps.set_error-IsValid v.sender;
  drained = v.drained;
}

hand_over-Halves :
    (seg : TcpSegment) {c : TcpConnection} (v : IsValid c)
    → IsU32 seg.header.seqno
    → seg.header.win < 2 ^ 16
    → c.receiver.reassembler.output.bytes_read + c.receiver.reassembler.capacity < 2 ^ 64
    → c.sender.next_seqno < v.sender.core.oldest + 2 ^ 31
    → Halves (hand_over seg c)
hand_over-Halves seg {c} v hs hw fits near = record {
  receiver = Receive.segment_received-IsValid seg v.receiver hs fits;
  sender = elim (Bool-cases seg.header.ack) [
    | inl e ↦ rw e (ack_received-IsValid seg.header.ackno seg.header.win v.sender hw near)
    | inr e ↦ rw e (fill_window-IsValid v.sender)
  ];
}

answer-Halves : (seg : TcpSegment) {c : TcpConnection} → Halves c → Halves (answer seg c)
answer-Halves seg {c} h = record {
  receiver = h.receiver;
  sender =
      elim (Bool-cases
        (not (length_in_sequence_space seg == 0) && (length c.sender.segments_out == 0))) [
          | inl e ↦ rw e (send_empty_segment-IsValid h.sender)
          | inr e ↦ rw e h.sender
        ];
}

take_in-Halves :
    (seg : TcpSegment) {c : TcpConnection} (v : IsValid c)
    → IsU32 seg.header.seqno
    → seg.header.win < 2 ^ 16
    → c.receiver.reassembler.output.bytes_read + c.receiver.reassembler.capacity < 2 ^ 64
    → c.sender.next_seqno < v.sender.core.oldest + 2 ^ 31
    → Halves (take_in seg c)
take_in-Halves seg {c} v hs hw fits near = elim (Bool-cases (is_keep_alive seg c)) [
  | inl k ↦ rw k (record { receiver = v.receiver; sender = send_empty_segment-IsValid v.sender })
  | inr k ↦
      let h = answer-Halves seg (hand_over-Halves seg v hs hw fits near) in
      rw k (record { receiver = h.receiver; sender = h.sender })
]

heard-IsValid : {c : TcpConnection} → IsValid c → IsValid (heard c)
heard-IsValid v = record { receiver = v.receiver; sender = v.sender; drained = v.drained }

-- A segment keeps the invariant, whatever its flags are, under the conditions of the two halves.
pub segment_received-IsValid :
    (seg : TcpSegment) {c : TcpConnection} (v : IsValid c)
    → IsU32 seg.header.seqno
    → seg.header.win < 2 ^ 16
    → c.receiver.reassembler.output.bytes_read + c.receiver.reassembler.capacity < 2 ^ 64
    → c.sender.next_seqno < v.sender.core.oldest + 2 ^ 31
    → IsValid (segment_received seg c)
unfolding heard-IsValid
segment_received-IsValid seg {c} v hs hw fits near = elim (Bool-cases seg.header.rst) [
  | inl e ↦ subst IsValid (sym (segment_received-rst seg c e)) (report-IsValid (heard-IsValid v))
  | inr e ↦ subst IsValid (sym (segment_received-ordinary seg c e)) (elim (Bool-cases (active c)) [
    | inl a ↦ rw a (send-IsValid (take_in-Halves seg (heard-IsValid v) hs hw fits near))
    | inr a ↦ rw a (heard-IsValid v)
  ])
]

-- So does a write, if fewer than 2^63 bytes are written in all.
pub write-IsValid :
    (bytes : List ℕ) {c : TcpConnection}
    → IsValid c
    → c.sender.stream.bytes_written + length bytes < 2 ^ 63
    → IsValid (write bytes c).0
unfolding write
write-IsValid bytes {c} v h = elim (Bool-cases (active c)) [
  | inl a ↦ rw a (
      send-IsValid (record {
        receiver = v.receiver;
        sender = fill_window-IsValid (Steps.write-IsValid bytes h v.sender);
      }))
  | inr a ↦ rw a v
]

give_up-Halves : {c : TcpConnection} → Halves c → Halves (give_up c)
give_up-Halves {c} h =
    elim (Bool-cases (ltb max_retx_attempts (to_u32 c.sender.consecutive_retransmissions))) [
      | inl e ↦ rw e (report-Halves h)
      | inr e ↦ rw e h
    ]

-- And every other operation, under no condition.
pub tick-IsValid : (ms : ℕ) {c : TcpConnection} → IsValid c → IsValid (tick ms c)
unfolding tick
tick-IsValid ms {c} v = elim (Bool-cases (active c)) [
  | inl a ↦
      let h =
        give_up-Halves {c = pass_time ms c}
          (record { receiver = v.receiver; sender = Steps.tick-IsValid ms v.sender }) in
      rw a (send-IsValid (record { receiver = h.receiver; sender = h.sender }))
  | inr a ↦ rw a v
]

pub end_input_stream-IsValid : {c : TcpConnection} → IsValid c → IsValid (end_input_stream c)
unfolding end_input_stream
end_input_stream-IsValid {c} v = elim (Bool-cases (active c)) [
  | inl a ↦ rw a (
      send-IsValid (record {
        receiver = v.receiver;
        sender = fill_window-IsValid (Steps.end_input-IsValid v.sender);
      }))
  | inr a ↦ rw a v
]

pub connect-IsValid : {c : TcpConnection} → IsValid c → IsValid (connect c)
unfolding connect
connect-IsValid v =
    send-IsValid (record { receiver = v.receiver; sender = fill_window-IsValid v.sender })

pub destroy-IsValid : {c : TcpConnection} → IsValid c → IsValid (destroy c)
unfolding destroy
destroy-IsValid {c} v = elim (Bool-cases (active c)) [
  | inl a ↦
      let r = report-IsValid v in
      rw a (
        send-IsValid
          (record { receiver = r.receiver; sender = send_empty_segment-IsValid r.sender }))
  | inr a ↦ rw a v
]
