-- ===== src/TcpConnection/Closing.antt =====
-- The end of a connection of libsponge/tcp_connection.cc: lingering, and what the operations do
-- once it is over.
use csed353_sponge.Common.{
  ltb, le→leb, Bool-cases, to_u32, ℕ, ◌+◌, ◌*◌, ◌^◌, ◌≤◌, ◌<◌, ◌≡◌, refl, ap, inl, inr, true, false,
  List, arith,
}
use csed353_sponge.ByteStream.Laws
use csed353_sponge.TcpSegment.{TcpSegment}
use csed353_sponge.TcpReceiver.{stream_out}
use csed353_sponge.TcpSender.Invariant.Steps.{tick-Kept}
use csed353_sponge.TcpConfig.{max_retx_attempts}
use csed353_sponge.TcpConnection.{
  TcpConnection, check_prereqs, active, segment_received, write, tick, end_input_stream, destroy,
  send, remaining_outbound_capacity, bytes_in_flight, unassembled_bytes, pass_time, give_up,
  stop_lingering, report,
}
use csed353_sponge.TcpConnection.Send.{send_lem}

-- Once a connection is no longer active, every operation but `connect` leaves it as it is, except
-- that a segment without RST resets the time since the last one; a write takes nothing, and the
-- accessors return 0.
pub inactive_lem :
    (c : TcpConnection) (bytes : List ℕ) (ms : ℕ) (seg : TcpSegment)
    → active c ≡ false
    → seg.header.rst ≡ false
    → (segment_received seg c ≡ record c { time_since_last_segment_received = 0 })
      × (write bytes c ≡ (c, 0))
      × (tick ms c ≡ c)
      × (end_input_stream c ≡ c)
      × (destroy c ≡ c)
      × (remaining_outbound_capacity c ≡ 0)
      × (bytes_in_flight c ≡ 0)
      × (unassembled_bytes c ≡ 0)
unfolding segment_received write tick end_input_stream destroy remaining_outbound_capacity
    bytes_in_flight unassembled_bytes
inactive_lem c bytes ms seg e h =
    (rw (h, e) refl, rw e refl, rw e refl, rw e refl, rw e refl, rw e refl, rw e refl, rw e refl)

-- The prerequisites for closing survive the passing of time and sending.
prereqs-tick :
    (ms : ℕ) (c : TcpConnection) → check_prereqs c ≡ true → check_prereqs (pass_time ms c) ≡ true
prereqs-tick ms c h = let k = tick-Kept ms c.sender in rw (k.stream, k.next, k.current) h

prereqs-report : (c : TcpConnection) → check_prereqs c ≡ true → check_prereqs (report c) ≡ true
unfolding report
prereqs-report c h =
    rw (Laws.set_error-eq (stream_out c.receiver), Laws.set_error-eq c.sender.stream) h

prereqs-give_up : (c : TcpConnection) → check_prereqs c ≡ true → check_prereqs (give_up c) ≡ true
prereqs-give_up c h =
    elim (Bool-cases (ltb max_retx_attempts (to_u32 c.sender.consecutive_retransmissions))) [
      | inl e ↦ rw e (prereqs-report c h)
      | inr e ↦ rw e h
    ]

give_up-time :
    (c : TcpConnection)
    → ((give_up c).time_since_last_segment_received ≡ c.time_since_last_segment_received)
      × ((give_up c).cfg ≡ c.cfg)
unfolding report
give_up-time c =
    elim (Bool-cases (ltb max_retx_attempts (to_u32 c.sender.consecutive_retransmissions))) [
      | inl e ↦ rw e (refl, refl)
      | inr e ↦ rw e (refl, refl)
    ]

-- Nothing is left to do: this survives sending.
send-inactive :
    (c : TcpConnection)
    → check_prereqs c ≡ true
    → c.linger_after_streams_finish ≡ false
    → active (send c) ≡ false
send-inactive c h l = rw (send_lem c) (ground (arith, h, l))

stop_lingering-ends :
    (c : TcpConnection)
    → check_prereqs c ≡ true
    → 10 * c.cfg.rt_timeout ≤ c.time_since_last_segment_received
    → active (send (stop_lingering c)) ≡ false
stop_lingering-ends c h ht =
    send-inactive (stop_lingering c) h
      (rw (h, le→leb (10 * c.cfg.rt_timeout) c.time_since_last_segment_received ht) refl)

-- Lingering ends: once both streams have ended and everything is acknowledged, a tick at or past
-- ten times the timeout since the last segment makes the connection inactive.
pub lingering_ends :
    (ms : ℕ) (c : TcpConnection)
    → check_prereqs c ≡ true
    → c.time_since_last_segment_received + ms < 2 ^ 64
    → 10 * c.cfg.rt_timeout ≤ c.time_since_last_segment_received + ms
    → active (tick ms c) ≡ false
unfolding tick
lingering_ends ms c h he ht =
    let passed = pass_time ms c in
    let (same_time, same_cfg) = give_up-time passed in
    elim (Bool-cases (active c)) [
      | inl e ↦ rw e (
          stop_lingering-ends (give_up passed) (prereqs-give_up passed (prereqs-tick ms c h))
            (omega (arith, he, ht, same_time, ap (λ g. g.rt_timeout) same_cfg)))
      | inr e ↦ rw e e
    ]
