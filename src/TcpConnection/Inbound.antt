-- ===== src/TcpConnection/Inbound.antt =====
-- What the operations of libsponge/tcp_connection.cc do to the receiver: they leave it alone, mark its
-- stream as failed, or hand it a segment.
use csed353_sponge.Common.{
  if◌then◌else◌, Bool-cases, ℕ, sym, subst, inl, inr, Bool, true, false, not, List,
}
use csed353_sponge.ByteStream
use csed353_sponge.TcpSegment.{TcpSegment}
use csed353_sponge.TcpReceiver
use csed353_sponge.TcpReceiver.{TcpReceiver, stream_out}
use csed353_sponge.TcpConnection.{
  TcpConnection, active, report, is_keep_alive, take_in, send, segment_received, write, tick,
  pass_time, give_up, stop_lingering, end_input_stream,
}
use csed353_sponge.TcpConnection.Send.{send_lem}

abbrev pub with_error : TcpReceiver → TcpReceiver
with_error r = record r {
  reassembler = record r.reassembler { output = ByteStream.set_error (stream_out r) };
}

-- The bytes that can be read.
abbrev pub inbound_bytes : TcpConnection → List ℕ
inbound_bytes c = (stream_out c.receiver).buffer

module _ (P : TcpReceiver → Type 0) (fails : (r : TcpReceiver) → P r → P (with_error r)) where
  send-kept : (c : TcpConnection) → P c.receiver → P (send c).receiver
  send-kept c p = subst (λ (d : TcpConnection). P d.receiver) (sym (send_lem c)) p

  report-kept : (c : TcpConnection) → P c.receiver → P (report c).receiver
  unfolding report
  report-kept c p = fails c.receiver p

  if-kept :
      (t : Bool) (a b : TcpConnection)
      → P a.receiver
      → P b.receiver
      → P (if t then a else b).receiver
  if-kept true a b p q = p
  if-kept false a b p q = q

  pub write-kept :
      (bytes : List ℕ) (c : TcpConnection) → P c.receiver → P (write bytes c).0.receiver
  unfolding write
  write-kept bytes c p = elim (Bool-cases (active c)) [
    | inl h ↦ rw h (send-kept _ p)
    | inr h ↦ rw h p
  ]

  pub end_input_stream-kept : (c : TcpConnection) → P c.receiver → P (end_input_stream c).receiver
  unfolding end_input_stream
  end_input_stream-kept c p = if-kept (not (active c)) c _ p (send-kept _ p)

  pub tick-kept : (ms : ℕ) (c : TcpConnection) → P c.receiver → P (tick ms c).receiver
  unfolding tick
  tick-kept ms c p =
      let passed = pass_time ms c in
      if-kept (not (active c)) c _ p (
        send-kept (stop_lingering (give_up passed))
          (if-kept _ (report passed) passed (report-kept passed p) p))

  take_in-kept :
      (seg : TcpSegment) (c : TcpConnection)
      → ((r : TcpReceiver) → P r → P (TcpReceiver.segment_received seg r))
      → P c.receiver
      → P (take_in seg c).receiver
  take_in-kept seg c receives p = elim (Bool-cases (is_keep_alive seg c)) [
    | inl h ↦ rw h p
    | inr h ↦ rw h (receives c.receiver p)
  ]

  pub segment_received-kept :
      (seg : TcpSegment) (c : TcpConnection)
      → ((r : TcpReceiver) → P r → P (TcpReceiver.segment_received seg r))
      → P c.receiver
      → P (segment_received seg c).receiver
  unfolding segment_received
  segment_received-kept seg c receives p =
      let heard = record c { time_since_last_segment_received = 0 } in
      let noted = if seg.header.rst then report heard else heard in
      let q = if-kept seg.header.rst (report heard) heard (report-kept heard p) p in
      if-kept (not (active noted)) noted _ q
        (send-kept (take_in seg noted) (take_in-kept seg noted receives q))
