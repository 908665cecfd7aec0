-- ===== src/TcpSender/Window.antt =====
-- The sender's estimate of the peer's window in libsponge/tcp_sender.cc, `ack_received`.
use csed353_sponge.Common.{
  leb, if◌then◌else◌, le→leb, length, ℕ, ◌+◌, ◌^◌, ◌≤◌, ◌<◌, max, ◌≡◌, refl, sym, ap, ◌∙◌, subst,
  true, not, arith,
}
use csed353_sponge.WrappingIntegers.{WrappingInt32, unwrap}
use csed353_sponge.TcpSender.{
  TcpSender, note_ack, pop_acked, stop_timer, fill_window, ack_received, bytes_in_flight,
}
use csed353_sponge.TcpSender.Fill.{fill_window-Sent}
use csed353_sponge.TcpSender.Invariant.{Core, IsValid, Core-Valid}
use csed353_sponge.TcpSender.Invariant.Popped.{pop_acked-Kept, pop_acked-Core}
use csed353_sponge.TcpSender.Invariant.Ack.{note_ack-Core}

stop_timer-next : (s : TcpSender) → bytes_in_flight (stop_timer s) ≡ bytes_in_flight s
unfolding stop_timer
stop_timer-next s = ground arith

-- What is in flight after sending as much as the estimate allows.
fill_window-flight :
    {s : TcpSender}
    → Core s
    → s.window_size ≤ length s.stream.buffer
    → bytes_in_flight (fill_window s) ≡ bytes_in_flight s + s.window_size
fill_window-flight {s} c h =
    let (new, sent) = fill_window-Sent s (Core-Valid c) c.syn_fits in
    ground (arith, sent.next, sent.same.current, c.acked, c.accounted, c.total, h, c.stream.counted)

refilled :
    {s : TcpSender} (c : Core s)
    → s.next_seqno < c.oldest + 2 ^ 31
    → s.window_size ≤ length s.stream.buffer
    → bytes_in_flight (fill_window (pop_acked s.outstanding_segments s))
      ≡ bytes_in_flight s + s.window_size
refilled {s} c near h =
    let hn : s.next_seqno < 2 ^ 64 = omega (arith, (Core-Valid c).2) in
    let (queue, k) = pop_acked-Kept c hn near in
    let popped = pop_acked-Core c hn near in
    ground (arith, fill_window-flight popped.0, k.next, k.current, k.window, k.stream, h)

ack_received-accepted :
    (ackno : WrappingInt32) (win : ℕ) (s : TcpSender)
    → leb (unwrap ackno s.isn s.next_seqno) s.next_seqno ≡ true
    → s.is_timer_on ≡ true
    → let noted = note_ack (unwrap ackno s.isn s.next_seqno) win s in
      ack_received ackno win s
      ≡ stop_timer (fill_window (pop_acked noted.outstanding_segments noted))
unfolding ack_received
ack_received-accepted ackno win s ok on =
    let noted = note_ack (unwrap ackno s.isn s.next_seqno) win s in
    let after = stop_timer (fill_window (pop_acked noted.outstanding_segments noted)) in
    rw ok (subst (λ b. (if not b then noted else after) ≡ after) (sym on) refl)

-- An acknowledgment that is accepted while the timer runs, and whose window (taken as 1 if it is 0)
-- is smaller than what is then in flight, does not stop the sender: the difference is unsigned, and
-- its low 16 bits are the new estimate. With at most 2^16 numbers in flight, and at least 2^16 bytes
-- waiting, exactly max(window, 1) + 2^16 numbers are in flight afterwards: 2^16 more than the peer's
-- window allows, or 2^16 + 1 if it is 0. (Fewer than 2^31 numbers are outstanding.)
pub ack_received_overshoots :
    (ackno : WrappingInt32) (win : ℕ) {s : TcpSender} (v : IsValid s)
    → win < 2 ^ 16
    → s.next_seqno < v.core.oldest + 2 ^ 31
    → s.is_timer_on ≡ true
    → unwrap ackno s.isn s.next_seqno ≤ s.next_seqno
    → max win 1 + max s.current_seqno (unwrap ackno s.isn s.next_seqno) < s.next_seqno
    → s.next_seqno ≤ max s.current_seqno (unwrap ackno s.isn s.next_seqno) + 2 ^ 16
    → 2 ^ 16 ≤ length s.stream.buffer
    → bytes_in_flight (ack_received ackno win s) ≡ max win 1 + 2 ^ 16
ack_received_overshoots ackno win {s} v hw near on le low high waiting =
    let a = unwrap ackno s.isn s.next_seqno in
    let noted = note_ack a win s in
    let (d, same) = note_ack-Core a win v.core le hw in
    ap bytes_in_flight (ack_received-accepted ackno win s (le→leb a s.next_seqno le) on)
    ∙ stop_timer-next (fill_window (pop_acked noted.outstanding_segments noted))
    ∙ refilled d (omega (arith, near, same)) (omega arith)
    ∙ omega (arith, low, high, (Core-Valid v.core).2)
