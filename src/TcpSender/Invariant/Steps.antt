-- ===== src/TcpSender/Invariant/Steps.antt =====
-- Sending and the passing of time keep the invariant.
use csed353_sponge.Common.{
  ◌==◌, to_ℕ, length, length-append, ℕ, ◌+◌, ◌^◌, ◌<◌, min, ◌≡◌, refl, sym, ap, subst, true, not,
  List, [], ◌∷◌, ◌++◌, arith,
}
use csed353_sponge.ByteStream
use csed353_sponge.ByteStream.{ByteStream}
use csed353_sponge.ByteStream.Laws
use csed353_sponge.WrappingIntegers.{IsU32, wrap}
use csed353_sponge.TcpHeader.{new_header}
use csed353_sponge.TcpSegment.{TcpSegment, length_in_sequence_space}
use csed353_sponge.TcpSender.{
  TcpSender, reach_fin, actual_payload_size, fill_window, tick, send_empty_segment,
}
use csed353_sponge.TcpSender.Sent.{Chain, Chain-append, Sent, payloads}
use csed353_sponge.TcpSender.Fill.{offered, payload-eq, fill_window-Sent}
use csed353_sponge.TcpSender.Invariant.Kept.{Kept, Kept-IsValid}
use csed353_sponge.TcpSender.Invariant.{Core, TimerFits, IsValid, Core-Valid}

module _ {s t : TcpSender} {new : List TcpSegment} (c : Core s)
    (h : Sent (actual_payload_size s) (min (offered s) s.window_size) (reach_fin s) new s t) where
  left_over : length t.stream.buffer + actual_payload_size s ≡ length s.stream.buffer
  left_over =
      omega (arith, ap length h.bytes, length-append (payloads new) t.stream.buffer, h.carried)

  accounted-Sent : t.next_seqno ≡ to_ℕ (not (t.next_seqno == 0)) + t.stream.bytes_read + to_ℕ t.fin
  accounted-Sent = ground (
    arith,
    payload-eq s (Core-Valid c) c.syn_fits,
    h.next,
    h.fin_sent,
    c.accounted,
    c.syn_fits,
    c.stream.counted,
    h.valid.counted,
    h.same.written,
    left_over,
  )

  Core-Sent : Core t
  Core-Sent = record {
    stream = h.valid;
    total = omega (arith, h.same.written, c.total);
    isn = subst IsU32 (sym h.same.isn) c.isn;
    window = omega (arith, h.window, c.window);
    syn_fits = λ e. omega (arith, h.next, h.window, c.syn_fits, e);
    accounted = accounted-Sent;
    acked = omega (arith, c.acked, h.same.current, h.next);
    oldest = c.oldest;
    oldest_le = omega (arith, c.oldest_le, h.same.current);
    flight =
        subst (λ w. Chain w c.oldest t.outstanding_segments t.next_seqno) (sym h.same.isn)
          (subst (λ q. Chain s.isn c.oldest q t.next_seqno) (sym h.outstanding)
            (Chain-append s.isn c.oldest s.next_seqno t.next_seqno s.outstanding_segments new
              c.flight h.chain));
  }

  timer-Sent : TimerFits s → TimerFits t
  timer-Sent e = ground (arith, e, h.timer, h.outstanding, length-append s.outstanding_segments new)

pub fill_window-Core : {s : TcpSender} → Core s → Core (fill_window s)
fill_window-Core {s} c =
    let (new, h) = fill_window-Sent s (Core-Valid c) c.syn_fits in Core-Sent c h

-- `fill_window` keeps the invariant of the sender.
pub fill_window-IsValid : {s : TcpSender} → IsValid s → IsValid (fill_window s)
fill_window-IsValid {s} v =
    let (new, h) = fill_window-Sent s (Core-Valid v.core) v.core.syn_fits in
    record { core = Core-Sent v.core h; timer = timer-Sent v.core h v.timer }

-- While the timer was running it still is.
pub fill_window-timer :
    {s : TcpSender} → Core s → s.is_timer_on ≡ true → (fill_window s).is_timer_on ≡ true
fill_window-timer {s} c e =
    let (new, h) = fill_window-Sent s (Core-Valid c) c.syn_fits in ground (arith, h.timer, e)

pub tick-Kept : (ms : ℕ) (s : TcpSender) → Kept s.outstanding_segments s (tick ms s)
unfolding tick
tick-Kept ms s = ground arith

-- So does the passing of time.
pub tick-IsValid : (ms : ℕ) {s : TcpSender} → IsValid s → IsValid (tick ms s)
tick-IsValid ms {s} = Kept-IsValid (tick-Kept ms s)

-- And so does an empty segment.
pub send_empty_segment-IsValid : {s : TcpSender} → IsValid s → IsValid (send_empty_segment s)
unfolding send_empty_segment
send_empty_segment-IsValid {s} = Kept-IsValid (ground arith)

-- An empty segment takes up no number, is the next one to come, and is not kept as outstanding.
pub send_empty_segment_lem :
    (s : TcpSender)
    → (seg : TcpSegment) × (length_in_sequence_space seg ≡ 0)
      × (seg.header.seqno ≡ wrap s.next_seqno s.isn)
      × (send_empty_segment s ≡ record s { segments_out = s.segments_out ++ seg ∷ [] })
unfolding send_empty_segment
send_empty_segment_lem s = (
  record { header = record new_header { seqno = wrap s.next_seqno s.isn }; payload = [] },
  refl,
  refl,
  refl,
)

-- The writer may change the stream, as long as no byte is taken back.
pub change_stream-IsValid :
    (stream : ByteStream) {s : TcpSender}
    → Laws.IsValid stream
    → stream.bytes_written < 2 ^ 63
    → stream.bytes_read ≡ s.stream.bytes_read
    → IsValid s
    → IsValid (record s { stream = stream })
change_stream-IsValid stream {s} v h e i = record {
  core = record {
    stream = v;
    total = h;
    isn = i.core.isn;
    window = i.core.window;
    syn_fits = i.core.syn_fits;
    accounted = omega (arith, i.core.accounted, e);
    acked = i.core.acked;
    oldest = i.core.oldest;
    oldest_le = i.core.oldest_le;
    flight = i.core.flight;
  };
  timer = i.timer;
}

pub set_error-IsValid :
    {s : TcpSender} → IsValid s → IsValid (record s { stream = ByteStream.set_error s.stream })
set_error-IsValid {s} i =
    let e = Laws.set_error-eq s.stream in
    change_stream-IsValid (ByteStream.set_error s.stream) (Laws.set_error-IsValid i.core.stream)
      (subst (λ (t : ByteStream). t.bytes_written < 2 ^ 63) (sym e) i.core.total)
      (ap (λ (t : ByteStream). t.bytes_read) e) i

pub end_input-IsValid :
    {s : TcpSender} → IsValid s → IsValid (record s { stream = ByteStream.end_input s.stream })
end_input-IsValid {s} i =
    let e = Laws.end_input-eq s.stream in
    change_stream-IsValid (ByteStream.end_input s.stream) (Laws.end_input-IsValid i.core.stream)
      (subst (λ (t : ByteStream). t.bytes_written < 2 ^ 63) (sym e) i.core.total)
      (ap (λ (t : ByteStream). t.bytes_read) e) i

pub write-IsValid :
    (bytes : List ℕ) {s : TcpSender}
    → s.stream.bytes_written + length bytes < 2 ^ 63
    → IsValid s
    → IsValid (record s { stream = (ByteStream.write bytes s.stream).0 })
write-IsValid bytes {s} h i =
    let fits : s.stream.bytes_written + length bytes < 2 ^ 64 = omega (arith, h) in
    let e = ap (λ (r : ByteStream × ℕ). r.0) (Laws.write-eq bytes i.core.stream fits) in
    change_stream-IsValid (ByteStream.write bytes s.stream).0
      (Laws.write-IsValid bytes i.core.stream fits)
      (subst (λ (t : ByteStream). t.bytes_written < 2 ^ 63) (sym e) (omega (arith, h)))
      (ap (λ (t : ByteStream). t.bytes_read) e) i
