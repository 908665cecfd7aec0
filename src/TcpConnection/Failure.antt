-- ===== src/TcpConnection/Failure.antt =====
-- The connection of libsponge/tcp_connection.cc when it is reset, and when it is no longer active.
use csed353_sponge.Common.{
  if◌then◌else◌, lt→ltb, Bool-cases, to_u32, length, length-append, ℕ, ◌+◌, ◌<◌, ◌≡◌, refl, sym, ap,
  ◌∙◌, subst, ◌⊎◌, inl, inr, true, false, not, List, [], ◌∷◌, ◌++◌, arith,
}
use csed353_sponge.ByteStream.Laws
use csed353_sponge.TcpSegment.{TcpSegment}
use csed353_sponge.TcpReceiver.{stream_out}
use csed353_sponge.TcpSender
use csed353_sponge.TcpSender.{TcpSender, send_empty_segment}
use csed353_sponge.TcpSender.Invariant.Steps.{send_empty_segment_lem}
use csed353_sponge.TcpConfig.{max_retx_attempts}
use csed353_sponge.TcpConnection.{
  TcpConnection, active, take_in, report, segment_received, tick, destroy, send, pass_time,
  stop_lingering,
}
use csed353_sponge.TcpConnection.Send.{stamped, send_lem}

-- The connection has failed: it is not active, and the reader and the writer are told.
pub record Failed (c : TcpConnection) : Type 0 where
  pub inactive : active c ≡ false
  pub inbound : (stream_out c.receiver).error ≡ true
  pub outbound : c.sender.stream.error ≡ true

report-Failed : (c : TcpConnection) → Failed (report c)
unfolding report
report-Failed c = record {
  inactive = refl;
  inbound = ap (λ s. s.error) (Laws.set_error-eq (stream_out c.receiver));
  outbound = ap (λ s. s.error) (Laws.set_error-eq c.sender.stream);
}

send-Failed : {c : TcpConnection} → Failed c → Failed (send c)
send-Failed {c} f =
    rw (send_lem c)
      (record { inactive = ground (arith, f.inactive); inbound = f.inbound; outbound = f.outbound })

pub report-queue : (c : TcpConnection) → (report c).segments_out ≡ c.segments_out
unfolding report
report-queue c = refl

abbrev pub heard : TcpConnection → TcpConnection
heard c = record c { time_since_last_segment_received = 0 }

-- `segment_received`, with and without the RST flag.
pub segment_received-rst :
    (seg : TcpSegment) (c : TcpConnection)
    → seg.header.rst ≡ true
    → segment_received seg c ≡ report (heard c)
unfolding segment_received
segment_received-rst seg c e =
    let h : TcpConnection = record c { time_since_last_segment_received = 0 } in
    subst
      (λ b.
        (let noted = if b then report h else h in
          if not (active noted) then noted else send (take_in seg noted))
        ≡ report h)
      (sym e) (rw (report-Failed h).inactive refl)

pub segment_received-ordinary :
    (seg : TcpSegment) (c : TcpConnection)
    → seg.header.rst ≡ false
    → segment_received seg c ≡ (if not (active c) then heard c else send (take_in seg (heard c)))
unfolding segment_received
segment_received-ordinary seg c e =
    let h : TcpConnection = record c { time_since_last_segment_received = 0 } in
    subst
      (λ b.
        (let noted = if b then report h else h in
          if not (active noted) then noted else send (take_in seg noted))
        ≡ (if not (active c) then h else send (take_in seg h)))
      (sym e) refl

-- A segment with the RST flag, whatever the state and its numbers, makes the connection fail, and is not answered.
pub segment_received_rst :
    (seg : TcpSegment) (c : TcpConnection)
    → seg.header.rst ≡ true
    → Failed (segment_received seg c) × ((segment_received seg c).segments_out ≡ c.segments_out)
unfolding segment_received
segment_received_rst seg c e =
    let heard : TcpConnection = record c { time_since_last_segment_received = 0 } in
    rw (e, (report-Failed heard).inactive) (report-Failed heard, report-queue heard)

-- All of the segments carry the RST flag, and there is one.
abbrev pub AllRst : List TcpSegment → Type 0
AllRst [] = Unit {0}
AllRst (seg ∷ segs) = (seg.header.rst ≡ true) × AllRst segs

stamped-AllRst :
    (segs : List TcpSegment) (c : TcpConnection) → c.error ≡ true → AllRst (stamped c segs)
stamped-AllRst [] c e = tt
stamped-AllRst (seg ∷ segs) c e = (e, stamped-AllRst segs c e)

-- The connection has failed, and `n` segments have told the peer.
pub record Reset (n : ℕ) (c d : TcpConnection) : Type 0 where
  pub failed : Failed d
  pub sent : List TcpSegment
  pub queue : d.segments_out ≡ c.segments_out ++ sent
  pub all_rst : AllRst sent
  pub count : length sent ≡ n

length-stamped :
    (segs : List TcpSegment) (c : TcpConnection) → length (stamped c segs) ≡ length segs
length-stamped [] c = refl
length-stamped (seg ∷ segs) c = omega (arith, length-stamped segs c)

send-Reset :
    (c : TcpConnection)
    → Failed c
    → c.error ≡ true
    → Reset (length c.sender.segments_out) c (send c)
send-Reset c f e = record {
  failed = send-Failed f;
  sent = stamped c c.sender.segments_out;
  queue = ap (λ d. d.segments_out) (send_lem c);
  all_rst = stamped-AllRst c.sender.segments_out c e;
  count = length-stamped c.sender.segments_out c;
}

-- An active connection with more than eight retransmissions in a row after the sender's tick fails,
-- and everything that it still sends, which is all that the sender has queued, has the RST flag.
pub tick_gives_up :
    (ms : ℕ) (c : TcpConnection)
    → active c ≡ true
    → max_retx_attempts < to_u32 (TcpSender.tick ms c.sender).consecutive_retransmissions
    → Reset (length (TcpSender.tick ms c.sender).segments_out) c (tick ms c)
unfolding tick report
tick_gives_up ms c a h =
    let passed = pass_time ms c in
    let failed : TcpConnection = stop_lingering (report passed) in
    let f = report-Failed passed in
    let r =
      send-Reset failed (record { inactive = refl; inbound = f.inbound; outbound = f.outbound })
        refl in
    rw
      (
        a,
        lt→ltb max_retx_attempts (to_u32 (TcpSender.tick ms c.sender).consecutive_retransmissions)
            h,
      )
      (record {
        failed = r.failed;
        sent = r.sent;
        queue = r.queue;
        all_rst = r.all_rst;
        count = r.count;
      })

sends_one : (s : TcpSender) → length (send_empty_segment s).segments_out ≡ length s.segments_out + 1
sends_one s =
    let (seg, _, _, e) = send_empty_segment_lem s in
    ap (λ s. length s.segments_out) e ∙ length-append s.segments_out (seg ∷ [])

-- A connection that is destroyed while it is active fails, and tells the peer by a segment with the
-- RST flag, after those that were still queued. Otherwise the destructor does nothing.
pub destroy_lem :
    (c : TcpConnection)
    → ((active c ≡ true) × Reset (length c.sender.segments_out + 1) c (destroy c))
      ⊎ ((active c ≡ false) × (destroy c ≡ c))
unfolding destroy report
destroy_lem c = elim (Bool-cases (active c)) [
  | inl e ↦
      let reported = report c in
      let failed : TcpConnection = record reported {
        sender = send_empty_segment reported.sender;
      } in
      let f = report-Failed c in
      let r =
        send-Reset failed
          (record {
            inactive = refl;
            inbound = f.inbound;
            outbound =
                ap (λ s. s.stream.error) (send_empty_segment_lem reported.sender).3 ∙ f.outbound;
          })
          refl in
      inl (
        e,
        rw e (record {
          failed = r.failed;
          sent = r.sent;
          queue = r.queue;
          all_rst = r.all_rst;
          count = r.count ∙ sends_one reported.sender;
        }),
      )
  | inr e ↦ inr (e, rw e refl)
]
