-- ===== src/TcpState/Summary.antt =====
-- The summaries of libsponge/tcp_helpers/tcp_state.cc for a connection that opens or has failed.
use csed353_sponge.Common.{is_some, ℕ, ◌≡◌, refl, sym, ap, ◌∙◌, true, false, ◌||◌, [], ◌∷◌, arith}
use csed353_sponge.WrappingIntegers.{wrap}
use csed353_sponge.TcpConfig.{TcpConfig}
use csed353_sponge.TcpSegment.{TcpSegment}
use csed353_sponge.TcpReceiver
use csed353_sponge.TcpReceiver.{TcpReceiver, stream_out, ackno, window_size}
use csed353_sponge.TcpReceiver.Receive.{init_waits}
use csed353_sponge.TcpReceiver.Ackno.{ackno-none}
use csed353_sponge.TcpSender
use csed353_sponge.TcpSender.Start
use csed353_sponge.TcpSender.{TcpSender, bytes_in_flight, fill_window}
use csed353_sponge.TcpConnection.{TcpConnection, init, active, connect, stamp, segment_received}
use csed353_sponge.TcpConnection.Start.{init-eq, connect-eq}
use csed353_sponge.TcpConnection.Send.{after, stamped}
use csed353_sponge.TcpConnection.Failure.{Failed, segment_received_rst}
use csed353_sponge.TcpState.{
  TcpState, SenderSummary, official, receiver_summary, sender_summary, summary, state, listen,
  syn_sent, reset, receiver_listen, sender_closed, sender_syn_sent,
}

waiting :
    (r : TcpReceiver)
    → r.is_syn ≡ false
    → (stream_out r).error ≡ false
    → receiver_summary r ≡ receiver_listen
unfolding receiver_summary
waiting r h e = rw (ackno-none r h, e) refl

-- A connection that has failed is summarised as RESET.
pub Failed-reset : {c : TcpConnection} → Failed c → state c ≡ official reset
unfolding state summary receiver_summary sender_summary official
Failed-reset {c} f = rw (f.inactive, f.inbound, f.outbound) refl

-- A connection in any state that gets a segment with the RST flag is summarised as RESET after it.
pub rst-reset :
    (seg : TcpSegment) (c : TcpConnection)
    → seg.header.rst ≡ true
    → state (segment_received seg c) ≡ official reset
rst-reset seg c e = Failed-reset (segment_received_rst seg c e).0

fresh-active :
    (c : TcpConnection) → c.error ≡ false → c.linger_after_streams_finish ≡ true → active c ≡ true
fresh-active c e l = ground (arith, e, l)

syn_sent_summary :
    (s : TcpSender)
    → s.stream.error ≡ false
    → s.next_seqno ≡ 1
    → s.current_seqno ≡ 0
    → sender_summary s ≡ sender_syn_sent
unfolding sender_summary
syn_sent_summary s e n c = rw (e, n, c) refl

closed_summary :
    (s : TcpSender) → s.stream.error ≡ false → s.next_seqno ≡ 0 → sender_summary s ≡ sender_closed
unfolding sender_summary
closed_summary s e n = rw (e, n) refl

abbrev waiting_state : SenderSummary → TcpState
waiting_state s = record {
  sender = s;
  receiver = receiver_listen;
  active = true;
  linger_after_streams_finish = true;
}

-- The parts of a summary while the receiver waits.
waiting_summary :
    (c : TcpConnection)
    → c.error ≡ false
    → c.linger_after_streams_finish ≡ true
    → receiver_summary c.receiver ≡ receiver_listen
    → state c ≡ waiting_state (sender_summary c.sender)
unfolding state summary
waiting_summary c e l h = rw (h, fresh-active c e l, l) refl

init_waiting : (capacity : ℕ) → receiver_summary (TcpReceiver.init capacity) ≡ receiver_listen
init_waiting capacity =
    let (syn, error, _) = init_waits capacity in waiting (TcpReceiver.init capacity) syn error

-- A fresh connection is summarised as LISTEN.
pub init-listen : (cfg : TcpConfig) (random : ℕ) → state (init cfg random) ≡ official listen
unfolding official
init-listen cfg random =
    let s = TcpSender.init cfg.send_capacity cfg.rt_timeout cfg.fixed_isn random in
    let (error, next) = Start.init_fresh cfg.send_capacity cfg.rt_timeout cfg.fixed_isn random in
    ap state (init-eq cfg random)
    ∙ waiting_summary _ refl refl (init_waiting cfg.recv_capacity)
    ∙ ap waiting_state (closed_summary s error next)

-- `connect` on a fresh connection sends one segment, a SYN without an acknowledgment or a payload,
-- with the initial sequence number, and the connection is then summarised as SYN_SENT.
pub connect-syn_sent :
    (cfg : TcpConfig) (random : ℕ)
    → let c = connect (init cfg random) in
      (state c ≡ official syn_sent)
      × (seg : TcpSegment) × (c.segments_out ≡ seg ∷ [])
      × (seg.header.syn ≡ true)
      × (seg.header.ack ≡ false)
      × (seg.header.seqno ≡ wrap 0 c.sender.isn)
      × (seg.payload ≡ [])
unfolding official
connect-syn_sent cfg random =
    let r = TcpReceiver.init cfg.recv_capacity in
    let s = TcpSender.init cfg.send_capacity cfg.rt_timeout cfg.fixed_isn random in
    let c : TcpConnection = record {
      cfg = cfg;
      receiver = r;
      sender = fill_window s;
      segments_out = [];
      linger_after_streams_finish = true;
      error = false;
      fin = false;
      time_since_last_segment_received = 0;
    } in
    let (queue, _, next, current, _, _, error, isn) =
      Start.fill_window-init cfg.send_capacity cfg.rt_timeout cfg.fixed_isn random in
    rw (connect-eq (init cfg random), init-eq cfg random)
      (
        waiting_summary (after (fill_window s).segments_out c) refl refl
              (init_waiting cfg.recv_capacity)
            ∙ ap waiting_state (
                syn_sent_summary (record (fill_window s) { segments_out = [] }) error next current),
        stamp c (Start.syn_segment s),
        ap (λ q. stamped c q) queue,
        refl,
        ap (λ a. is_some a || false) (ackno-none r (init_waits cfg.recv_capacity).0),
        ap (λ w. wrap 0 w) (sym isn),
        refl,
      )
