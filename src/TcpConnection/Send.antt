-- ===== src/TcpConnection/Send.antt =====
-- What `_send` of libsponge/tcp_connection.cc moves from the sender's queue to the connection's.
use csed353_sponge.Common.{
  ◌^◌, ◌≤◌, ◌<◌, ◌≡◌, refl, ◌∙◌, ◌⊎◌, Bool, true, false, ◌||◌, none, some, List, [], ◌∷◌, ◌++◌,
  append-nil, append_assoc, arith,
}
use csed353_sponge.WrappingIntegers.{WrappingInt32}
use csed353_sponge.TcpReceiver.{ackno, window_size}
use csed353_sponge.TcpSegment.{TcpSegment}
use csed353_sponge.TcpConnection.{TcpConnection, stamp, send_queue, send}

-- The segments with the headers that the connection gives them.
abbrev pub stamped : TcpConnection → List TcpSegment → List TcpSegment
stamped c [] = []
stamped c (seg ∷ segs) = stamp c seg ∷ stamped c segs

abbrev pub any_fin : List TcpSegment → Bool
any_fin [] = false
any_fin (seg ∷ segs) = seg.header.fin || any_fin segs

-- The sender's queue is empty.
abbrev pub IsDrained : TcpConnection → Type 0
IsDrained c = c.sender.segments_out ≡ []

-- The connection after the segments `segs` have been sent.
abbrev pub after : List TcpSegment → TcpConnection → TcpConnection
after segs c = record c {
  sender = record c.sender { segments_out = [] };
  fin = any_fin segs || c.fin;
  segments_out = c.segments_out ++ stamped c segs;
}

send_queue-eq :
    (segs : List TcpSegment) (c : TcpConnection)
    → c.sender.segments_out ≡ segs
    → send_queue segs c ≡ after segs c
unfolding send_queue
send_queue-eq [] c e = ground (arith, e, append-nil c.segments_out)
send_queue-eq (seg ∷ segs) c e =
    let next : TcpConnection = record c {
      sender = record c.sender { segments_out = segs };
      fin = seg.header.fin || c.fin;
      segments_out = c.segments_out ++ stamp c seg ∷ [];
    } in
    send_queue-eq segs next refl
    ∙ ground (arith, append_assoc c.segments_out (stamp c seg ∷ []) (stamped c segs))

-- The connection after it has sent, by its own stamping.
pub send_lem : (c : TcpConnection) → send c ≡ after c.sender.segments_out c
unfolding send
send_lem c = send_queue-eq c.sender.segments_out c refl

-- What a queued segment is sent as: its header has the receiver's acknowledgment, if there is one, and
-- then the ACK flag, the receiver's window, in 16 bits, and the RST flag exactly if the connection has
-- failed. The other fields and the payload are as they were.
pub record IsSentAs (c : TcpConnection) (seg sent : TcpSegment) : Type 0 where
  pub payload : sent.payload ≡ seg.payload
  pub rest :
      (record sent.header {
        ack = seg.header.ack;
        ackno = seg.header.ackno;
        win = seg.header.win;
        rst = seg.header.rst;
      })
      ≡ seg.header
  pub acknowledged :
      ((w : WrappingInt32) × (ackno c.receiver ≡ some w)
        × (sent.header.ack ≡ true)
        × (sent.header.ackno ≡ w))
      ⊎ ((ackno c.receiver ≡ none)
          × (sent.header.ack ≡ seg.header.ack)
          × (sent.header.ackno ≡ seg.header.ackno))
  pub window :
      ((window_size c.receiver < 2 ^ 16) × (sent.header.win ≡ window_size c.receiver))
      ⊎ ((2 ^ 16 ≤ window_size c.receiver) × (sent.header.win ≡ 65535))
  pub reset : sent.header.rst ≡ c.error

abbrev pub AreSentAs : TcpConnection → List TcpSegment → List TcpSegment → Type 0
AreSentAs c [] [] = Unit {0}
AreSentAs c [] (out ∷ outs) = ⊥
AreSentAs c (seg ∷ segs) [] = ⊥
AreSentAs c (seg ∷ segs) (out ∷ outs) = IsSentAs c seg out × AreSentAs c segs outs
