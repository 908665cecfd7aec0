-- ===== src/TcpConnection/Reach.antt =====
-- The states that a connection of libsponge/tcp_connection.cc can get into.
use csed353_sponge.Common.{length, ℕ, ◌+◌, ◌^◌, ◌<◌, ◌≡◌, some, List, [], ◌∷◌, arith}
use csed353_sponge.ByteStream
use csed353_sponge.WrappingIntegers.{WrappingInt32, IsU32}
use csed353_sponge.TcpConfig.{TcpConfig}
use csed353_sponge.TcpSegment.{TcpSegment, length_in_sequence_space}
use csed353_sponge.TcpReceiver.{stream_out}
use csed353_sponge.TcpReceiver.Receive
use csed353_sponge.TcpSender.Sent.{Chain}
use csed353_sponge.TcpConnection.{
  TcpConnection, init, segment_received, write, tick, end_input_stream, connect, destroy,
}
use csed353_sponge.TcpConnection.Invariant.{
  IsValid, init-IsValid, segment_received-IsValid, write-IsValid, tick-IsValid,
  end_input_stream-IsValid, connect-IsValid, destroy-IsValid,
}

-- The sequence numbers that a queue of segments takes up.
abbrev pub span : List TcpSegment → ℕ
span [] = 0
span (seg ∷ segs) = length_in_sequence_space seg + span segs

Chain-span :
    (isn : WrappingInt32) (a b : ℕ) (segs : List TcpSegment)
    → Chain isn a segs b
    → a + span segs ≡ b
Chain-span isn a b [] h = omega (arith, h)
Chain-span isn a b (seg ∷ segs) h =
    omega (arith, Chain-span isn (a + length_in_sequence_space seg) b segs h.1)

-- The reader takes bytes from the inbound stream, and the owner takes the queued segments.
abbrev pub read_inbound : ℕ → TcpConnection → TcpConnection
read_inbound len c =
    let r = c.receiver in
    let reassembler = r.reassembler in
    record c {
      receiver = record r {
        reassembler = record reassembler { output = (ByteStream.read len (stream_out r)).0 };
      };
    }

abbrev pub take_segments : TcpConnection → TcpConnection
take_segments c = record c { segments_out = [] }

-- A state comes from a fresh connection by calls of the operations, in any order. A segment has
-- fields of the widths of the header, and any flags, payload and place in the stream; when it comes,
-- fewer than 2^31 sequence numbers are outstanding and the window lies below 2^64. Fewer than 2^63
-- bytes are written.
pub data Reachable (cfg : TcpConfig) (random : ℕ) : TcpConnection → Type 0 where
  fresh : Reachable cfg random (init cfg random)
  connects : {c : TcpConnection} → Reachable cfg random c → Reachable cfg random (connect c)
  receives :
      {c : TcpConnection} (seg : TcpSegment)
      → IsU32 seg.header.seqno
      → seg.header.win < 2 ^ 16
      → c.receiver.reassembler.output.bytes_read + c.receiver.reassembler.capacity < 2 ^ 64
      → span c.sender.outstanding_segments < 2 ^ 31
      → Reachable cfg random c
      → Reachable cfg random (segment_received seg c)
  writes :
      {c : TcpConnection} (bytes : List ℕ)
      → c.sender.stream.bytes_written + length bytes < 2 ^ 63
      → Reachable cfg random c
      → Reachable cfg random (write bytes c).0
  ticks : {c : TcpConnection} (ms : ℕ) → Reachable cfg random c → Reachable cfg random (tick ms c)
  ends : {c : TcpConnection} → Reachable cfg random c → Reachable cfg random (end_input_stream c)
  reads :
      {c : TcpConnection} (len : ℕ)
      → Reachable cfg random c
      → Reachable cfg random (read_inbound len c)
  hands_over : {c : TcpConnection} → Reachable cfg random c → Reachable cfg random (take_segments c)
  dies : {c : TcpConnection} → Reachable cfg random c → Reachable cfg random (destroy c)

-- From a fresh connection, with capacities below 2^63, every state that the operations reach, in any
-- order, is valid, where each segment has fields of the widths of the header and comes while fewer
-- than 2^31 sequence numbers are outstanding and the window lies below 2^64, and fewer than 2^63 bytes
-- are written. Valid means: both of its streams keep their counters and capacities, the
-- receiver stores nothing past its window, the sender's numbers account for its SYN, bytes and FIN,
-- its outstanding segments cover its numbers without a gap, its timer runs exactly while there are
-- some, and its queue is empty between two calls.
pub reachable-IsValid :
    (cfg : TcpConfig) (random : ℕ) {c : TcpConnection}
    → cfg.recv_capacity < 2 ^ 63
    → cfg.send_capacity < 2 ^ 63
    → random < 2 ^ 32
    → ((w : WrappingInt32) → cfg.fixed_isn ≡ some w → IsU32 w)
    → Reachable cfg random c
    → IsValid c
reachable-IsValid cfg random hr hs hn hf fresh = init-IsValid cfg random hr hs hn hf
reachable-IsValid cfg random hr hs hn hf (connects r) =
    connect-IsValid (reachable-IsValid cfg random hr hs hn hf r)
reachable-IsValid cfg random hr hs hn hf (receives {c} seg hq hw fits short r) =
    let v = reachable-IsValid cfg random hr hs hn hf r in
    segment_received-IsValid seg v hq hw fits (
      omega (
        arith,
        short,
        Chain-span c.sender.isn v.sender.core.oldest c.sender.next_seqno
            c.sender.outstanding_segments v.sender.core.flight,
      ))
reachable-IsValid cfg random hr hs hn hf (writes bytes h r) =
    write-IsValid bytes (reachable-IsValid cfg random hr hs hn hf r) h
reachable-IsValid cfg random hr hs hn hf (ticks ms r) =
    tick-IsValid ms (reachable-IsValid cfg random hr hs hn hf r)
reachable-IsValid cfg random hr hs hn hf (ends r) =
    end_input_stream-IsValid (reachable-IsValid cfg random hr hs hn hf r)
reachable-IsValid cfg random hr hs hn hf (reads len r) =
    let v = reachable-IsValid cfg random hr hs hn hf r in
    record {
      receiver = Receive.read-IsValid len v.receiver;
      sender = v.sender;
      drained = v.drained;
    }
reachable-IsValid cfg random hr hs hn hf (hands_over r) =
    let v = reachable-IsValid cfg random hr hs hn hf r in
    record { receiver = v.receiver; sender = v.sender; drained = v.drained }
reachable-IsValid cfg random hr hs hn hf (dies r) =
    destroy-IsValid (reachable-IsValid cfg random hr hs hn hf r)
