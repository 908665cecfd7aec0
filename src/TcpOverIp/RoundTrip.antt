-- ===== src/TcpOverIp/RoundTrip.antt =====
-- What an adapter of libsponge/tcp_helpers/tcp_over_ip.cc sends, the adapter of the peer receives.
use csed353_sponge.Common.{
  length, ℕ, ◌^◌, ◌<◌, ◌≡◌, refl, sym, ap, ◌∙◌, true, false, Option, none, some, List, arith,
}
use csed353_sponge.Parser.{no_error}
use csed353_sponge.TcpHeader.Wire.RoundTrip
use csed353_sponge.TcpSegment.{TcpSegment, new_segment}
use csed353_sponge.TcpSegment.Wire
use csed353_sponge.TcpSegment.Wire.RoundTrip.{segment_roundtrip}
use csed353_sponge.Ipv4.{
  Ipv4Datagram, new_datagram, pseudo_cksum, parse_datagram, serialize_datagram,
}
use csed353_sponge.Ipv4.Header
use csed353_sponge.Ipv4.RoundTrip.{datagram_roundtrip}
use csed353_sponge.FdAdapter.{FdAdapter, opens, with_ports}
use csed353_sponge.TcpOverIp.{
  enclosing, target, unwrap_tcp_in_ip, wrap_tcp_in_ip, tun_read, tun_write,
}

-- The addresses of the configuration have the widths of the wire.
pub record IsAdapter (a : FdAdapter) : Type 0 where
  pub source : a.cfg.source.ip < 2 ^ 32
  pub source_port : a.cfg.source.port < 2 ^ 16
  pub destination : a.cfg.destination.ip < 2 ^ 32
  pub destination_port : a.cfg.destination.port < 2 ^ 16

with_ports-IsHeader :
    (seg : TcpSegment) (a : FdAdapter)
    → RoundTrip.IsHeader seg.header
    → IsAdapter a
    → RoundTrip.IsHeader (with_ports seg a).header
with_ports-IsHeader seg a v w = record {
  sport = w.source_port;
  dport = w.destination_port;
  seqno = v.seqno;
  ackno = v.ackno;
  doff = v.doff;
  covers = v.covers;
  win = v.win;
  cksum = v.cksum;
  uptr = v.uptr;
}

enclosing-IsHeader :
    (seg : TcpSegment) (a : FdAdapter) → IsAdapter a → Header.IsHeader (enclosing seg a).header
enclosing-IsHeader seg a w = record {
  ver = refl;
  hlen = omega arith;
  covers = omega arith;
  tos = omega arith;
  len = omega arith;
  id = omega arith;
  offset = omega arith;
  ttl = omega arith;
  proto = omega arith;
  cksum = omega arith;
  src = w.source;
  dst = w.destination;
}

-- The segment and the datagram as they come in, with the checksums that were put in.
abbrev pub arrived : TcpSegment → FdAdapter → ℕ → TcpSegment
arrived seg a c =
    let sent = with_ports seg a in record sent { header = record sent.header { cksum = c } }

abbrev pub arrived_in : TcpSegment → FdAdapter → ℕ → List ℕ → Ipv4Datagram
arrived_in seg a c payload =
    let d = enclosing (with_ports seg a) a in
    record { header = record d.header { cksum = c }; payload = payload }

pub record Delivered (seg : TcpSegment) (a : FdAdapter) : Type 0 where
  pub bytes : List ℕ
  pub payload : List ℕ
  pub cksum : ℕ
  pub ip_cksum : ℕ
  pub wrapped :
      wrap_tcp_in_ip seg a ≡ some (record (enclosing (with_ports seg a) a) { payload = payload })
  pub serialized :
      serialize_datagram (record (enclosing (with_ports seg a) a) { payload = payload })
      ≡ some bytes
  pub read : parse_datagram bytes new_datagram ≡ (arrived_in seg a ip_cksum payload, no_error)
  pub parsed :
      Wire.parse payload (pseudo_cksum (arrived_in seg a ip_cksum payload).header) new_segment
      ≡ (arrived seg a cksum, no_error)

wrap-steps :
    (seg : TcpSegment) (a : FdAdapter) (payload : List ℕ)
    → Wire.serialize (with_ports seg a) (pseudo_cksum (enclosing (with_ports seg a) a).header)
      ≡ some payload
    → wrap_tcp_in_ip seg a ≡ some (record (enclosing (with_ports seg a) a) { payload = payload })
unfolding wrap_tcp_in_ip
wrap-steps seg a payload first =
    ap
      (λ o. elim o as (λ _. Option Ipv4Datagram) [
        | none ↦ none
        | some p ↦ some (record (enclosing (with_ports seg a) a) { payload = p })
      ])
      first

pub tun_write-written :
    (seg : TcpSegment) (a : FdAdapter) (r : Delivered seg a) → tun_write seg a ≡ some r.bytes
unfolding tun_write
tun_write-written seg a r =
    ap (λ o. elim o as (λ _. Option (List ℕ)) [ none ↦ none | some d ↦ serialize_datagram d ])
      r.wrapped
    ∙ r.serialized

pub tun_write-Delivered :
    (seg : TcpSegment) (a : FdAdapter)
    → RoundTrip.IsHeader seg.header
    → IsAdapter a
    → length seg.payload < 2 ^ 14
    → Delivered seg a
tun_write-Delivered seg a v w short =
    let sent : TcpSegment = with_ports seg a in
    let d : Ipv4Datagram = enclosing sent a in
    let small : pseudo_cksum d.header < 2 ^ 30 = omega (arith, w.source, w.destination) in
    let (payload, c, serialized, size, parsed) =
      segment_roundtrip sent new_segment (pseudo_cksum d.header) (with_ports-IsHeader seg a v w)
        short small in
    let (bytes, ip_c, written, read) =
      datagram_roundtrip (record d { payload = payload }) new_datagram (enclosing-IsHeader sent a w)
        (omega (arith, size, v.doff, short)) in
    record {
      bytes = bytes;
      payload = payload;
      cksum = c;
      ip_cksum = ip_c;
      wrapped = wrap-steps seg a payload serialized;
      serialized = written;
      read = read;
      parsed = parsed;
    }

-- The tests of an adapter that is not listening.
pub unwrap-peer :
    (d : Ipv4Datagram) (seg : TcpSegment) (b : FdAdapter)
    → Wire.parse d.payload (pseudo_cksum d.header) new_segment ≡ (seg, no_error)
    → b.listening ≡ false
    → d.header.dst ≡ b.cfg.source.ip
    → d.header.src ≡ b.cfg.destination.ip
    → d.header.proto ≡ 6
    → seg.header.dport ≡ b.cfg.source.port
    → seg.header.sport ≡ b.cfg.destination.port
    → unwrap_tcp_in_ip d b ≡ (b, some seg)
unfolding unwrap_tcp_in_ip
unwrap-peer d seg b parsed quiet dst src proto dport sport =
    ground (arith, parsed, quiet, dst, src, proto, dport, sport)

pub unwrap-opens :
    (d : Ipv4Datagram) (seg : TcpSegment) (b : FdAdapter)
    → Wire.parse d.payload (pseudo_cksum d.header) new_segment ≡ (seg, no_error)
    → b.listening ≡ true
    → opens seg ≡ true
    → d.header.proto ≡ 6
    → seg.header.dport ≡ b.cfg.source.port
    → unwrap_tcp_in_ip d b ≡ (target d seg b, some seg)
unfolding unwrap_tcp_in_ip
unwrap-opens d seg b parsed listens open_seg proto dport =
    ground (arith, parsed, listens, open_seg, proto, dport)

-- The datagram that an adapter sends gets through at the peer.
pub unwrap-arrived :
    (seg : TcpSegment) (a b : FdAdapter)
    → RoundTrip.IsHeader seg.header
    → IsAdapter a
    → length seg.payload < 2 ^ 14
    → b.listening ≡ false
    → b.cfg.source ≡ a.cfg.destination
    → b.cfg.destination ≡ a.cfg.source
    → (d : Ipv4Datagram) × (c : ℕ) × (unwrap_tcp_in_ip d b ≡ (b, some (arrived seg a c)))
unwrap-arrived seg a b v w short quiet source destination =
    let r = tun_write-Delivered seg a v w short in
    let d = arrived_in seg a r.ip_cksum r.payload in
    (
      d,
      r.cksum,
      unwrap-peer d (arrived seg a r.cksum) b r.parsed quiet (ap (λ e. e.ip) (sym source))
          (ap (λ e. e.ip) (sym destination)) refl (ap (λ e. e.port) (sym source))
          (ap (λ e. e.port) (sym destination)),
    )

-- Between two adapters that are not listening and have each other's addresses: a segment whose fields
-- have the widths of the wire, with fewer than 2^14 bytes of payload, is written to the TUN device as
-- an IPv4 datagram, and the peer reads the segment back from the bytes, with the ports of the sender
-- and a checksum put in, and keeps its configuration.
pub tun_roundtrip :
    (seg : TcpSegment) (a b : FdAdapter)
    → RoundTrip.IsHeader seg.header
    → IsAdapter a
    → length seg.payload < 2 ^ 14
    → b.listening ≡ false
    → b.cfg.source ≡ a.cfg.destination
    → b.cfg.destination ≡ a.cfg.source
    → (bytes : List ℕ) × (c : ℕ) × (tun_write seg a ≡ some bytes)
      × (tun_read bytes b ≡ (b, some (arrived seg a c)))
unfolding tun_read
tun_roundtrip seg a b v w short quiet source destination =
    let r = tun_write-Delivered seg a v w short in
    (
      r.bytes,
      r.cksum,
      tun_write-written seg a r,
      rw r.read (
          unwrap-peer (arrived_in seg a r.ip_cksum r.payload) (arrived seg a r.cksum) b r.parsed
            quiet (ap (λ e. e.ip) (sym source)) (ap (λ e. e.ip) (sym destination)) refl
            (ap (λ e. e.port) (sym source)) (ap (λ e. e.port) (sym destination))),
    )
