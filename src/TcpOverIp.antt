-- ===== src/TcpOverIp.antt =====
-- libsponge/tcp_helpers/tcp_over_ip.hh, tcp_over_ip.cc and the TUN adapter of tuntap_adapter.hh: TCP
-- segments in IPv4 datagrams.
pub mod Accept
pub mod RoundTrip
pub mod Opens
mod Tests
use csed353_sponge.Common.{
  ◌==◌, if◌then◌else◌, to_u16, length, ℕ, ◌+◌, ◌*◌, false, not, ◌&&◌, Option, none, some, List,
}
use csed353_sponge.Parser.{ParseResult, is_error}
use csed353_sponge.TcpSegment.{TcpSegment, new_segment}
use csed353_sponge.TcpSegment.Wire
use csed353_sponge.TcpConfig.{Address, FdAdapterConfig}
use csed353_sponge.FdAdapter.{FdAdapter, opens, with_ports}
use csed353_sponge.Ipv4.{
  Ipv4Datagram, new_datagram, pseudo_cksum, parse_datagram, serialize_datagram,
}

-- `IPv4Header::PROTO_TCP`
abbrev pub proto_tcp : ℕ
proto_tcp = 6

-- What a listening adapter takes from the datagram and the segment that open the connection.
abbrev pub target : Ipv4Datagram → TcpSegment → FdAdapter → FdAdapter
target d seg a = record a {
  cfg = record a.cfg {
    source = record { ip = d.header.dst; port = a.cfg.source.port };
    destination = record { ip = d.header.src; port = seg.header.sport };
  };
  listening = false;
}

-- The last test, which looks at the configuration as it is by then.
abbrev pub from_peer : TcpSegment → FdAdapter → FdAdapter × Option TcpSegment
from_peer seg a =
    if not (seg.header.sport == a.cfg.destination.port) then (a, none) else (a, some seg)

pub unwrap_tcp_in_ip : Ipv4Datagram → FdAdapter → FdAdapter × Option TcpSegment
unwrap_tcp_in_ip d a =
    let (seg, result) = Wire.parse d.payload (pseudo_cksum d.header) new_segment in
    if not a.listening && not (d.header.dst == a.cfg.source.ip)
    then (a, none)
    else if not a.listening && not (d.header.src == a.cfg.destination.ip)
    then (a, none)
    else if not (d.header.proto == proto_tcp)
    then (a, none)
    else if is_error result
    then (a, none)
    else if not (seg.header.dport == a.cfg.source.port)
    then (a, none)
    else if a.listening
    then (if opens seg then from_peer seg (target d seg a) else (a, none))
    else from_peer seg a

-- The datagram without its payload. The length is cut to 16 bits, as the member of the header is.
abbrev pub enclosing : TcpSegment → FdAdapter → Ipv4Datagram
enclosing seg a = record new_datagram {
  header = record new_datagram.header {
    src = a.cfg.source.ip;
    dst = a.cfg.destination.ip;
    len = to_u16 (new_datagram.header.hlen * 4 + seg.header.doff * 4 + length seg.payload);
  };
}

-- `none` is the exception.
pub wrap_tcp_in_ip : TcpSegment → FdAdapter → Option Ipv4Datagram
wrap_tcp_in_ip seg a =
    let sent = with_ports seg a in
    let d = enclosing sent a in
    elim (Wire.serialize sent (pseudo_cksum d.header)) [
      | none ↦ none
      | some payload ↦ some (record d { payload = payload })
    ]

-- `TCPOverIPv4OverTunFdAdapter`: the bytes are those that the device yields or is given.
pub tun_read : List ℕ → FdAdapter → FdAdapter × Option TcpSegment
tun_read bytes a =
    let (d, result) = parse_datagram bytes new_datagram in
    if is_error result then (a, none) else unwrap_tcp_in_ip d a

pub tun_write : TcpSegment → FdAdapter → Option (List ℕ)
tun_write seg a = elim (wrap_tcp_in_ip seg a) [ none ↦ none | some d ↦ serialize_datagram d ]
