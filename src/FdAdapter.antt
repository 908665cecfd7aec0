-- ===== src/FdAdapter.antt =====
-- libsponge/tcp_helpers/fd_adapter.hh, fd_adapter.cc and lossy_fd_adapter.hh: what lies between a TCP
-- connection and UDP. A datagram that the socket received, and what it is told to send, are values.
pub mod Accept
use csed353_sponge.Common.{
  ltb, ◌==◌, if◌then◌else◌, to_u16, ℕ, Bool, false, not, ◌&&◌, Option, none, some, List,
}
use csed353_sponge.Parser.{ParseResult, is_error}
use csed353_sponge.TcpHeader.{TcpHeader}
use csed353_sponge.TcpSegment.{TcpSegment, new_segment}
use csed353_sponge.TcpSegment.Wire
use csed353_sponge.TcpConfig.{Address, FdAdapterConfig, new_adapter_config, same_endpoint}

-- `FdAdapterBase`
pub record FdAdapter : Type 0 where
  pub cfg : FdAdapterConfig
  pub listening : Bool

abbrev pub new_adapter : FdAdapter
new_adapter = record { cfg = new_adapter_config; listening = false }

abbrev pub set_listening : Bool → FdAdapter → FdAdapter
set_listening l a = record a { listening = l }

-- `UDPSocket::received_datagram`
pub record ReceivedDatagram : Type 0 where
  pub source_address : Address
  pub payload : List ℕ

-- What `sendto` is called with.
pub record SentDatagram : Type 0 where
  pub destination : Address
  pub payload : List ℕ

-- A segment that opens a connection to a listening adapter.
abbrev pub opens : TcpSegment → Bool
opens seg = seg.header.syn && not seg.header.rst

abbrev pub udp_read : ReceivedDatagram → FdAdapter → FdAdapter × Option TcpSegment
udp_read datagram a =
    let (seg, result) = Wire.parse datagram.payload 0 new_segment in
    let targeted = record a {
      cfg = record a.cfg { destination = datagram.source_address };
      listening = false;
    } in
    if not a.listening && not (same_endpoint datagram.source_address a.cfg.destination)
    then (a, none)
    else if is_error result
    then (a, none)
    else if a.listening
    then (if opens seg then (targeted, some seg) else (a, none))
    else (a, some seg)

-- The ports that both adapters put into the segment before they send it.
abbrev pub with_ports : TcpSegment → FdAdapter → TcpSegment
with_ports seg a = record seg {
  header = record seg.header { sport = a.cfg.source.port; dport = a.cfg.destination.port };
}

abbrev pub udp_write : TcpSegment → FdAdapter → Option SentDatagram
udp_write seg a = elim (Wire.serialize (with_ports seg a) 0) [
  | none ↦ none
  | some payload ↦ some (record { destination = a.cfg.destination; payload = payload })
]

-- `random` is what the generator yields.
abbrev pub should_drop : Bool → ℕ → FdAdapterConfig → Bool
should_drop uplink random cfg =
    let loss = if uplink then cfg.loss_rate_up else cfg.loss_rate_dn in
    not (loss == 0) && ltb (to_u16 random) loss
