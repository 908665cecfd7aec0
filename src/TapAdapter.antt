-- ===== src/TapAdapter.antt =====
-- The TAP adapter of libsponge/tcp_helpers/tuntap_adapter.hh and tuntap_adapter.cc: TCP segments in
-- IPv4 datagrams in Ethernet frames. What the device yields or is given are bytes.
pub mod RoundTrip
mod Tests
use csed353_sponge.Common.{if◌then◌else◌, ℕ, Option, none, some, List, [], ◌∷◌}
use csed353_sponge.Parser.{ParseResult, is_error}
use csed353_sponge.TcpSegment.{TcpSegment}
use csed353_sponge.Ipv4.{Ipv4Datagram}
use csed353_sponge.ArpMessage.{EthernetAddress, no_address}
use csed353_sponge.EthernetHeader.{EthernetFrame, parse_frame, serialize_frame}
use csed353_sponge.NetworkInterface
use csed353_sponge.NetworkInterface.{NetworkInterface, new_interface, send_datagram, recv_frame}
use csed353_sponge.TcpConfig.{FdAdapterConfig}
use csed353_sponge.FdAdapter.{FdAdapter, new_adapter}
use csed353_sponge.TcpOverIp.{unwrap_tcp_in_ip, wrap_tcp_in_ip}

-- `next_hop` is the number of the address.
pub record TapAdapter : Type 0 where
  pub base : FdAdapter
  pub interface : NetworkInterface
  pub next_hop : ℕ

-- The default member initialisers of a frame.
abbrev pub new_frame : EthernetFrame
new_frame = record {
  header = record { dst = no_address; src = no_address; type = 0 };
  payload = [];
}

-- The constructor, and the dummy frame that it writes.
abbrev pub new_tap_adapter : EthernetAddress → ℕ → ℕ → TapAdapter × List (List ℕ)
new_tap_adapter eth_address ip_address next_hop = (
  record {
    base = new_adapter;
    interface = new_interface eth_address ip_address;
    next_hop = next_hop;
  },
  serialize_frame new_frame ∷ [],
)

-- The loop of `send_pending`, on the queue of the interface.
abbrev pub send_frames : List EthernetFrame → TapAdapter → TapAdapter × List (List ℕ)
send_frames [] a = (a, [])
send_frames (frame ∷ frames) a =
    let (b, rest) =
      send_frames frames (record a { interface = record a.interface { frames_out = frames } }) in
    (b, serialize_frame frame ∷ rest)

abbrev pub send_pending : TapAdapter → TapAdapter × List (List ℕ)
send_pending a = send_frames a.interface.frames_out a

-- The last part of `read`.
abbrev pub interpret :
    Option Ipv4Datagram
    → TapAdapter × List (List ℕ)
    → TapAdapter × Option TcpSegment × List (List ℕ)
interpret none (a, written) = (a, none, written)
interpret (some ip_dgram) (a, written) =
    let (base, seg) = unwrap_tcp_in_ip ip_dgram a.base in (record a { base = base }, seg, written)

-- The adapter after the call, the segment, and what is written. `none` is an exception.
pub tap_read : List ℕ → TapAdapter → Option (TapAdapter × Option TcpSegment × List (List ℕ))
tap_read bytes a =
    let (frame, result) = parse_frame bytes new_frame in
    let received : Option (TapAdapter × Option TcpSegment × List (List ℕ)) =
      elim (recv_frame frame a.interface) [
        | none ↦ none
        | some (interface, ip_dgram) ↦
            some (interpret ip_dgram (send_pending (record a { interface = interface })))
      ] in
    if is_error result then some (a, none, []) else received

abbrev pub pended : TapAdapter → Option NetworkInterface → Option (TapAdapter × List (List ℕ))
pended a none = none
pended a (some interface) = some (send_pending (record a { interface = interface }))

pub tap_tick : ℕ → TapAdapter → Option (TapAdapter × List (List ℕ))
tap_tick ms_since_last_tick a = pended a (NetworkInterface.tick ms_since_last_tick a.interface)

pub tap_write : TcpSegment → TapAdapter → Option (TapAdapter × List (List ℕ))
tap_write seg a = elim (wrap_tcp_in_ip seg a.base) [
  | none ↦ none
  | some datagram ↦ pended a (send_datagram datagram a.next_hop a.interface)
]
