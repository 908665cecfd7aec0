-- ===== src/NetworkInterface/Delivery.antt =====
-- Datagrams between two interfaces of libsponge/network_interface.cc that know each other.
use csed353_sponge.Common.{ℕ, ◌≡◌, true, some, List, [], ◌∷◌, ◌++◌, arith}
use csed353_sponge.Parser.{no_error}
use csed353_sponge.ArpMessage.{EthernetAddress, type_ipv4}
use csed353_sponge.EthernetHeader.{EthernetFrame}
use csed353_sponge.Ipv4.{Ipv4Datagram, new_datagram, parse_datagram, serialize_datagram}
use csed353_sponge.NetworkInterface.{
  NetworkInterface, lookup, datagram_frame, push_frame, send_datagram, recv_frame, same_address,
}

-- A frame with an IPv4 datagram.
abbrev pub carrier : EthernetAddress → EthernetAddress → List ℕ → EthernetFrame
carrier dst src bytes = record {
  header = record { dst = dst; src = src; type = type_ipv4 };
  payload = bytes;
}

-- To a known address the datagram is sent at once.
pub send_datagram-known :
    (d : Ipv4Datagram) (bytes : List ℕ) (next_hop : ℕ) (e : EthernetAddress) (n : NetworkInterface)
    → lookup next_hop n.arp_table ≡ some e
    → serialize_datagram d ≡ some bytes
    → send_datagram d next_hop n
      ≡ some (record n { frames_out = n.frames_out ++ carrier e n.ethernet_address bytes ∷ [] })
unfolding send_datagram datagram_frame push_frame
send_datagram-known d bytes next_hop e n known written = ground (arith, known, written)

pub same_address_self : (e : EthernetAddress) → same_address e e ≡ true
same_address_self e = ground arith

-- A datagram in a frame for the interface is handed up.
pub recv_frame-carrier :
    (src : EthernetAddress) (bytes : List ℕ) (d : Ipv4Datagram) (n : NetworkInterface)
    → parse_datagram bytes new_datagram ≡ (d, no_error)
    → recv_frame (carrier n.ethernet_address src bytes) n ≡ some (n, some d)
unfolding recv_frame
recv_frame-carrier src bytes d n read = ground (arith, read, same_address_self n.ethernet_address)
