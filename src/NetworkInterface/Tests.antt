-- ===== src/NetworkInterface/Tests.antt =====
-- Concrete states of the interface of libsponge/network_interface.cc.
use csed353_sponge.Common.{OnSuccess, ℕ, ◌≡◌, refl, none, some, List, [], ◌∷◌, arith}
use csed353_sponge.Parser.{no_error}
use csed353_sponge.ArpMessage
use csed353_sponge.ArpMessage.{EthernetAddress, ArpMessage, new_message, opcode_reply}
use csed353_sponge.ArpMessage.RoundTrip.{IsAddress, wire, parse-wire}
use csed353_sponge.EthernetHeader.{EthernetFrame, type_arp}
use csed353_sponge.Ipv4.{Ipv4Datagram, new_datagram}
use csed353_sponge.NetworkInterface.{NetworkInterface, lookup, new_interface, recv_frame}
use csed353_sponge.NetworkInterface.Run.{
  send, pass, receive, take_frames, run, new_run, IsAsked, run-IsAsked,
}
use csed353_sponge.Ipv4.{serialize_datagram, parse_datagram}
use csed353_sponge.Ipv4.Header.{IsHeader}
use csed353_sponge.Ipv4.RoundTrip.{datagram_roundtrip}
use csed353_sponge.NetworkInterface.Delivery.{carrier}
use csed353_sponge.NetworkInterface.Exchange.{Exchanged, exchange_lem}
use csed353_sponge.NetworkInterface.Answer.{after_message, recv_frame-answer}

abbrev own : EthernetAddress
own = record { byte_0 = 2; byte_1 = 0; byte_2 = 0; byte_3 = 0; byte_4 = 0; byte_5 = 1 }

abbrev datagram : Ipv4Datagram
datagram =
    let header = new_datagram.header in
    record { header = record header { len = 21 }; payload = 9 ∷ [] }

-- One datagram waits for the address of its next hop.
abbrev asking : NetworkInterface
asking = record {
  ethernet_address = own;
  ip_address = 3232235777;
  frames_out = [];
  arp_table = [];
  pending_ips = record { ip = 3232235778; ttl = 3000 } ∷ [];
  pending_datagrams = record { ip = 3232235778; datagram = datagram } ∷ [];
}

-- The reply of the next hop.
abbrev next_hop : EthernetAddress
next_hop = record { byte_0 = 2; byte_1 = 0; byte_2 = 0; byte_3 = 0; byte_4 = 0; byte_5 = 2 }

abbrev reply_message : ArpMessage
reply_message = record new_message {
  opcode = opcode_reply;
  sender_ethernet_address = next_hop;
  sender_ip_address = 3232235778;
  target_ethernet_address = own;
  target_ip_address = 3232235777;
}

abbrev reply : EthernetFrame
reply = record {
  header = record { dst = own; src = next_hop; type = type_arp };
  payload = wire reply_message [];
}

next_hop-IsAddress : IsAddress next_hop
next_hop-IsAddress = record {
  fits_0 = omega arith;
  fits_1 = omega arith;
  fits_2 = omega arith;
  fits_3 = omega arith;
  fits_4 = omega arith;
  fits_5 = omega arith;
}

own-IsAddress : IsAddress own
own-IsAddress = record {
  fits_0 = omega arith;
  fits_1 = omega arith;
  fits_2 = omega arith;
  fits_3 = omega arith;
  fits_4 = omega arith;
  fits_5 = omega arith;
}

reply-read : ArpMessage.parse reply.payload new_message ≡ (reply_message, no_error)
reply-read =
    parse-wire reply_message new_message []
      (record {
        hardware = omega arith;
        protocol = omega arith;
        hardware_size = omega arith;
        protocol_size = omega arith;
        opcode = omega arith;
        sender = next_hop-IsAddress;
        sender_ip = omega arith;
        target = own-IsAddress;
        target_ip = omega arith;
      })
      refl

datagram-IsHeader : IsHeader datagram.header
datagram-IsHeader = record {
  ver = refl;
  hlen = omega arith;
  covers = omega arith;
  tos = omega arith;
  len = omega arith;
  id = omega arith;
  offset = omega arith;
  ttl = omega arith;
  proto = omega arith;
  cksum = omega arith;
  src = omega arith;
  dst = omega arith;
}

sent :
    (bytes : List ℕ) × (c : ℕ) × (serialize_datagram datagram ≡ some bytes)
    × (parse_datagram bytes new_datagram ≡ (
      record { header = record datagram.header { cksum = c }; payload = datagram.payload },
      no_error,
    ))
sent = datagram_roundtrip datagram new_datagram datagram-IsHeader refl

recv_frame-answer_example :
    (recv_frame reply asking
      ≡ some (after_message reply_message (carrier next_hop own sent.0 ∷ []) asking, none))
    × (lookup 3232235778
          (after_message reply_message (carrier next_hop own sent.0 ∷ []) asking).arp_table
        ≡ some next_hop)
recv_frame-answer_example =
    recv_frame-answer reply reply_message (carrier next_hop own sent.0 ∷ []) asking 3232235778 refl
      refl reply-read refl ((sent.0, sent.2, refl), tt)

run-IsAsked_example : OnSuccess IsAsked (
    run
      (send datagram 3232235778 ∷ take_frames ∷ pass 4000 ∷ receive reply ∷ [])
      (new_run own 3232235777))
run-IsAsked_example =
    run-IsAsked own 3232235777
      (send datagram 3232235778 ∷ take_frames ∷ pass 4000 ∷ receive reply ∷ [])

abbrev first : NetworkInterface
first = new_interface own 3232235777

abbrev second : NetworkInterface
second = new_interface next_hop 3232235778

exchange_lem_example :
    Exchanged datagram
      (record { header = record datagram.header { cksum = sent.1 }; payload = datagram.payload })
      sent.0
      first
      second
unfolding lookup
exchange_lem_example =
    exchange_lem datagram
      (record { header = record datagram.header { cksum = sent.1 }; payload = datagram.payload })
      sent.0 first second (record { ethernet = own-IsAddress; ip = omega arith; waiting = tt })
      (record { ethernet = next_hop-IsAddress; ip = omega arith; waiting = tt }) refl refl refl
      sent.2 sent.3
