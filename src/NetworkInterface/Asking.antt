-- ===== src/NetworkInterface/Asking.antt =====
-- A datagram for an address that the interface of libsponge/network_interface.cc does not know yet.
use csed353_sponge.Common.{
  ◌==◌, Bool-cases, ℕ, ◌^◌, ◌<◌, ◌≡◌, refl, ap, subst, inl, inr, true, false, none, some, List, [],
  ◌∷◌, ◌++◌, arith,
}
use csed353_sponge.ArpMessage
use csed353_sponge.ArpMessage.{
  EthernetAddress, ArpMessage, no_address, new_message, opcode_request, opcode_reply,
}
use csed353_sponge.ArpMessage.RoundTrip.{IsAddress, IsMessage, wire, serialize-wire}
use csed353_sponge.EthernetHeader.{EthernetFrame, ethernet_broadcast, type_arp}
use csed353_sponge.Ipv4.{Ipv4Datagram}
use csed353_sponge.NetworkInterface.{
  PendingIp, PendingDatagram, NetworkInterface, lookup, generate_arp_message, arp_frame, push_frame,
  any_pending, send_datagram, default_arp_timeout,
}
use csed353_sponge.NetworkInterface.Waiting.{Covered, IsWaiting}
use csed353_sponge.NetworkInterface.Answer.{waiting_for, reply_to}

-- An interface whose addresses have the widths of the wire.
pub record IsNode (n : NetworkInterface) : Type 0 where
  pub ethernet : IsAddress n.ethernet_address
  pub ip : n.ip_address < 2 ^ 32
  pub waiting : IsWaiting n

abbrev pub request_for : ℕ → NetworkInterface → ArpMessage
request_for ip n = record new_message {
  sender_ethernet_address = n.ethernet_address;
  sender_ip_address = n.ip_address;
  target_ip_address = ip;
  opcode = opcode_request;
}

abbrev pub request_frame : ℕ → NetworkInterface → EthernetFrame
request_frame ip n = record {
  header = record { dst = ethernet_broadcast; src = n.ethernet_address; type = type_arp };
  payload = wire (request_for ip n) [];
}

-- The interface after a datagram for an unknown address.
abbrev pub asking : Ipv4Datagram → ℕ → NetworkInterface → NetworkInterface
asking d ip n = record n {
  pending_datagrams = n.pending_datagrams ++ record { ip = ip; datagram = d } ∷ [];
  pending_ips = n.pending_ips ++ record { ip = ip; ttl = default_arp_timeout } ∷ [];
  frames_out = n.frames_out ++ request_frame ip n ∷ [];
}

arp_frame_unknown :
    (ip : ℕ) (message : ArpMessage) (bytes : List ℕ) (n m : NetworkInterface)
    → lookup ip n.arp_table ≡ none
    → ArpMessage.serialize message ≡ some bytes
    → push_frame (arp_frame ip message n) m
      ≡ some (record m {
        frames_out =
            m.frames_out
            ++ record {
              header = record {
                dst = ethernet_broadcast;
                src = n.ethernet_address;
                type = type_arp;
              };
              payload = bytes;
            }
              ∷ [];
      })
unfolding arp_frame push_frame
arp_frame_unknown ip message bytes n m unknown written = ground (arith, unknown, written)

pub send_datagram-asking :
    (d : Ipv4Datagram) (ip : ℕ) (n : NetworkInterface)
    → lookup ip n.arp_table ≡ none
    → any_pending ip n.pending_ips ≡ false
    → send_datagram d ip n ≡ some (asking d ip n)
unfolding send_datagram
send_datagram-asking d ip n unknown silent =
    let written : ArpMessage.serialize (generate_arp_message ip opcode_request n)
        ≡ some (wire (request_for ip n) []) =
      rw unknown (serialize-wire (request_for ip n) refl) in
    let asked : NetworkInterface = record n {
      pending_datagrams = n.pending_datagrams ++ record { ip = ip; datagram = d } ∷ [];
      pending_ips = n.pending_ips ++ record { ip = ip; ttl = default_arp_timeout } ∷ [];
    } in
    let pushed =
      arp_frame_unknown ip (generate_arp_message ip opcode_request n) (wire (request_for ip n) []) n
        asked unknown written in
    ground (arith, unknown, silent, pushed)

-- No datagram waits for an address that is not asked for.
pub waiting_for-Covered :
    (ip : ℕ) (ds : List PendingDatagram) (ips : List PendingIp)
    → Covered ds ips
    → any_pending ip ips ≡ false
    → waiting_for ip ds ≡ []
waiting_for-Covered ip [] ips c silent = refl
waiting_for-Covered ip (d ∷ ds) ips c silent = elim (Bool-cases (d.ip == ip)) [
  | inl h ↦
      let same : d.ip ≡ ip = ground (arith, h) in
      absurd (ground (arith, subst (λ i. any_pending i ips ≡ true) same c.0, silent))
  | inr h ↦ rw h (waiting_for-Covered ip ds ips c.1 silent)
]

pub waiting_for-append :
    (ip : ℕ) (xs ys : List PendingDatagram)
    → waiting_for ip (xs ++ ys) ≡ waiting_for ip xs ++ waiting_for ip ys
waiting_for-append ip [] ys = refl
waiting_for-append ip (d ∷ xs) ys = elim (Bool-cases (d.ip == ip)) [
  | inl h ↦ rw h (ap (λ ds. d ∷ ds) (waiting_for-append ip xs ys))
  | inr h ↦ rw h (waiting_for-append ip xs ys)
]

pub request_for-IsMessage :
    (ip : ℕ) (n : NetworkInterface) → ip < 2 ^ 32 → IsNode n → IsMessage (request_for ip n)
request_for-IsMessage ip n h v = record {
  hardware = omega arith;
  protocol = omega arith;
  hardware_size = omega arith;
  protocol_size = omega arith;
  opcode = omega arith;
  sender = v.ethernet;
  sender_ip = v.ip;
  target = record {
    fits_0 = omega arith;
    fits_1 = omega arith;
    fits_2 = omega arith;
    fits_3 = omega arith;
    fits_4 = omega arith;
    fits_5 = omega arith;
  };
  target_ip = h;
}

pub reply_to-IsMessage :
    (ip : ℕ) (a b : NetworkInterface)
    → IsNode a
    → IsNode b
    → IsMessage (reply_to (request_for ip a) b)
reply_to-IsMessage ip a b v w = record {
  hardware = omega arith;
  protocol = omega arith;
  hardware_size = omega arith;
  protocol_size = omega arith;
  opcode = omega arith;
  sender = w.ethernet;
  sender_ip = w.ip;
  target = v.ethernet;
  target_ip = v.ip;
}
