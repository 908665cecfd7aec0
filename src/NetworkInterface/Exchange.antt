-- ===== src/NetworkInterface/Exchange.antt =====
-- Two interfaces of libsponge/network_interface.cc on one wire: a datagram for an address that is not
-- known yet. A frame passes as its bytes on the wire, so its payload arrives in one buffer.
use csed353_sponge.Common.{
  ℕ, ◌≡◌, refl, sym, ap, ◌∙◌, subst, false, none, some, List, [], ◌∷◌, ◌++◌, append-nil,
  append_assoc, arith,
}
use csed353_sponge.Parser.{no_error}
use csed353_sponge.ArpMessage.{new_message}
use csed353_sponge.ArpMessage.RoundTrip.{wire, parse-wire}
use csed353_sponge.EthernetHeader.{EthernetFrame, ethernet_broadcast, type_arp}
use csed353_sponge.Ipv4.{Ipv4Datagram, new_datagram, parse_datagram, serialize_datagram}
use csed353_sponge.NetworkInterface.{
  PendingDatagram, NetworkInterface, lookup, any_pending, send_datagram, recv_frame,
}
use csed353_sponge.NetworkInterface.Delivery.{carrier, same_address_self, recv_frame-carrier}
use csed353_sponge.NetworkInterface.Answer.{
  Carry, waiting_for, reply_to, entry_of, lookup-assign, after_message, recv_frame-answer,
}
use csed353_sponge.NetworkInterface.Asking.{
  IsNode, request_for, request_frame, asking, send_datagram-asking, waiting_for-Covered,
  waiting_for-append, request_for-IsMessage, reply_to-IsMessage,
}

abbrev pub reply_frame : NetworkInterface → NetworkInterface → EthernetFrame
reply_frame a b = record {
  header = record { dst = a.ethernet_address; src = b.ethernet_address; type = type_arp };
  payload = wire (reply_to (request_for b.ip_address a) b) [];
}

-- The two interfaces after the request, and the first after the reply.
abbrev pub asked : NetworkInterface → NetworkInterface → NetworkInterface
asked a b = after_message (request_for b.ip_address a) [] b

abbrev pub told : Ipv4Datagram → List ℕ → NetworkInterface → NetworkInterface → NetworkInterface
told d bytes a b =
    after_message (reply_to (request_for b.ip_address a) b)
      (carrier b.ethernet_address a.ethernet_address bytes ∷ []) (asking d b.ip_address a)

-- The frames that pass, in their order, and what is handed up at the end.
pub record Exchanged (d arrived : Ipv4Datagram) (bytes : List ℕ) (a b : NetworkInterface)
    : Type 0 where
  pub sent : send_datagram d b.ip_address a ≡ some (asking d b.ip_address a)
  pub request : recv_frame (request_frame b.ip_address a) b ≡ some (asked a b, none)
  pub answered : (asked a b).frames_out ≡ b.frames_out ++ reply_frame a b ∷ []
  pub reply : recv_frame (reply_frame a b) (asking d b.ip_address a) ≡ some (told d bytes a b, none)
  pub released :
      (told d bytes a b).frames_out
      ≡ a.frames_out
        ++ request_frame b.ip_address a ∷ carrier b.ethernet_address a.ethernet_address bytes ∷ []
  pub delivered :
      recv_frame (carrier b.ethernet_address a.ethernet_address bytes) (asked a b)
      ≡ some (asked a b, some arrived)
  pub known : lookup b.ip_address (told d bytes a b).arp_table ≡ some b.ethernet_address

request-received :
    (a b : NetworkInterface)
    → IsNode a
    → IsNode b
    → any_pending a.ip_address b.pending_ips ≡ false
    → recv_frame (request_frame b.ip_address a) b ≡ some (asked a b, none)
request-received a b v w silent =
    (recv_frame-answer (request_frame b.ip_address a) (request_for b.ip_address a) [] b a.ip_address
      (ground (arith, same_address_self ethernet_broadcast)) refl
      (parse-wire (request_for b.ip_address a) new_message []
        (request_for-IsMessage b.ip_address a w.ip v) refl)
      refl
      (subst (λ ds. Carry a.ethernet_address b.ethernet_address ds [])
        (sym (waiting_for-Covered a.ip_address b.pending_datagrams b.pending_ips w.waiting silent))
        tt)).0

reply-received :
    (d : Ipv4Datagram) (bytes : List ℕ) (a b : NetworkInterface)
    → IsNode a
    → IsNode b
    → any_pending b.ip_address a.pending_ips ≡ false
    → serialize_datagram d ≡ some bytes
    → recv_frame (reply_frame a b) (asking d b.ip_address a) ≡ some (told d bytes a b, none)
reply-received d bytes a b v w silent written =
    let ip = b.ip_address in
    let waits : PendingDatagram = record { ip = ip; datagram = d } in
    let alone : waiting_for ip (a.pending_datagrams ++ waits ∷ []) ≡ waits ∷ [] =
      waiting_for-append ip a.pending_datagrams (waits ∷ [])
      ∙ ap (λ ds. ds ++ waiting_for ip (waits ∷ []))
          (waiting_for-Covered ip a.pending_datagrams a.pending_ips v.waiting silent)
      ∙ ground arith in
    (recv_frame-answer (reply_frame a b) (reply_to (request_for ip a) b)
      (carrier b.ethernet_address a.ethernet_address bytes ∷ []) (asking d ip a) ip
      (ground (arith, same_address_self a.ethernet_address)) refl
      (parse-wire (reply_to (request_for ip a) b) new_message [] (reply_to-IsMessage ip a b v w)
        refl)
      refl
      (subst
        (λ ds.
          Carry b.ethernet_address a.ethernet_address ds
            (carrier b.ethernet_address a.ethernet_address bytes ∷ []))
        (sym alone) ((bytes, written, refl), tt))).0

-- Between two interfaces whose addresses have the widths of the wire, and whose waiting datagrams all
-- have their next hop listed among the addresses asked for, where neither has asked for the other's
-- address and the first does not know it: a datagram that the first sends to the second's address, and
-- that can be written and read back, waits while an ARP request is broadcast; the second answers it,
-- and the answer makes the first send exactly that datagram, which the second hands up; the second's
-- address is then known.
pub exchange_lem :
    (d arrived : Ipv4Datagram) (bytes : List ℕ) (a b : NetworkInterface)
    → IsNode a
    → IsNode b
    → lookup b.ip_address a.arp_table ≡ none
    → any_pending b.ip_address a.pending_ips ≡ false
    → any_pending a.ip_address b.pending_ips ≡ false
    → serialize_datagram d ≡ some bytes
    → parse_datagram bytes new_datagram ≡ (arrived, no_error)
    → Exchanged d arrived bytes a b
exchange_lem d arrived bytes a b v w unknown silent_a silent_b written read = record {
  sent = send_datagram-asking d b.ip_address a unknown silent_a;
  request = request-received a b v w silent_b;
  answered = append-nil (b.frames_out ++ reply_frame a b ∷ []);
  reply = reply-received d bytes a b v w silent_a written;
  released =
      append_assoc (a.frames_out ++ request_frame b.ip_address a ∷ []) []
        (carrier b.ethernet_address a.ethernet_address bytes ∷ [])
      ∙ append_assoc a.frames_out (request_frame b.ip_address a ∷ [])
          (carrier b.ethernet_address a.ethernet_address bytes ∷ []);
  delivered = recv_frame-carrier a.ethernet_address bytes arrived (asked a b) read;
  known = lookup-assign (entry_of (reply_to (request_for b.ip_address a) b)) a.arp_table;
}
