-- ===== src/NetworkInterface/Waiting.antt =====
-- The next hop of every datagram that waits in the interface of libsponge/network_interface.cc is
-- listed among the addresses that ARP has been asked for.
pub mod Time
pub mod Arrival
use csed353_sponge.Common.{
  Bool-cases, is_some, OnSuccess, ℕ, ◌≡◌, refl, inl, inr, true, ◌||◌, Option, none, some, List, [],
  ◌∷◌, ◌++◌, arith,
}
use csed353_sponge.ArpMessage
use csed353_sponge.ArpMessage.{ArpMessage, new_message, opcode_request, opcode_reply}
use csed353_sponge.EthernetHeader.{EthernetFrame}
use csed353_sponge.Ipv4.{Ipv4Datagram}
use csed353_sponge.NetworkInterface.{
  PendingIp, PendingDatagram, NetworkInterface, lookup, datagram_frame, arp_frame, push_frame,
  any_pending, send_datagram, prune_pending, keep, release, learn, recv_frame, deliver, keep_ip,
  retry, expire, tick, settle, assign, default_arp_ttl, generate_arp_message, default_arp_timeout,
}

abbrev pub Covered : List PendingDatagram → List PendingIp → Type 0
Covered [] ips = Unit {0}
Covered (d ∷ ds) ips = (any_pending d.ip ips ≡ true) × Covered ds ips

abbrev pub IsWaiting : NetworkInterface → Type 0
IsWaiting n = Covered n.pending_datagrams n.pending_ips

any_pending-append :
    (ip : ℕ) (xs ys : List PendingIp)
    → any_pending ip (xs ++ ys) ≡ (any_pending ip xs || any_pending ip ys)
any_pending-append ip [] ys = refl
any_pending-append ip (x ∷ xs) ys = ground (arith, any_pending-append ip xs ys)

Covered-append :
    (ds : List PendingDatagram) (xs ys : List PendingIp) → Covered ds xs → Covered ds (xs ++ ys)
Covered-append [] xs ys c = tt
Covered-append (d ∷ ds) xs ys c =
    (ground (arith, any_pending-append d.ip xs ys, c.0), Covered-append ds xs ys c.1)

Covered-snoc :
    (ds : List PendingDatagram) (d : PendingDatagram) (ips : List PendingIp)
    → Covered ds ips
    → any_pending d.ip ips ≡ true
    → Covered (ds ++ d ∷ []) ips
Covered-snoc [] d ips c h = (h, tt)
Covered-snoc (e ∷ ds) d ips c h = (c.0, Covered-snoc ds d ips c.1 h)

pub push_frame-IsWaiting :
    (frame : Option EthernetFrame) (n : NetworkInterface)
    → IsWaiting n
    → OnSuccess IsWaiting (push_frame frame n)
unfolding push_frame
push_frame-IsWaiting none n w = tt
push_frame-IsWaiting (some frame) n w = w

-- Sending a datagram keeps every waiting datagram, the new one included, covered by a request.
pub send_datagram-IsWaiting :
    (datagram : Ipv4Datagram) (next_hop : ℕ) (n : NetworkInterface)
    → IsWaiting n
    → OnSuccess IsWaiting (send_datagram datagram next_hop n)
unfolding send_datagram
send_datagram-IsWaiting datagram next_hop n w =
    let d : PendingDatagram = record { ip = next_hop; datagram = datagram } in
    let e : PendingIp = record { ip = next_hop; ttl = default_arp_timeout } in
    let pended : NetworkInterface = record n {
      pending_datagrams = n.pending_datagrams ++ d ∷ [];
    } in
    let asked : NetworkInterface = record pended { pending_ips = n.pending_ips ++ e ∷ [] } in
    elim (Bool-cases (is_some (lookup next_hop n.arp_table))) [
      | inl k ↦ rw k (push_frame-IsWaiting (datagram_frame next_hop datagram n) n w)
      | inr k ↦ rw k (elim (Bool-cases (any_pending next_hop n.pending_ips)) [
        | inl q ↦ rw q (Covered-snoc n.pending_datagrams d n.pending_ips w q)
        | inr q ↦ rw q (
            push_frame-IsWaiting
              (arp_frame next_hop (generate_arp_message next_hop opcode_request n) n) asked
              (Covered-snoc n.pending_datagrams d (n.pending_ips ++ e ∷ [])
                (Covered-append n.pending_datagrams n.pending_ips (e ∷ []) w)
                (ground (arith, any_pending-append next_hop n.pending_ips (e ∷ [])))))
      ])
    ]
