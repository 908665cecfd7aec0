-- ===== src/NetworkInterface/Waiting/Arrival.antt =====
-- What frames do to the datagrams that wait in libsponge/network_interface.cc.
use csed353_sponge.Common.{
  ◌==◌, Bool-cases, OnSuccess, ℕ, ◌≡◌, refl, sym, ◌∙◌, subst, inl, inr, true, false, Option, none,
  some, List, [], ◌∷◌, ◌++◌, arith,
}
use csed353_sponge.ArpMessage
use csed353_sponge.ArpMessage.{ArpMessage, new_message, opcode_request, opcode_reply}
use csed353_sponge.EthernetHeader.{EthernetFrame}
use csed353_sponge.NetworkInterface.{
  PendingIp, PendingDatagram, NetworkInterface, datagram_frame, arp_frame, push_frame, any_pending,
  prune_pending, keep, release, learn, recv_frame, deliver, settle, assign, default_arp_ttl,
  generate_arp_message,
}
use csed353_sponge.NetworkInterface.Waiting.{Covered, IsWaiting, push_frame-IsWaiting}

-- `release` covers the datagrams that it keeps by the requests that are kept.
record Released (ips : List PendingIp) (t : NetworkInterface) : Type 0 where
  waiting : Covered t.pending_datagrams ips
  requests : t.pending_ips ≡ ips

any_pending-prune :
    (ip other : ℕ) (es : List PendingIp)
    → (other == ip) ≡ false
    → any_pending other (prune_pending ip es) ≡ any_pending other es
any_pending-prune ip other [] h = refl
any_pending-prune ip other (e ∷ es) h = ground (arith, any_pending-prune ip other es h, h)

keep-Released :
    (d : PendingDatagram) (ips : List PendingIp) (o : Option NetworkInterface)
    → any_pending d.ip ips ≡ true
    → OnSuccess (Released ips) o
    → OnSuccess (Released ips) (keep d o)
keep-Released d ips none h r = tt
keep-Released d ips (some t) h r = record { waiting = (h, r.waiting); requests = r.requests }

push-Released :
    (frame : Option EthernetFrame) (ips : List PendingIp) (m : NetworkInterface)
    (f : NetworkInterface → Option NetworkInterface)
    → ((t : NetworkInterface) → t.pending_ips ≡ ips → OnSuccess (Released ips) (f t))
    → m.pending_ips ≡ ips
    → OnSuccess (Released ips) (elim (push_frame frame m) [ none ↦ none | some t ↦ f t ])
unfolding push_frame
push-Released none ips m f r same = tt
push-Released (some frame) ips m f r same =
    r (record m { frames_out = m.frames_out ++ frame ∷ [] }) same

release-Released :
    (ip : ℕ) (ds : List PendingDatagram) (ips : List PendingIp) (n : NetworkInterface)
    → Covered ds ips
    → n.pending_ips ≡ prune_pending ip ips
    → OnSuccess (Released (prune_pending ip ips)) (release ip ds n)
unfolding release
release-Released ip [] ips n c same = record { waiting = tt; requests = same }
release-Released ip (d ∷ ds) ips n c same = elim (Bool-cases (d.ip == ip)) [
  | inl h ↦ rw h (
      push-Released (datagram_frame d.ip d.datagram n) (prune_pending ip ips) n (release ip ds)
        (λ t s. release-Released ip ds ips t c.1 s) same)
  | inr h ↦ rw h (
      keep-Released d (prune_pending ip ips) (release ip ds n)
        (any_pending-prune ip d.ip ips h ∙ c.0) (release-Released ip ds ips n c.1 same))
]

Released-IsWaiting :
    (ips : List PendingIp) (o : Option NetworkInterface)
    → OnSuccess (Released ips) o
    → OnSuccess IsWaiting o
Released-IsWaiting ips none r = tt
Released-IsWaiting ips (some t) r = subst (Covered t.pending_datagrams) (sym r.requests) r.waiting

settle-IsWaiting :
    (ip : ℕ) (o : Option NetworkInterface)
    → OnSuccess IsWaiting o
    → OnSuccess IsWaiting (settle ip o)
settle-IsWaiting ip none w = tt
settle-IsWaiting ip (some n) w =
    let pruned : NetworkInterface = record n { pending_ips = prune_pending ip n.pending_ips } in
    Released-IsWaiting (prune_pending ip n.pending_ips) (release ip n.pending_datagrams pruned)
      (release-Released ip n.pending_datagrams n.pending_ips pruned w refl)

learn-IsWaiting :
    (message : ArpMessage) (n : NetworkInterface)
    → IsWaiting n
    → OnSuccess IsWaiting (learn message n)
unfolding learn
learn-IsWaiting message n w =
    let ip = message.sender_ip_address in
    let known : NetworkInterface = record n {
      arp_table =
          assign
            (record { ip = ip; address = message.sender_ethernet_address; ttl = default_arp_ttl })
            n.arp_table;
    } in
    let reply = arp_frame ip (generate_arp_message ip opcode_reply known) known in
    elim (Bool-cases (message.opcode == opcode_request)) [
      | inl h ↦
          rw h (settle-IsWaiting ip (push_frame reply known) (push_frame-IsWaiting reply known w))
      | inr h ↦ rw h (settle-IsWaiting ip (some known) w)
    ]

deliver-IsWaiting :
    (o : Option NetworkInterface)
    → OnSuccess IsWaiting o
    → OnSuccess (λ r. IsWaiting r.0) (deliver o)
deliver-IsWaiting none w = tt
deliver-IsWaiting (some n) w = w

-- A frame of any kind keeps every waiting datagram covered: the requests that an ARP message answers
-- are dropped together with the datagrams that wait for it.
pub recv_frame-IsWaiting :
    (frame : EthernetFrame) (n : NetworkInterface)
    → IsWaiting n
    → OnSuccess (λ r. IsWaiting r.0) (recv_frame frame n)
unfolding recv_frame
recv_frame-IsWaiting frame n w =
    let message = (ArpMessage.parse frame.payload new_message).0 in
    ground (arith, w, deliver-IsWaiting (learn message n) (learn-IsWaiting message n w))
