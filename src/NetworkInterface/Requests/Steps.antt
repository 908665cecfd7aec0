-- ===== src/NetworkInterface/Requests/Steps.antt =====
-- Every address that the interface of libsponge/network_interface.cc notes as asked for has been asked
-- for in a frame, and stays so.
use csed353_sponge.Common.{
  ◌==◌, Bool-cases, is_some, OnSuccess, OnSuccess-bind, ℕ, ◌≡◌, refl, sym, ap, subst, inl, inr,
  Option, none, some, List, [], ◌∷◌, ◌++◌, append_assoc, arith,
}
use csed353_sponge.ArpMessage
use csed353_sponge.ArpMessage.{ArpMessage, new_message, opcode_request, opcode_reply}
use csed353_sponge.ArpMessage.RoundTrip.{wire, serialize-wire}
use csed353_sponge.EthernetHeader.{EthernetFrame, type_arp}
use csed353_sponge.Ipv4.{Ipv4Datagram}
use csed353_sponge.NetworkInterface.{
  PendingIp, PendingDatagram, NetworkInterface, lookup, datagram_frame, arp_frame, push_frame,
  any_pending, send_datagram, prune_pending, keep, release, learn, recv_frame, deliver, settle,
  assign, default_arp_ttl, generate_arp_message, default_arp_timeout, build_frame_header,
}
use csed353_sponge.NetworkInterface.Requests.{
  IsRequest, Requested, AllRequested, Requested-append, Requested-last, AllRequested-append,
  AllRequested-snoc, AllRequested-prune,
}

-- The frame of a request.
abbrev request : ℕ → NetworkInterface → EthernetFrame
request ip n = record {
  header = build_frame_header ip type_arp n;
  payload = wire (generate_arp_message ip opcode_request n) [];
}

arp_frame-request :
    (ip : ℕ) (n : NetworkInterface)
    → arp_frame ip (generate_arp_message ip opcode_request n) n ≡ some (request ip n)
unfolding arp_frame
arp_frame-request ip n =
    ap
      (λ o. elim o as (λ _. Option EthernetFrame) [
        | none ↦ none
        | some payload ↦
            some (record { header = build_frame_header ip type_arp n; payload = payload })
      ])
      (serialize-wire (generate_arp_message ip opcode_request n) refl)

request-IsRequest : (ip : ℕ) (n : NetworkInterface) → IsRequest ip (request ip n)
request-IsRequest ip n = (generate_arp_message ip opcode_request n, refl, refl, refl, refl)

-- The frames that were taken from the queue before, and those in it.
module _ (sent : List EthernetFrame) where
  abbrev pub history : NetworkInterface → List EthernetFrame
  history n = sent ++ n.frames_out

  abbrev pub HasAsked : NetworkInterface → Type 0
  HasAsked n = AllRequested n.pending_ips (history n)

  pub queued-AllRequested :
      (es : List PendingIp) (fs gs : List EthernetFrame)
      → AllRequested es (sent ++ fs)
      → AllRequested es (sent ++ (fs ++ gs))
  queued-AllRequested es fs gs h =
      subst (AllRequested es) (append_assoc sent fs gs) (AllRequested-append es (sent ++ fs) gs h)

  pub queued-Requested :
      (ip : ℕ) (fs gs : List EthernetFrame)
      → Requested ip (sent ++ fs)
      → Requested ip (sent ++ (fs ++ gs))
  queued-Requested ip fs gs h =
      subst (Requested ip) (append_assoc sent fs gs) (Requested-append ip (sent ++ fs) gs h)

  push_frame-HasAsked :
      (frame : Option EthernetFrame) (n : NetworkInterface)
      → HasAsked n
      → OnSuccess HasAsked (push_frame frame n)
  unfolding push_frame
  push_frame-HasAsked none n h = tt
  push_frame-HasAsked (some frame) n h =
      queued-AllRequested n.pending_ips n.frames_out (frame ∷ []) h

  -- A request that is noted is sent.
  ask-HasAsked :
      (ip : ℕ) (e : PendingIp) (ds : List PendingDatagram) (n : NetworkInterface)
      → e.ip ≡ ip
      → HasAsked n
      → OnSuccess HasAsked (
          push_frame
            (arp_frame ip (generate_arp_message ip opcode_request n) n)
            (record n { pending_datagrams = ds; pending_ips = n.pending_ips ++ e ∷ [] }))
  unfolding push_frame
  ask-HasAsked ip e ds n same h = rw (arp_frame-request ip n) (
      AllRequested-snoc n.pending_ips e (sent ++ (n.frames_out ++ request ip n ∷ []))
        (queued-AllRequested n.pending_ips n.frames_out (request ip n ∷ []) h)
        (subst (λ fs. Requested e.ip fs) (append_assoc sent n.frames_out (request ip n ∷ []))
          (subst (λ i. Requested i ((sent ++ n.frames_out) ++ request ip n ∷ [])) (sym same)
            (Requested-last ip (sent ++ n.frames_out) (request ip n) (request-IsRequest ip n)))))

  pub send_datagram-HasAsked :
      (datagram : Ipv4Datagram) (next_hop : ℕ) (n : NetworkInterface)
      → HasAsked n
      → OnSuccess HasAsked (send_datagram datagram next_hop n)
  unfolding send_datagram
  send_datagram-HasAsked datagram next_hop n h =
      let d : PendingDatagram = record { ip = next_hop; datagram = datagram } in
      let e : PendingIp = record { ip = next_hop; ttl = default_arp_timeout } in
      elim (Bool-cases (is_some (lookup next_hop n.arp_table))) [
        | inl k ↦ rw k (push_frame-HasAsked (datagram_frame next_hop datagram n) n h)
        | inr k ↦ rw k (elim (Bool-cases (any_pending next_hop n.pending_ips)) [
          | inl q ↦ rw q h
          | inr q ↦ rw q (ask-HasAsked next_hop e (n.pending_datagrams ++ d ∷ []) n refl h)
        ])
      ]

  keep-HasAsked :
      (d : PendingDatagram) (o : Option NetworkInterface)
      → OnSuccess HasAsked o
      → OnSuccess HasAsked (keep d o)
  keep-HasAsked d none h = tt
  keep-HasAsked d (some n) h = h

  release-HasAsked :
      (ip : ℕ) (ds : List PendingDatagram) (n : NetworkInterface)
      → HasAsked n
      → OnSuccess HasAsked (release ip ds n)
  unfolding release
  release-HasAsked ip [] n h = h
  release-HasAsked ip (d ∷ ds) n h = elim (Bool-cases (d.ip == ip)) [
    | inl k ↦ rw k (
        OnSuccess-bind HasAsked HasAsked (push_frame (datagram_frame d.ip d.datagram n) n)
          (release ip ds) (push_frame-HasAsked (datagram_frame d.ip d.datagram n) n h)
          (λ t x. release-HasAsked ip ds t x))
    | inr k ↦ rw k (keep-HasAsked d (release ip ds n) (release-HasAsked ip ds n h))
  ]

  settle-HasAsked :
      (ip : ℕ) (o : Option NetworkInterface)
      → OnSuccess HasAsked o
      → OnSuccess HasAsked (settle ip o)
  settle-HasAsked ip none h = tt
  settle-HasAsked ip (some n) h =
      release-HasAsked ip n.pending_datagrams
        (record n { pending_ips = prune_pending ip n.pending_ips })
        (AllRequested-prune ip n.pending_ips (history n) h)

  learn-HasAsked :
      (message : ArpMessage) (n : NetworkInterface)
      → HasAsked n
      → OnSuccess HasAsked (learn message n)
  unfolding learn
  learn-HasAsked message n h =
      let ip = message.sender_ip_address in
      let known : NetworkInterface = record n {
        arp_table =
            assign
              (record { ip = ip; address = message.sender_ethernet_address; ttl = default_arp_ttl })
              n.arp_table;
      } in
      let reply = arp_frame ip (generate_arp_message ip opcode_reply known) known in
      elim (Bool-cases (message.opcode == opcode_request)) [
        | inl k ↦
            rw k (settle-HasAsked ip (push_frame reply known) (push_frame-HasAsked reply known h))
        | inr k ↦ rw k (settle-HasAsked ip (some known) h)
      ]

  deliver-HasAsked :
      (o : Option NetworkInterface)
      → OnSuccess HasAsked o
      → OnSuccess (λ r. HasAsked r.0) (deliver o)
  deliver-HasAsked none h = tt
  deliver-HasAsked (some n) h = h

  pub recv_frame-HasAsked :
      (frame : EthernetFrame) (n : NetworkInterface)
      → HasAsked n
      → OnSuccess (λ r. HasAsked r.0) (recv_frame frame n)
  unfolding recv_frame
  recv_frame-HasAsked frame n h =
      let message = (ArpMessage.parse frame.payload new_message).0 in
      ground (arith, h, deliver-HasAsked (learn message n) (learn-HasAsked message n h))
