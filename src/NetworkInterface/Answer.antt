-- ===== src/NetworkInterface/Answer.antt =====
-- What the interface of libsponge/network_interface.cc does with an ARP message for it.
use csed353_sponge.Common.{
  ◌==◌, if◌then◌else◌, Bool-cases, ℕ, ◌≡◌, refl, sym, ap, ◌∙◌, subst, inl, inr, Bool, true, false,
  ◌||◌, Option, none, some, List, [], ◌∷◌, ◌++◌, append-nil, append_assoc, arith,
}
use csed353_sponge.Parser.{no_error}
use csed353_sponge.ArpMessage
use csed353_sponge.ArpMessage.{
  EthernetAddress, ArpMessage, new_message, opcode_request, opcode_reply, type_ipv4, supported,
}
use csed353_sponge.ArpMessage.RoundTrip.{wire, serialize-wire}
use csed353_sponge.EthernetHeader.{EthernetFrame, ethernet_broadcast, type_arp}
use csed353_sponge.Ipv4.{serialize_datagram}
use csed353_sponge.NetworkInterface.{
  ArpEntry, PendingIp, PendingDatagram, NetworkInterface, lookup, assign, same_address,
  generate_arp_message, datagram_frame, arp_frame, push_frame, prune_pending, keep, release, settle,
  learn, recv_frame, default_arp_ttl,
}
use csed353_sponge.NetworkInterface.Delivery.{carrier}

-- The datagrams that wait for an address, and those that wait for another.
abbrev pub waiting_for : ℕ → List PendingDatagram → List PendingDatagram
waiting_for ip [] = []
waiting_for ip (d ∷ ds) = if d.ip == ip then d ∷ waiting_for ip ds else waiting_for ip ds

abbrev pub others : ℕ → List PendingDatagram → List PendingDatagram
others ip [] = []
others ip (d ∷ ds) = if d.ip == ip then others ip ds else d ∷ others ip ds

-- The requests for other addresses.
abbrev pub other_requests : ℕ → List PendingIp → List PendingIp
other_requests ip [] = []
other_requests ip (e ∷ es) = if e.ip == ip then other_requests ip es else e ∷ other_requests ip es

prune_pending-eq : (ip : ℕ) (es : List PendingIp) → prune_pending ip es ≡ other_requests ip es
prune_pending-eq ip [] = refl
prune_pending-eq ip (e ∷ es) = ground (arith, prune_pending-eq ip es)

-- The frames carry the datagrams, in order, from one Ethernet address to another.
abbrev pub Carry :
    EthernetAddress → EthernetAddress → List PendingDatagram → List EthernetFrame → Type 0
Carry dst src [] [] = Unit {0}
Carry dst src [] (f ∷ fs) = ⊥
Carry dst src (d ∷ ds) [] = ⊥
Carry dst src (d ∷ ds) (f ∷ fs) =
    ((bytes : List ℕ) × (serialize_datagram d.datagram ≡ some bytes) × (f ≡ carrier dst src bytes))
    × Carry dst src ds fs

-- The entry that a message adds to the table.
abbrev pub entry_of : ArpMessage → ArpEntry
entry_of m = record {
  ip = m.sender_ip_address;
  address = m.sender_ethernet_address;
  ttl = default_arp_ttl;
}

-- The answer to a request, with the address that it asks for.
abbrev pub reply_to : ArpMessage → NetworkInterface → ArpMessage
reply_to m n = record new_message {
  sender_ethernet_address = n.ethernet_address;
  sender_ip_address = n.ip_address;
  target_ethernet_address = m.sender_ethernet_address;
  target_ip_address = m.sender_ip_address;
  opcode = opcode_reply;
}

abbrev pub answer : ArpMessage → NetworkInterface → List EthernetFrame
answer m n =
    let frame : EthernetFrame = record {
      header = record {
        dst = m.sender_ethernet_address;
        src = n.ethernet_address;
        type = type_arp;
      };
      payload = wire (reply_to m n) [];
    } in
    if m.opcode == opcode_request then frame ∷ [] else []

pub lookup-assign :
    (entry : ArpEntry) (table : List ArpEntry)
    → lookup entry.ip (assign entry table) ≡ some entry.address
unfolding lookup assign
lookup-assign entry [] = ground arith
lookup-assign entry (e ∷ es) = ground (arith, lookup-assign entry es)

-- An entry is found under its own address, and hides no other entry.
pub lookup-assign_any :
    (ip : ℕ) (entry : ArpEntry) (table : List ArpEntry)
    → lookup ip (assign entry table)
      ≡ (if entry.ip == ip then some entry.address else lookup ip table)
unfolding lookup assign
lookup-assign_any ip entry [] = refl
lookup-assign_any ip entry (e ∷ es) = ground (arith, lookup-assign_any ip entry es)

-- What is left of the interface, and what it sends.
abbrev sends : List EthernetFrame → List PendingDatagram → NetworkInterface → NetworkInterface
sends frames ds n = record n { frames_out = n.frames_out ++ frames; pending_datagrams = ds }

datagram_frame-carrier :
    (d : PendingDatagram) (bytes : List ℕ) (mac : EthernetAddress) (n : NetworkInterface)
    → lookup d.ip n.arp_table ≡ some mac
    → serialize_datagram d.datagram ≡ some bytes
    → push_frame (datagram_frame d.ip d.datagram n) n
      ≡ some (record n { frames_out = n.frames_out ++ carrier mac n.ethernet_address bytes ∷ [] })
unfolding datagram_frame push_frame
datagram_frame-carrier d bytes mac n known written = ground (arith, known, written)

-- The first of the datagrams is sent, and then the others.
send_first :
    (ip : ℕ) (d : PendingDatagram) (ds : List PendingDatagram) (mac : EthernetAddress)
    (frames : List EthernetFrame) (n : NetworkInterface)
    (f : NetworkInterface → Option NetworkInterface) (left : List PendingDatagram)
    → ((fs : List EthernetFrame) (t : NetworkInterface)
        → lookup ip t.arp_table ≡ some mac
        → Carry mac t.ethernet_address ds fs
        → f t ≡ some (sends fs left t))
    → lookup ip n.arp_table ≡ some mac
    → Carry mac n.ethernet_address (d ∷ ds) frames
    → d.ip ≡ ip
    → elim (push_frame (datagram_frame d.ip d.datagram n) n) [ none ↦ none | some t ↦ f t ]
      ≡ some (sends frames left n)
send_first ip d ds mac [] n f left rest known c e = absurd c
send_first ip d ds mac (frame ∷ frames) n f left rest known ((bytes, written, is), c) e =
    let sent = carrier mac n.ethernet_address bytes in
    let t : NetworkInterface = record n { frames_out = n.frames_out ++ sent ∷ [] } in
    let pushed =
      datagram_frame-carrier d bytes mac n
        (subst (λ i. lookup i n.arp_table ≡ some mac) (sym e) known) written in
    ap (λ o. elim o as (λ _. Option NetworkInterface) [ none ↦ none | some t ↦ f t ]) pushed
    ∙ rest frames t known c
    ∙ ap (λ fs. some (record n { frames_out = fs; pending_datagrams = left }))
        (append_assoc n.frames_out (sent ∷ []) frames
          ∙ ap (λ g. n.frames_out ++ g ∷ frames) (sym is))

-- The test on the address of the first datagram, decided.
Carry-test :
    (ip : ℕ) (d : PendingDatagram) (ds : List PendingDatagram) (dst src : EthernetAddress)
    (frames : List EthernetFrame) (t : Bool)
    → (d.ip == ip) ≡ t
    → Carry dst src (waiting_for ip (d ∷ ds)) frames
    → Carry dst src (if t then d ∷ waiting_for ip ds else waiting_for ip ds) frames
Carry-test ip d ds dst src frames t h c =
    subst (λ b. Carry dst src (if b then d ∷ waiting_for ip ds else waiting_for ip ds) frames) h c

-- The loop over the waiting datagrams sends those for the address and keeps the others.
release-eq :
    (ip : ℕ) (ds : List PendingDatagram) (mac : EthernetAddress) (frames : List EthernetFrame)
    (n : NetworkInterface)
    → lookup ip n.arp_table ≡ some mac
    → Carry mac n.ethernet_address (waiting_for ip ds) frames
    → release ip ds n ≡ some (sends frames (others ip ds) n)
unfolding release
release-eq ip [] mac [] n known c =
    ap (λ fs. some (record n { frames_out = fs; pending_datagrams = [] }))
      (sym (append-nil n.frames_out))
release-eq ip [] mac (f ∷ frames) n known c = absurd c
release-eq ip (d ∷ ds) mac frames n known c = elim (Bool-cases (d.ip == ip)) [
  | inl h ↦ rw h (
      send_first ip d (waiting_for ip ds) mac frames n (release ip ds) (others ip ds)
        (λ fs t. release-eq ip ds mac fs t) known
        (Carry-test ip d ds mac n.ethernet_address frames true h c) (ground (arith, h)))
  | inr h ↦ rw h (
      ap (keep d) (
        release-eq ip ds mac frames n known
          (Carry-test ip d ds mac n.ethernet_address frames false h c)))
]

arp_frame_known :
    (ip : ℕ) (message : ArpMessage) (bytes : List ℕ) (mac : EthernetAddress) (n : NetworkInterface)
    → lookup ip n.arp_table ≡ some mac
    → ArpMessage.serialize message ≡ some bytes
    → push_frame (arp_frame ip message n) n
      ≡ some (record n {
        frames_out =
            n.frames_out
            ++ record {
              header = record { dst = mac; src = n.ethernet_address; type = type_arp };
              payload = bytes;
            }
              ∷ [];
      })
unfolding arp_frame push_frame
arp_frame_known ip message bytes mac n known written = ground (arith, known, written)

-- The answer is queued before the datagrams that it frees.
answered :
    (m : ArpMessage) (n : NetworkInterface)
    → let known : NetworkInterface = record n { arp_table = assign (entry_of m) n.arp_table } in
      (if m.opcode == opcode_request
        then push_frame
            (arp_frame m.sender_ip_address
              (generate_arp_message m.sender_ip_address opcode_reply known)
              known)
            known
        else some known)
      ≡ some (record known { frames_out = n.frames_out ++ answer m n })
answered m n =
    let ip = m.sender_ip_address in
    let known : NetworkInterface = record n { arp_table = assign (entry_of m) n.arp_table } in
    let found = lookup-assign (entry_of m) n.arp_table in
    let written : ArpMessage.serialize (generate_arp_message ip opcode_reply known)
        ≡ some (wire (reply_to m n) []) =
      rw found (serialize-wire (reply_to m n) refl) in
    elim (Bool-cases (m.opcode == opcode_request)) [
      | inl h ↦ rw h (
          arp_frame_known ip (generate_arp_message ip opcode_reply known) (wire (reply_to m n) [])
            m.sender_ethernet_address known found written)
      | inr h ↦ rw (h, append-nil n.frames_out) refl
    ]

-- The interface after a message for it.
abbrev pub after_message : ArpMessage → List EthernetFrame → NetworkInterface → NetworkInterface
after_message m frames n = record n {
  arp_table = assign (entry_of m) n.arp_table;
  pending_ips = other_requests m.sender_ip_address n.pending_ips;
  frames_out = n.frames_out ++ answer m n ++ frames;
  pending_datagrams = others m.sender_ip_address n.pending_datagrams;
}

learn-eq :
    (m : ArpMessage) (frames : List EthernetFrame) (n : NetworkInterface)
    → Carry m.sender_ethernet_address n.ethernet_address
        (waiting_for m.sender_ip_address n.pending_datagrams)
        frames
    → learn m n ≡ some (after_message m frames n)
unfolding learn
learn-eq m frames n c =
    let ip = m.sender_ip_address in
    let replied : NetworkInterface = record n {
      arp_table = assign (entry_of m) n.arp_table;
      frames_out = n.frames_out ++ answer m n;
    } in
    ap (settle ip) (answered m n)
    ∙ ap (λ ips. release ip n.pending_datagrams (record replied { pending_ips = ips }))
        (prune_pending-eq ip n.pending_ips)
    ∙ release-eq ip n.pending_datagrams m.sender_ethernet_address frames
        (record replied { pending_ips = other_requests ip n.pending_ips })
        (lookup-assign (entry_of m) n.arp_table) c

-- An ARP message that is sent to the interface or broadcast, reads without an error and asks for the
-- interface's own address, where every datagram that waits for its sender can be written: the
-- sender's address is noted and every other address is known as before, a request is answered with the interface's own address, then every
-- datagram that waits for the sender is sent to it, once and in order, and neither it nor a request
-- for the sender's address waits any more; the other datagrams and requests
-- wait on, and no datagram is handed up.
pub recv_frame-answer :
    (frame : EthernetFrame) (m : ArpMessage) (frames : List EthernetFrame) (n : NetworkInterface)
    (ip : ℕ)
    → (same_address frame.header.dst n.ethernet_address
        || same_address frame.header.dst ethernet_broadcast)
      ≡ true
    → (frame.header.type == type_ipv4) ≡ false
    → ArpMessage.parse frame.payload new_message ≡ (m, no_error)
    → m.target_ip_address ≡ n.ip_address
    → Carry m.sender_ethernet_address n.ethernet_address
        (waiting_for m.sender_ip_address n.pending_datagrams)
        frames
    → (recv_frame frame n ≡ some (after_message m frames n, none))
      × (lookup ip (after_message m frames n).arp_table ≡ (
          if m.sender_ip_address == ip
          then some m.sender_ethernet_address
          else lookup ip n.arp_table))
unfolding recv_frame
recv_frame-answer frame m frames n ip for_us arp read target c = (
  ground (arith, for_us, arp, read, target, learn-eq m frames n c),
  lookup-assign_any ip (entry_of m) n.arp_table,
)
