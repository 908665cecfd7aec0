-- ===== src/NetworkInterface.antt =====
-- libsponge/network_interface.hh and network_interface.cc: a network interface that finds Ethernet
-- addresses by ARP.
pub mod Waiting
pub mod Requests
pub mod Answer
pub mod Run
pub mod Asking
pub mod Exchange
pub mod Delivery
mod Tests
use csed353_sponge.Common.{
  leb, ◌==◌, if◌then◌else◌, is_some, ℕ, ◌-◌, Bool, false, not, ◌&&◌, ◌||◌, Option, none, some, List,
  [], ◌∷◌, ◌++◌,
}
use csed353_sponge.Parser.{ParseResult, is_error}
use csed353_sponge.ArpMessage
use csed353_sponge.ArpMessage.{
  EthernetAddress, ArpMessage, no_address, new_message, opcode_request, opcode_reply, type_ipv4,
}
use csed353_sponge.EthernetHeader.{EthernetHeader, EthernetFrame, ethernet_broadcast, type_arp}
use csed353_sponge.Ipv4.{Ipv4Datagram, new_datagram, parse_datagram, serialize_datagram}

-- `ARPConfig`
abbrev pub default_arp_ttl : ℕ
default_arp_ttl = 30000

abbrev pub default_arp_timeout : ℕ
default_arp_timeout = 5000

-- The elements of the three containers.
pub record ArpEntry : Type 0 where
  pub ip : ℕ
  pub address : EthernetAddress
  pub ttl : ℕ

pub record PendingIp : Type 0 where
  pub ip : ℕ
  pub ttl : ℕ

pub record PendingDatagram : Type 0 where
  pub ip : ℕ
  pub datagram : Ipv4Datagram

-- `ip_address` is the number of the address. The map is a list of entries; the order of its keys is
-- not observed.
pub record NetworkInterface : Type 0 where
  pub ethernet_address : EthernetAddress
  pub ip_address : ℕ
  pub frames_out : List EthernetFrame
  pub arp_table : List ArpEntry
  pub pending_ips : List PendingIp
  pub pending_datagrams : List PendingDatagram

abbrev pub new_interface : EthernetAddress → ℕ → NetworkInterface
new_interface ethernet_address ip_address = record {
  ethernet_address = ethernet_address;
  ip_address = ip_address;
  frames_out = [];
  arp_table = [];
  pending_ips = [];
  pending_datagrams = [];
}

-- `find` and the assignment to an element of the map.
unfoldable pub lookup : ℕ → List ArpEntry → Option EthernetAddress
lookup ip [] = none
lookup ip (e ∷ es) = if e.ip == ip then some e.address else lookup ip es

pub assign : ArpEntry → List ArpEntry → List ArpEntry
assign entry [] = entry ∷ []
assign entry (e ∷ es) = if e.ip == entry.ip then entry ∷ es else e ∷ assign entry es

abbrev pub same_address : EthernetAddress → EthernetAddress → Bool
same_address a b =
    (a.byte_0 == b.byte_0)
    && (a.byte_1 == b.byte_1)
    && (a.byte_2 == b.byte_2)
    && (a.byte_3 == b.byte_3)
    && (a.byte_4 == b.byte_4)
    && (a.byte_5 == b.byte_5)

abbrev pub generate_arp_message : ℕ → ℕ → NetworkInterface → ArpMessage
generate_arp_message target_ip_address opcode n = record new_message {
  sender_ethernet_address = n.ethernet_address;
  sender_ip_address = n.ip_address;
  target_ethernet_address = elim (lookup target_ip_address n.arp_table) [
    | some a ↦ a
    | none ↦ no_address
  ];
  target_ip_address = target_ip_address;
  opcode = opcode;
}

abbrev pub build_frame_header : ℕ → ℕ → NetworkInterface → EthernetHeader
build_frame_header dst_ip_address type n = record {
  dst = elim (lookup dst_ip_address n.arp_table) [ some a ↦ a | none ↦ ethernet_broadcast ];
  src = n.ethernet_address;
  type = type;
}

-- `_generate_frame` of a datagram and of an ARP message. `none` is an exception of `serialize`.
pub datagram_frame : ℕ → Ipv4Datagram → NetworkInterface → Option EthernetFrame
datagram_frame ip datagram n = elim (serialize_datagram datagram) [
  | none ↦ none
  | some payload ↦ some (record { header = build_frame_header ip type_ipv4 n; payload = payload })
]

pub arp_frame : ℕ → ArpMessage → NetworkInterface → Option EthernetFrame
arp_frame ip message n = elim (ArpMessage.serialize message) [
  | none ↦ none
  | some payload ↦ some (record { header = build_frame_header ip type_arp n; payload = payload })
]

pub push_frame : Option EthernetFrame → NetworkInterface → Option NetworkInterface
push_frame none n = none
push_frame (some frame) n = some (record n { frames_out = n.frames_out ++ frame ∷ [] })

-- The loop of `send_datagram`.
abbrev pub any_pending : ℕ → List PendingIp → Bool
any_pending ip [] = false
any_pending ip (e ∷ es) = (e.ip == ip) || any_pending ip es

-- `next_hop` is the number of the address.
pub send_datagram : Ipv4Datagram → ℕ → NetworkInterface → Option NetworkInterface
send_datagram datagram next_hop n =
    let pended = record n {
      pending_datagrams = n.pending_datagrams ++ record { ip = next_hop; datagram = datagram } ∷ [];
    } in
    let asked = record pended {
      pending_ips = n.pending_ips ++ record { ip = next_hop; ttl = default_arp_timeout } ∷ [];
    } in
    let request = generate_arp_message next_hop opcode_request n in
    if is_some (lookup next_hop n.arp_table)
    then push_frame (datagram_frame next_hop datagram n) n
    else if any_pending next_hop n.pending_ips
    then some pended
    else push_frame (arp_frame next_hop request n) asked

-- The last two loops of `recv_frame`.
abbrev pub prune_pending : ℕ → List PendingIp → List PendingIp
prune_pending ip [] = []
prune_pending ip (e ∷ es) = if e.ip == ip then prune_pending ip es else e ∷ prune_pending ip es

abbrev pub keep : PendingDatagram → Option NetworkInterface → Option NetworkInterface
keep d none = none
keep d (some n) = some (record n { pending_datagrams = d ∷ n.pending_datagrams })

pub release : ℕ → List PendingDatagram → NetworkInterface → Option NetworkInterface
release ip [] n = some (record n { pending_datagrams = [] })
release ip (d ∷ ds) n =
    let kept = keep d (release ip ds n) in
    let sent : Option NetworkInterface = elim (push_frame (datagram_frame d.ip d.datagram n) n) [
      | none ↦ none
      | some t ↦ release ip ds t
    ] in
    if d.ip == ip then sent else kept

abbrev pub settle : ℕ → Option NetworkInterface → Option NetworkInterface
settle ip none = none
settle ip (some n) =
    release ip n.pending_datagrams (record n { pending_ips = prune_pending ip n.pending_ips })

-- What `recv_frame` does with an ARP message that is for the interface.
pub learn : ArpMessage → NetworkInterface → Option NetworkInterface
learn message n =
    let ip = message.sender_ip_address in
    let known = record n {
      arp_table =
          assign
            (record { ip = ip; address = message.sender_ethernet_address; ttl = default_arp_ttl })
            n.arp_table;
    } in
    let reply = arp_frame ip (generate_arp_message ip opcode_reply known) known in
    let replied = if message.opcode == opcode_request then push_frame reply known else some known in
    settle ip replied

abbrev pub deliver : Option NetworkInterface → Option (NetworkInterface × Option Ipv4Datagram)
deliver none = none
deliver (some n) = some (n, none)

-- The new state and the datagram that is handed up. The payload of a frame is one buffer.
pub recv_frame : EthernetFrame → NetworkInterface → Option (NetworkInterface × Option Ipv4Datagram)
recv_frame frame n =
    let header = frame.header in
    let (datagram, datagram_result) = parse_datagram frame.payload new_datagram in
    let (message, arp_result) = ArpMessage.parse frame.payload new_message in
    if not (same_address header.dst n.ethernet_address)
      && not (same_address header.dst ethernet_broadcast)
    then some (n, none)
    else if header.type == type_ipv4
    then some (n, (if is_error datagram_result then none else some datagram))
    else if is_error arp_result
    then some (n, none)
    else if not (message.target_ip_address == n.ip_address)
    then some (n, none)
    else deliver (learn message n)

-- The loops of `tick`.
abbrev pub keep_ip : PendingIp → Option NetworkInterface → Option NetworkInterface
keep_ip e none = none
keep_ip e (some n) = some (record n { pending_ips = e ∷ n.pending_ips })

pub retry : ℕ → List PendingIp → NetworkInterface → Option NetworkInterface
retry ms [] n = some (record n { pending_ips = [] })
retry ms (e ∷ es) n =
    let request = arp_frame e.ip (generate_arp_message e.ip opcode_request n) n in
    let later = keep_ip (record e { ttl = e.ttl - ms }) (retry ms es n) in
    let again : Option NetworkInterface = elim (push_frame request n) [
      | none ↦ none
      | some t ↦ keep_ip (record e { ttl = default_arp_timeout }) (retry ms es t)
    ] in
    if leb e.ttl ms then again else later

pub expire : ℕ → List ArpEntry → List ArpEntry
expire ms [] = []
expire ms (e ∷ es) =
    if leb e.ttl ms then expire ms es else record e { ttl = e.ttl - ms } ∷ expire ms es

pub tick : ℕ → NetworkInterface → Option NetworkInterface
tick ms_since_last_tick n = elim (retry ms_since_last_tick n.pending_ips n) [
  | none ↦ none
  | some t ↦ some (record t { arp_table = expire ms_since_last_tick t.arp_table })
]
