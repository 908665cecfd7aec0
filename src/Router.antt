-- ===== src/Router.antt =====
-- libsponge/router.hh and router.cc: a router between network interfaces.
pub mod Match
pub mod Prefix
pub mod Queues
pub mod Drain
pub mod Route
mod Tests
use csed353_sponge.Common.{
  ltb, leb, ◌==◌, if◌then◌else◌, sub64, length, get_elem?, set, drop, ℕ, zero, suc, ◌-◌, ◌*◌, ◌%◌,
  ◌^◌, Bool, true, ◌&&◌, Option, none, some, List, [], ◌∷◌, ◌++◌,
}
use Prim.Native.Nat.{bit_and}
use csed353_sponge.EthernetHeader.{EthernetFrame}
use csed353_sponge.Ipv4.{Ipv4Datagram}
use csed353_sponge.NetworkInterface
use csed353_sponge.NetworkInterface.{NetworkInterface, send_datagram}

pub record AsyncNetworkInterface : Type 0 where
  pub base : NetworkInterface
  pub datagrams_out : List Ipv4Datagram

-- The constructor from a `NetworkInterface`.
abbrev pub new_async : NetworkInterface → AsyncNetworkInterface
new_async interface = record { base = interface; datagrams_out = [] }

pub recv_frame : EthernetFrame → AsyncNetworkInterface → Option AsyncNetworkInterface
recv_frame frame a = elim (NetworkInterface.recv_frame frame a.base) [
  | none ↦ none
  | some (base, none) ↦ some (record a { base = base })
  | some (base, some datagram) ↦
      some (record { base = base; datagrams_out = a.datagrams_out ++ datagram ∷ [] })
]

-- `next_hop` is the number of the address.
pub record RoutingTableEntry : Type 0 where
  pub route_prefix : ℕ
  pub prefix_length : ℕ
  pub prefix_mask : ℕ
  pub next_hop : Option ℕ
  pub interface_num : ℕ

pub record Router : Type 0 where
  pub interfaces : List AsyncNetworkInterface
  pub routing_table : List RoutingTableEntry

abbrev pub new_router : Router
new_router = record { interfaces = []; routing_table = [] }

-- The new state and the index of the interface.
abbrev pub add_interface : AsyncNetworkInterface → Router → Router × ℕ
add_interface interface r =
    let interfaces = r.interfaces ++ interface ∷ [] in
    (record r { interfaces = interfaces }, sub64 (length interfaces) 1)

-- `~uint32_t(0) << (32 - prefix_length)`. The shift has a meaning for lengths up to 32.
abbrev pub mask_of : ℕ → ℕ
mask_of prefix_length =
    if prefix_length == 0 then 0 else (2 ^ 32 - 1) * 2 ^ (32 - prefix_length) % 2 ^ 32

abbrev pub new_entry : ℕ → ℕ → Option ℕ → ℕ → RoutingTableEntry
new_entry route_prefix prefix_length next_hop interface_num = record {
  route_prefix = route_prefix;
  prefix_length = prefix_length;
  prefix_mask = mask_of prefix_length;
  next_hop = next_hop;
  interface_num = interface_num;
}

abbrev pub add_route : ℕ → ℕ → Option ℕ → ℕ → Router → Router
add_route route_prefix prefix_length next_hop interface_num r = record r {
  routing_table =
      r.routing_table ++ new_entry route_prefix prefix_length next_hop interface_num ∷ [];
}

abbrev pub matches : ℕ → RoutingTableEntry → Bool
matches dst e = bit_and dst e.prefix_mask == e.route_prefix

-- `target > it` holds only before the first match, when `target` is the end of the table.
abbrev pub is_longer : RoutingTableEntry → Option RoutingTableEntry → Bool
is_longer e none = true
is_longer e (some target) = ltb target.prefix_length e.prefix_length

-- The loop over the routing table.
pub find_route : ℕ → List RoutingTableEntry → Option RoutingTableEntry → Option RoutingTableEntry
find_route dst [] target = target
find_route dst (e ∷ es) target =
    find_route dst es (if matches dst e && is_longer e target then some e else target)

-- The call of an interface by index. `none` is an exception, or an index past the end, for which
-- `operator[]` has no meaning.
pub send_on : ℕ → Ipv4Datagram → ℕ → Router → Option Router
send_on interface_num datagram next_hop r = elim (get_elem? r.interfaces interface_num) [
  | none ↦ none
  | some a ↦ elim (send_datagram datagram next_hop a.base) [
    | none ↦ none
    | some base ↦
        some (record r { interfaces = set r.interfaces interface_num (record a { base = base }) })
  ]
]

abbrev pub forwarded : Ipv4Datagram → Ipv4Datagram
forwarded d = record d { header = record d.header { ttl = d.header.ttl - 1 } }

pub route_one_datagram : Ipv4Datagram → Router → Option Router
route_one_datagram d r =
    let dst = d.header.dst in
    if leb d.header.ttl 1 then some r else elim (find_route dst r.routing_table none) [
      | none ↦ some r
      | some target ↦
          send_on target.interface_num (forwarded d)
            (elim target.next_hop [ some next_hop ↦ next_hop | none ↦ dst ]) r
    ]

-- The queue of an interface, and `pop` on it.
abbrev pub queue : ℕ → Router → List Ipv4Datagram
queue i r = elim (get_elem? r.interfaces i) [ none ↦ [] | some a ↦ a.datagrams_out ]

pub pop_queue : ℕ → Router → Router
pop_queue i r = elim (get_elem? r.interfaces i) [
  | none ↦ r
  | some a ↦ record r {
    interfaces = set r.interfaces i (record a { datagrams_out = drop 1 a.datagrams_out });
  }
]

-- The inner loop of `route`, at most `rounds` times.
pub drain : ℕ → ℕ → Router → Option Router
drain zero i r = some r
drain (suc rounds) i r = elim (queue i r) [
  | [] ↦ some r
  | d ∷ ds ↦ elim (route_one_datagram d r) [ none ↦ none | some t ↦ drain rounds i (pop_queue i t) ]
]

-- The outer loop, with the number of interfaces that are left and the index of the next. As many
-- rounds as there are datagrams in the queue are enough (Router/Drain).
pub route_from : ℕ → ℕ → Router → Option Router
route_from zero i r = some r
route_from (suc left) i r = elim (drain (length (queue i r)) i r) [
  | none ↦ none
  | some t ↦ route_from left (suc i) t
]

pub route : Router → Option Router
route r = route_from (length r.interfaces) 0 r
