-- ===== src/Router/Tests.antt =====
-- Runs of the router of libsponge/router.cc.
use csed353_sponge.Common.{ℕ, ◌-◌, ◌*◌, ◌/◌, ◌^◌, ◌≡◌, refl, true, none, some, List, [], ◌∷◌, arith}
use mathlib.Core.Logic.{◌↔◌}
use csed353_sponge.Ipv4.{Ipv4Datagram, new_datagram}
use csed353_sponge.ArpMessage.{EthernetAddress}
use csed353_sponge.NetworkInterface.{new_interface}
use csed353_sponge.Router.{
  RoutingTableEntry, Router, new_async, new_entry, find_route, matches, route,
}
use csed353_sponge.Router.Match.{IsChoice, find_route_lem}
use csed353_sponge.Router.Prefix.{matches_iff}
use csed353_sponge.Router.Queues.{forward_all, joined, queues, idle}
use csed353_sponge.Router.Route.{route_lem}

abbrev address : EthernetAddress
address = record { byte_0 = 2; byte_1 = 0; byte_2 = 0; byte_3 = 0; byte_4 = 0; byte_5 = 1 }

-- 10.1.2.3
abbrev host : ℕ
host = 167838211

-- The default route, 10.0.0.0/8, 10.1.0.0/16 and 10.1.0.0/16 again.
abbrev table : List RoutingTableEntry
table =
    new_entry 0 0 (some 1) 0
    ∷ new_entry 167772160 8 none 1
    ∷ new_entry 167837696 16 none 2
    ∷ new_entry 167837696 16 none 3
    ∷ []

abbrev dgram : ℕ → Ipv4Datagram
dgram ttl = record new_datagram {
  header = record new_datagram.header { ttl = ttl; len = 20; dst = host };
}

abbrev busy : Router
busy = record {
  interfaces =
      record { base = new_interface address 1; datagrams_out = dgram 1 ∷ dgram 64 ∷ [] }
      ∷ record { base = new_interface address 2; datagrams_out = dgram 64 ∷ [] }
      ∷ new_async (new_interface address 3)
      ∷ [];
  routing_table = table;
}

longest : find_route host table none ≡ some (new_entry 167837696 16 none 2)
unfolding find_route
longest = refl

find_route_lem_example : IsChoice host table (find_route host table none)
find_route_lem_example = find_route_lem host table

matches_iff_example :
    (matches host (new_entry 167837696 16 none 2) ≡ true)
    ↔ (167837696 ≡ host / 2 ^ (32 - 16) * 2 ^ (32 - 16))
matches_iff_example = matches_iff host 167837696 16 2 none (omega arith) (omega arith)

route_lem_example : route busy ≡ forward_all (joined (queues busy)) (idle busy)
route_lem_example = route_lem busy
