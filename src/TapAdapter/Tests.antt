-- ===== src/TapAdapter/Tests.antt =====
-- Runs of the TAP adapter of libsponge/tcp_helpers/tuntap_adapter.cc.
use csed353_sponge.Common.{ℕ, ◌<◌, ◌≡◌, refl, true, false, some, List, [], ◌∷◌, arith}
use csed353_sponge.TcpHeader.{new_header}
use csed353_sponge.TcpHeader.Wire.RoundTrip
use csed353_sponge.TcpSegment.{TcpSegment}
use csed353_sponge.ArpMessage.{EthernetAddress}
use csed353_sponge.ArpMessage.RoundTrip.{IsAddress}
use csed353_sponge.NetworkInterface.{lookup, new_interface}
use csed353_sponge.TcpConfig.{new_adapter_config}
use csed353_sponge.TcpOverIp.RoundTrip.{IsAdapter, arrived}
use csed353_sponge.TapAdapter.{TapAdapter, tap_read, tap_write}
use csed353_sponge.TapAdapter.RoundTrip.{tap_roundtrip}

abbrev hello : TcpSegment
hello = record { header = record new_header { syn = true; win = 1000 }; payload = 104 ∷ 105 ∷ [] }

hello-IsHeader : RoundTrip.IsHeader hello.header
hello-IsHeader = record {
  sport = omega arith;
  dport = omega arith;
  seqno = omega arith;
  ackno = omega arith;
  doff = omega arith;
  covers = omega arith;
  win = omega arith;
  cksum = omega arith;
  uptr = omega arith;
}

abbrev card : ℕ → EthernetAddress
card n = record { byte_0 = 2; byte_1 = 0; byte_2 = 0; byte_3 = 0; byte_4 = 0; byte_5 = n }

card-IsAddress : (n : ℕ) → n < 256 → IsAddress (card n)
card-IsAddress n h = record {
  fits_0 = omega arith;
  fits_1 = omega arith;
  fits_2 = omega arith;
  fits_3 = omega arith;
  fits_4 = omega arith;
  fits_5 = h;
}

abbrev client : TapAdapter
client = record {
  base = record {
    cfg = record new_adapter_config {
      source = record { ip = 167838211; port = 5000 };
      destination = record { ip = 167838212; port = 80 };
    };
    listening = false;
  };
  interface = record (new_interface (card 1) 167838211) {
    arp_table = record { ip = 167838212; address = card 2; ttl = 30000 } ∷ [];
  };
  next_hop = 167838212;
}

abbrev server : TapAdapter
server = record {
  base = record {
    cfg = record new_adapter_config {
      source = client.base.cfg.destination;
      destination = client.base.cfg.source;
    };
    listening = false;
  };
  interface = new_interface (card 2) 167838212;
  next_hop = 167838211;
}

client-IsAdapter : IsAdapter client.base
client-IsAdapter = record {
  source = omega arith;
  source_port = omega arith;
  destination = omega arith;
  destination_port = omega arith;
}

tap_roundtrip_example :
    (bytes : List ℕ) × (c : ℕ) × (tap_write hello client ≡ some (client, bytes ∷ []))
    × (tap_read bytes server ≡ some (server, some (arrived hello client.base c), []))
unfolding lookup
tap_roundtrip_example =
    tap_roundtrip hello client server hello-IsHeader client-IsAdapter (omega arith)
      (card-IsAddress 1 (omega arith)) (card-IsAddress 2 (omega arith)) refl refl refl refl refl
      refl
