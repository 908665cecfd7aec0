-- ===== src/TcpOverIp/Tests.antt =====
-- Runs of the adapter of libsponge/tcp_helpers/tcp_over_ip.cc.
use csed353_sponge.Common.{ℕ, ◌≡◌, refl, true, false, some, List, [], ◌∷◌, arith}
use csed353_sponge.TcpHeader.{new_header}
use csed353_sponge.TcpHeader.Wire.RoundTrip
use csed353_sponge.TcpSegment.{TcpSegment}
use csed353_sponge.FdAdapter.{FdAdapter}
use csed353_sponge.TcpConfig.{new_adapter_config}
use csed353_sponge.TcpOverIp.{tun_read, tun_write}
use csed353_sponge.TcpOverIp.Opens.{tun_opens}
use csed353_sponge.TcpOverIp.RoundTrip.{IsAdapter, arrived}

abbrev hello : TcpSegment
hello = record { header = record new_header { syn = true; win = 1000 }; payload = 104 ∷ 105 ∷ [] }

hello-IsHeader : RoundTrip.IsHeader hello.header
hello-IsHeader = record {
  sport = omega arith;
  dport = omega arith;
  seqno = omega arith;
  ackno = omega arith;
  doff = omega arith;
  covers = omega arith;
  win = omega arith;
  cksum = omega arith;
  uptr = omega arith;
}

abbrev client : FdAdapter
client = record {
  cfg = record new_adapter_config {
    source = record { ip = 167838211; port = 5000 };
    destination = record { ip = 167838212; port = 80 };
  };
  listening = false;
}

abbrev server : FdAdapter
server = record {
  cfg = record new_adapter_config {
    source = client.cfg.destination;
    destination = client.cfg.source;
  };
  listening = false;
}

abbrev listener : FdAdapter
listener = record {
  cfg = record new_adapter_config { source = record { ip = 0; port = 80 } };
  listening = true;
}

client-IsAdapter : IsAdapter client
client-IsAdapter = record {
  source = omega arith;
  source_port = omega arith;
  destination = omega arith;
  destination_port = omega arith;
}

tun_opens_example :
    (bytes : List ℕ) × (c : ℕ) × (tun_write hello client ≡ some bytes)
    × (tun_read bytes listener ≡ (server, some (arrived hello client c)))
tun_opens_example =
    tun_opens hello client listener hello-IsHeader client-IsAdapter (omega arith) refl refl refl
