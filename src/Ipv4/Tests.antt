-- ===== src/Ipv4/Tests.antt =====
-- A concrete datagram for libsponge/tcp_helpers/ipv4_datagram.cc.
use csed353_sponge.Common.{ℕ, ◌≡◌, refl, true, false, some, List, [], ◌∷◌, arith}
use csed353_sponge.Parser.{no_error}
use csed353_sponge.Ipv4.{Ipv4Datagram, parse_datagram, serialize_datagram}
use csed353_sponge.Ipv4.Header.{IsHeader}
use csed353_sponge.Ipv4.RoundTrip.{datagram_roundtrip}

-- With four bytes of options and two of payload.
abbrev datagram : Ipv4Datagram
datagram = record {
  header = record {
    ver = 4;
    hlen = 6;
    tos = 0;
    len = 26;
    id = 7;
    df = true;
    mf = false;
    offset = 0;
    ttl = 128;
    proto = 6;
    cksum = 0;
    src = 3232235777;
    dst = 3232235778;
  };
  payload = 1 ∷ 2 ∷ [];
}

datagram-IsHeader : IsHeader datagram.header
datagram-IsHeader = record {
  ver = refl;
  hlen = omega arith;
  covers = omega arith;
  tos = omega arith;
  len = omega arith;
  id = omega arith;
  offset = omega arith;
  ttl = omega arith;
  proto = omega arith;
  cksum = omega arith;
  src = omega arith;
  dst = omega arith;
}

datagram_roundtrip_example :
    (bytes : List ℕ) × (c : ℕ) × (serialize_datagram datagram ≡ some bytes)
    × (parse_datagram bytes datagram ≡ (
      record { header = record datagram.header { cksum = c }; payload = datagram.payload },
      no_error,
    ))
datagram_roundtrip_example = datagram_roundtrip datagram datagram datagram-IsHeader refl
