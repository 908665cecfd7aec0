-- ===== src/TcpSegment/Tests.antt =====
-- The bytes of a segment of libsponge/tcp_helpers/tcp_segment.cc.
use csed353_sponge.Common.{length, ℕ, ◌+◌, ◌*◌, ◌≡◌, true, some, List, [], ◌∷◌, arith}
use csed353_sponge.Parser.{no_error}
use csed353_sponge.TcpHeader.{new_header}
use csed353_sponge.TcpHeader.Wire.RoundTrip
use csed353_sponge.TcpSegment.{TcpSegment, new_segment}
use csed353_sponge.TcpSegment.Wire
use csed353_sponge.TcpSegment.Wire.RoundTrip.{segment_roundtrip}

abbrev push_segment : TcpSegment
push_segment = record {
  header = record new_header { ack = true; psh = true; win = 1000 };
  payload = 104 ∷ 105 ∷ 106 ∷ [];
}

push_segment-IsHeader : RoundTrip.IsHeader push_segment.header
push_segment-IsHeader = record {
  sport = omega arith;
  dport = omega arith;
  seqno = omega arith;
  ackno = omega arith;
  doff = omega arith;
  covers = omega arith;
  win = omega arith;
  cksum = omega arith;
  uptr = omega arith;
}

segment_roundtrip_example :
    (bytes : List ℕ) × (c : ℕ) × (Wire.serialize push_segment 4711 ≡ some bytes)
    × (length bytes ≡ 4 * push_segment.header.doff + length push_segment.payload)
    × (Wire.parse bytes 4711 new_segment ≡ (
      record { header = record push_segment.header { cksum = c }; payload = push_segment.payload },
      no_error,
    ))
segment_roundtrip_example =
    segment_roundtrip push_segment new_segment 4711 push_segment-IsHeader (omega arith)
      (omega arith)
