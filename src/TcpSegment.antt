-- ===== src/TcpSegment.antt =====
-- libsponge/tcp_helpers/tcp_segment.hh and tcp_segment.cc: a TCP segment and the sequence numbers
-- that it takes up.
pub mod Wire
mod Tests
use csed353_sponge.Common.{if◌then◌else◌, length, ℕ, ◌+◌, List, []}
use csed353_sponge.TcpHeader.{TcpHeader, new_header}

pub record TcpSegment : Type 0 where
  pub header : TcpHeader
  pub payload : List ℕ

abbrev pub new_segment : TcpSegment
new_segment = record { header = new_header; payload = [] }

abbrev pub length_in_sequence_space : TcpSegment → ℕ
length_in_sequence_space seg =
    length seg.payload + (if seg.header.syn then 1 else 0) + (if seg.header.fin then 1 else 0)
