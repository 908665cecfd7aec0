-- ===== src/TcpReceiver.antt =====
-- libsponge/tcp_receiver.hh and tcp_receiver.cc: the receiving half of a TCP endpoint.
pub mod Receive
pub mod Ackno
pub mod Segments
pub mod EarlyFin
mod Tests
use csed353_sponge.Common.{
  if◌then◌else◌, to_ℕ, add64, sub64, ℕ, Bool, true, false, not, ◌&&◌, Option, none, some,
}
use csed353_sponge.ByteStream
use csed353_sponge.ByteStream.{ByteStream}
use csed353_sponge.StreamReassembler
use csed353_sponge.StreamReassembler.{StreamReassembler}
use csed353_sponge.WrappingIntegers.{WrappingInt32, plus, wrap, unwrap}
use csed353_sponge.TcpSegment.{TcpSegment}

pub record TcpReceiver : Type 0 where
  pub reassembler : StreamReassembler
  pub capacity : ℕ
  pub is_syn : Bool
  pub is_fin : Bool
  pub isn : WrappingInt32

unfoldable pub init : ℕ → TcpReceiver
init capacity = record {
  reassembler = StreamReassembler.init capacity;
  capacity = capacity;
  is_syn = false;
  is_fin = false;
  isn = record { raw_value = 0 };
}

abbrev pub stream_out : TcpReceiver → ByteStream
stream_out r = r.reassembler.output

abbrev pub unassembled_bytes : TcpReceiver → ℕ
unassembled_bytes r = r.reassembler.unassembled_bytes

abbrev pub first_unassembled : TcpReceiver → ℕ
first_unassembled r = (stream_out r).bytes_written

-- The index in the stream of the first payload byte of a segment.
abbrev pub stream_index : TcpSegment → TcpReceiver → ℕ
stream_index seg r =
    sub64 (unwrap (plus seg.header.seqno (to_ℕ seg.header.syn)) r.isn (first_unassembled r)) 1

-- The SYN flag and the initial sequence number, from the first segment that has one.
abbrev pub note_syn : TcpSegment → TcpReceiver → TcpReceiver
note_syn seg r =
    let opens = not r.is_syn && seg.header.syn in
    record r {
      is_syn = if opens then true else r.is_syn;
      isn = if opens then seg.header.seqno else r.isn;
    }

pub segment_received : TcpSegment → TcpReceiver → TcpReceiver
segment_received seg r =
    let opened = note_syn seg r in
    if not opened.is_syn then opened else record opened {
      is_fin = if seg.header.fin then true else opened.is_fin;
      reassembler =
          StreamReassembler.push_substring seg.payload (stream_index seg opened) seg.header.fin
            opened.reassembler;
    }

pub ackno : TcpReceiver → Option WrappingInt32
ackno r =
    let fin = r.is_fin && StreamReassembler.empty r.reassembler in
    let abs_seqno = add64 (add64 (to_ℕ r.is_syn) (first_unassembled r)) (to_ℕ fin) in
    if not r.is_syn then none else some (wrap abs_seqno r.isn)

abbrev pub window_size : TcpReceiver → ℕ
window_size r = sub64 r.capacity (ByteStream.buffer_size (stream_out r))
