-- ===== src/TcpSegment/Wire.antt =====
-- libsponge/tcp_helpers/tcp_segment.cc: a TCP segment and its bytes.
pub mod RoundTrip
use csed353_sponge.Common.{◌==◌, if◌then◌else◌, ℕ, not, Option, none, some, List, ◌++◌}
use csed353_sponge.Checksum.{InternetChecksum, new_checksum, add, value}
use csed353_sponge.Parser.{ParseResult, bad_checksum, new_parser}
use csed353_sponge.TcpHeader.{TcpHeader}
use csed353_sponge.TcpHeader.Wire
use csed353_sponge.TcpSegment.{TcpSegment}

-- The segment after the call and the result. The result of parsing the header is not looked at; the
-- error of the parser is.
pub parse : List ℕ → ℕ → TcpSegment → TcpSegment × ParseResult
parse buffer datagram_layer_checksum old =
    let check = add buffer (new_checksum datagram_layer_checksum) in
    let (p, header, _) = Wire.parse (new_parser buffer) in
    if not (value check == 0)
    then (old, bad_checksum)
    else (record { header = header; payload = p.buffer }, p.error)

-- The header that is sent: the checksum is taken of the header with the checksum 0, and the payload.
abbrev pub with_checksum : TcpSegment → List ℕ → ℕ → TcpHeader
with_checksum seg zero_checksum datagram_layer_checksum = record seg.header {
  cksum = value (add seg.payload (add zero_checksum (new_checksum datagram_layer_checksum)));
}

-- `none` is the exception.
pub serialize : TcpSegment → ℕ → Option (List ℕ)
serialize seg datagram_layer_checksum = elim (Wire.serialize (record seg.header { cksum = 0 })) [
  | none ↦ none
  | some zero_checksum ↦
      elim (Wire.serialize (with_checksum seg zero_checksum datagram_layer_checksum)) [
        | none ↦ none
        | some header ↦ some (header ++ seg.payload)
      ]
]
