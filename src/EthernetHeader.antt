-- ===== src/EthernetHeader.antt =====
-- libsponge/tcp_helpers/ethernet_header.hh, ethernet_header.cc, ethernet_frame.hh and
-- ethernet_frame.cc: Ethernet headers and frames, and their bytes.
pub mod RoundTrip
use csed353_sponge.Common.{ltb, if◌then◌else◌, length, ℕ, List, [], ◌++◌}
use csed353_sponge.Parser.{ParseResult, packet_too_short, NetParser, new_parser, u16, put_u16}
use csed353_sponge.ArpMessage.{EthernetAddress, read_address, put_address}

-- `EthernetHeader::LENGTH`, `TYPE_ARP` and `ETHERNET_BROADCAST`
abbrev pub frame_header_length : ℕ
frame_header_length = 14

abbrev pub type_arp : ℕ
type_arp = 0x806

abbrev pub ethernet_broadcast : EthernetAddress
ethernet_broadcast = record {
  byte_0 = 0xff;
  byte_1 = 0xff;
  byte_2 = 0xff;
  byte_3 = 0xff;
  byte_4 = 0xff;
  byte_5 = 0xff;
}

pub record EthernetHeader : Type 0 where
  pub dst : EthernetAddress
  pub src : EthernetAddress
  pub type : ℕ

pub record EthernetFrame : Type 0 where
  pub header : EthernetHeader
  pub payload : List ℕ

-- The parser and the header after the call, and the result.
pub parse_header : NetParser → EthernetHeader → NetParser × EthernetHeader × ParseResult
parse_header start header =
    let (p, dst) = read_address start in
    let (p, src) = read_address p in
    let (p, type) = u16 p in
    if ltb (length start.buffer) frame_header_length
    then (start, header, packet_too_short)
    else (p, record { dst = dst; src = src; type = type }, p.error)

pub serialize_header : EthernetHeader → List ℕ
serialize_header header =
    let ret = put_address [] header.dst in
    let ret = put_address ret header.src in put_u16 ret header.type

-- `EthernetFrame::parse`, which does not look at the result of parsing the header.
pub parse_frame : List ℕ → EthernetFrame → EthernetFrame × ParseResult
parse_frame buffer frame =
    let (p, header, _) = parse_header (new_parser buffer) frame.header in
    (record { header = header; payload = p.buffer }, p.error)

pub serialize_frame : EthernetFrame → List ℕ
serialize_frame frame = serialize_header frame.header ++ frame.payload
