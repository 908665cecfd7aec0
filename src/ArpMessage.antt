-- ===== src/ArpMessage.antt =====
-- libsponge/tcp_helpers/arp_message.hh and arp_message.cc: ARP messages, and their bytes.
pub mod RoundTrip
use csed353_sponge.Common.{
  ltb, ◌==◌, if◌then◌else◌, length, ℕ, Bool, not, ◌&&◌, ◌||◌, Option, none, some, List, [],
}
use csed353_sponge.Parser.{
  ParseResult, packet_too_short, unsupported, NetParser, new_parser, u32, u16, u8, put_u32, put_u16,
  put_u8,
}

-- `EthernetAddress`, an array of six bytes.
pub record EthernetAddress : Type 0 where
  pub byte_0 : ℕ
  pub byte_1 : ℕ
  pub byte_2 : ℕ
  pub byte_3 : ℕ
  pub byte_4 : ℕ
  pub byte_5 : ℕ

abbrev pub no_address : EthernetAddress
no_address = record { byte_0 = 0; byte_1 = 0; byte_2 = 0; byte_3 = 0; byte_4 = 0; byte_5 = 0 }

-- `ARPMessage::LENGTH`, `TYPE_ETHERNET`, `OPCODE_REQUEST`, `OPCODE_REPLY`, and
-- `EthernetHeader::TYPE_IPv4`
abbrev pub message_length : ℕ
message_length = 28

abbrev pub type_ethernet : ℕ
type_ethernet = 1

abbrev pub opcode_request : ℕ
opcode_request = 1

abbrev pub opcode_reply : ℕ
opcode_reply = 2

abbrev pub type_ipv4 : ℕ
type_ipv4 = 0x800

pub record ArpMessage : Type 0 where
  pub hardware_type : ℕ
  pub protocol_type : ℕ
  pub hardware_address_size : ℕ
  pub protocol_address_size : ℕ
  pub opcode : ℕ
  pub sender_ethernet_address : EthernetAddress
  pub sender_ip_address : ℕ
  pub target_ethernet_address : EthernetAddress
  pub target_ip_address : ℕ

-- The default member initialisers.
abbrev pub new_message : ArpMessage
new_message = record {
  hardware_type = type_ethernet;
  protocol_type = type_ipv4;
  hardware_address_size = 6;
  protocol_address_size = 4;
  opcode = 0;
  sender_ethernet_address = no_address;
  sender_ip_address = 0;
  target_ethernet_address = no_address;
  target_ip_address = 0;
}

abbrev pub supported : ArpMessage → Bool
supported m =
    (m.hardware_type == type_ethernet)
    && (m.protocol_type == type_ipv4)
    && (m.hardware_address_size == 6)
    && (m.protocol_address_size == 4)
    && ((m.opcode == opcode_request) || (m.opcode == opcode_reply))

-- The loop that reads the bytes of an address.
pub read_address : NetParser → NetParser × EthernetAddress
read_address p =
    let (p, byte_0) = u8 p in
    let (p, byte_1) = u8 p in
    let (p, byte_2) = u8 p in
    let (p, byte_3) = u8 p in
    let (p, byte_4) = u8 p in
    let (p, byte_5) = u8 p in
    (
      p,
      record {
        byte_0 = byte_0;
        byte_1 = byte_1;
        byte_2 = byte_2;
        byte_3 = byte_3;
        byte_4 = byte_4;
        byte_5 = byte_5;
      },
    )

-- The fixed fields that come first.
pub read_fixed : NetParser → ArpMessage → NetParser × ArpMessage
read_fixed p m =
    let (p, hardware_type) = u16 p in
    let (p, protocol_type) = u16 p in
    let (p, hardware_address_size) = u8 p in
    let (p, protocol_address_size) = u8 p in
    let (p, opcode) = u16 p in
    (
      p,
      record m {
        hardware_type = hardware_type;
        protocol_type = protocol_type;
        hardware_address_size = hardware_address_size;
        protocol_address_size = protocol_address_size;
        opcode = opcode;
      },
    )

pub read_addresses : NetParser → ArpMessage → NetParser × ArpMessage
read_addresses p m =
    let (p, sender_ethernet_address) = read_address p in
    let (p, sender_ip_address) = u32 p in
    let (p, target_ethernet_address) = read_address p in
    let (p, target_ip_address) = u32 p in
    (
      p,
      record m {
        sender_ethernet_address = sender_ethernet_address;
        sender_ip_address = sender_ip_address;
        target_ethernet_address = target_ethernet_address;
        target_ip_address = target_ip_address;
      },
    )

-- The message after the call, and the result.
pub parse : List ℕ → ArpMessage → ArpMessage × ParseResult
parse buffer m =
    let (p, fixed) = read_fixed (new_parser buffer) m in
    let (q, complete) = read_addresses p fixed in
    if ltb (length buffer) message_length
    then (m, packet_too_short)
    else if not (supported fixed)
    then (fixed, unsupported)
    else (complete, q.error)

-- The loop that writes the bytes of an address.
abbrev pub put_address : List ℕ → EthernetAddress → List ℕ
put_address s a =
    put_u8
      (put_u8 (put_u8 (put_u8 (put_u8 (put_u8 s a.byte_0) a.byte_1) a.byte_2) a.byte_3) a.byte_4)
      a.byte_5

-- `none` is the exception.
pub serialize : ArpMessage → Option (List ℕ)
serialize m =
    let s = put_u16 [] m.hardware_type in
    let s = put_u16 s m.protocol_type in
    let s = put_u8 s m.hardware_address_size in
    let s = put_u8 s m.protocol_address_size in
    let s = put_u16 s m.opcode in
    let s = put_address s m.sender_ethernet_address in
    let s = put_u32 s m.sender_ip_address in
    let s = put_address s m.target_ethernet_address in
    let s = put_u32 s m.target_ip_address in if not (supported m) then none else some s
