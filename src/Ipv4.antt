-- ===== src/Ipv4.antt =====
-- libsponge/tcp_helpers/ipv4_header.hh, ipv4_header.cc, ipv4_datagram.hh and ipv4_datagram.cc: IPv4
-- headers and datagrams, and their bytes.
pub mod Header
pub mod RoundTrip
mod Tests
use csed353_sponge.Common.{
  ltb, ◌==◌, if◌then◌else◌, sub64, add32, length, take, replicate, ℕ, ◌+◌, ◌-◌, ◌*◌, ◌/◌, ◌%◌, ◌^◌,
  Bool, true, false, not, Option, none, some, List, [], ◌++◌,
}
use Prim.Native.Nat.{bit_or}
use csed353_sponge.Checksum.{new_checksum, add, value}
use csed353_sponge.Parser.{
  ParseResult, no_error, bad_checksum, packet_too_short, wrong_ip_version, header_too_short,
  truncated_packet, is_error, NetParser, new_parser, u32, u16, u8, remove_prefix, put_u32, put_u16,
  put_u8,
}

pub record Ipv4Header : Type 0 where
  pub ver : ℕ
  pub hlen : ℕ
  pub tos : ℕ
  pub len : ℕ
  pub id : ℕ
  pub df : Bool
  pub mf : Bool
  pub offset : ℕ
  pub ttl : ℕ
  pub proto : ℕ
  pub cksum : ℕ
  pub src : ℕ
  pub dst : ℕ

-- `IPv4Header::LENGTH`
abbrev pub ip_header_length : ℕ
ip_header_length = 20

-- The header from what is read: the first number has the version and the length, the fifth the
-- flags and the offset. `& 0x0f` and `& 0x1fff` keep 4 and 13 bits, `& 0x4000` and `& 0x2000` one.
abbrev pub header_of : ℕ → ℕ → ℕ → ℕ → ℕ → ℕ → ℕ → ℕ → ℕ → ℕ → Ipv4Header
header_of first_byte tos len id fo_val ttl proto cksum src dst = record {
  ver = first_byte / 2 ^ 4;
  hlen = first_byte % 2 ^ 4;
  tos = tos;
  len = len;
  id = id;
  df = fo_val / 2 ^ 14 % 2 == 1;
  mf = fo_val / 2 ^ 13 % 2 == 1;
  offset = fo_val % 2 ^ 13;
  ttl = ttl;
  proto = proto;
  cksum = cksum;
  src = src;
  dst = dst;
}

-- `4 * hlen` bytes of the buffer have the checksum 0.
abbrev pub verifies : List ℕ → Ipv4Header → Bool
verifies buffer h = value (add (take (4 * h.hlen) buffer) (new_checksum 0)) == 0

-- The parser and the header after the call, and the result.
pub parse_header : NetParser → Ipv4Header → NetParser × Ipv4Header × ParseResult
parse_header start old =
    let data_size = length start.buffer in
    let (p, first_byte) = u8 start in
    let (p, tos) = u8 p in
    let (p, len) = u16 p in
    let (p, id) = u16 p in
    let (p, fo_val) = u16 p in
    let (p, ttl) = u8 p in
    let (p, proto) = u8 p in
    let (p, cksum) = u16 p in
    let (p, src) = u32 p in
    let (p, dst) = u32 p in
    let h = header_of first_byte tos len id fo_val ttl proto cksum src dst in
    let skipped = remove_prefix (sub64 (h.hlen * 4) ip_header_length) p in
    if ltb data_size ip_header_length
    then (start, old, packet_too_short)
    else if ltb data_size (4 * h.hlen)
    then (p, h, packet_too_short)
    else if not (h.ver == 4)
    then (p, h, wrong_ip_version)
    else if ltb h.hlen 5
    then (p, h, header_too_short)
    else if not (data_size == h.len)
    then (p, h, truncated_packet)
    else if is_error skipped.error
    then (skipped, h, skipped.error)
    else if not (verifies start.buffer h)
    then (skipped, h, bad_checksum)
    else (skipped, h, no_error)

abbrev pub first_byte : Ipv4Header → ℕ
first_byte h = bit_or (h.ver * 2 ^ 4) (h.hlen % 2 ^ 4) % 2 ^ 8

abbrev pub fo_val : Ipv4Header → ℕ
fo_val h =
    bit_or (bit_or (if h.df then 0x4000 else 0) (if h.mf then 0x2000 else 0)) (h.offset % 2 ^ 13)

-- `none` is the exception.
pub serialize_header : Ipv4Header → Option (List ℕ)
serialize_header h =
    let ret = put_u8 [] (first_byte h) in
    let ret = put_u8 ret h.tos in
    let ret = put_u16 ret h.len in
    let ret = put_u16 ret h.id in
    let ret = put_u16 ret (fo_val h) in
    let ret = put_u8 ret h.ttl in
    let ret = put_u8 ret h.proto in
    let ret = put_u16 ret h.cksum in
    let ret = put_u32 ret h.src in
    let ret = put_u32 ret h.dst in
    let n = 4 * h.hlen in
    if not (h.ver == 4)
    then none
    else if ltb n ip_header_length
    then none
    else some (take n ret ++ replicate (n - length ret) 0)

abbrev pub payload_length : Ipv4Header → ℕ
payload_length h = (h.len + 2 ^ 16 - 4 * h.hlen) % 2 ^ 16

abbrev pub pseudo_cksum : Ipv4Header → ℕ
pseudo_cksum h =
    let pcksum = add32 (h.src / 2 ^ 16) (h.src % 2 ^ 16) in
    let pcksum = add32 pcksum (add32 (h.dst / 2 ^ 16) (h.dst % 2 ^ 16)) in
    let pcksum = add32 pcksum h.proto in add32 pcksum (payload_length h)

pub record Ipv4Datagram : Type 0 where
  pub header : Ipv4Header
  pub payload : List ℕ

-- The default member initialisers.
abbrev pub new_datagram : Ipv4Datagram
new_datagram = record {
  header = record {
    ver = 4;
    hlen = ip_header_length / 4;
    tos = 0;
    len = 0;
    id = 0;
    df = true;
    mf = false;
    offset = 0;
    ttl = 128;
    proto = 6;
    cksum = 0;
    src = 0;
    dst = 0;
  };
  payload = [];
}

-- `IPv4Datagram::parse`, which does not look at the result of parsing the header.
pub parse_datagram : List ℕ → Ipv4Datagram → Ipv4Datagram × ParseResult
parse_datagram buffer old =
    let (p, header, _) = parse_header (new_parser buffer) old.header in
    (
      record { header = header; payload = p.buffer },
      if not (length p.buffer == payload_length header) then packet_too_short else p.error,
    )

-- The header that is sent: the checksum is taken of the header with the checksum 0.
abbrev pub with_checksum : Ipv4Header → List ℕ → Ipv4Header
with_checksum h zero_checksum = record h { cksum = value (add zero_checksum (new_checksum 0)) }

-- `none` is an exception.
pub serialize_datagram : Ipv4Datagram → Option (List ℕ)
serialize_datagram d =
    if not (length d.payload == payload_length d.header)
    then none
    else elim (serialize_header (record d.header { cksum = 0 })) [
      | none ↦ none
      | some zero_checksum ↦ elim (serialize_header (with_checksum d.header zero_checksum)) [
        | none ↦ none
        | some header ↦ some (header ++ d.payload)
      ]
    ]
