-- ===== src/TcpHeader/Wire.antt =====
-- libsponge/tcp_helpers/tcp_header.cc: a TCP header and its bytes.
pub mod RoundTrip
use csed353_sponge.Common.{
  ltb, ◌==◌, if◌then◌else◌, sub64, length, take, replicate, ℕ, ◌-◌, ◌*◌, ◌/◌, ◌%◌, ◌^◌, Bool, not,
  Option, none, some, List, [], ◌++◌,
}
use Prim.Native.Nat.{bit_and, bit_or}
use csed353_sponge.WrappingIntegers.{WrappingInt32}
use csed353_sponge.Parser.{
  ParseResult, no_error, header_too_short, is_error, NetParser, u32, u16, u8, remove_prefix,
  put_u32, put_u16, put_u8,
}
use csed353_sponge.TcpHeader.{TcpHeader, header_length}

-- `static_cast<bool>(byte & mask)`
abbrev pub has_bit : ℕ → ℕ → Bool
has_bit byte mask = not (bit_and byte mask == 0)

-- The header from what is read: the fifth number is the byte with `doff`, the sixth has the flags.
abbrev pub header_of : ℕ → ℕ → ℕ → ℕ → ℕ → ℕ → ℕ → ℕ → ℕ → TcpHeader
header_of sport dport seqno ackno offset fl_b win cksum uptr = record {
  sport = sport;
  dport = dport;
  seqno = record { raw_value = seqno };
  ackno = record { raw_value = ackno };
  doff = offset / 2 ^ 4;
  urg = has_bit fl_b 0x20;
  ack = has_bit fl_b 0x10;
  psh = has_bit fl_b 0x08;
  rst = has_bit fl_b 0x04;
  syn = has_bit fl_b 0x02;
  fin = has_bit fl_b 0x01;
  win = win;
  cksum = cksum;
  uptr = uptr;
}

-- The parser after the call, the header, and the result.
pub parse : NetParser → NetParser × TcpHeader × ParseResult
parse p =
    let (p, sport) = u16 p in
    let (p, dport) = u16 p in
    let (p, seqno) = u32 p in
    let (p, ackno) = u32 p in
    let (p, offset) = u8 p in
    let (p, fl_b) = u8 p in
    let (p, win) = u16 p in
    let (p, cksum) = u16 p in
    let (p, uptr) = u16 p in
    let header = header_of sport dport seqno ackno offset fl_b win cksum uptr in
    let skipped = remove_prefix (sub64 (header.doff * 4) header_length) p in
    if ltb header.doff 5
    then (p, header, header_too_short)
    else (skipped, header, (if is_error skipped.error then skipped.error else no_error))

-- The byte with the flags.
abbrev pub flags : TcpHeader → ℕ
flags h =
    bit_or
      (bit_or
        (bit_or
          (bit_or (bit_or (if h.urg then 0x20 else 0) (if h.ack then 0x10 else 0))
            (if h.psh then 0x08 else 0))
          (if h.rst then 0x04 else 0))
        (if h.syn then 0x02 else 0))
      (if h.fin then 0x01 else 0)

-- `std::string::resize`
abbrev pub resize : ℕ → List ℕ → List ℕ
resize n s = take n s ++ replicate (n - length s) 0

-- `none` is the exception.
pub serialize : TcpHeader → Option (List ℕ)
serialize h =
    let ret = put_u16 [] h.sport in
    let ret = put_u16 ret h.dport in
    let ret = put_u32 ret h.seqno.raw_value in
    let ret = put_u32 ret h.ackno.raw_value in
    let ret = put_u8 ret (h.doff * 2 ^ 4 % 2 ^ 8) in
    let ret = put_u8 ret (flags h) in
    let ret = put_u16 ret h.win in
    let ret = put_u16 ret h.cksum in
    let ret = put_u16 ret h.uptr in if ltb h.doff 5 then none else some (resize (4 * h.doff) ret)
