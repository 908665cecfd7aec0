-- ===== src/TcpHeader.antt =====
-- libsponge/tcp_helpers/tcp_header.hh: the fields of a TCP header.
pub mod Wire
use csed353_sponge.Common.{ℕ, ◌/◌, Bool, false}
use csed353_sponge.WrappingIntegers.{WrappingInt32}

pub record TcpHeader : Type 0 where
  pub sport : ℕ
  pub dport : ℕ
  pub seqno : WrappingInt32
  pub ackno : WrappingInt32
  pub doff : ℕ
  pub urg : Bool
  pub ack : Bool
  pub psh : Bool
  pub rst : Bool
  pub syn : Bool
  pub fin : Bool
  pub win : ℕ
  pub cksum : ℕ
  pub uptr : ℕ

-- `TCPHeader::LENGTH`
abbrev pub header_length : ℕ
header_length = 20

-- The default member initialisers.
abbrev pub new_header : TcpHeader
new_header = record {
  sport = 0;
  dport = 0;
  seqno = record { raw_value = 0 };
  ackno = record { raw_value = 0 };
  doff = header_length / 4;
  urg = false;
  ack = false;
  psh = false;
  rst = false;
  syn = false;
  fin = false;
  win = 0;
  cksum = 0;
  uptr = 0;
}
