-- ===== src/TcpOverIp/Accept.antt =====
-- Which segments the adapter of libsponge/tcp_helpers/tcp_over_ip.cc lets through.
use csed353_sponge.Common.{◌≡◌, ◌⊎◌, true, false, none, some, arith}
use csed353_sponge.Parser.{is_error}
use csed353_sponge.TcpSegment.{TcpSegment, new_segment}
use csed353_sponge.TcpSegment.Wire
use csed353_sponge.Ipv4.{Ipv4Datagram, pseudo_cksum}
use csed353_sponge.FdAdapter.{FdAdapter, opens}
use csed353_sponge.TcpOverIp.{proto_tcp, unwrap_tcp_in_ip}

-- The segment is that of the payload, between the addresses and ports of the configuration.
pub record IsBetween (d : Ipv4Datagram) (seg : TcpSegment) (a : FdAdapter) : Type 0 where
  pub carried : d.header.proto ≡ proto_tcp
  pub parsed : (Wire.parse d.payload (pseudo_cksum d.header) new_segment).0 ≡ seg
  pub sound : is_error (Wire.parse d.payload (pseudo_cksum d.header) new_segment).1 ≡ false
  pub dst : d.header.dst ≡ a.cfg.source.ip
  pub src : d.header.src ≡ a.cfg.destination.ip
  pub dport : seg.header.dport ≡ a.cfg.source.port
  pub sport : seg.header.sport ≡ a.cfg.destination.port

-- A segment that is let through was parsed without an error from a datagram for TCP that was sent,
-- by the addresses and ports of both headers, from the destination of the configuration to its
-- source, as they are after the call; from then on the adapter does not listen, its own port is the
-- old one, and if it was listening before, the segment is a SYN without RST, otherwise nothing of the
-- adapter changes.
pub unwrap_accepts :
    (d : Ipv4Datagram) (a b : FdAdapter) (seg : TcpSegment)
    → unwrap_tcp_in_ip d a ≡ (b, some seg)
    → IsBetween d seg b
      × (b.listening ≡ false)
      × (b.cfg.source.port ≡ a.cfg.source.port)
      × ((a.listening ≡ true) × (opens seg ≡ true) ⊎ (a ≡ b))
unfolding unwrap_tcp_in_ip
unwrap_accepts d a b seg e = (
  record {
    carried = ground arith;
    parsed = ground arith;
    sound = ground arith;
    dst = ground arith;
    src = ground arith;
    dport = ground arith;
    sport = ground arith;
  },
  ground arith,
  ground arith,
  ground arith,
)

-- A datagram that is not let through leaves the adapter as it is.
pub unwrap_refuses : (d : Ipv4Datagram) (a b : FdAdapter) → unwrap_tcp_in_ip d a ≡ (b, none) → b ≡ a
unfolding unwrap_tcp_in_ip
unwrap_refuses d a b e = ground arith
