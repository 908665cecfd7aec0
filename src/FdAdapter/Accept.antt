-- ===== src/FdAdapter/Accept.antt =====
-- Which segments the UDP adapter of libsponge/tcp_helpers/fd_adapter.cc lets through.
use csed353_sponge.Common.{◌≡◌, ◌⊎◌, true, false, some, arith}
use csed353_sponge.Parser.{is_error}
use csed353_sponge.TcpSegment.{TcpSegment, new_segment}
use csed353_sponge.TcpSegment.Wire
use csed353_sponge.FdAdapter.{FdAdapter, ReceivedDatagram, opens, udp_read}

-- A segment that is let through was parsed without an error from the datagram, which came from the
-- destination of the configuration as it is after the call; from then on the adapter does not listen,
-- and if it was listening before, the segment is a SYN without RST, otherwise nothing changes.
pub udp_accepts :
    (d : ReceivedDatagram) (a b : FdAdapter) (seg : TcpSegment)
    → udp_read d a ≡ (b, some seg)
    → ((Wire.parse d.payload 0 new_segment).0 ≡ seg)
      × (is_error (Wire.parse d.payload 0 new_segment).1 ≡ false)
      × (d.source_address.ip ≡ b.cfg.destination.ip)
      × (d.source_address.port ≡ b.cfg.destination.port)
      × (b.listening ≡ false)
      × ((a.listening ≡ true) × (opens seg ≡ true) ⊎ (a ≡ b))
udp_accepts d a b seg e =
    (ground arith, ground arith, ground arith, ground arith, ground arith, ground arith)
