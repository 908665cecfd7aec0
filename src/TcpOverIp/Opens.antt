-- ===== src/TcpOverIp/Opens.antt =====
-- How an adapter of libsponge/tcp_helpers/tcp_over_ip.cc that listens gets its peer.
use csed353_sponge.Common.{length, ℕ, ◌^◌, ◌<◌, ◌≡◌, refl, sym, ap, ◌∙◌, true, false, some, List}
use csed353_sponge.TcpHeader.Wire.RoundTrip
use csed353_sponge.TcpSegment.{TcpSegment}
use csed353_sponge.FdAdapter.{FdAdapter, opens}
use csed353_sponge.TcpOverIp.{tun_read, tun_write}
use csed353_sponge.TcpOverIp.RoundTrip.{
  IsAdapter, arrived, arrived_in, tun_write-Delivered, tun_write-written, unwrap-opens,
}

-- A listening adapter on the port that a SYN without RST is sent to reads the segment, stops
-- listening, and from then on has the sender as its destination and the address that the datagram was
-- sent to as its source.
pub tun_opens :
    (seg : TcpSegment) (a b : FdAdapter)
    → RoundTrip.IsHeader seg.header
    → IsAdapter a
    → length seg.payload < 2 ^ 14
    → opens seg ≡ true
    → b.listening ≡ true
    → b.cfg.source.port ≡ a.cfg.destination.port
    → (bytes : List ℕ) × (c : ℕ) × (tun_write seg a ≡ some bytes)
      × (tun_read bytes b ≡ (
        record b {
          cfg = record b.cfg { source = a.cfg.destination; destination = a.cfg.source };
          listening = false;
        },
        some (arrived seg a c),
      ))
unfolding tun_read
tun_opens seg a b v w short open_seg listens port =
    let r = tun_write-Delivered seg a v w short in
    (
      r.bytes,
      r.cksum,
      tun_write-written seg a r,
      rw r.read (
          unwrap-opens (arrived_in seg a r.ip_cksum r.payload) (arrived seg a r.cksum) b r.parsed
            listens open_seg refl (sym port)
          ∙ ap
              (λ p. (
                record b {
                  cfg = record b.cfg {
                    source = record { ip = a.cfg.destination.ip; port = p };
                    destination = a.cfg.source;
                  };
                  listening = false;
                },
                some (arrived seg a r.cksum),
              ))
              port),
    )
