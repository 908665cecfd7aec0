-- ===== src/TapAdapter/RoundTrip.antt =====
-- What a TAP adapter of libsponge/tcp_helpers/tuntap_adapter.cc sends, the adapter of the peer receives.
use csed353_sponge.Common.{
  length, ℕ, ◌^◌, ◌<◌, ◌≡◌, refl, sym, ap, ◌∙◌, subst, false, Option, none, some, List, [], ◌∷◌,
  ◌++◌, arith,
}
use csed353_sponge.Parser.{no_error}
use csed353_sponge.TcpHeader.Wire.RoundTrip
use csed353_sponge.TcpSegment.{TcpSegment}
use csed353_sponge.ArpMessage.{EthernetAddress}
use csed353_sponge.ArpMessage.RoundTrip.{IsAddress}
use csed353_sponge.EthernetHeader.{serialize_frame}
use csed353_sponge.EthernetHeader.RoundTrip.{IsEthernet, frame_roundtrip}
use csed353_sponge.Ipv4.{Ipv4Datagram, new_datagram, parse_datagram, serialize_datagram}
use csed353_sponge.NetworkInterface.{lookup, send_datagram}
use csed353_sponge.NetworkInterface.Delivery.{carrier, send_datagram-known, recv_frame-carrier}
use csed353_sponge.TcpOverIp.{unwrap_tcp_in_ip, wrap_tcp_in_ip}
use csed353_sponge.TcpOverIp.RoundTrip.{
  IsAdapter, arrived, arrived_in, tun_write-Delivered, unwrap-peer,
}
use csed353_sponge.TapAdapter.{
  TapAdapter, new_frame, send_frames, send_pending, interpret, tap_read, pended, tap_write,
}

-- The frame that carries the datagram is written, and the queue of the interface is empty again.
tap_write-known :
    (seg : TcpSegment) (a : TapAdapter) (e : EthernetAddress) (d : Ipv4Datagram) (bytes : List ℕ)
    → a.interface.frames_out ≡ []
    → lookup a.next_hop a.interface.arp_table ≡ some e
    → wrap_tcp_in_ip seg a.base ≡ some d
    → serialize_datagram d ≡ some bytes
    → tap_write seg a
      ≡ some (a, serialize_frame (carrier e a.interface.ethernet_address bytes) ∷ [])
unfolding tap_write
tap_write-known seg a e d bytes idle known wrapped written =
    let frame = carrier e a.interface.ethernet_address bytes in
    let sent : send_pending (record a {
      interface = record a.interface { frames_out = a.interface.frames_out ++ frame ∷ [] };
    })
        ≡ (a, serialize_frame frame ∷ []) =
      subst
        (λ q.
          send_frames (q ++ frame ∷ [])
            (record a { interface = record a.interface { frames_out = q ++ frame ∷ [] } })
          ≡ (
            record a { interface = record a.interface { frames_out = q } },
            serialize_frame frame ∷ [],
          ))
        (sym idle) refl in
    ap
      (λ o. elim o as (λ _. Option (TapAdapter × List (List ℕ))) [
        | none ↦ none
        | some datagram ↦ pended a (send_datagram datagram a.next_hop a.interface)
      ])
      wrapped
    ∙ ap (pended a) (send_datagram-known d bytes a.next_hop e a.interface known written)
    ∙ ap some sent

tap_read-carrier :
    (b : TapAdapter) (src : EthernetAddress) (bytes : List ℕ) (d : Ipv4Datagram) (seg : TcpSegment)
    → b.interface.frames_out ≡ []
    → IsEthernet (carrier b.interface.ethernet_address src bytes).header
    → parse_datagram bytes new_datagram ≡ (d, no_error)
    → unwrap_tcp_in_ip d b.base ≡ (b.base, some seg)
    → tap_read (serialize_frame (carrier b.interface.ethernet_address src bytes)) b
      ≡ some (b, some seg, [])
unfolding tap_read
tap_read-carrier b src bytes d seg idle fits read accepted =
    let frame = carrier b.interface.ethernet_address src bytes in
    let quiet : send_pending b ≡ (b, []) = ap (λ q. send_frames q b) idle in
    let up : interpret (some d) (send_pending b) ≡ (b, some seg, []) =
      ap (interpret (some d)) quiet ∙ ap (λ r. (record b { base = r.0 }, r.1, [])) accepted in
    rw
      (
        frame_roundtrip frame new_frame fits,
        recv_frame-carrier src bytes d b.interface read,
        tap_read,
      )
      (ap some up)

-- Between two TAP adapters that are not listening, that have each other's addresses and no frame to
-- send, where the first has the Ethernet address of the second for its next hop: a segment whose
-- fields have the widths of the wire, with fewer than 2^14 bytes of payload, is written as exactly
-- one frame, and the second reads the segment back from it, with the ports of the sender and a
-- checksum put in, and writes nothing; neither adapter changes.
pub tap_roundtrip :
    (seg : TcpSegment) (a b : TapAdapter)
    → RoundTrip.IsHeader seg.header
    → IsAdapter a.base
    → length seg.payload < 2 ^ 14
    → IsAddress a.interface.ethernet_address
    → IsAddress b.interface.ethernet_address
    → a.interface.frames_out ≡ []
    → b.interface.frames_out ≡ []
    → lookup a.next_hop a.interface.arp_table ≡ some b.interface.ethernet_address
    → b.base.listening ≡ false
    → b.base.cfg.source ≡ a.base.cfg.destination
    → b.base.cfg.destination ≡ a.base.cfg.source
    → (bytes : List ℕ) × (c : ℕ) × (tap_write seg a ≡ some (a, bytes ∷ []))
      × (tap_read bytes b ≡ some (b, some (arrived seg a.base c), []))
tap_roundtrip seg a b v w short ea eb ia ib known quiet source destination =
    let r = tun_write-Delivered seg a.base v w short in
    let d = arrived_in seg a.base r.ip_cksum r.payload in
    let target = b.interface.ethernet_address in
    let src = a.interface.ethernet_address in
    (
      serialize_frame (carrier target src r.bytes),
      r.cksum,
      tap_write-known seg a target _ r.bytes ia known r.wrapped r.serialized,
      tap_read-carrier b src r.bytes d (arrived seg a.base r.cksum) ib
          (record { dst = eb; src = ea; type = omega arith }) r.read
          (unwrap-peer d (arrived seg a.base r.cksum) b.base r.parsed quiet
            (ap (λ e. e.ip) (sym source)) (ap (λ e. e.ip) (sym destination)) refl
            (ap (λ e. e.port) (sym source)) (ap (λ e. e.port) (sym destination))),
    )
