-- ===== src/TcpSender/Start.antt =====
-- The first call of a fresh sender of libsponge/tcp_sender.cc.
use csed353_sponge.Common.{ℕ, ◌≡◌, refl, true, false, Option, [], ◌∷◌}
use csed353_sponge.ByteStream.Laws
use csed353_sponge.WrappingIntegers.{WrappingInt32, wrap}
use csed353_sponge.TcpHeader.{new_header}
use csed353_sponge.TcpSegment.{TcpSegment}
use csed353_sponge.TcpSender.{TcpSender, init, send_segment, send_segments, fill_window}

-- The SYN segment.
abbrev pub syn_segment : TcpSender → TcpSegment
syn_segment s = record {
  header = record new_header { syn = true; seqno = wrap 0 s.isn };
  payload = [];
}

-- The window of a fresh sender holds the SYN alone.
pub fill_window-init :
    (capacity retx_timeout : ℕ) (fixed_isn : Option WrappingInt32) (random : ℕ)
    → let s = init capacity retx_timeout fixed_isn random in
      let t = fill_window s in
      (t.segments_out ≡ syn_segment s ∷ [])
      × (t.outstanding_segments ≡ syn_segment s ∷ [])
      × (t.next_seqno ≡ 1)
      × (t.current_seqno ≡ 0)
      × (t.window_size ≡ 0)
      × (t.is_timer_on ≡ true)
      × (t.stream.error ≡ false)
      × (t.isn ≡ s.isn)
unfolding fill_window init send_segments send_segment
fill_window-init capacity retx_timeout fixed_isn random =
    rw (Laws.init-eq capacity, Laws.read-init capacity)
      (refl, refl, refl, refl, refl, refl, refl, refl)

pub init_fresh :
    (capacity retx_timeout : ℕ) (fixed_isn : Option WrappingInt32) (random : ℕ)
    → let s = init capacity retx_timeout fixed_isn random in
      (s.stream.error ≡ false) × (s.next_seqno ≡ 0)
unfolding init
init_fresh capacity retx_timeout fixed_isn random = rw (Laws.init-eq capacity) (refl, refl)
