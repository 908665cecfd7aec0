-- ===== src/TcpReceiver/EarlyFin.antt =====
-- A FIN with no payload that overtakes the data before it.
use csed353_sponge.Common.{ℕ, ◌+◌, ◌^◌, ◌≤◌, ◌<◌, ◌≡◌, ap, ◌∙◌, true, false, some, [], arith}
use csed353_sponge.StreamReassembler
use csed353_sponge.StreamReassembler.EarlyEnd.{push_empty_ends}
use csed353_sponge.WrappingIntegers.{wrap}
use csed353_sponge.WrappingIntegers.Unwrap.{dist}
use csed353_sponge.TcpSegment.{TcpSegment}
use csed353_sponge.TcpReceiver.{
  TcpReceiver, ackno, stream_out, first_unassembled, segment_received, stream_index,
}
use csed353_sponge.TcpReceiver.Ackno.{ackno-eq}
use csed353_sponge.TcpReceiver.Receive.{IsValid, segment_received_opened, stream_index-eq}

-- A bare FIN for index `j` arrives while bytes before `j` are missing and nothing waits: the
-- receiver ends the inbound stream at once and acknowledges one number more than it has bytes, so
-- that the peer takes the first missing byte (or the FIN) for received.
pub bare_fin_acknowledged_early :
    (seg : TcpSegment) {r : TcpReceiver} (j : ℕ)
    → IsValid r
    → r.is_syn ≡ true
    → r.reassembler.unassembled_bytes ≡ 0
    → seg.header.syn ≡ false
    → seg.header.fin ≡ true
    → seg.payload ≡ []
    → seg.header.seqno ≡ wrap (j + 1) r.isn
    → first_unassembled r < j
    → j ≤ (stream_out r).bytes_read + r.capacity
    → (stream_out r).bytes_read + r.capacity + 2 < 2 ^ 64
    → dist (j + 1) (first_unassembled r) < 2 ^ 31
    → let t = segment_received seg r in
      ((stream_out t).input_ended ≡ true)
      × (first_unassembled t ≡ first_unassembled r)
      × (ackno t ≡ some (wrap (first_unassembled r + 2) r.isn))
bare_fin_acknowledged_early seg {r} j v opened idle nosyn fin bare seqno missing inside small near =
    let at : stream_index seg r ≡ j =
      stream_index-eq seg r (j + 1) j v.isn_fits seqno (rw nosyn (omega arith)) (omega arith)
        (omega arith) near in
    let (ended, same, held, still) =
      push_empty_ends j v.inner v.settled idle (omega (arith, v.same_capacity)) missing
        (omega (arith, v.same_capacity)) in
    rw (segment_received_opened seg r opened, fin, bare, at)
      (
        ended,
        same,
        ackno-eq
              (record r {
                is_fin = true;
                reassembler = StreamReassembler.push_substring [] j true r.reassembler;
              })
              opened (ground (arith, same, still))
            ∙ ap (λ n. some (wrap n r.isn)) (ground (arith, same, still)),
      )
