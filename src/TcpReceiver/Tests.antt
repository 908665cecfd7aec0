-- ===== src/TcpReceiver/Tests.antt =====
-- Concrete runs of the receiver of libsponge/tcp_receiver.cc.
use csed353_sponge.Common.{
  length, get_or, take, ℕ, ◌+◌, ◌≤◌, ◌<◌, ◌≡◌, refl, Bool, true, false, some, List, [], ◌∷◌, ◌++◌,
  arith,
}
use csed353_sponge.WrappingIntegers.{WrappingInt32, wrap}
use csed353_sponge.TcpHeader.{new_header}
use csed353_sponge.TcpSegment.{TcpSegment}
use csed353_sponge.TcpReceiver.{
  TcpReceiver, init, stream_out, first_unassembled, segment_received, ackno,
}
use csed353_sponge.TcpReceiver.Receive.{IsValid}
use csed353_sponge.TcpReceiver.Segments.{
  Event, receive, consume_output, run, AreSegments, receive-prefix,
}
use csed353_sponge.TcpReceiver.EarlyFin.{bare_fin_acknowledged_early}

abbrev isn : WrappingInt32
isn = record { raw_value = 4000000000 }

abbrev stream : List ℕ
stream = 10 ∷ 20 ∷ 30 ∷ []

abbrev segment : Bool → Bool → ℕ → List ℕ → TcpSegment
segment syn fin n payload = record {
  header = record new_header { syn = syn; fin = fin; seqno = wrap n isn };
  payload = payload;
}

-- The last segment overtakes the one before it.
abbrev events : List Event
events =
    receive (segment true false 0 (10 ∷ []))
    ∷ receive (segment false true 3 (30 ∷ []))
    ∷ consume_output 1
    ∷ receive (segment false false 2 (20 ∷ []))
    ∷ []

single :
    (b index : ℕ)
    → get_or stream index 0 ≡ b
    → (i : ℕ) → i < length (b ∷ [])
    → get_or (b ∷ []) i 0 ≡ get_or stream (index + i) 0
single b index e i h = ground (arith, e)

events-AreSegments : AreSegments stream isn events
events-AreSegments = (
  record { index = 0; part = (omega arith, single 10 0 refl); first = λ e. refl; numbered = refl },
  (
    record {
      index = 2;
      part = (omega arith, single 30 2 refl);
      first = λ e. absurd (ground (arith, e));
      numbered = refl;
    },
    (
      record {
        index = 1;
        part = (omega arith, single 20 1 refl);
        first = λ e. absurd (ground (arith, e));
        numbered = refl;
      },
      tt,
    ),
  ),
)

receive-prefix_example :
    let (r, delivered) = run events (init 8) in
    (delivered ++ (stream_out r).buffer ≡ take (first_unassembled r) stream)
    × (first_unassembled r ≤ length stream)
receive-prefix_example =
    receive-prefix stream isn 8 events (omega arith) (omega arith) (omega arith) events-AreSegments

-- A receiver that has got the SYN and the first byte, of which the owner has taken none.
abbrev opened : TcpReceiver
opened = record {
  reassembler = record {
    output = record {
      capacity = 4;
      bytes_written = 1;
      bytes_read = 0;
      input_ended = false;
      buffer = 10 ∷ [];
      error = false;
    };
    capacity = 4;
    unassembled_bytes = 0;
    eof = false;
    buffer = 32 ∷ 32 ∷ 32 ∷ 32 ∷ [];
    state = false ∷ false ∷ false ∷ false ∷ [];
  };
  capacity = 4;
  is_syn = true;
  is_fin = false;
  isn = isn;
}

opened-IsValid : IsValid opened
opened-IsValid = record {
  inner = record {
    out = omega arith;
    same_capacity = refl;
    len_buffer = refl;
    len_state = refl;
    counted = refl;
    windowed = λ i h. ground (arith, h);
  };
  settled = refl;
  same_capacity = refl;
  isn_fits = omega arith;
}

abbrev next : TcpSegment
next = segment false false 2 (20 ∷ [])

-- A FIN without a payload, two bytes ahead.
bare_fin_acknowledged_early_example :
    let t = segment_received (segment false true 4 []) opened in
    ((stream_out t).input_ended ≡ true)
    × (first_unassembled t ≡ first_unassembled opened)
    × (ackno t ≡ some (wrap (first_unassembled opened + 2) opened.isn))
bare_fin_acknowledged_early_example =
    bare_fin_acknowledged_early (segment false true 4 []) 3 opened-IsValid refl refl refl refl refl
      refl (omega arith) (omega arith) (omega arith) (omega arith)
