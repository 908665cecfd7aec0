-- ===== src/TcpReceiver/Receive.antt =====
-- What one segment does to the receiver.
use csed353_sponge.Common.{
  if◌then◌else◌, to_ℕ, Bool-cases, ℕ, ◌+◌, ◌^◌, ◌<◌, ◌≡◌, refl, sym, ap, ◌∙◌, inl, inr, true, false,
  arith,
}
use csed353_sponge.ByteStream
use csed353_sponge.StreamReassembler
use csed353_sponge.StreamReassembler.Invariant
use csed353_sponge.StreamReassembler.Invariant.{IsSettled}
use csed353_sponge.StreamReassembler.Push.Correct.{push_substring-IsValid}
use csed353_sponge.WrappingIntegers.{IsU32, plus, wrap, unwrap}
use csed353_sponge.WrappingIntegers.Unwrap.{dist, unwrap-wrap, plus-wrap}
use csed353_sponge.TcpSegment.{TcpSegment}
use csed353_sponge.TcpReceiver.{
  TcpReceiver, init, first_unassembled, stream_index, note_syn, segment_received,
}

pub record IsValid (r : TcpReceiver) : Type 0 where
  pub inner : Invariant.IsValid r.reassembler
  pub settled : IsSettled r.reassembler
  pub same_capacity : r.capacity ≡ r.reassembler.capacity
  pub isn_fits : IsU32 r.isn

pub init-IsValid : (capacity : ℕ) → capacity < 2 ^ 63 → IsValid (init capacity)
unfolding init
init-IsValid capacity h = record {
  inner = (Invariant.init-IsValid capacity h).0;
  settled = (Invariant.init-IsValid capacity h).1;
  same_capacity = sym (Invariant.init-capacity capacity);
  isn_fits = omega arith;
}

note_syn-isn :
    (seg : TcpSegment) (r : TcpReceiver)
    → IsU32 r.isn
    → IsU32 seg.header.seqno
    → IsU32 (note_syn seg r).isn
note_syn-isn seg r hi hs = ground arith

-- Every segment with a 32-bit sequence number keeps the receiver valid, whatever its flags, its
-- payload and its place in the stream are, as long as the window lies below 2^64.
pub segment_received-IsValid :
    (seg : TcpSegment) {r : TcpReceiver}
    → IsValid r
    → IsU32 seg.header.seqno
    → r.reassembler.output.bytes_read + r.reassembler.capacity < 2 ^ 64
    → IsValid (segment_received seg r)
unfolding segment_received
segment_received-IsValid seg {r} v h fits =
    let i = stream_index seg (note_syn seg r) in
    let p = push_substring-IsValid seg.payload i seg.header.fin v.inner fits in
    elim (Bool-cases (note_syn seg r).is_syn) [
      | inl e ↦ rw e (record {
        inner = p.0;
        settled = p.1;
        same_capacity = v.same_capacity ∙ sym p.2;
        isn_fits = note_syn-isn seg r v.isn_fits h;
      })
      | inr e ↦ rw e (record {
        inner = v.inner;
        settled = v.settled;
        same_capacity = v.same_capacity;
        isn_fits = note_syn-isn seg r v.isn_fits h;
      })
    ]

-- A segment whose payload starts at index `j` of the stream is put there, if its number is less than
-- 2^31 away from the first unassembled byte: the sequence number counts the SYN, the index does not.
pub stream_index-eq :
    (seg : TcpSegment) (r : TcpReceiver) (a j : ℕ)
    → IsU32 r.isn
    → seg.header.seqno ≡ wrap a r.isn
    → a + to_ℕ seg.header.syn ≡ j + 1
    → j + 1 < 2 ^ 64
    → first_unassembled r < 2 ^ 64
    → dist (j + 1) (first_unassembled r) < 2 ^ 31
    → stream_index seg r ≡ j
stream_index-eq seg r a j hi hs ha hj hw near = omega (
  arith,
  ap (λ w. unwrap w r.isn (first_unassembled r)) past_syn
      ∙ unwrap-wrap (j + 1) (first_unassembled r) r.isn hj hw hi near,
)
  where
    past_syn : plus seg.header.seqno (to_ℕ seg.header.syn) ≡ wrap (j + 1) r.isn
    past_syn =
        ap (λ w. plus w (to_ℕ seg.header.syn)) hs
        ∙ plus-wrap a (to_ℕ seg.header.syn) r.isn
        ∙ ap (λ n. wrap n r.isn) ha

-- Once the SYN has been seen, a segment only adds its payload and its FIN.
pub segment_received_opened :
    (seg : TcpSegment) (r : TcpReceiver)
    → r.is_syn ≡ true
    → segment_received seg r ≡ record r {
      is_fin = if seg.header.fin then true else r.is_fin;
      reassembler =
          StreamReassembler.push_substring seg.payload
            (stream_index seg r)
            seg.header.fin
            r.reassembler;
    }
unfolding segment_received
segment_received_opened seg r e = rw e refl

-- The stream may be marked as failed.
pub set_error-IsValid :
    {r : TcpReceiver}
    → IsValid r
    → IsValid (record r {
      reassembler = record r.reassembler { output = ByteStream.set_error r.reassembler.output };
    })
set_error-IsValid {r} v = record {
  inner = Invariant.set_error-IsValid v.inner;
  settled = v.settled;
  same_capacity = v.same_capacity;
  isn_fits = v.isn_fits;
}

pub read-IsValid :
    (len : ℕ) {r : TcpReceiver}
    → IsValid r
    → IsValid (record r {
      reassembler = record r.reassembler { output = (ByteStream.read len r.reassembler.output).0 };
    })
read-IsValid len {r} v = record {
  inner = Invariant.read-IsValid len v.inner;
  settled = v.settled;
  same_capacity = v.same_capacity;
  isn_fits = v.isn_fits;
}

-- A fresh receiver waits for a SYN, and its stream has not failed or ended.
pub init_waits :
    (capacity : ℕ)
    → ((init capacity).is_syn ≡ false)
      × ((init capacity).reassembler.output.error ≡ false)
      × ((init capacity).reassembler.output.input_ended ≡ false)
unfolding init
init_waits capacity = (refl, (Invariant.init_fresh capacity).0, (Invariant.init_fresh capacity).1)
