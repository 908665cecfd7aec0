-- ===== src/TcpReceiver/Segments.antt =====
-- The receiver and the whole of the peer's stream: segments of it arrive in any order, overlapping
-- and repeated, also before the SYN, and the owner reads what is ready.
use csed353_sponge.Common.{
  to_ℕ, Bool-cases, length, take, ℕ, ◌+◌, ◌-◌, ◌^◌, ◌≤◌, ◌<◌, ◌≡◌, sym, ap, ◌∙◌, subst, inl, inr,
  true, List, [], ◌∷◌, ◌++◌, append-nil, append_assoc, arith,
}
use csed353_sponge.ByteStream
use csed353_sponge.StreamReassembler.Invariant
use csed353_sponge.StreamReassembler.Stream.{arrive, IsPart, Follows}
use csed353_sponge.StreamReassembler.Stream.Run.{Follows-arrival, Follows-consumed, Follows-init}
use csed353_sponge.WrappingIntegers.{WrappingInt32, IsU32, wrap}
use csed353_sponge.WrappingIntegers.Unwrap.{wrap-zero}
use csed353_sponge.TcpSegment.{TcpSegment}
use csed353_sponge.TcpReceiver.{
  TcpReceiver, init, stream_out, first_unassembled, stream_index, note_syn, segment_received,
}
use csed353_sponge.TcpReceiver.Receive.{stream_index-eq}

pub data Event : Type 0 where
  receive : TcpSegment → Event
  consume_output : ℕ → Event

pub step : Event → TcpReceiver → TcpReceiver × List ℕ
step (receive seg) r = (segment_received seg r, [])
step (consume_output len) r =
    let (output, bytes) = ByteStream.read len (stream_out r) in
    let reassembler = r.reassembler in
    (record r { reassembler = record reassembler { output = output } }, bytes)

pub run : List Event → TcpReceiver → TcpReceiver × List ℕ
run [] r = (r, [])
run (e ∷ es) r = let (s, bytes) = step e r in let (t, more) = run es s in (t, bytes ++ more)

module _ (stream : List ℕ) (isn : WrappingInt32) where
  -- A segment of the stream: at some index, which is 0 for the SYN, and numbered for it.
  pub record IsSegment (seg : TcpSegment) : Type 0 where
    pub index : ℕ
    pub part : IsPart stream (arrive seg.payload index seg.header.fin)
    pub first : seg.header.syn ≡ true → index ≡ 0
    pub numbered : seg.header.seqno ≡ wrap (index + 1 - to_ℕ seg.header.syn) isn

  abbrev pub AreSegments : List Event → Type 0
  AreSegments [] = Unit {0}
  AreSegments (receive seg ∷ es) = IsSegment seg × AreSegments es
  AreSegments (consume_output len ∷ es) = AreSegments es

  pub record Tracks (r : TcpReceiver) (delivered : List ℕ) : Type 0 where
    pub follows : Follows stream r.reassembler delivered
    pub same_isn : r.is_syn ≡ true → r.isn ≡ isn

  syn_seqno :
      (seg : TcpSegment)
      → IsU32 isn
      → IsSegment seg
      → seg.header.syn ≡ true
      → seg.header.seqno ≡ isn
  syn_seqno seg hi s h =
      let start : s.index + 1 - to_ℕ seg.header.syn ≡ 0 = rw (h, s.first h) (omega arith) in
      s.numbered ∙ ap (λ n. wrap n isn) start ∙ wrap-zero isn hi

  opened_isn :
      (seg : TcpSegment) {r : TcpReceiver} {delivered : List ℕ}
      → IsU32 isn
      → IsSegment seg
      → Tracks r delivered
      → (note_syn seg r).is_syn ≡ true
      → (note_syn seg r).isn ≡ isn
  opened_isn seg {r} hi s t e = ground (arith, syn_seqno seg hi s, t.same_isn)

  index-eq :
      (seg : TcpSegment) {r : TcpReceiver} {delivered : List ℕ}
      → length stream < 2 ^ 31 - 1
      → IsU32 isn
      → (s : IsSegment seg) → Tracks r delivered
      → (note_syn seg r).is_syn ≡ true
      → stream_index seg (note_syn seg r) ≡ s.index
  index-eq seg {r} short hi s t e =
      let same = opened_isn seg hi s t e in
      stream_index-eq seg (note_syn seg r) (s.index + 1 - to_ℕ seg.header.syn) s.index
        (subst IsU32 (sym same) hi)
        (s.numbered ∙ ap (wrap (s.index + 1 - to_ℕ seg.header.syn)) (sym same))
        (ground (arith, s.first)) (omega (arith, s.part.0)) (omega (arith, t.follows.within))
        (omega (arith, t.follows.within, s.part.0))

  pub Tracks-receive :
      (seg : TcpSegment) {r : TcpReceiver} {delivered : List ℕ}
      → length stream < 2 ^ 31 - 1
      → IsU32 isn
      → IsSegment seg
      → Tracks r delivered
      → Tracks (segment_received seg r) delivered
  unfolding segment_received
  Tracks-receive seg {r} {delivered} short hi s t = elim (Bool-cases (note_syn seg r).is_syn) [
    | inl e ↦ rw e (record {
      follows =
          rw (index-eq seg short hi s t e)
            (Follows-arrival stream seg.payload s.index seg.header.fin s.part t.follows);
      same_isn = λ h. opened_isn seg hi s t e;
    })
    | inr e ↦ rw e (record { follows = t.follows; same_isn = λ h. cc })
  ]

  Tracks-step :
      (e : Event) (es : List Event) {r : TcpReceiver} {delivered : List ℕ}
      → length stream < 2 ^ 31 - 1
      → IsU32 isn
      → AreSegments (e ∷ es)
      → Tracks r delivered
      → let (t, bytes) = step e r in Tracks t (delivered ++ bytes)
  unfolding step
  Tracks-step (receive seg) es {r} {delivered} short hi parts t =
      rw (append-nil delivered) (Tracks-receive seg short hi parts.0 t)
  Tracks-step (consume_output len) es {r} short hi parts t = record {
    follows = Follows-consumed stream len t.follows;
    same_isn = t.same_isn;
  }

  Tracks-run :
      (es : List Event) {r : TcpReceiver} {delivered : List ℕ}
      → length stream < 2 ^ 31 - 1
      → IsU32 isn
      → AreSegments es
      → Tracks r delivered
      → let (t, bytes) = run es r in Tracks t (delivered ++ bytes)
  unfolding run
  Tracks-run [] {r} {delivered} short hi parts t = rw (append-nil delivered) t
  Tracks-run (receive seg ∷ es) {r} {delivered} short hi parts t =
      let (s, bytes) = step (receive seg) r in
      rw (← append_assoc delivered bytes (run es s).1)
        (Tracks-run es short hi parts.1 (Tracks-step (receive seg) es short hi parts t))
  Tracks-run (consume_output len ∷ es) {r} {delivered} short hi parts t =
      let (s, bytes) = step (consume_output len) r in
      rw (← append_assoc delivered bytes (run es s).1)
        (Tracks-run es short hi parts (Tracks-step (consume_output len) es short hi parts t))

  pub Tracks-init :
      (capacity : ℕ)
      → capacity < 2 ^ 63
      → length stream + capacity < 2 ^ 64
      → Tracks (init capacity) []
  unfolding init
  Tracks-init capacity h small = record {
    follows = Follows-init stream capacity h small;
    same_isn = λ e. cc;
  }

  pub Tracks-failed :
      {r : TcpReceiver} {delivered : List ℕ}
      → Tracks r delivered
      → Tracks
          (record r {
            reassembler = record r.reassembler { output = ByteStream.set_error (stream_out r) };
          })
          delivered
  unfolding ByteStream.set_error
  Tracks-failed t = record {
    follows = record {
      valid = Invariant.set_error-IsValid t.follows.valid;
      read_count = t.follows.read_count;
      assembled = t.follows.assembled;
      within = t.follows.within;
      in_place = t.follows.in_place;
      small = t.follows.small;
    };
    same_isn = t.same_isn;
  }

  pub Tracks-consumed :
      (len : ℕ) {r : TcpReceiver} {delivered : List ℕ}
      → Tracks r delivered
      → let (output, bytes) = ByteStream.read len (stream_out r) in
        Tracks
          (record r { reassembler = record r.reassembler { output = output } })
          (delivered ++ bytes)
  Tracks-consumed len t = record {
    follows = Follows-consumed stream len t.follows;
    same_isn = t.same_isn;
  }

  -- A new receiver, whatever segments of a stream shorter than 2^31 - 1 bytes arrive, numbered from
  -- `isn` on: the bytes that the owner has read and those that are ready are the first
  -- `first_unassembled` of the peer's stream. (A capacity below 2^63.)
  pub receive-prefix :
      (capacity : ℕ) (es : List Event)
      → length stream < 2 ^ 31 - 1
      → capacity < 2 ^ 63
      → IsU32 isn
      → AreSegments es
      → let (r, delivered) = run es (init capacity) in
        (delivered ++ (stream_out r).buffer ≡ take (first_unassembled r) stream)
        × (first_unassembled r ≤ length stream)
  receive-prefix capacity es short h hi parts =
      let t = Tracks-run es short hi parts (Tracks-init capacity h (omega arith)) in
      (t.follows.assembled, t.follows.within)
