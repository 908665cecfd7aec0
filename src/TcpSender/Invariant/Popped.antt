-- ===== src/TcpSender/Invariant/Popped.antt =====
-- The loop of `ack_received` of libsponge/tcp_sender.cc: what it takes off the queue.
use csed353_sponge.Common.{
  ltb, if◌then◌else◌, ltb→lt, ltb→ge, Bool-cases, add64, ℕ, ◌+◌, ◌^◌, ◌≤◌, ◌<◌, ◌≡◌, refl, ap, ◌∙◌,
  inl, inr, List, [], ◌∷◌, ◌++◌, arith,
}
use csed353_sponge.WrappingIntegers.{WrappingInt32, IsU32, unwrap}
use csed353_sponge.WrappingIntegers.Unwrap.{unwrap-wrap}
use csed353_sponge.TcpSegment.{TcpSegment, length_in_sequence_space}
use csed353_sponge.TcpSender.{TcpSender, pop_acked}
use csed353_sponge.TcpSender.Sent.{Chain, Chain-le}
use csed353_sponge.TcpSender.Invariant.{Core}
use csed353_sponge.TcpSender.Invariant.Kept.{Kept, Kept-Core}

-- What the loop of `ack_received` leaves of the outstanding segments.
remaining : ℕ → ℕ → List TcpSegment → List TcpSegment
remaining a acked [] = []
remaining a acked (seg ∷ segs) =
    let end = a + length_in_sequence_space seg in
    if ltb acked end then seg ∷ segs else remaining end acked segs

-- The number of the first of them.
first_left : ℕ → ℕ → List TcpSegment → ℕ
first_left a acked [] = a
first_left a acked (seg ∷ segs) =
    let end = a + length_in_sequence_space seg in
    if ltb acked end then a else first_left end acked segs

remaining-Chain :
    (isn : WrappingInt32) (a acked b : ℕ) (segs : List TcpSegment)
    → Chain isn a segs b
    → Chain isn (first_left a acked segs) (remaining a acked segs) b
unfolding remaining first_left
remaining-Chain isn a acked b [] h = h
remaining-Chain isn a acked b (seg ∷ segs) h =
    ground (arith, remaining-Chain isn (a + length_in_sequence_space seg) acked b segs h.1)

first_left-le : (a acked : ℕ) (segs : List TcpSegment) → a ≤ acked → first_left a acked segs ≤ acked
unfolding first_left
first_left-le a acked [] h = h
first_left-le a acked (seg ∷ segs) h =
    ground (arith, first_left-le (a + length_in_sequence_space seg) acked segs)

-- One round of the loop.
abbrev popped : List TcpSegment → TcpSender → TcpSender
popped segs s = record s {
  retransmission_timeout = s.initial_retransmission_timeout;
  consecutive_retransmissions = 0;
  timer_elapsed = 0;
  outstanding_segments = segs;
}

Kept-popped :
    (segs queue : List TcpSegment) (s : TcpSender) {t : TcpSender}
    → Kept queue (popped segs s) t
    → Kept queue s t
Kept-popped segs queue s k = record {
  isn = k.isn;
  window = k.window;
  stream = k.stream;
  fin = k.fin;
  current = k.current;
  next = k.next;
  outstanding = k.outstanding;
  timer = k.timer;
}

-- The loop, where the numbers in flight lie within 2^31 of the next one.
Kept-pop_acked :
    (segs : List TcpSegment) (a : ℕ) (s : TcpSender)
    → IsU32 s.isn
    → s.next_seqno < 2 ^ 64
    → s.next_seqno < a + 2 ^ 31
    → s.outstanding_segments ≡ segs
    → Chain s.isn a segs s.next_seqno
    → Kept (remaining a s.current_seqno segs) s (pop_acked segs s)
unfolding pop_acked remaining
Kept-pop_acked [] a s hi hn near q chain = ground (arith, q)
Kept-pop_acked (seg ∷ segs) a s hi hn near q chain =
    let end = a + length_in_sequence_space seg in
    let le = Chain-le s.isn end s.next_seqno segs chain.1 in
    let number : unwrap seg.header.seqno s.isn s.next_seqno ≡ a =
      ap (λ w. unwrap w s.isn s.next_seqno) chain.0
      ∙ unwrap-wrap a s.next_seqno s.isn (omega arith) hn hi (omega arith) in
    let sum : add64 a (length_in_sequence_space seg) ≡ end = omega arith in
    rw (number, sum)
      (elim (Bool-cases (ltb s.current_seqno end)) [
        | inl e ↦ rw e (ground (arith, q))
        | inr e ↦ rw e (
            Kept-popped segs (remaining end s.current_seqno segs) s
              (Kept-pop_acked segs end (popped segs s) hi hn (omega arith) refl chain.1))
      ])

pub pop_acked-Kept :
    {s : TcpSender} (c : Core s)
    → s.next_seqno < 2 ^ 64
    → s.next_seqno < c.oldest + 2 ^ 31
    → (queue : List TcpSegment) × Kept queue s (pop_acked s.outstanding_segments s)
pop_acked-Kept {s} c hn near = (
  remaining c.oldest s.current_seqno s.outstanding_segments,
  Kept-pop_acked s.outstanding_segments c.oldest s c.isn hn near refl c.flight,
)

pub pop_acked-Core :
    {s : TcpSender} (c : Core s)
    → s.next_seqno < 2 ^ 64
    → s.next_seqno < c.oldest + 2 ^ 31
    → Core (pop_acked s.outstanding_segments s)
      × ((pop_acked s.outstanding_segments s).is_timer_on ≡ s.is_timer_on)
pop_acked-Core {s} c hn near =
    let q = remaining c.oldest s.current_seqno s.outstanding_segments in
    let a = first_left c.oldest s.current_seqno s.outstanding_segments in
    let k = Kept-pop_acked s.outstanding_segments c.oldest s c.isn hn near refl c.flight in
    (
      Kept-Core a k (first_left-le c.oldest s.current_seqno s.outstanding_segments c.oldest_le)
          (remaining-Chain s.isn c.oldest s.current_seqno s.next_seqno s.outstanding_segments
            c.flight)
          c,
      k.timer,
    )

-- The first of the outstanding segments, which start at `b`, is not yet acknowledged as a whole.
abbrev pub FirstUnacked : ℕ → ℕ → List TcpSegment → Type 0
FirstUnacked b acked [] = Unit {0}
FirstUnacked b acked (seg ∷ segs) = acked < b + length_in_sequence_space seg

record Split (isn : WrappingInt32) (a acked : ℕ) (segs rest : List TcpSegment) : Type 0 where
  done : List TcpSegment
  upto : ℕ
  parts : done ++ rest ≡ segs
  chain : Chain isn a done upto
  acknowledged : upto ≤ acked
  unacked : FirstUnacked upto acked rest

remaining-Split :
    (isn : WrappingInt32) (a acked b : ℕ) (segs : List TcpSegment)
    → a ≤ acked
    → Chain isn a segs b
    → Split isn a acked segs (remaining a acked segs)
unfolding remaining
remaining-Split isn a acked b [] le h = record {
  done = [];
  upto = a;
  parts = refl;
  chain = refl;
  acknowledged = le;
  unacked = tt;
}
remaining-Split isn a acked b (seg ∷ segs) le h =
    let end = a + length_in_sequence_space seg in
    elim (Bool-cases (ltb acked end)) [
      | inl e ↦ rw e (record {
        done = [];
        upto = a;
        parts = refl;
        chain = refl;
        acknowledged = le;
        unacked = ltb→lt acked end e;
      })
      | inr e ↦
          let r = remaining-Split isn end acked b segs (ltb→ge acked end e) h.1 in
          rw e (record {
            done = seg ∷ r.done;
            upto = r.upto;
            parts = ap (λ t. seg ∷ t) r.parts;
            chain = (h.0, r.chain);
            acknowledged = r.acknowledged;
            unacked = r.unacked;
          })
    ]

-- In a sender that satisfies the invariant, with fewer than 2^31 numbers outstanding, the loop takes
-- off the queue the segments that are acknowledged as a whole, and no other: those taken are at its
-- front and end at or before the acknowledged number, and the first that stays ends past it.
pub pop_acked_lem :
    {s : TcpSender} (c : Core s)
    → s.next_seqno < 2 ^ 64
    → s.next_seqno < c.oldest + 2 ^ 31
    → let t = pop_acked s.outstanding_segments s in
      (done : List TcpSegment) × (upto : ℕ) × (done ++ t.outstanding_segments
        ≡ s.outstanding_segments)
      × Chain s.isn c.oldest done upto
      × (upto ≤ s.current_seqno)
      × FirstUnacked upto s.current_seqno t.outstanding_segments
pop_acked_lem {s} c hn near =
    let k = Kept-pop_acked s.outstanding_segments c.oldest s c.isn hn near refl c.flight in
    let r =
      remaining-Split s.isn c.oldest s.current_seqno s.next_seqno s.outstanding_segments c.oldest_le
        c.flight in
    rw k.outstanding (r.done, r.upto, r.parts, r.chain, r.acknowledged, r.unacked)
