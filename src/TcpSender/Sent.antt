-- ===== src/TcpSender/Sent.antt =====
-- What the sending of segments does to a sender, as a relation that composes.
use csed353_sponge.Common.{
  ◌==◌, length, length-append, ℕ, ◌+◌, ◌≤◌, ◌≡◌, refl, sym, ap, ◌∙◌, subst, Bool, false, not, ◌&&◌,
  ◌||◌, List, [], ◌∷◌, ◌++◌, append-nil, append_assoc, arith,
}
use csed353_sponge.ByteStream.Laws
use csed353_sponge.WrappingIntegers.{WrappingInt32, wrap}
use csed353_sponge.TcpConfig.{max_payload_size}
use csed353_sponge.TcpSegment.{TcpSegment, length_in_sequence_space}
use csed353_sponge.TcpSender.{TcpSender}

-- The segments take up the absolute sequence numbers from `a` to `b`, without a gap.
abbrev pub Chain : WrappingInt32 → ℕ → List TcpSegment → ℕ → Type 0
Chain isn a [] b = a ≡ b
Chain isn a (seg ∷ segs) b =
    (seg.header.seqno ≡ wrap a isn) × Chain isn (a + length_in_sequence_space seg) segs b

abbrev pub payloads : List TcpSegment → List ℕ
payloads [] = []
payloads (seg ∷ segs) = seg.payload ++ payloads segs

abbrev pub AreSmall : List TcpSegment → Type 0
AreSmall [] = Unit {0}
AreSmall (seg ∷ segs) = (length seg.payload ≤ max_payload_size) × AreSmall segs

-- After the first segment: none has a SYN, and the FIN is on the last of them, if it is to be sent.
abbrev pub MarkedAfter : Bool → List TcpSegment → Type 0
MarkedAfter fin [] = Unit {0}
MarkedAfter fin (seg ∷ segs) =
    (seg.header.syn ≡ false) × (seg.header.fin ≡ (fin && (length segs == 0))) × MarkedAfter fin segs

-- The SYN, if it is to be sent, is on the first of the segments and on no other, and the FIN, if it is
-- to be sent, on the last of them and on no other. Neither is to be sent if there is no segment.
abbrev pub Marked : Bool → Bool → List TcpSegment → Type 0
Marked syn fin [] = (syn ≡ false) × (fin ≡ false)
Marked syn fin (seg ∷ segs) =
    (seg.header.syn ≡ syn) × (seg.header.fin ≡ (fin && (length segs == 0))) × MarkedAfter fin segs

pub Marked-MarkedAfter :
    (fin : Bool) (segs : List TcpSegment) → Marked false fin segs → MarkedAfter fin segs
Marked-MarkedAfter fin [] m = tt
Marked-MarkedAfter fin (seg ∷ segs) m = m

pub Chain-append :
    (isn : WrappingInt32) (a b c : ℕ) (xs ys : List TcpSegment)
    → Chain isn a xs b
    → Chain isn b ys c
    → Chain isn a (xs ++ ys) c
Chain-append isn a b c [] ys h k = subst (λ n. Chain isn n ys c) (sym h) k
Chain-append isn a b c (x ∷ xs) ys h k =
    (h.0, Chain-append isn (a + length_in_sequence_space x) b c xs ys h.1 k)

pub Chain-le : (isn : WrappingInt32) (a b : ℕ) (xs : List TcpSegment) → Chain isn a xs b → a ≤ b
Chain-le isn a b [] h = omega arith
Chain-le isn a b (x ∷ xs) h = omega (arith, Chain-le isn (a + length_in_sequence_space x) b xs h.1)

pub payloads-append : (xs ys : List TcpSegment) → payloads (xs ++ ys) ≡ payloads xs ++ payloads ys
payloads-append [] ys = refl
payloads-append (x ∷ xs) ys =
    ap (λ t. x.payload ++ t) (payloads-append xs ys)
    ∙ sym (append_assoc x.payload (payloads xs) (payloads ys))

AreSmall-append : (xs ys : List TcpSegment) → AreSmall xs → AreSmall ys → AreSmall (xs ++ ys)
AreSmall-append [] ys h k = k
AreSmall-append (x ∷ xs) ys h k = (h.0, AreSmall-append xs ys h.1 k)

-- The fields that sending leaves alone.
pub record Same (s t : TcpSender) : Type 0 where
  pub isn : t.isn ≡ s.isn
  pub receiver_window : t.receiver_window_size ≡ s.receiver_window_size
  pub timeout : t.initial_retransmission_timeout ≡ s.initial_retransmission_timeout
  pub current : t.current_seqno ≡ s.current_seqno
  pub capacity : t.stream.capacity ≡ s.stream.capacity
  pub written : t.stream.bytes_written ≡ s.stream.bytes_written
  pub ended : t.stream.input_ended ≡ s.stream.input_ended
  pub error : t.stream.error ≡ s.stream.error

-- From `s` to `t` the segments `new` have been sent, which carry `m` bytes and take up `n` numbers. `fin` says whether
-- one of them carries a FIN.
pub record Sent (m n : ℕ) (fin : Bool) (new : List TcpSegment) (s t : TcpSender) : Type 0 where
  pub same : Same s t
  pub queued : t.segments_out ≡ s.segments_out ++ new
  pub outstanding : t.outstanding_segments ≡ s.outstanding_segments ++ new
  pub next : t.next_seqno ≡ s.next_seqno + n
  pub window : t.window_size + n ≡ s.window_size
  pub chain : Chain s.isn s.next_seqno new t.next_seqno
  pub valid : Laws.IsValid t.stream
  pub bytes : payloads new ++ t.stream.buffer ≡ s.stream.buffer
  pub carried : length (payloads new) ≡ m
  pub small : AreSmall new
  pub fin_sent : t.fin ≡ (s.fin || fin)
  pub timer : t.is_timer_on ≡ (s.is_timer_on || not (length new == 0))

pub Sent-nothing : (s : TcpSender) → Laws.IsValid s.stream → Sent 0 0 false [] s s
Sent-nothing s v = record {
  same = record {
    isn = refl;
    receiver_window = refl;
    timeout = refl;
    current = refl;
    capacity = refl;
    written = refl;
    ended = refl;
    error = refl;
  };
  queued = sym (append-nil s.segments_out);
  outstanding = sym (append-nil s.outstanding_segments);
  next = omega arith;
  window = omega arith;
  chain = refl;
  valid = v;
  bytes = refl;
  carried = refl;
  small = tt;
  fin_sent = ground arith;
  timer = ground arith;
}

pub Sent-trans :
    {i j n m : ℕ} {f g : Bool} {xs ys : List TcpSegment} {s t u : TcpSender}
    → Sent i n f xs s t
    → Sent j m g ys t u
    → Sent (i + j) (n + m) (f || g) (xs ++ ys) s u
Sent-trans {i} {j} {n} {m} {f} {g} {xs} {ys} {s} {t} {u} h k = record {
  same = ground (arith, h.same, k.same);
  queued = k.queued ∙ ap (λ q. q ++ ys) h.queued ∙ append_assoc s.segments_out xs ys;
  outstanding =
      k.outstanding ∙ ap (λ q. q ++ ys) h.outstanding ∙ append_assoc s.outstanding_segments xs ys;
  next = omega (arith, h.next, k.next);
  window = omega (arith, h.window, k.window);
  chain =
      Chain-append s.isn s.next_seqno t.next_seqno u.next_seqno xs ys h.chain
        (subst (λ w. Chain w t.next_seqno ys u.next_seqno) h.same.isn k.chain);
  valid = k.valid;
  bytes =
      ap (λ b. b ++ u.stream.buffer) (payloads-append xs ys)
      ∙ append_assoc (payloads xs) (payloads ys) u.stream.buffer
      ∙ ap (λ b. payloads xs ++ b) k.bytes
      ∙ h.bytes;
  carried = omega (
    arith,
    h.carried,
    k.carried,
    ap length (payloads-append xs ys),
    length-append (payloads xs) (payloads ys),
  );
  small = AreSmall-append xs ys h.small k.small;
  fin_sent = ground (arith, h.fin_sent, k.fin_sent);
  timer = ground (arith, h.timer, k.timer, length-append xs ys);
}

pub Sent-amounts :
    {i j n m : ℕ} {f : Bool} {xs : List TcpSegment} {s t : TcpSender}
    → i ≡ j
    → n ≡ m
    → Sent i n f xs s t
    → Sent j m f xs s t
Sent-amounts {i} {j} {n} {m} {f} {xs} {s} {t} p q h =
    subst (λ k. Sent k m f xs s t) p (subst (λ k. Sent i k f xs s t) q h)
