-- ===== src/TcpSender/Loop.antt =====
-- The loop of `fill_window`.
use csed353_sponge.Common.{
  ◌==◌, if◌then◌else◌, to_ℕ, sub64, length, take, drop, length-append, length-take, length-drop,
  take-append-drop, ℕ, zero, suc, ◌+◌, ◌-◌, ◌*◌, ◌^◌, ◌≤◌, ◌<◌, ◌≡◌, refl, ap, ◌∙◌, subst, Bool,
  true, false, ◌&&◌, List, [], ◌∷◌, ◌++◌, append-nil, arith,
}
use csed353_sponge.ByteStream.Laws
use csed353_sponge.WrappingIntegers.{wrap}
use csed353_sponge.TcpConfig.{max_payload_size}
use csed353_sponge.TcpHeader.{new_header}
use csed353_sponge.TcpSegment.{TcpSegment, length_in_sequence_space}
use csed353_sponge.TcpSender.{TcpSender, send_segment, send_segments}
use csed353_sponge.TcpSender.Sent.{
  Marked, Marked-MarkedAfter, Sent, Sent-trans, Sent-amounts, Sent-amounts,
}

-- The segment that one round sends.
abbrev sent_segment : Bool → Bool → ℕ → TcpSender → TcpSegment
sent_segment syn fin size s = record {
  header = record new_header { syn = syn; fin = fin; seqno = wrap s.next_seqno s.isn };
  payload = take size s.stream.buffer;
}

module _ (syn fin : Bool) (size : ℕ) (s : TcpSender) (v : Laws.IsValid s.stream)
    (small : s.window_size < 2 ^ 16) (held : size ≤ length s.stream.buffer)
    (le : size ≤ max_payload_size) (fits : size + to_ℕ syn + to_ℕ fin ≤ s.window_size)
    (room : s.next_seqno + s.window_size < 2 ^ 64) where
  length-sent : length_in_sequence_space (sent_segment syn fin size s) ≡ size + to_ℕ syn + to_ℕ fin
  length-sent = ground (arith, length-take size s.stream.buffer)

  -- One round of the loop, where the window and the sequence numbers have room for the segment.
  send_segment-Sent :
      Sent size
        (size + to_ℕ syn + to_ℕ fin)
        fin
        (sent_segment syn fin size s ∷ [])
        s
        (send_segment syn fin size s)
  unfolding send_segment
  send_segment-Sent =
      rw (Laws.read-eq size s.stream, Laws.pop_output-eq size v, Laws.peek_output-eq size s.stream)
        (record {
          same = record {
            isn = refl;
            receiver_window = refl;
            timeout = refl;
            current = refl;
            capacity = refl;
            written = refl;
            ended = refl;
            error = refl;
          };
          queued = refl;
          outstanding = refl;
          next = omega (arith, length-sent);
          window = omega (arith, length-sent);
          chain = (refl, omega (arith, length-sent));
          valid = omega (arith, length-drop size s.stream.buffer);
          bytes =
              ap (λ b. b ++ drop size s.stream.buffer) (append-nil (take size s.stream.buffer))
              ∙ take-append-drop size s.stream.buffer;
          carried = omega (
            arith,
            length-append (take size s.stream.buffer) [],
            length-take size s.stream.buffer,
            held,
          );
          small = (omega (arith, length-take size s.stream.buffer), tt);
          fin_sent = refl;
          timer = ground arith;
        })

-- The rounds that are left of the loop: `k + 1` of them from `index` on, with `rest` bytes to send.
pub record Left (k index num payload rest : ℕ) (syn fin : Bool) (s : TcpSender) : Type 0 where
  pub rounds : num ≡ index + k + 1
  pub bytes : payload ≡ max_payload_size * index + rest
  pub enough : rest ≤ max_payload_size * (k + 1)
  pub needed : max_payload_size * k ≤ rest
  pub fits : payload < 2 ^ 63
  pub held : rest ≤ length s.stream.buffer
  pub room : rest + to_ℕ (index == 0 && syn) + to_ℕ fin ≤ s.window_size

-- What sending relies on: no counter wraps.
abbrev pub Valid : TcpSender → Type 0
Valid s = Laws.IsValid s.stream × (s.window_size < 2 ^ 16) × (s.next_seqno + s.window_size < 2 ^ 64)

-- One round, at the flags and the size that it computes.
send_segments_step :
    (rounds index num payload size : ℕ) (syn fin is_last : Bool) (s : TcpSender)
    → (index == sub64 num 1) ≡ is_last
    → (if is_last then sub64 payload (max_payload_size * index) else max_payload_size) ≡ size
    → send_segments (suc rounds) index num payload syn fin s
      ≡ send_segments rounds
          (index + 1)
          num
          payload
          syn
          fin
          (send_segment (index == 0 && syn) (is_last && fin) size s)
unfolding send_segments
send_segments_step rounds index num payload size syn fin is_last s e z = rw (e, z) refl

pub send_segments_done :
    (index num payload : ℕ) (syn fin : Bool) (s : TcpSender)
    → send_segments zero index num payload syn fin s ≡ s
unfolding send_segments
send_segments_done index num payload syn fin s = refl

Left-next :
    (k index num payload rest : ℕ) (syn fin : Bool) {s t : TcpSender} {new : List TcpSegment}
    → Left (suc k) index num payload rest syn fin s
    → Sent max_payload_size (max_payload_size + to_ℕ (index == 0 && syn) + 0) false new s t
    → length t.stream.buffer + max_payload_size ≡ length s.stream.buffer
    → Left k (index + 1) num payload (rest - max_payload_size) syn fin t
Left-next k index num payload rest syn fin l h e = record {
  rounds = omega (arith, l.rounds);
  bytes = omega (arith, l.bytes, l.needed);
  enough = omega (arith, l.enough);
  needed = omega (arith, l.needed);
  fits = l.fits;
  held = omega (arith, l.held, e);
  room = ground (arith, l.room, l.needed, h.window);
}

pub Valid-next :
    {m n : ℕ} {fin : Bool} {new : List TcpSegment} {s t : TcpSender}
    → Valid s
    → Sent m n fin new s t
    → Valid t
Valid-next v h = (h.valid, omega (arith, v.1, h.window), omega (arith, v.2, h.window, h.next))

-- The SYN is sent in the first round only.
total-eq :
    (index rest : ℕ) (syn fin : Bool)
    → max_payload_size ≤ rest
    → max_payload_size
        + to_ℕ (index == 0 && syn)
        + 0
        + (rest - max_payload_size + to_ℕ (index + 1 == 0 && syn) + to_ℕ fin)
      ≡ rest + to_ℕ (index == 0 && syn) + to_ℕ fin
total-eq index rest syn fin h = ground arith

-- The FIN is not on a segment that others follow.
no_fin :
    (fin : Bool) (segs : List TcpSegment) → 0 < length segs → false ≡ (fin && (length segs == 0))
no_fin fin [] h = absurd (omega (arith, h))
no_fin fin (seg ∷ segs) h = ground arith

-- And the SYN in no later round.
later_syn : (index : ℕ) (syn : Bool) → (index + 1 == 0 && syn) ≡ false
later_syn index syn = ground arith

-- The loop sends what was left, in at least one segment.
pub send_segments-Sent :
    (k index num payload rest : ℕ) (syn fin : Bool) (s : TcpSender)
    → Valid s
    → Left k index num payload rest syn fin s
    → (new : List TcpSegment) × Sent rest
        (rest + to_ℕ (index == 0 && syn) + to_ℕ fin)
        fin
        new
        s
        (send_segments (suc k) index num payload syn fin s)
      × (0 < length new)
      × Marked (index == 0 && syn) fin new
send_segments-Sent zero index num payload rest syn fin s v l =
    let step =
      send_segments_step zero index num payload rest syn fin true s
        (ground (arith, l.rounds, l.bytes, l.fits)) (omega (arith, l.bytes, l.fits)) in
    rw (step, send_segments_done)
      (
        sent_segment (index == 0 && syn) fin rest s ∷ [],
        send_segment-Sent (index == 0 && syn) fin rest s v.0 v.1 l.held (omega (arith, l.enough))
            l.room v.2,
        omega arith,
        (refl, ground arith, tt),
      )
send_segments-Sent (suc k) index num payload rest syn fin s v l =
    let step =
      send_segments_step (suc k) index num payload max_payload_size syn fin false s
        (ground (arith, l.rounds, l.bytes, l.fits, l.needed)) refl in
    let segment = sent_segment (index == 0 && syn) false max_payload_size s in
    let t = send_segment (index == 0 && syn) false max_payload_size s in
    let first =
      send_segment-Sent (index == 0 && syn) false max_payload_size s v.0 v.1
        (omega (arith, l.held, l.needed)) (omega arith) (omega (arith, l.needed, l.room)) v.2 in
    let shorter : length t.stream.buffer + max_payload_size ≡ length s.stream.buffer = omega (
      arith,
      ap length first.bytes,
      length-append (take max_payload_size s.stream.buffer ++ []) t.stream.buffer,
      length-append (take max_payload_size s.stream.buffer) [],
      length-take max_payload_size s.stream.buffer,
      l.held,
      l.needed,
    ) in
    let (new, sent, some', marked) =
      send_segments-Sent k (index + 1) num payload (rest - max_payload_size) syn fin t
        (Valid-next v first) (Left-next k index num payload rest syn fin l first shorter) in
    rw step (
      segment ∷ new,
      Sent-amounts (omega (arith, l.needed)) (total-eq index rest syn fin (omega (arith, l.needed)))
          (Sent-trans first sent),
      omega arith,
      (
        refl,
        no_fin fin new some',
        Marked-MarkedAfter fin new (subst (λ b. Marked b fin new) (later_syn index syn) marked),
      ),
    )
