-- ===== src/TcpSender/Fill.antt =====
-- `fill_window`: how much it sends, and that it sends all that the window allows.
use csed353_sponge.Common.{
  leb, ◌==◌, to_ℕ, leb→le, leb→gt, Bool-cases, add64, sub64, length, length-append, length-eq-zero,
  ℕ, zero, suc, ◌+◌, ◌/◌, ◌^◌, ◌≤◌, ◌<◌, min, max, ◌≡◌, refl, ap, subst, ◌⊎◌, inl, inr, Bool, false,
  not, ◌&&◌, ◌||◌, List, [], arith,
}
use csed353_sponge.ByteStream.Laws
use csed353_sponge.TcpConfig.{max_payload_size}
use csed353_sponge.TcpSegment.{TcpSegment}
use csed353_sponge.TcpSender.{
  TcpSender, has_syn, has_fin, reach_fin, actual_payload_size, num_segments, send_segments,
  fill_window,
}
use csed353_sponge.TcpSender.Sent.{Marked, Sent, Sent-nothing, payloads}
use csed353_sponge.TcpSender.Loop.{Valid, send_segments-Sent, send_segments_done}

-- The SYN, the bytes that wait in the stream, and the FIN if the input has ended.
abbrev pub offered : TcpSender → ℕ
offered s = to_ℕ (has_syn s) + length s.stream.buffer + to_ℕ (has_fin s)

-- The FIN has to be sent, and fits behind all that waits.
abbrev pub fin_due : TcpSender → Bool
fin_due s =
    s.stream.input_ended
    && not s.fin
    && leb (to_ℕ (s.next_seqno == 0) + length s.stream.buffer + 1) s.window_size

-- The window is open while the SYN has not been sent.
abbrev pub SynFits : TcpSender → Type 0
SynFits s = s.next_seqno ≡ 0 → 0 < s.window_size

no_rounds :
    (payload : ℕ) (syn fin : Bool)
    → payload < 2 ^ 16
    → max (sub64 (add64 payload max_payload_size) 1 / max_payload_size) (to_ℕ (syn || fin)) ≡ 0
    → (payload ≡ 0) × (syn ≡ false) × (fin ≡ false)
no_rounds payload syn fin h e = ground arith

fill_nothing :
    (payload : ℕ) (syn fin : Bool) (s : TcpSender)
    → Laws.IsValid s.stream
    → (payload ≡ 0) × (syn ≡ false) × (fin ≡ false)
    → (new : List TcpSegment) × Sent payload
        (payload + to_ℕ syn + to_ℕ fin)
        fin
        new
        s
        (send_segments zero 0 0 payload syn fin s)
      × Marked syn fin new
fill_nothing payload syn fin s v (p, a, b) =
    rw (p, a, b, send_segments_done) ([], Sent-nothing s v, (refl, refl))

module _ (s : TcpSender) (v : Valid s) (syn_fits : SynFits s) where
  pub payload-eq :
      actual_payload_size s + to_ℕ (has_syn s) + to_ℕ (reach_fin s) ≡ min (offered s) s.window_size
  payload-eq = ground (arith, v.0.fits, v.0.small, syn_fits)

  payload-le : actual_payload_size s ≤ length s.stream.buffer
  payload-le = ground (arith, v.0.fits, v.0.small, syn_fits)

  payload-le-window : actual_payload_size s ≤ s.window_size
  payload-le-window = omega (arith, payload-eq)

  -- The number of rounds, from the payload alone.
  fill_from :
      (rounds payload : ℕ)
      → actual_payload_size s ≡ payload
      → max
          (sub64 (add64 payload max_payload_size) 1 / max_payload_size)
          (to_ℕ (has_syn s || reach_fin s))
        ≡ rounds
      → (new : List TcpSegment) × Sent payload
          (payload + to_ℕ (has_syn s) + to_ℕ (reach_fin s))
          (reach_fin s)
          new
          s
          (send_segments rounds 0 rounds payload (has_syn s) (reach_fin s) s)
        × Marked (has_syn s) (reach_fin s) new
  fill_from zero payload p e =
      fill_nothing payload (has_syn s) (reach_fin s) s v.0
        (no_rounds payload (has_syn s) (reach_fin s) (omega (arith, p, payload-le-window, v.1)) e)
  fill_from (suc k) payload p e =
      let (new, sent, some', marked) =
        send_segments-Sent k 0 (suc k) payload payload (has_syn s) (reach_fin s) s v (record {
          rounds = omega arith;
          bytes = omega arith;
          enough = omega (arith, p, payload-le-window, v.1);
          needed = ground (arith, p, payload-le-window, v.1);
          fits = omega (arith, p, payload-le-window, v.1);
          held = omega (arith, p, payload-le);
          room = omega (arith, p, payload-eq);
        }) in
      (new, sent, marked)

  fill_window_lem :
      (new : List TcpSegment) × Sent
        (actual_payload_size s)
        (min (offered s) s.window_size)
        (reach_fin s)
        new
        s
        (fill_window s)
      × Marked (has_syn s) (reach_fin s) new
  unfolding fill_window
  fill_window_lem =
      let (new, sent, marked) = fill_from (num_segments s) (actual_payload_size s) refl refl in
      (
        new,
        subst (λ n. Sent (actual_payload_size s) n (reach_fin s) new s (fill_window s)) payload-eq
            sent,
        marked,
      )

  pub fill_window-Sent :
      (new : List TcpSegment) × Sent
        (actual_payload_size s)
        (min (offered s) s.window_size)
        (reach_fin s)
        new
        s
        (fill_window s)
  fill_window-Sent = let (new, sent, marked) = fill_window_lem in (new, sent)

  reach_fin-eq : reach_fin s ≡ fin_due s
  reach_fin-eq = ground (arith, v.0.fits, v.0.small)

  -- With a window that is open for the SYN, `fill_window` sends new segments of at most 1000 bytes,
  -- numbered without a gap from `next_seqno` on. They take up what is offered (SYN, bytes, FIN) or
  -- the whole window, whichever is smaller, carry exactly the first bytes of the stream, are queued
  -- and kept as outstanding in order, and start the timer if there is one. The first of them has the
  -- SYN exactly if nothing was sent before, the last has the FIN exactly if the input has ended, the
  -- FIN was not sent before, and it fits into the window behind all that waits; no other segment has a
  -- SYN or a FIN.
  pub fill_window-Marked :
      (new : List TcpSegment) × Sent
        (actual_payload_size s)
        (min (offered s) s.window_size)
        (fin_due s)
        new
        s
        (fill_window s)
      × Marked (s.next_seqno == 0) (fin_due s) new
  fill_window-Marked =
      let (new, sent, marked) = fill_window_lem in
      (
        new,
        subst
            (λ b.
              Sent (actual_payload_size s) (min (offered s) s.window_size) b new s (fill_window s))
            reach_fin-eq sent,
        subst (λ b. Marked (s.next_seqno == 0) b new) reach_fin-eq marked,
      )

reach-eq : (s : TcpSender) → Valid s → offered s < s.window_size → reach_fin s ≡ has_fin s
reach-eq s v h = ground (arith, v.0.fits, v.0.small)

-- After `fill_window`, from a valid sender whose window is open for the SYN, either the window is
-- used up, or nothing is left to send: no byte, no SYN, and no FIN that is due.
pub fill_window_maximal :
    (s : TcpSender)
    → Valid s
    → SynFits s
    → let t = fill_window s in
      (t.window_size ≡ 0) ⊎ ((t.stream.buffer ≡ []) × (has_fin t ≡ false) × (has_syn t ≡ false))
fill_window_maximal s v f =
    let t = fill_window s in
    let (new, sent) = fill_window-Sent s v f in
    let rest : length t.stream.buffer + actual_payload_size s ≡ length s.stream.buffer =
      omega
        (arith, ap length sent.bytes, length-append (payloads new) t.stream.buffer, sent.carried) in
    elim (Bool-cases (leb s.window_size (offered s))) [
      | inl used ↦ inl (omega (arith, sent.window, leb→le s.window_size (offered s) used))
      | inr open' ↦
          let more = leb→gt s.window_size (offered s) open' in
          let reached : reach_fin s ≡ has_fin s = reach-eq s v more in
          inr (
            length-eq-zero t.stream.buffer
                (omega (arith, rest, payload-eq s v f, ap to_ℕ reached, more)),
            ground (arith, sent.fin_sent, sent.same.ended, reached),
            ground (arith, sent.next),
          )
    ]
