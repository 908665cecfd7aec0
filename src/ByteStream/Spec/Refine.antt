-- ===== src/ByteStream/Spec/Refine.antt =====
-- A valid byte stream answers every sequence of calls as the history of its bytes does.
use csed353_sponge.Common.{
  length, take, drop, length-append, length-take, length-drop, drop_all, drop-append_le, drop-drop,
  ℕ, ◌+◌, ◌-◌, ◌^◌, ◌≤◌, ◌<◌, min, ◌≡◌, refl, ap, ap₂, ◌∙◌, false, List, [], ◌∷◌, arith,
}
use csed353_sponge.ByteStream
use csed353_sponge.ByteStream.{ByteStream, init}
use csed353_sponge.ByteStream.Laws.{
  init-IsValid, write-eq, peek_output-eq, pop_output-eq, read-eq, write-IsValid, pop_output-IsValid,
  end_input-IsValid, set_error-IsValid, end_input-eq, set_error-eq,
}
use csed353_sponge.ByteStream.Spec.{
  History, pending, room, Call, write, peek_output, pop_output, read, end_input, set_error, bytes,
  step, run, spec_step, spec_run, offered, Represents,
}

-- Popping at most `len` of the bytes that are held.
drop-min :
    (len n : ℕ) (xs : List ℕ) → drop len (drop n xs) ≡ drop (n + min len (length (drop n xs))) xs
drop-min len n xs = ground (
  arith,
  drop-drop n len xs,
  length-drop n xs,
  drop_all len (drop n xs),
  drop_all (n + min len (length xs - n)) xs,
)

module _ {h : History} {s : ByteStream} (rep : Represents h s) where
  length-pending : length (pending h) ≡ length h.written - h.taken
  length-pending = length-drop h.taken h.written

  length-held : length s.buffer ≡ length (pending h)
  length-held = ap length rep.held

  write_refines :
      (xs : List ℕ)
      → length h.written + length xs < 2 ^ 64
      → let (t, r) = step (write xs) s in
        let (k, r') = spec_step (write xs) h in (r ≡ r') × Represents k t
  unfolding step spec_step
  write_refines xs fit = ground (
    arith,
    write-eq xs rep.valid,
    write-IsValid xs rep.valid,
    length-held,
    drop-append_le h.taken h.written (take (room h) xs),
    length-append h.written (take (room h) xs),
    length-take (room h) xs,
  )

  pop_refines :
      (len : ℕ)
      → Represents
          (record h { taken = h.taken + min len (length (pending h)) })
          (ByteStream.pop_output len s)
  pop_refines len = ground (
    arith,
    pop_output-eq len rep.valid,
    pop_output-IsValid len rep.valid,
    length-held,
    drop-min len h.taken h.written,
  )

-- One call: the same reply, and the stream stays that of the history.
pub step_refines :
    (c : Call) {h : History} {s : ByteStream}
    → Represents h s
    → length h.written + offered (c ∷ []) < 2 ^ 64
    → let (t, r) = step c s in let (k, r') = spec_step c h in (r ≡ r') × Represents k t
step_refines (write xs) {h} {s} rep fit = write_refines rep xs (omega arith)
step_refines (peek_output len) {h} {s} rep fit =
    unfold step spec_step in (ap bytes (peek_output-eq len s ∙ ap (take len) rep.held), rep)
step_refines (pop_output len) rep fit = unfold step spec_step in (refl, pop_refines rep len)
step_refines (read len) {h} {s} rep fit =
    unfold step spec_step in
    rw (read-eq len s)
      (ap bytes (peek_output-eq len s ∙ ap (take len) rep.held), pop_refines rep len)
step_refines end_input {h} {s} rep fit =
    unfold step spec_step in ground (arith, end_input-eq s, end_input-IsValid rep.valid)
step_refines set_error {h} {s} rep fit =
    unfold step spec_step in ground (arith, set_error-eq s, set_error-IsValid rep.valid)

length-spec_step :
    (c : Call) (h : History)
    → length (spec_step c h).0.written ≤ length h.written + offered (c ∷ [])
unfolding spec_step
length-spec_step (write xs) h =
    omega (arith, length-append h.written (take (room h) xs), length-take (room h) xs)
length-spec_step (peek_output len) h = omega arith
length-spec_step (pop_output len) h = omega arith
length-spec_step (read len) h = omega arith
length-spec_step end_input h = omega arith
length-spec_step set_error h = omega arith

offered-cons : (c : Call) (cs : List Call) → offered (c ∷ cs) ≡ offered (c ∷ []) + offered cs
offered-cons (write xs) cs = omega arith
offered-cons (peek_output len) cs = omega arith
offered-cons (pop_output len) cs = omega arith
offered-cons (read len) cs = omega arith
offered-cons end_input cs = omega arith
offered-cons set_error cs = omega arith

-- Every sequence of calls that offers fewer than 2^64 bytes in all gets from the stream the
-- replies that it gets from the history of its bytes.
pub run_refines :
    (cs : List Call) {h : History} {s : ByteStream}
    → Represents h s
    → length h.written + offered cs < 2 ^ 64
    → run cs s ≡ spec_run cs h
unfolding run spec_run
run_refines [] rep fit = refl
run_refines (c ∷ cs) {h} {s} rep fit =
    let (same, next) = step_refines c rep (omega (arith, offered-cons c cs)) in
    ap₂ ◌∷◌ same (run_refines cs next (omega (arith, offered-cons c cs, length-spec_step c h)))

-- A new stream stands for the empty history.
pub init-Represents :
    (capacity : ℕ)
    → capacity < 2 ^ 63
    → Represents
        (record { capacity = capacity; written = []; taken = 0; ended = false })
        (init capacity)
unfolding init
init-Represents capacity h = ground (arith, init-IsValid capacity h)
