-- ===== src/StreamReassembler/Stream/End.antt =====
-- When the reassembler ends its output, if the end is only ever announced by a substring that
-- carries the last byte. (`EarlyEnd` shows what happens otherwise.)
use csed353_sponge.Common.{
  ◌==◌, if◌then◌else◌, Bool-cases, is_some, length, take, take_all, ℕ, ◌+◌, ◌-◌, ◌^◌, ◌<◌, ◌≡◌, sym,
  ap, ◌∙◌, ◌⊎◌, inl, inr, Bool, true, ◌&&◌, none, List, [], ◌∷◌, ◌++◌, arith,
}
use csed353_sponge.ByteStream.Laws
use csed353_sponge.StreamReassembler.{StreamReassembler, init}
use csed353_sponge.StreamReassembler.Cells.{count_zero}
use csed353_sponge.StreamReassembler.Invariant.{IsValid, held}
use csed353_sponge.StreamReassembler.Push.{merged, seen_eof, Pushed}
use csed353_sponge.StreamReassembler.Push.Correct.{push_substring_lem}
use csed353_sponge.StreamReassembler.Stream.{
  Event, arrive, consume, step, run, IsPart, AreParts, Follows,
}
use csed353_sponge.StreamReassembler.Stream.Arrive.{Fits-part, within-arrive}
use csed353_sponge.StreamReassembler.Stream.Run.{Follows-step, Follows-run, Follows-init}

-- Nothing waits if the counter is zero.
held_none :
    {r : StreamReassembler} → IsValid r → r.unassembled_bytes ≡ 0 → (j : ℕ) → held r j ≡ none
held_none {r} v e j = ground (arith, count_zero r.state (j - r.output.bytes_written), v.counted)

module _ (stream : List ℕ) where
  -- The end is announced by a substring that is not empty and reaches the end of the stream.
  abbrev pub IsFinal : Event → Type 0
  IsFinal (arrive bytes index eof) =
      eof ≡ true → (index + length bytes ≡ length stream) × (0 < length bytes)
  IsFinal (consume len) = Unit {0}

  abbrev pub AreFinal : List Event → Type 0
  AreFinal [] = Unit {0}
  AreFinal (e ∷ es) = IsFinal e × AreFinal es

  abbrev LastKnown : StreamReassembler → Type 0
  LastKnown r =
      (r.output.bytes_written ≡ length stream) ⊎ (is_some (held r (length stream - 1)) ≡ true)

  record Ending (r : StreamReassembler) : Type 0 where
    last_known : r.eof ≡ true → LastKnown r
    complete : r.output.input_ended ≡ true → r.output.bytes_written ≡ length stream

  known_or_none :
      (t : StreamReassembler)
      → LastKnown t
      → held t (length stream - 1) ≡ none
      → t.output.bytes_written ≡ length stream
  known_or_none t (inl e) h = e
  known_or_none t (inr e) h = cc

  module _ (bytes : List ℕ) (index : ℕ) (eof : Bool) {r t : StreamReassembler}
      {delivered written : List ℕ} (part : IsPart stream (arrive bytes index eof))
      (final : IsFinal (arrive bytes index eof)) (f : Follows stream r delivered) (e : Ending r)
      (p : Pushed bytes index (seen_eof bytes index eof r) r t written) where
    last-merged :
        seen_eof bytes index eof r ≡ true
        → (r.output.bytes_written ≡ length stream)
          ⊎ (is_some (merged bytes index r (length stream - 1)) ≡ true)
    last-merged h = elim (Bool-cases r.eof) [
      | inl old ↦ ground (arith, e.last_known old)
      | inr new ↦
          ground (arith, final, part, f.within, f.valid.out.counted, f.valid.same_capacity, f.small)
    ]

    last-arrive : t.eof ≡ true → LastKnown t
    last-arrive h = ground (
      arith,
      last-merged (sym p.noted ∙ h),
      p.advanced,
      p.waiting (length stream - 1),
      p.maximal,
      within-arrive stream bytes index eof part f p,
    )

    complete-arrive : t.output.input_ended ≡ true → t.output.bytes_written ≡ length stream
    complete-arrive h =
        let seen = seen_eof bytes index eof r in
        let test = seen && t.unassembled_bytes == 0 in
        let by = λ (b : Bool). if b then true else r.output.input_ended in
        elim (Bool-cases test) [
          | inl now ↦
              let facts : (seen ≡ true) × (t.unassembled_bytes ≡ 0) = ground (arith, now) in
              known_or_none t (last-arrive (p.noted ∙ facts.0))
                (held_none p.valid facts.1 (length stream - 1))
          | inr not_now ↦ omega (
            arith,
            e.complete (sym (ap by not_now) ∙ sym p.ended ∙ h),
            p.advanced,
            within-arrive stream bytes index eof part f p,
          )
        ]

    Ending-arrive : Ending t
    Ending-arrive = record { last_known = last-arrive; complete = complete-arrive }

  Ending-step :
      (e : Event) {r : StreamReassembler} {delivered : List ℕ}
      → IsPart stream e
      → IsFinal e
      → Follows stream r delivered
      → Ending r
      → Ending (step e r).0
  unfolding step
  Ending-step (arrive bytes index eof) part final f e =
      let (written, p) =
        push_substring_lem bytes index eof f.valid (Fits-part stream bytes index eof part f) in
      Ending-arrive bytes index eof part final f e p
  Ending-step (consume len) {r} part final f e =
      rw (Laws.read-eq len r.output, Laws.pop_output-eq len f.valid.out)
        (record { last_known = e.last_known; complete = e.complete })

  Ending-run :
      (es : List Event) {r : StreamReassembler} {delivered : List ℕ}
      → AreParts stream es
      → AreFinal es
      → Follows stream r delivered
      → Ending r
      → Ending (run es r).0
  unfolding run
  Ending-run [] parts final f e = e
  Ending-run (ev ∷ es) parts final f e =
      Ending-run es parts.1 final.1 (Follows-step stream ev parts.0 f)
        (Ending-step ev parts.0 final.0 f e)

  Ending-init : (capacity : ℕ) → Ending (init capacity)
  unfolding init
  Ending-init capacity =
      rw (Laws.init-eq capacity) (record { last_known = λ h. cc; complete = λ h. cc })

  -- If the end is only announced by a substring that is not empty and reaches the end of the stream,
  -- then a new reassembler ends its output only once the whole stream has been assembled.
  pub run_ended :
      (capacity : ℕ) (es : List Event)
      → capacity < 2 ^ 63
      → length stream + capacity < 2 ^ 64
      → AreParts stream es
      → AreFinal es
      → (run es (init capacity)).0.output.input_ended ≡ true
      → (run es (init capacity)).1 ++ (run es (init capacity)).0.output.buffer ≡ stream
  run_ended capacity es h small parts final ended =
      let f = Follows-run stream es parts (Follows-init stream capacity h small) in
      let e =
        Ending-run es parts final (Follows-init stream capacity h small) (Ending-init capacity) in
      f.assembled
      ∙ ap (λ n. take n stream) (e.complete ended)
      ∙ take_all (length stream) stream (omega arith)
