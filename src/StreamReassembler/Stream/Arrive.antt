-- ===== src/StreamReassembler/Stream/Arrive.antt =====
-- A substring of the stream arrives.
use csed353_sponge.Common.{
  length, get_or, take, drop, length-drop, take-drop, get_or-drop, eq-take, ℕ, zero, suc, ◌+◌, ◌-◌,
  ◌≤◌, ◌<◌, ◌≡◌, sym, ap, ap₂, ◌∙◌, Bool, some, List, ◌++◌, append_assoc, arith,
}
use csed353_sponge.StreamReassembler.{StreamReassembler}
use csed353_sponge.StreamReassembler.Invariant.{held}
use csed353_sponge.StreamReassembler.Push.{Fits, merged, seen_eof, Pushed}
use csed353_sponge.StreamReassembler.Stream.{arrive, IsPart, Follows}

module _ (stream : List ℕ) where
  -- A known byte is that of the stream.
  merged_known :
      (bytes : List ℕ) (index : ℕ) (eof : Bool) {r : StreamReassembler} {delivered : List ℕ}
      → IsPart stream (arrive bytes index eof)
      → Follows stream r delivered
      → (j b : ℕ) → merged bytes index r j ≡ some b
      → (j < length stream) × (b ≡ get_or stream j 0)
  merged_known bytes index eof {r} part f j b e = ground (arith, f.in_place j b, part.1 (j - index))

  known_run :
      (bytes : List ℕ) (index : ℕ) (eof : Bool) {r : StreamReassembler} {delivered : List ℕ}
      → IsPart stream (arrive bytes index eof)
      → Follows stream r delivered
      → (written : List ℕ) (n : ℕ) → n ≤ length written
      → ((i : ℕ)
          → i < length written
          → merged bytes index r (r.output.bytes_written + i) ≡ some (get_or written i 0))
      → r.output.bytes_written + n ≤ length stream
  known_run bytes index eof part f written zero le known = omega (arith, f.within)
  known_run bytes index eof {r} part f written (suc n) le known = omega (
    arith,
    (merged_known bytes index eof part f (r.output.bytes_written + n) (get_or written n 0)
        (known n le)).0,
  )

  module _ (bytes : List ℕ) (index : ℕ) (eof : Bool) {r t : StreamReassembler}
      {delivered written : List ℕ} (part : IsPart stream (arrive bytes index eof))
      (f : Follows stream r delivered)
      (p : Pushed bytes index (seen_eof bytes index eof r) r t written) where
    pub within-arrive : r.output.bytes_written + length written ≤ length stream
    within-arrive =
        known_run bytes index eof part f written (length written) (omega arith) p.contiguous

    written-eq : written ≡ take (length written) (drop r.output.bytes_written stream)
    written-eq =
        eq-take written (drop r.output.bytes_written stream) 0
          (omega (arith, within-arrive, length-drop r.output.bytes_written stream))
          (λ i h.
            (merged_known bytes index eof part f (r.output.bytes_written + i) (get_or written i 0)
              (p.contiguous i h)).1
            ∙ sym (get_or-drop r.output.bytes_written stream i 0))

    assembled-arrive : delivered ++ t.output.buffer ≡ take t.output.bytes_written stream
    assembled-arrive =
        ap (λ b. delivered ++ b) p.appended
        ∙ sym (append_assoc delivered r.output.buffer written)
        ∙ ap₂ ◌++◌ f.assembled written-eq
        ∙ take-drop r.output.bytes_written (length written) stream
        ∙ ap (λ n. take n stream) (sym p.advanced)

    in_place-arrive : (j b : ℕ) → held t j ≡ some b → (j < length stream) × (b ≡ get_or stream j 0)
    in_place-arrive j b e =
        ground (arith, p.waiting j, p.advanced, merged_known bytes index eof part f j b)

    pub Follows-arrive : Follows stream t delivered
    Follows-arrive = record {
      valid = p.valid;
      read_count = p.same_read ∙ f.read_count;
      assembled = assembled-arrive;
      within = omega (arith, p.advanced, within-arrive);
      in_place = in_place-arrive;
      small = omega (arith, f.small, p.same_capacity);
    }

  pub Fits-part :
      (bytes : List ℕ) (index : ℕ) (eof : Bool) {r : StreamReassembler} {delivered : List ℕ}
      → IsPart stream (arrive bytes index eof)
      → Follows stream r delivered
      → Fits bytes index r
  Fits-part bytes index eof part f =
      (omega (arith, f.small, part.0), omega (arith, f.small, f.within, f.valid.out.counted))
