-- ===== src/StreamReassembler/Stream/Run.antt =====
-- Any sequence of arrivals and reads: the reader gets the beginning of the stream.
use csed353_sponge.Common.{
  length, take, drop, length-append, length-take, length-drop, take-append-drop, ℕ, ◌+◌, ◌-◌, ◌^◌,
  ◌≤◌, ◌<◌, ◌≡◌, refl, ap, ◌∙◌, Bool, List, [], ◌∷◌, ◌++◌, append-nil, append_assoc, arith,
}
use csed353_sponge.ByteStream
use csed353_sponge.ByteStream.{ByteStream}
use csed353_sponge.StreamReassembler.Cells.{get_or-replicate}
use csed353_sponge.ByteStream.Laws
use csed353_sponge.StreamReassembler.{StreamReassembler, init, push_substring}
use csed353_sponge.StreamReassembler.Invariant.{IsValid, init-IsValid}
use csed353_sponge.StreamReassembler.Push.Correct.{push_substring_lem}
use csed353_sponge.StreamReassembler.Stream.{
  Event, arrive, consume, step, run, IsPart, AreParts, Follows,
}
use csed353_sponge.StreamReassembler.Stream.Arrive.{Follows-arrive, Fits-part}

module _ (stream : List ℕ) where
  Follows-consume :
      (len : ℕ) {r : StreamReassembler} {delivered : List ℕ}
      → Follows stream r delivered
      → Follows stream
          (record r { output = ByteStream.pop_output len r.output })
          (delivered ++ ByteStream.peek_output len r.output)
  Follows-consume len {r} {delivered} f =
      rw (Laws.pop_output-eq len f.valid.out, Laws.peek_output-eq len r.output)
        (record {
          valid = record {
            out = omega (arith, f.valid.out.fits, length-drop len r.output.buffer);
            same_capacity = f.valid.same_capacity;
            len_buffer = f.valid.len_buffer;
            len_state = f.valid.len_state;
            counted = f.valid.counted;
            windowed =
                λ i h. f.valid.windowed i (omega (arith, h, length-drop len r.output.buffer));
          };
          read_count = omega (
            arith,
            f.read_count,
            length-append delivered (take len r.output.buffer),
            length-take len r.output.buffer,
          );
          assembled =
              append_assoc delivered (take len r.output.buffer) (drop len r.output.buffer)
              ∙ ap (λ b. delivered ++ b) (take-append-drop len r.output.buffer)
              ∙ f.assembled;
          within = f.within;
          in_place = f.in_place;
          small = f.small;
        })

  -- The two events.
  pub Follows-arrival :
      (bytes : List ℕ) (index : ℕ) (eof : Bool) {r : StreamReassembler} {delivered : List ℕ}
      → IsPart stream (arrive bytes index eof)
      → Follows stream r delivered
      → Follows stream (push_substring bytes index eof r) delivered
  Follows-arrival bytes index eof part f =
      let (written, p) =
        push_substring_lem bytes index eof f.valid (Fits-part stream bytes index eof part f) in
      Follows-arrive stream bytes index eof part f p

  pub Follows-consumed :
      (len : ℕ) {r : StreamReassembler} {delivered : List ℕ}
      → Follows stream r delivered
      → let (output, bytes) = ByteStream.read len r.output in
        Follows stream (record r { output = output }) (delivered ++ bytes)
  Follows-consumed len {r} f = rw (Laws.read-eq len r.output) (Follows-consume len f)

  pub Follows-step :
      (e : Event) {r : StreamReassembler} {delivered : List ℕ}
      → IsPart stream e
      → Follows stream r delivered
      → let (t, bytes) = step e r in Follows stream t (delivered ++ bytes)
  unfolding step
  Follows-step (arrive bytes index eof) {r} {delivered} part f =
      rw (append-nil delivered) (Follows-arrival bytes index eof part f)
  Follows-step (consume len) part f = Follows-consumed len f

  pub Follows-run :
      (es : List Event) {r : StreamReassembler} {delivered : List ℕ}
      → AreParts stream es
      → Follows stream r delivered
      → let (t, bytes) = run es r in Follows stream t (delivered ++ bytes)
  unfolding run
  Follows-run [] {r} {delivered} parts f = rw (append-nil delivered) f
  Follows-run (e ∷ es) {r} {delivered} parts f =
      let (s, bytes) = step e r in
      rw (← append_assoc delivered bytes (run es s).1)
        (Follows-run es parts.1 (Follows-step e parts.0 f))

  pub Follows-init :
      (capacity : ℕ)
      → capacity < 2 ^ 63
      → length stream + capacity < 2 ^ 64
      → Follows stream (init capacity) []
  unfolding init
  Follows-init capacity h small = record {
    valid = (init-IsValid capacity h).0;
    read_count = ap (λ (o : ByteStream). o.bytes_read) (Laws.init-eq capacity);
    assembled = rw (Laws.init-eq capacity) refl;
    within = rw (Laws.init-eq capacity) (omega arith);
    in_place = λ j b e.
        ground (arith, get_or-replicate capacity (j - (ByteStream.init capacity).bytes_written));
    small = small;
  }

  -- From a new reassembler on, whatever substrings of the stream arrive and whenever the reader
  -- reads: the bytes that the reader has got and those that are ready are the first `bytes_written`
  -- of the stream, and the reassembler stays valid. (A capacity below 2^63, indices below 2^64.)
  pub run-prefix :
      (capacity : ℕ) (es : List Event)
      → capacity < 2 ^ 63
      → length stream + capacity < 2 ^ 64
      → AreParts stream es
      → let (r, delivered) = run es (init capacity) in
        (delivered ++ r.output.buffer ≡ take r.output.bytes_written stream)
        × (r.output.bytes_written ≤ length stream)
        × IsValid r
  run-prefix capacity es h small parts =
      let f = Follows-run es parts (Follows-init capacity h small) in
      (f.assembled, f.within, f.valid)
