-- ===== src/StreamReassembler/Push/Finish.antt =====
-- The second half of `push_substring`: what it makes of the stored cells.
use csed353_sponge.Common.{
  ◌==◌, if◌then◌else◌, sub64, length, length-append, ℕ, ◌+◌, ◌-◌, ◌^◌, ◌≤◌, ◌<◌, ◌≡◌, refl, sym, ap,
  ◌∙◌, subst, inl, inr, Bool, true, ◌&&◌, none, List, ◌++◌, arith,
}
use csed353_sponge.ByteStream
use csed353_sponge.ByteStream.{ByteStream}
use csed353_sponge.ByteStream.Laws
use csed353_sponge.ByteStream.Laws.{write_all}
use csed353_sponge.StreamReassembler.{StreamReassembler}
use csed353_sponge.StreamReassembler.Cells.{cell, count, count-le, cell-none}
use csed353_sponge.StreamReassembler.Invariant.{IsValid, IsSettled, room, held, held_past}
use csed353_sponge.StreamReassembler.Store.{Stored}
use csed353_sponge.StreamReassembler.Retrieve.{Retrieved}
use csed353_sponge.StreamReassembler.Push.{Fits, merged, Pushed}

-- The first half of the call: the stored cells, seen from the stream.
cell-merged :
    (bytes : List ℕ) (index : ℕ) {r s : StreamReassembler}
    → IsValid r
    → Stored bytes index r s
    → (k : ℕ) → cell s.buffer s.state k ≡ merged bytes index r (r.output.bytes_written + k)
cell-merged bytes index {r} {s} v st k = ground (arith, st.cells k)

-- The state that `push_substring` builds from the stored cells and the retrieved bytes.
unfoldable pub finish : Bool → StreamReassembler → List ℕ × List ℕ × List Bool → StreamReassembler
finish seen s (ret, buffer, state) =
    let (output, _) = ByteStream.write ret s.output in
    let left = sub64 s.unassembled_bytes (length ret) in
    record {
      output = if seen && left == 0 then ByteStream.end_input output else output;
      capacity = s.capacity;
      unassembled_bytes = left;
      eof = seen;
      buffer = buffer;
      state = state;
    }

-- An output after the bytes `ret` have been written, as the last test leaves it.
abbrev last : Bool → List ℕ → ByteStream → ByteStream
last ended ret o = record o {
  buffer = o.buffer ++ ret;
  bytes_written = o.bytes_written + length ret;
  input_ended = if ended then true else o.input_ended;
}

-- Past the window every cell is empty.
cell_past :
    {s : StreamReassembler} → IsValid s → (k : ℕ) → room s ≤ k → cell s.buffer s.state k ≡ none
cell_past v k h = rw (v.windowed k h)

module _ (seen : Bool) {s : StreamReassembler} (v : IsValid s)
    (fits : s.output.bytes_read + s.capacity < 2 ^ 64) {ret : List ℕ} {buffer : List ℕ}
    {state : List Bool} (out : Retrieved (room s) s.buffer s.state (ret, buffer, state)) where
  left-finish : (finish seen s (ret, buffer, state)).unassembled_bytes ≡ count state
  unfolding finish
  left-finish =
      omega
        (arith, v.counted, v.len_state, v.out.small, v.same_capacity, out.counted, count-le s.state)

  output-finish :
      (finish seen s (ret, buffer, state)).output ≡ last (seen && count state == 0) ret s.output
  unfolding finish
  output-finish = ground (
    arith,
    write_all ret v.out,
    out.fits,
    left-finish,
    Laws.end_input-eq (ByteStream.write ret s.output).0,
  )

  moved-finish :
      (i : ℕ)
      → cell
          (finish seen s (ret, buffer, state)).buffer
          (finish seen s (ret, buffer, state)).state
          i
        ≡ cell s.buffer s.state (length ret + i)
  unfolding finish
  moved-finish = out.moved

  hole : cell s.buffer s.state (length ret) ≡ none
  hole = elim out.stops [ inl full ↦ cell_past v (length ret) (omega arith) | inr e ↦ e ]

  IsSettled-finish : IsSettled (finish seen s (ret, buffer, state))
  unfolding finish
  IsSettled-finish =
      cell-none buffer state 0 (out.moved 0 ∙ ap (cell s.buffer s.state) (omega arith) ∙ hole)

  last-IsValid : (ended : Bool) → Laws.IsValid (last ended ret s.output)
  last-IsValid ended =
      omega (arith, v.out.fits, v.same_capacity, out.fits, length-append s.output.buffer ret)

  room-finish : room (finish seen s (ret, buffer, state)) ≡ room s - length ret
  unfolding finish
  room-finish =
      ap (λ (o : ByteStream). s.capacity - length o.buffer) output-finish
      ∙ omega (arith, length-append s.output.buffer ret)

  finish-IsValid : IsValid (finish seen s (ret, buffer, state))
  unfolding finish
  finish-IsValid = record {
    out = subst Laws.IsValid (sym output-finish) (last-IsValid (seen && count state == 0));
    same_capacity = ap (λ (o : ByteStream). o.capacity) output-finish ∙ v.same_capacity;
    len_buffer = out.len_buffer ∙ v.len_buffer;
    len_state = out.len_state ∙ v.len_state;
    counted = left-finish;
    windowed = λ i h.
        cell-none buffer state i
          (out.moved i ∙ cell_past v (length ret + i) (omega (arith, h, room-finish)));
  }

  held-finish :
      (j : ℕ)
      → s.output.bytes_written + length ret ≤ j
      → held (finish seen s (ret, buffer, state)) j
        ≡ cell s.buffer s.state (j - s.output.bytes_written)
  held-finish j h =
      let w = s.output.bytes_written + length ret in
      held_past (finish seen s (ret, buffer, state)) j w
        (ap (λ (o : ByteStream). o.bytes_written) output-finish) h
      ∙ moved-finish (j - w)
      ∙ ap (cell s.buffer s.state) (omega arith)

module _ (seen : Bool) {bytes : List ℕ} {index : ℕ} {r s : StreamReassembler} (v : IsValid r)
    (fits : Fits bytes index r) (st : Stored bytes index r s) {ret : List ℕ} {buffer : List ℕ}
    {state : List Bool} (out : Retrieved (room s) s.buffer s.state (ret, buffer, state)) where
  same_written : s.output.bytes_written ≡ r.output.bytes_written
  same_written = ap (λ (o : ByteStream). o.bytes_written) st.same_output

  fits_stored : s.output.bytes_read + s.capacity < 2 ^ 64
  fits_stored =
      omega (arith, ap (λ (o : ByteStream). o.bytes_read) st.same_output, st.same_capacity, fits.1)

  output_last :
      (finish seen s (ret, buffer, state)).output ≡ last (seen && count state == 0) ret r.output
  output_last =
      output-finish seen st.valid fits_stored out
      ∙ ap (last (seen && count state == 0) ret) st.same_output

  pub finish-Pushed : Pushed bytes index seen r (finish seen s (ret, buffer, state)) ret
  finish-Pushed = record {
    valid = finish-IsValid seen st.valid fits_stored out;
    settled = IsSettled-finish seen st.valid fits_stored out;
    same_capacity = capacity-finish ∙ st.same_capacity;
    appended = ap (λ (o : ByteStream). o.buffer) output_last;
    advanced = ap (λ (o : ByteStream). o.bytes_written) output_last;
    same_read = ap (λ (o : ByteStream). o.bytes_read) output_last;
    same_error = ap (λ (o : ByteStream). o.error) output_last;
    contiguous = λ i h. sym (cell-merged bytes index v st i) ∙ out.taken i h;
    maximal = sym (cell-merged bytes index v st (length ret)) ∙ hole seen st.valid fits_stored out;
    waiting = λ j h.
        held-finish seen st.valid fits_stored out j (omega (arith, same_written))
        ∙ cell-merged bytes index v st (j - s.output.bytes_written)
        ∙ ap (merged bytes index r) (omega (arith, same_written));
    noted = eof-finish;
    ended =
        ap (λ (o : ByteStream). o.input_ended) output_last
        ∙ ap (λ n. if seen && n == 0 then true else r.output.input_ended)
            (sym (left-finish seen st.valid fits_stored out));
  }
    where
      capacity-finish : (finish seen s (ret, buffer, state)).capacity ≡ s.capacity
      capacity-finish = unfold finish in refl

      eof-finish : (finish seen s (ret, buffer, state)).eof ≡ seen
      eof-finish = unfold finish in refl
