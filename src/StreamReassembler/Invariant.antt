-- ===== src/StreamReassembler/Invariant.antt =====
-- The representation invariant of the reassembler.
use csed353_sponge.Common.{
  ltb, if◌then◌else◌, length, get_or, length-drop, length-replicate, ℕ, ◌-◌, ◌^◌, ◌≤◌, ◌<◌, ◌≡◌,
  refl, sym, false, Option, none, arith,
}
use csed353_sponge.ByteStream
use csed353_sponge.ByteStream.Laws
use csed353_sponge.StreamReassembler.{StreamReassembler, init}
use csed353_sponge.StreamReassembler.Cells.{count, cell, count-replicate, get_or-replicate}

-- The room that is left in the output, which is also the width of the window.
abbrev pub room : StreamReassembler → ℕ
room r = r.capacity - length r.output.buffer

-- The byte that waits at index `j` of the stream.
abbrev pub held : StreamReassembler → ℕ → Option ℕ
held r j =
    if ltb j r.output.bytes_written
    then none
    else cell r.buffer r.state (j - r.output.bytes_written)

-- `windowed`: no byte is stored past the window.
pub record IsValid (r : StreamReassembler) : Type 0 where
  pub out : Laws.IsValid r.output
  pub same_capacity : r.output.capacity ≡ r.capacity
  pub len_buffer : length r.buffer ≡ r.capacity
  pub len_state : length r.state ≡ r.capacity
  pub counted : r.unassembled_bytes ≡ count r.state
  pub windowed : (i : ℕ) → room r ≤ i → get_or r.state i false ≡ false

-- Nothing that could be written waits: between two calls the first cell is empty.
abbrev pub IsSettled : StreamReassembler → Type 0
IsSettled r = get_or r.state 0 false ≡ false

pub init-IsValid :
    (capacity : ℕ) → capacity < 2 ^ 63 → IsValid (init capacity) × IsSettled (init capacity)
unfolding init
init-IsValid capacity h = (
  record {
    out = Laws.init-IsValid capacity h;
    same_capacity = Laws.init-capacity capacity;
    len_buffer = length-replicate capacity b' ';
    len_state = length-replicate capacity false;
    counted = sym (count-replicate capacity);
    windowed = λ i _. get_or-replicate capacity i;
  },
  get_or-replicate capacity 0,
)

-- At or past the assembled bytes, what waits is the content of a cell.
pub held_past :
    (r : StreamReassembler) (j written : ℕ)
    → r.output.bytes_written ≡ written
    → written ≤ j
    → held r j ≡ cell r.buffer r.state (j - written)
held_past r j written e h = ground arith

pub init-capacity : (capacity : ℕ) → (init capacity).capacity ≡ capacity
unfolding init
init-capacity capacity = refl

pub set_error-IsValid :
    {r : StreamReassembler}
    → IsValid r
    → IsValid (record r { output = ByteStream.set_error r.output })
set_error-IsValid {r} v = rw (Laws.set_error-eq r.output) (record {
  out = omega (arith, v.out);
  same_capacity = v.same_capacity;
  len_buffer = v.len_buffer;
  len_state = v.len_state;
  counted = v.counted;
  windowed = v.windowed;
})

-- The reader may take bytes at any time.
pub read-IsValid :
    (len : ℕ) {r : StreamReassembler}
    → IsValid r
    → IsValid (record r { output = (ByteStream.read len r.output).0 })
read-IsValid len {r} v =
    rw (Laws.read-eq len r.output, Laws.pop_output-eq len v.out)
      (record {
        out = omega (
          arith,
          v.out.fits,
          v.out.small,
          v.out.written_fits,
          v.out.counted,
          length-drop len r.output.buffer,
        );
        same_capacity = v.same_capacity;
        len_buffer = v.len_buffer;
        len_state = v.len_state;
        counted = v.counted;
        windowed = λ i h. v.windowed i (omega (arith, h, length-drop len r.output.buffer));
      })

pub init_fresh :
    (capacity : ℕ)
    → ((init capacity).output.error ≡ false) × ((init capacity).output.input_ended ≡ false)
unfolding init
init_fresh capacity = rw (Laws.init-eq capacity) (refl, refl)
