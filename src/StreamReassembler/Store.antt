-- ===== src/StreamReassembler/Store.antt =====
-- The first loop of `push_substring`: which bytes it keeps, and that it keeps the invariant.
use csed353_sponge.Common.{
  ltb, leb, ◌==◌, if◌then◌else◌, tests, Bool-cases, add64, sub64, length, get_or, length-set,
  get_or-set_ne, get_or-cons, ℕ, ◌+◌, ◌-◌, ◌^◌, ◌≤◌, ◌<◌, ◌≡◌, refl, ◌∙◌, subst, inl, inr, true,
  false, ◌&&◌, some, List, [], ◌∷◌, arith,
}
use csed353_sponge.ByteStream
use csed353_sponge.StreamReassembler.{StreamReassembler, place, store}
use csed353_sponge.StreamReassembler.Cells.{count-le, count-set, cell, cell-set, set-true}
use csed353_sponge.StreamReassembler.Invariant.{IsValid, room}

module _ {r : StreamReassembler} (v : IsValid r) (i byte : ℕ) (inside : i < room r) where
  cell-place :
      (k : ℕ)
      → cell (place i byte r).buffer (place i byte r).state k
        ≡ (if i == k then some byte else cell r.buffer r.state k)
  unfolding place
  cell-place k =
      ground
        (arith, cell-set r.buffer r.state i byte k, set-true r.state i, v.len_buffer, v.len_state)

  place-IsValid : IsValid (place i byte r)
  unfolding place
  place-IsValid = record {
    out = v.out;
    same_capacity = v.same_capacity;
    len_buffer = length-set r.buffer i byte ∙ v.len_buffer;
    len_state = ground (arith, length-set r.state i true, v.len_state);
    counted =
        ground (arith, count-set r.state i, count-le r.state, v.counted, v.len_state, v.out.small);
    windowed = λ k h. ground (arith, get_or-set_ne r.state i k true false, v.windowed k);
  }

-- What the loop does to `r` for the bytes of the stream from index `start` on: the cells of the
-- window that these bytes cover hold them, and the others are as they were.
pub record Stored (bytes : List ℕ) (start : ℕ) (r t : StreamReassembler) : Type 0 where
  pub valid : IsValid t
  pub same_output : t.output ≡ r.output
  pub same_capacity : t.capacity ≡ r.capacity
  pub same_eof : t.eof ≡ r.eof
  pub cells :
      (k : ℕ)
      → let j = r.output.bytes_written + k in
        cell t.buffer t.state k ≡ (
          if leb start j && ltb j (start + length bytes) && ltb k (room r)
          then some (get_or bytes (j - start) 0)
          else cell r.buffer r.state k)

module _ (byte : ℕ) (bytes : List ℕ) (start : ℕ) {r : StreamReassembler} (v : IsValid r) where
  Stored-skip :
      {t : StreamReassembler}
      → start < r.output.bytes_written
      → Stored bytes (start + 1) r t
      → Stored (byte ∷ bytes) start r t
  Stored-skip h s = record {
    valid = s.valid;
    same_output = s.same_output;
    same_capacity = s.same_capacity;
    same_eof = s.same_eof;
    cells = λ k.
        ground (arith, s.cells k, get_or-cons byte bytes (r.output.bytes_written + k - start) 0);
  }

  Stored-break : r.output.bytes_written + room r ≤ start → Stored (byte ∷ bytes) start r r
  Stored-break h = record {
    valid = v;
    same_output = refl;
    same_capacity = refl;
    same_eof = refl;
    cells = λ k. ground arith;
  }

  Stored-place :
      (i : ℕ) {t : StreamReassembler}
      → r.output.bytes_written + i ≡ start
      → i < room r
      → Stored bytes (start + 1) (place i byte r) t
      → Stored (byte ∷ bytes) start r t
  unfolding place
  Stored-place i {t} e h s = record {
    valid = s.valid;
    same_output = s.same_output;
    same_capacity = s.same_capacity;
    same_eof = s.same_eof;
    cells = λ k. ground (
      arith,
      s.cells k,
      cell-place v i byte h k,
      get_or-cons byte bytes (r.output.bytes_written + k - start) 0,
    );
  }

-- The first loop, on a valid reassembler and indices below 2^64: it keeps the invariant, the output,
-- the capacity and the flag, and changes exactly the cells of the window that the bytes fall into.
pub store_lem :
    (bytes : List ℕ) (data_index index : ℕ) {r : StreamReassembler}
    → IsValid r
    → data_index + index + length bytes < 2 ^ 64
    → Stored bytes (data_index + index) r (store bytes data_index index r)
unfolding store
store_lem [] data_index index {r} v h = record {
  valid = v;
  same_output = refl;
  same_capacity = refl;
  same_eof = refl;
  cells = λ k. ground arith;
}
store_lem (byte ∷ bytes) data_index index {r} v h =
    let at = add64 data_index index in
    let i = sub64 at r.output.bytes_written in
    let next : data_index + 1 + index ≡ data_index + index + 1 = omega arith in
    let ih = λ (u : StreamReassembler) (w : IsValid u).
      subst (λ s. Stored bytes s u (store bytes (data_index + 1) index u)) next
        (store_lem bytes (data_index + 1) index w (omega arith)) in
    elim (Bool-cases (ltb at r.output.bytes_written)) [
      | inl e ↦ rw e (Stored-skip byte bytes (data_index + index) v (omega tests) (ih r v))
      | inr e ↦ rw e (elim (Bool-cases (leb (ByteStream.remaining_capacity r.output) i)) [
        | inl e' ↦ rw e' (Stored-break byte bytes (data_index + index) v (omega tests))
        | inr e' ↦ rw e' (
            Stored-place byte bytes (data_index + index) v i (omega tests) (omega tests)
              (ih (place i byte r) (place-IsValid v i byte (omega tests))))
      ])
    ]

-- The first loop keeps the invariant and the output whatever the indices are, those included that
-- wrap at 2^64.
pub record Kept (r t : StreamReassembler) : Type 0 where
  pub valid : IsValid t
  pub same_output : t.output ≡ r.output
  pub same_capacity : t.capacity ≡ r.capacity

place-Kept :
    {r : StreamReassembler} (v : IsValid r) (i byte : ℕ)
    → i < room r
    → {t : StreamReassembler} → Kept (place i byte r) t
    → Kept r t
unfolding place
place-Kept v i byte h k = record {
  valid = k.valid;
  same_output = k.same_output;
  same_capacity = k.same_capacity;
}

pub store-Kept :
    (bytes : List ℕ) (data_index index : ℕ) {r : StreamReassembler}
    → IsValid r
    → Kept r (store bytes data_index index r)
unfolding store
store-Kept [] data_index index v = record { valid = v; same_output = refl; same_capacity = refl }
store-Kept (byte ∷ bytes) data_index index {r} v =
    let at = add64 data_index index in
    let i = sub64 at r.output.bytes_written in
    elim (Bool-cases (ltb at r.output.bytes_written)) [
      | inl e ↦ rw e (store-Kept bytes (data_index + 1) index v)
      | inr e ↦ rw e (elim (Bool-cases (leb (ByteStream.remaining_capacity r.output) i)) [
        | inl e' ↦ rw e' (record { valid = v; same_output = refl; same_capacity = refl })
        | inr e' ↦ rw e' (
            place-Kept v i byte (omega tests)
              (store-Kept bytes (data_index + 1) index (place-IsValid v i byte (omega tests))))
      ])
    ]
