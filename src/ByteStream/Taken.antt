-- ===== src/ByteStream/Taken.antt =====
-- Bytes that are peeked at, of which some are then popped, as the writers of a file do.
use csed353_sponge.Common.{
  ltb, if◌then◌else◌, length, take, drop, length-take, length-drop, take-append-drop, take_all,
  take-append_le, ℕ, ◌≤◌, ◌≡◌, refl, sym, ap, ap₂, ◌∙◌, List, ◌++◌, arith,
}
use csed353_sponge.ByteStream.{
  ByteStream, peek_output, pop_output, read, available_output, write, remaining_capacity,
}

-- Bytes that are taken from the front of a stream and popped.
pub offered-pop :
    (n limit : ℕ) (s : ByteStream)
    → n ≤ length (peek_output limit s)
    → take n (peek_output limit s) ++ (pop_output n s).buffer ≡ s.buffer
unfolding peek_output pop_output
offered-pop n limit s h =
    let k = available_output s limit in
    let le : n ≤ length s.buffer = omega (arith, h, length-take k s.buffer) in
    let same : available_output s n ≡ n = ground (arith, le) in
    let front : take n (take k s.buffer) ≡ take n s.buffer =
      sym (take-append_le n (take k s.buffer) (drop k s.buffer) h)
      ∙ ap (take n) (take-append-drop k s.buffer) in
    ap₂ (λ a b. a ++ b) front
      (ap (λ i. take (length s.buffer) (drop i s.buffer)) same
        ∙ take_all (length s.buffer) (drop n s.buffer) (omega (arith, length-drop n s.buffer)))
    ∙ take-append-drop n s.buffer

pub peek-short : (limit : ℕ) (s : ByteStream) → length (peek_output limit s) ≤ limit
unfolding peek_output
peek-short limit s = ground (arith, length-take (available_output s limit) s.buffer)

-- A write that is no longer than the room is taken whole.
pub write_whole :
    (bytes : List ℕ) (s : ByteStream)
    → length bytes ≤ remaining_capacity s
    → (write bytes s).0.buffer ≡ s.buffer ++ bytes
unfolding write
write_whole bytes s h =
    let size : (if ltb (remaining_capacity s) (length bytes)
          then remaining_capacity s
          else length bytes)
        ≡ length bytes =
      ground (arith, h) in
    ap (λ n. s.buffer ++ take n bytes) size
    ∙ ap (λ b. s.buffer ++ b) (take_all (length bytes) bytes (omega arith))

-- Taking bytes from the front of what is peeked at, and popping them, is reading them.
pub offered-read :
    (n limit : ℕ) (s : ByteStream)
    → n ≤ length (peek_output limit s)
    → (read n s).1 ≡ take n (peek_output limit s)
unfolding peek_output read
offered-read n limit s h =
    let k = available_output s limit in
    let same : available_output s n ≡ n = ground (arith, h, length-take k s.buffer) in
    ap (λ i. take i s.buffer) same
    ∙ sym (ap (take n) (take-append-drop k s.buffer))
    ∙ take-append_le n (take k s.buffer) (drop k s.buffer) h

pub pop_output-read : (n : ℕ) (s : ByteStream) → pop_output n s ≡ (read n s).0
unfolding pop_output read
pop_output-read n s = refl
