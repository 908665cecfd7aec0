-- ===== src/StreamReassembler/Push/Correct.antt =====
-- `push_substring` as a whole.
use csed353_sponge.Common.{
  length, ℕ, ◌+◌, ◌-◌, ◌^◌, ◌<◌, ◌≡◌, sym, ap, ◌∙◌, subst, Bool, List, [], arith,
}
use csed353_sponge.ByteStream
use csed353_sponge.ByteStream.{ByteStream}
use csed353_sponge.ByteStream.Laws
use csed353_sponge.ByteStream.Laws.{write_all}
use csed353_sponge.StreamReassembler.{StreamReassembler, store, retrieve, push_substring}
use csed353_sponge.StreamReassembler.Invariant.{IsValid, IsSettled}
use csed353_sponge.StreamReassembler.Store.{Stored, store_lem, store-Kept}
use csed353_sponge.StreamReassembler.Retrieve.{Retrieved, retrieve_lem}
use csed353_sponge.StreamReassembler.Push.{Fits, seen_eof, Pushed}
use csed353_sponge.StreamReassembler.Push.Finish.{finish, finish-Pushed}

-- The same state but for the flag, which `Pushed` reads from its argument.
Pushed-eof :
    {bytes : List ℕ} {index : ℕ} {seen flag : Bool} {r t : StreamReassembler} {written : List ℕ}
    → Pushed bytes index seen (record r { eof = flag }) t written
    → Pushed bytes index seen r t written
Pushed-eof p = record {
  valid = p.valid;
  settled = p.settled;
  same_capacity = p.same_capacity;
  appended = p.appended;
  advanced = p.advanced;
  same_read = p.same_read;
  same_error = p.same_error;
  contiguous = p.contiguous;
  maximal = p.maximal;
  waiting = p.waiting;
  noted = p.noted;
  ended = p.ended;
}

eof-IsValid : {r : StreamReassembler} (flag : Bool) → IsValid r → IsValid (record r { eof = flag })
eof-IsValid flag v = record {
  out = v.out;
  same_capacity = v.same_capacity;
  len_buffer = v.len_buffer;
  len_state = v.len_state;
  counted = v.counted;
  windowed = v.windowed;
}

-- `push_substring` appends to the output the longest run of known bytes that starts at its end,
-- keeps every other known byte of the window waiting, and keeps the invariant; the input ends when
-- the end has been seen and nothing waits.
pub push_substring_lem :
    (bytes : List ℕ) (index : ℕ) (eof : Bool) {r : StreamReassembler}
    → IsValid r
    → Fits bytes index r
    → (written : List ℕ) × Pushed bytes index
        (seen_eof bytes index eof r)
        r
        (push_substring bytes index eof r)
        written
unfolding push_substring finish
push_substring_lem bytes index eof {r} v fits =
    let seen = seen_eof bytes index eof r in
    let r' = record r { eof = seen } in
    let v' = eof-IsValid seen v in
    let s = store bytes 0 index r' in
    let st : Stored bytes index r' s =
      subst (λ a. Stored bytes a r' s) (omega arith)
        (store_lem bytes 0 index v' (omega (arith, fits.0))) in
    let out =
      retrieve_lem (ByteStream.remaining_capacity s.output) s.buffer s.state
        (st.valid.len_buffer ∙ sym st.valid.len_state) in
    (
      (retrieve (ByteStream.remaining_capacity s.output) s.buffer s.state).0,
      Pushed-eof (
          finish-Pushed seen v' fits st (
            subst
              (λ k.
                Retrieved k s.buffer s.state
                  (retrieve (ByteStream.remaining_capacity s.output) s.buffer s.state))
              (Laws.remaining_capacity-eq st.valid.out
                ∙ ap (λ c. c - length s.output.buffer) st.valid.same_capacity)
              out)),
    )

-- Whatever the index is, also one that wraps at 2^64, `push_substring` keeps the invariant and the
-- capacity.
pub push_substring-IsValid :
    (bytes : List ℕ) (index : ℕ) (eof : Bool) {r : StreamReassembler}
    → IsValid r
    → r.output.bytes_read + r.capacity < 2 ^ 64
    → let t = push_substring bytes index eof r in
      IsValid t × IsSettled t × (t.capacity ≡ r.capacity)
unfolding push_substring finish store
push_substring-IsValid bytes index eof {r} v fits =
    let seen = seen_eof bytes index eof r in
    let r' = record r { eof = seen } in
    let s = store bytes 0 index r' in
    let k = store-Kept bytes 0 index (eof-IsValid seen v) in
    let st : Stored [] 0 s s = store_lem [] 0 0 k.valid (omega arith) in
    let small : Fits [] 0 s = (
      omega arith,
      omega (arith, fits, ap (λ (o : ByteStream). o.bytes_read) k.same_output, k.same_capacity),
    ) in
    let out =
      retrieve_lem (ByteStream.remaining_capacity s.output) s.buffer s.state
        (k.valid.len_buffer ∙ sym k.valid.len_state) in
    let p = finish-Pushed seen k.valid small st (
      subst
        (λ n.
          Retrieved n s.buffer s.state
            (retrieve (ByteStream.remaining_capacity s.output) s.buffer s.state))
        (Laws.remaining_capacity-eq k.valid.out
          ∙ ap (λ c. c - length s.output.buffer) k.valid.same_capacity)
        out) in
    (p.valid, p.settled, p.same_capacity ∙ k.same_capacity)
