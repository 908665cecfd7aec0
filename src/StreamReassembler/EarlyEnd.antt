-- ===== src/StreamReassembler/EarlyEnd.antt =====
-- An end announced by an empty substring, such as the payload of a bare FIN, ends the output at
-- once if nothing waits, however many bytes before it have not arrived.
use csed353_sponge.Common.{
  get_or, ℕ, zero, suc, ◌+◌, ◌^◌, ◌≤◌, ◌<◌, ◌≡◌, refl, Bool, true, false, List, [], ◌∷◌, append-nil,
  arith,
}
use csed353_sponge.ByteStream
use csed353_sponge.ByteStream.Laws
use csed353_sponge.StreamReassembler.{StreamReassembler, store, retrieve, push_substring}
use csed353_sponge.StreamReassembler.Invariant.{IsValid, IsSettled}

retrieve-nothing :
    (room : ℕ) (buffer : List ℕ) (state : List Bool)
    → get_or state 0 false ≡ false
    → retrieve room buffer state ≡ ([], buffer, state)
unfolding retrieve
retrieve-nothing zero buffer state e = refl
retrieve-nothing (suc room) [] state e = refl
retrieve-nothing (suc room) (byte ∷ bytes) [] e = refl
retrieve-nothing (suc room) (byte ∷ bytes) (false ∷ flags) e = refl
retrieve-nothing (suc room) (byte ∷ bytes) (true ∷ flags) e = cc

-- An empty substring with `eof` that lies past the assembled bytes, in a reassembler where nothing
-- waits: the output ends with the bytes from `bytes_written` to `index` still missing, and a later
-- write to it is not refused.
pub push_empty_ends :
    (index : ℕ) {r : StreamReassembler}
    → IsValid r
    → IsSettled r
    → r.unassembled_bytes ≡ 0
    → r.output.bytes_read + r.capacity < 2 ^ 64
    → r.output.bytes_written < index
    → index ≤ r.output.bytes_read + r.capacity
    → let t = push_substring [] index true r in
      (t.output.input_ended ≡ true)
      × (t.output.bytes_written ≡ r.output.bytes_written)
      × (t.output.buffer ≡ r.output.buffer)
      × (t.unassembled_bytes ≡ 0)
unfolding push_substring store
push_empty_ends index {r} v settled idle fits missing inside = ground (
  arith,
  retrieve-nothing (ByteStream.remaining_capacity r.output) r.buffer r.state settled,
  Laws.write_all [] v.out,
  append-nil r.output.buffer,
  Laws.end_input-eq (ByteStream.write [] r.output).0,
)
