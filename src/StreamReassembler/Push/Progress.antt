-- ===== src/StreamReassembler/Push/Progress.antt =====
-- A substring that covers the next missing byte moves the stream on.
use csed353_sponge.Common.{length, ℕ, ◌+◌, ◌≤◌, min, Bool, List, arith}
use csed353_sponge.StreamReassembler.{StreamReassembler, push_substring}
use csed353_sponge.StreamReassembler.Invariant.{IsValid, room}
use csed353_sponge.StreamReassembler.Push.{Fits, seen_eof, Pushed}
use csed353_sponge.StreamReassembler.Push.Correct.{push_substring_lem}

Pushed-progress :
    (bytes : List ℕ) (index : ℕ) (seen : Bool) {r t : StreamReassembler} {written : List ℕ}
    → index ≤ r.output.bytes_written
    → Pushed bytes index seen r t written
    → min (index + length bytes) (r.output.bytes_written + room r) ≤ t.output.bytes_written
Pushed-progress bytes index seen {r} {t} {written} le p = ground (arith, p.maximal, p.advanced)

-- After a substring that starts at or before the end of the assembled bytes, everything in it is
-- assembled, up to the end of the window.
pub push_substring_progress :
    (bytes : List ℕ) (index : ℕ) (eof : Bool) {r : StreamReassembler}
    → IsValid r
    → Fits bytes index r
    → index ≤ r.output.bytes_written
    → min (index + length bytes) (r.output.bytes_written + room r)
      ≤ (push_substring bytes index eof r).output.bytes_written
push_substring_progress bytes index eof {r} v fits le =
    let (written, p) = push_substring_lem bytes index eof v fits in
    Pushed-progress bytes index (seen_eof bytes index eof r) le p
