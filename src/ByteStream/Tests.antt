-- ===== src/ByteStream/Tests.antt =====
-- A concrete run of the byte stream of libsponge/byte_stream.cc.
use csed353_sponge.Common.{◌≡◌, false, List, [], ◌∷◌, arith}
use csed353_sponge.ByteStream.{init}
use csed353_sponge.ByteStream.Spec
use csed353_sponge.ByteStream.Spec.{Call, History, run, spec_run}
use csed353_sponge.ByteStream.Spec.Refine.{run_refines, init-Represents}

-- The second write is cut short by the capacity, and the last read by what is left.
abbrev calls : List Call
calls =
    Spec.write (1 ∷ 2 ∷ 3 ∷ [])
    ∷ Spec.peek_output 2
    ∷ Spec.read 2
    ∷ Spec.write (4 ∷ 5 ∷ 6 ∷ 7 ∷ [])
    ∷ Spec.end_input
    ∷ Spec.pop_output 1
    ∷ Spec.read 9
    ∷ []

abbrev no_bytes : History
no_bytes = record { capacity = 4; written = []; taken = 0; ended = false }

run_refines_example : run calls (init 4) ≡ spec_run calls no_bytes
run_refines_example = run_refines calls (init-Represents 4 (omega arith)) (omega arith)
