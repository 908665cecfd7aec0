-- ===== src/Buffer/Tests.antt =====
-- Runs of libsponge/util/buffer.cc.
use csed353_sponge.Common.{length, ◌≤◌, ◌<◌, ◌≡◌, refl, ◌⊎◌, none, some, List, [], ◌∷◌, arith}
use csed353_sponge.Buffer.{Buffer, new_buffer, list_remove_prefix}
use csed353_sponge.Buffer.Prefix.{bytes_of, Removed, list_remove_prefix_lem}

abbrev packet : List Buffer
packet =
    record { storage = some (1 ∷ 2 ∷ 3 ∷ []); starting_offset = 1 } ∷ new_buffer (4 ∷ 5 ∷ []) ∷ []

left_over :
    list_remove_prefix 3 packet
    ≡ some (record { storage = some (4 ∷ 5 ∷ []); starting_offset = 1 } ∷ [])
unfolding list_remove_prefix csed353_sponge.Buffer.remove_prefix
left_over = refl

list_remove_prefix_lem_example :
    ((3 ≤ length (bytes_of packet)) × Removed 3 packet)
    ⊎ ((length (bytes_of packet) < 3) × (list_remove_prefix 3 packet ≡ none))
list_remove_prefix_lem_example =
    list_remove_prefix_lem 3 packet ((omega arith, omega arith), ((omega arith, omega arith), tt))
