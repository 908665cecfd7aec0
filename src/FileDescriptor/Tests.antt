-- ===== src/FileDescriptor/Tests.antt =====
-- Runs of libsponge/util/file_descriptor.cc.
use csed353_sponge.Common.{length, ℕ, true, some, List, [], ◌∷◌, arith}
use csed353_sponge.Buffer.Views.{bytes_in}
use csed353_sponge.FileDescriptor.{new_descriptor, write}
use csed353_sponge.FileDescriptor.Write.{Written, write_lem}

abbrev message : List (List ℕ)
message = (1 ∷ 2 ∷ 3 ∷ []) ∷ (4 ∷ 5 ∷ []) ∷ []

write_lem_example :
    Written true
      (some 2 ∷ some 3 ∷ [])
      (length (bytes_in message))
      (write true (some 2 ∷ some 3 ∷ []) message new_descriptor)
write_lem_example = write_lem true (some 2 ∷ some 3 ∷ []) message new_descriptor (omega arith)
