-- ===== src/FileDescriptor/Read.antt =====
-- A read of libsponge/util/file_descriptor.cc keeps to its limit.
use csed353_sponge.Common.{length, ℕ, ◌≤◌, ◌≡◌, Option, none, some, List, arith}
use csed353_sponge.FileDescriptor.{FileDescriptor, read}

pub read-le :
    (limit : ℕ) (result : Option (List ℕ)) (fd after : FileDescriptor) (bytes : List ℕ)
    → read limit result fd ≡ some (after, bytes)
    → length bytes ≤ limit
unfolding read
read-le limit none fd after bytes e = absurd (cc)
read-le limit (some found) fd after bytes e = ground arith
