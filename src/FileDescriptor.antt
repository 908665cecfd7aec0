-- ===== src/FileDescriptor.antt =====
-- libsponge/util/file_descriptor.hh and file_descriptor.cc: reading and writing a file descriptor,
-- with what the system calls return as arguments.
pub mod Read
pub mod Write
mod Tests
use csed353_sponge.Common.{
  ltb, ◌==◌, if◌then◌else◌, add64, add32, length, ℕ, ◌*◌, min, Bool, true, false, not, ◌&&◌, Option,
  none, some, List, [], ◌∷◌,
}
use csed353_sponge.Buffer.{views_size, views_remove_prefix}

-- `FDWrapper`, without the number of the descriptor.
pub record FileDescriptor : Type 0 where
  pub eof : Bool
  pub closed : Bool
  pub read_count : ℕ
  pub write_count : ℕ

abbrev pub new_descriptor : FileDescriptor
new_descriptor = record { eof = false; closed = false; read_count = 0; write_count = 0 }

abbrev pub register_read : FileDescriptor → FileDescriptor
register_read fd = record fd { read_count = add32 fd.read_count 1 }

abbrev pub register_write : FileDescriptor → FileDescriptor
register_write fd = record fd { write_count = add32 fd.write_count 1 }

-- `Socket::shutdown`, once `shutdown(2)` has succeeded.
abbrev pub shutdown_read : FileDescriptor → FileDescriptor
shutdown_read fd = register_read fd

abbrev pub shutdown_write : FileDescriptor → FileDescriptor
shutdown_write fd = register_write fd

abbrev pub shutdown_both : FileDescriptor → FileDescriptor
shutdown_both fd = register_write (register_read fd)

-- `close(2)` has succeeded.
abbrev pub close : FileDescriptor → FileDescriptor
close fd = record fd { eof = true; closed = true }

-- `BUFFER_SIZE`
abbrev pub max_read : ℕ
max_read = 1024 * 1024

-- `result` is what `read(2)` yields, `none` an error that is thrown. The new state and the bytes, or
-- `none` for an exception.
unfoldable pub read : ℕ → Option (List ℕ) → FileDescriptor → Option (FileDescriptor × List ℕ)
read limit none fd = none
read limit (some bytes) fd =
    let size_to_read = min max_read limit in
    let noted = if ltb 0 limit && (length bytes == 0) then record fd { eof = true } else fd in
    if ltb size_to_read (length bytes) then none else some (register_read noted, bytes)

-- `returned` has the new state and the number of bytes, `failed` is an exception, and `waiting` says
-- that one more call of `writev(2)` is made than there are results.
pub data WriteResult : Type 0 where
  returned : FileDescriptor → ℕ → WriteResult
  failed : WriteResult
  waiting : WriteResult

-- The loop of `write`. `results` is what `writev(2)` returns, call by call.
unfoldable pub write_from :
    Bool → List (Option ℕ) → List (List ℕ) → ℕ → FileDescriptor → WriteResult
write_from write_all [] buffer total_bytes_written fd = waiting
write_from write_all (none ∷ results) buffer total_bytes_written fd = failed
write_from write_all (some bytes_written ∷ results) buffer total_bytes_written fd =
    let total = add64 total_bytes_written bytes_written in
    let noted = register_write fd in
    let removed : WriteResult = elim (views_remove_prefix bytes_written buffer) [
      | none ↦ failed
      | some left ↦
          let rest = write_from write_all results left total noted in
          if write_all && not (views_size left == 0) then rest else returned noted total
    ] in
    if (bytes_written == 0) && not (views_size buffer == 0)
    then failed
    else if ltb (views_size buffer) bytes_written
    then failed
    else removed

abbrev pub write : Bool → List (Option ℕ) → List (List ℕ) → FileDescriptor → WriteResult
write write_all results buffer fd = write_from write_all results buffer 0 fd
