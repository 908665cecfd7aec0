-- ===== src/Buffer.antt =====
-- libsponge/util/buffer.hh and buffer.cc: strings that lose bytes from the front. The storage is
-- shared but never written, so a buffer has a copy of it.
pub mod Prefix
pub mod Views
mod Tests
use csed353_sponge.Common.{
  ltb, ◌==◌, if◌then◌else◌, add64, length, get_elem?, drop, ℕ, ◌-◌, Bool, false, Option, none, some,
  List, [], ◌∷◌, ◌++◌,
}

-- `none` is the null pointer.
pub record Buffer : Type 0 where
  pub storage : Option (List ℕ)
  pub starting_offset : ℕ

abbrev pub new_buffer : List ℕ → Buffer
new_buffer bytes = record { storage = some bytes; starting_offset = 0 }

abbrev pub empty_buffer : Buffer
empty_buffer = record { storage = none; starting_offset = 0 }

-- A view from an offset, as many bytes as the storage has behind it.
abbrev pub str : Buffer → List ℕ
str b = elim b.storage [ none ↦ [] | some bytes ↦ drop b.starting_offset bytes ]

abbrev pub at : ℕ → Buffer → Option ℕ
at n b = get_elem? (str b) n

abbrev pub size : Buffer → ℕ
size b = length (str b)

abbrev pub holds_size : Option (List ℕ) → ℕ → Bool
holds_size none n = false
holds_size (some bytes) n = n == length bytes

-- `none` is the exception.
pub remove_prefix : ℕ → Buffer → Option Buffer
remove_prefix n b =
    let starting_offset = add64 b.starting_offset n in
    let storage = if holds_size b.storage starting_offset then none else b.storage in
    if ltb (size b) n
    then none
    else some (record { storage = storage; starting_offset = starting_offset })

-- `BufferList` is the queue of its buffers.
abbrev pub append : List Buffer → List Buffer → List Buffer
append ret [] = ret
append ret (buf ∷ other) = append (ret ++ buf ∷ []) other

-- The conversion to a `Buffer`.
abbrev pub to_buffer : List Buffer → Option Buffer
to_buffer [] = some empty_buffer
to_buffer (b ∷ []) = some b
to_buffer (b ∷ c ∷ bs) = none

abbrev pub concatenate_from : List ℕ → List Buffer → List ℕ
concatenate_from ret [] = ret
concatenate_from ret (buf ∷ bufs) = concatenate_from (ret ++ str buf) bufs

abbrev pub concatenate : List Buffer → List ℕ
concatenate bufs = concatenate_from [] bufs

abbrev pub size_from : ℕ → List Buffer → ℕ
size_from ret [] = ret
size_from ret (buf ∷ bufs) = size_from (add64 ret (size buf)) bufs

abbrev pub list_size : List Buffer → ℕ
list_size bufs = size_from 0 bufs

-- A front buffer that is longer than `n` loses `n` bytes.
abbrev pub shorten_front : Option Buffer → List Buffer → Option (List Buffer)
shorten_front none bufs = none
shorten_front (some b) bufs = some (b ∷ bufs)

pub list_remove_prefix : ℕ → List Buffer → Option (List Buffer)
list_remove_prefix n [] = if n == 0 then some [] else none
list_remove_prefix n (b ∷ bs) =
    let rest = list_remove_prefix (n - size b) bs in
    if n == 0
    then some (b ∷ bs)
    else if ltb n (size b)
    then shorten_front (remove_prefix n b) bs
    else rest

-- `BufferViewList` is the queue of its views, a view is the bytes that it shows.
abbrev pub views_of : List Buffer → List (List ℕ)
views_of [] = []
views_of (x ∷ buffers) = str x ∷ views_of buffers

unfoldable pub views_remove_prefix : ℕ → List (List ℕ) → Option (List (List ℕ))
views_remove_prefix n [] = if n == 0 then some [] else none
views_remove_prefix n (v ∷ vs) =
    let rest = views_remove_prefix (n - length v) vs in
    if n == 0 then some (v ∷ vs) else if ltb n (length v) then some (drop n v ∷ vs) else rest

abbrev pub views_size_from : ℕ → List (List ℕ) → ℕ
views_size_from ret [] = ret
views_size_from ret (v ∷ vs) = views_size_from (add64 ret (length v)) vs

abbrev pub views_size : List (List ℕ) → ℕ
views_size vs = views_size_from 0 vs

-- Each vector points to the bytes of a view and has their number.
abbrev pub as_iovecs : List (List ℕ) → List (List ℕ × ℕ)
as_iovecs [] = []
as_iovecs (x ∷ views) = (x, length x) ∷ as_iovecs views
