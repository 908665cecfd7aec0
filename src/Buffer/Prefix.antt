-- ===== src/Buffer/Prefix.antt =====
-- The lists of buffers of libsponge/util/buffer.cc stand for the bytes that they hold.
use csed353_sponge.Common.{
  ltb, ◌==◌, ltb→lt, ltb→ge, Bool-cases, add64, length, All, drop, drop-nil, length-append,
  length-drop, drop_all, drop-append_le, drop-drop, drop-append_ge, ℕ, ◌+◌, ◌-◌, ◌%◌, ◌^◌, ◌≤◌, ◌<◌,
  ◌≡◌, refl, sym, ap, ap₂, ◌∙◌, ◌⊎◌, inl, inr, false, Option, none, some, List, [], ◌∷◌, ◌++◌,
  append-nil, append_assoc, arith,
}
use csed353_sponge.Buffer.{
  Buffer, str, size, remove_prefix, append, concatenate, concatenate_from, list_size, size_from,
  list_remove_prefix,
}

-- The offset lies in the storage, whose size fits 64 bits.
abbrev InStorage : Option (List ℕ) → ℕ → Type 0
InStorage none offset = Unit {0}
InStorage (some bytes) offset = (offset ≤ length bytes) × (length bytes < 2 ^ 64)

abbrev pub IsBuffer : Buffer → Type 0
IsBuffer b = InStorage b.storage b.starting_offset

-- The bytes of the buffers, one after the other.
abbrev pub bytes_of : List Buffer → List ℕ
bytes_of [] = []
bytes_of (b ∷ bs) = str b ++ bytes_of bs

concatenate_from-eq :
    (ret : List ℕ) (bs : List Buffer) → concatenate_from ret bs ≡ ret ++ bytes_of bs
concatenate_from-eq ret [] = sym (append-nil ret)
concatenate_from-eq ret (b ∷ bs) =
    concatenate_from-eq (ret ++ str b) bs ∙ append_assoc ret (str b) (bytes_of bs)

pub remove_prefix-str :
    (n : ℕ) (storage : Option (List ℕ)) (offset : ℕ)
    → InStorage storage offset
    → let b : Buffer = record { storage = storage; starting_offset = offset } in
      n ≤ size b
      → (c : Buffer) × (remove_prefix n b ≡ some c) × (str c ≡ drop n (str b)) × IsBuffer c
unfolding remove_prefix
remove_prefix-str n none offset v h = (
  record { storage = none; starting_offset = add64 offset n },
  ground (arith, h),
  sym (drop-nil ℕ n),
  tt,
)
remove_prefix-str n (some bytes) offset v h =
    let small : n ≤ length bytes - offset = omega (arith, h, length-drop offset bytes) in
    let sum : add64 offset n ≡ offset + n = omega (arith, small, v) in
    let long : ltb (length (drop offset bytes)) n ≡ false = ground (arith, h) in
    elim (Bool-cases (add64 offset n == length bytes)) [
      | inl e ↦ (
        record { storage = none; starting_offset = add64 offset n },
        rw (long, e) refl,
        sym (drop-drop offset n bytes ∙ drop_all (offset + n) bytes (ground (arith, e, sum))),
        tt,
      )
      | inr e ↦ (
        record { storage = some bytes; starting_offset = add64 offset n },
        rw (long, e) refl,
        ap (λ k. drop k bytes) sum ∙ sym (drop-drop offset n bytes),
        (omega (arith, sum, small, v), v.1),
      )
    ]

-- What removing a prefix leaves, and when it throws.
pub record Removed (n : ℕ) (bs : List Buffer) : Type 0 where
  pub left : List Buffer
  pub result : list_remove_prefix n bs ≡ some left
  pub bytes : bytes_of left ≡ drop n (bytes_of bs)
  pub valid : All IsBuffer left

list_remove_prefix-Removed :
    (n : ℕ) (bs : List Buffer) → All IsBuffer bs → n ≤ length (bytes_of bs) → Removed n bs
unfolding list_remove_prefix
list_remove_prefix-Removed n [] v h = record {
  left = [];
  result = ground (arith, h);
  bytes = sym (drop-nil ℕ n);
  valid = tt;
}
list_remove_prefix-Removed n (b ∷ bs) v h = elim (Bool-cases (n == 0)) [
  | inl e ↦ record {
    left = b ∷ bs;
    result = rw e refl;
    bytes = (let z : 0 ≡ n = ground (arith, e) in ap (λ k. drop k (bytes_of (b ∷ bs))) z);
    valid = v;
  }
  | inr e ↦ elim (Bool-cases (ltb n (size b))) [
    | inl s ↦
        let (c, removed, shorter, valid) =
          remove_prefix-str n b.storage b.starting_offset v.0 (ground (arith, s)) in
        record {
          left = c ∷ bs;
          result = rw (e, s, removed) refl;
          bytes =
              ap (λ t. t ++ bytes_of bs) shorter
              ∙ sym (drop-append_le n (str b) (bytes_of bs) (ground (arith, s)));
          valid = (valid, v.1);
        }
    | inr s ↦
        let rest =
          list_remove_prefix-Removed (n - size b) bs v.1
            (omega (arith, h, length-append (str b) (bytes_of bs))) in
        record {
          left = rest.left;
          result = rw (e, s) rest.result;
          bytes = rest.bytes ∙ sym (drop-append_ge n (str b) (bytes_of bs) (ground (arith, s)));
          valid = rest.valid;
        }
  ]
]

list_remove_prefix_throws :
    (n : ℕ) (bs : List Buffer) → length (bytes_of bs) < n → list_remove_prefix n bs ≡ none
unfolding list_remove_prefix
list_remove_prefix_throws n [] h = ground (arith, h)
list_remove_prefix_throws n (b ∷ bs) h =
    ground
      (arith, h, length-append (str b) (bytes_of bs), list_remove_prefix_throws (n - size b) bs)

-- On valid buffers, a prefix that is no longer than all of their bytes is removed: what is left is
-- valid and holds the other bytes, in order. A longer prefix throws.
pub list_remove_prefix_lem :
    (n : ℕ) (bs : List Buffer)
    → All IsBuffer bs
    → ((n ≤ length (bytes_of bs)) × Removed n bs)
      ⊎ ((length (bytes_of bs) < n) × (list_remove_prefix n bs ≡ none))
list_remove_prefix_lem n bs v = elim (Bool-cases (ltb (length (bytes_of bs)) n)) [
  | inl h ↦ inr (ltb→lt _ _ h, list_remove_prefix_throws n bs (ltb→lt _ _ h))
  | inr h ↦ inl (ltb→ge _ _ h, list_remove_prefix-Removed n bs v (ltb→ge _ _ h))
]

size_from-eq :
    (ret : ℕ) (bs : List Buffer)
    → ret < 2 ^ 64
    → size_from ret bs ≡ add64 ret (length (bytes_of bs))
size_from-eq ret [] h = omega (arith, h)
size_from-eq ret (b ∷ bs) h =
    size_from-eq (add64 ret (size b)) bs (omega arith)
    ∙ omega (arith, length-append (str b) (bytes_of bs))

append-eq : (xs ys : List Buffer) → append xs ys ≡ xs ++ ys
append-eq xs [] = sym (append-nil xs)
append-eq xs (y ∷ ys) = append-eq (xs ++ y ∷ []) ys ∙ append_assoc xs (y ∷ []) ys

bytes_of-append : (xs ys : List Buffer) → bytes_of (xs ++ ys) ≡ bytes_of xs ++ bytes_of ys
bytes_of-append [] ys = refl
bytes_of-append (x ∷ xs) ys =
    ap (λ t. str x ++ t) (bytes_of-append xs ys)
    ∙ sym (append_assoc (str x) (bytes_of xs) (bytes_of ys))

-- The operations on a list of buffers are those on the string that they hold: appending a list
-- appends its string, and the size is that of the string, cut to 64 bits.
pub concatenate_lem :
    (xs ys : List Buffer)
    → (concatenate (append xs ys) ≡ concatenate xs ++ concatenate ys)
      × (list_size xs ≡ length (concatenate xs) % 2 ^ 64)
concatenate_lem xs ys = (
  concatenate_from-eq [] (append xs ys)
      ∙ ap bytes_of (append-eq xs ys)
      ∙ bytes_of-append xs ys
      ∙ ap₂ ◌++◌ (sym (concatenate_from-eq [] xs)) (sym (concatenate_from-eq [] ys)),
  omega (arith, size_from-eq 0 xs (omega arith), ap length (concatenate_from-eq [] xs)),
)
