-- ===== src/Buffer/Views.antt =====
-- The lists of views of libsponge/util/buffer.cc stand for the bytes that they show.
use csed353_sponge.Common.{
  ltb, ◌==◌, Bool-cases, add64, length, All, drop, drop-nil, length-append, drop-append_le,
  drop-append_ge, ℕ, ◌+◌, ◌-◌, ◌^◌, ◌≤◌, ◌<◌, ◌≡◌, refl, sym, ap, ◌∙◌, inl, inr, none, some, List,
  [], ◌∷◌, ◌++◌, arith,
}
use csed353_sponge.Buffer.{
  Buffer, size, list_remove_prefix, views_of, views_remove_prefix, views_size, views_size_from,
}
use csed353_sponge.Buffer.Prefix.{IsBuffer, remove_prefix-str}

abbrev pub bytes_in : List (List ℕ) → List ℕ
bytes_in [] = []
bytes_in (v ∷ vs) = v ++ bytes_in vs

views_size_from-eq :
    (ret : ℕ) (vs : List (List ℕ))
    → ret + length (bytes_in vs) < 2 ^ 64
    → views_size_from ret vs ≡ ret + length (bytes_in vs)
views_size_from-eq ret [] h = omega arith
views_size_from-eq ret (v ∷ vs) h =
    let sum : add64 ret (length v) ≡ ret + length v =
      omega (arith, h, length-append v (bytes_in vs)) in
    ap (λ r. views_size_from r vs) sum
    ∙ views_size_from-eq (ret + length v) vs (omega (arith, h, length-append v (bytes_in vs)))
    ∙ omega (arith, length-append v (bytes_in vs))

pub views_size-eq :
    (vs : List (List ℕ)) → length (bytes_in vs) < 2 ^ 64 → views_size vs ≡ length (bytes_in vs)
views_size-eq vs h = views_size_from-eq 0 vs (omega (arith, h)) ∙ omega arith

pub record Shown (n : ℕ) (vs : List (List ℕ)) : Type 0 where
  pub left : List (List ℕ)
  pub result : views_remove_prefix n vs ≡ some left
  pub bytes : bytes_in left ≡ drop n (bytes_in vs)

-- Removing a prefix of the views.
pub views_remove_prefix-Shown : (n : ℕ) (vs : List (List ℕ)) → n ≤ length (bytes_in vs) → Shown n vs
unfolding views_remove_prefix
views_remove_prefix-Shown n [] h = record {
  left = [];
  result = ground (arith, h);
  bytes = sym (drop-nil ℕ n);
}
views_remove_prefix-Shown n (v ∷ vs) h = elim (Bool-cases (n == 0)) [
  | inl e ↦ record {
    left = v ∷ vs;
    result = rw e refl;
    bytes = (let z : 0 ≡ n = ground (arith, e) in ap (λ k. drop k (bytes_in (v ∷ vs))) z);
  }
  | inr e ↦ elim (Bool-cases (ltb n (length v))) [
    | inl s ↦ record {
      left = drop n v ∷ vs;
      result = rw (e, s) refl;
      bytes = sym (drop-append_le n v (bytes_in vs) (ground (arith, s)));
    }
    | inr s ↦
        let rest =
          views_remove_prefix-Shown (n - length v) vs
            (omega (arith, h, length-append v (bytes_in vs))) in
        record {
          left = rest.left;
          result = rw (e, s) rest.result;
          bytes = rest.bytes ∙ sym (drop-append_ge n v (bytes_in vs) (ground (arith, s)));
        }
  ]
]

-- Views of a list of buffers lose a prefix as the list does: the views of what is left, or the same
-- exception.
pub views_remove_prefix_lem :
    (n : ℕ) (bs : List Buffer)
    → All IsBuffer bs
    → views_remove_prefix n (views_of bs)
      ≡ (elim (list_remove_prefix n bs) [ none ↦ none | some cs ↦ some (views_of cs) ])
unfolding views_remove_prefix list_remove_prefix
views_remove_prefix_lem n [] v = elim (Bool-cases (n == 0)) [
  | inl e ↦ rw e refl
  | inr e ↦ rw e refl
]
views_remove_prefix_lem n (b ∷ bs) v = elim (Bool-cases (n == 0)) [
  | inl e ↦ rw e refl
  | inr e ↦ elim (Bool-cases (ltb n (size b))) [
    | inl s ↦
        let (c, removed, shorter, _) =
          remove_prefix-str n b.storage b.starting_offset v.0 (ground (arith, s)) in
        rw (e, s, removed) (ap (λ d. some (d ∷ views_of bs)) (sym shorter))
    | inr s ↦ rw (e, s) (views_remove_prefix_lem (n - size b) bs v.1)
  ]
]
