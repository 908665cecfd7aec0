-- ===== src/FileDescriptor/Write.antt =====
-- What the loop of `FileDescriptor::write` in libsponge/util/file_descriptor.cc comes to.
use csed353_sponge.Common.{
  ltb, ◌==◌, Bool-cases, add64, length, length-drop, ℕ, ◌+◌, ◌-◌, ◌^◌, ◌≤◌, ◌<◌, ◌≡◌, refl, ap, ◌∙◌,
  subst, ◌⊎◌, inl, inr, Bool, true, false, not, ◌&&◌, Option, none, some, List, [], ◌∷◌, ◌++◌,
  append-nil, arith,
}
use csed353_sponge.Buffer.{views_size}
use csed353_sponge.Buffer.Views.{bytes_in, views_size-eq, views_remove_prefix-Shown}
use csed353_sponge.FileDescriptor.{
  FileDescriptor, WriteResult, returned, failed, waiting, write_from, write, register_write,
}

-- The calls that the loop has made took `counts` bytes, one after the other.
abbrev pub all_some : List ℕ → List (Option ℕ) → List (Option ℕ)
all_some [] rest = rest
all_some (n ∷ ns) rest = some n ∷ all_some ns rest

abbrev pub sum : List ℕ → ℕ
sum [] = 0
sum (n ∷ ns) = n + sum ns

pub record Served (write_all : Bool) (results : List (Option ℕ)) (size total : ℕ) : Type 0 where
  pub counts : List ℕ
  pub rest : List (Option ℕ)
  pub used : results ≡ all_some counts rest
  pub sums : sum counts ≡ total
  pub bounded : total ≤ size
  pub whole : write_all ≡ true → total ≡ size
  pub once : write_all ≡ false → length counts ≡ 1

-- A call threw, or took nothing of the bytes that were left, or more than were left.
abbrev pub Faulty : List (Option ℕ) → ℕ → Type 0
Faulty [] size = ⊥
Faulty (none ∷ results) size = Unit {0}
Faulty (some n ∷ results) size = ((n ≡ 0) × (0 < size)) ⊎ ((size < n) ⊎ Faulty results (size - n))

-- `base` bytes were written before.
abbrev Outcome : Bool → List (Option ℕ) → ℕ → ℕ → WriteResult → Type 0
Outcome write_all results size base (returned fd total) =
    (base ≤ total) × Served write_all results size (total - base)
Outcome write_all results size base failed = Faulty results size
Outcome write_all results size base waiting = length results ≤ size

-- One call more before it.
Outcome-cons :
    (write_all : Bool) (results : List (Option ℕ)) (size base n : ℕ) (w : WriteResult)
    → write_all ≡ true
    → 0 < n
    → n ≤ size
    → Outcome write_all results (size - n) (base + n) w
    → Outcome write_all (some n ∷ results) size base w
Outcome-cons write_all results size base n (returned fd total) all pos le o =
    let s = o.1 in
    (
      omega (arith, o.0),
      record {
        counts = n ∷ s.counts;
        rest = s.rest;
        used = ap (λ r. some n ∷ r) s.used;
        sums = omega (arith, s.sums, o.0);
        bounded = omega (arith, s.bounded, o.0, le);
        whole = λ a. omega (arith, s.whole a, o.0, le);
        once = λ a. absurd (ground (arith, a, all));
      },
    )
Outcome-cons write_all results size base n failed all pos le o = inr (inr o)
Outcome-cons write_all results size base n waiting all pos le o = omega (arith, o, pos, le)

write_from-Outcome :
    (write_all : Bool) (results : List (Option ℕ)) (buffer : List (List ℕ)) (base : ℕ)
    (fd : FileDescriptor)
    → base + length (bytes_in buffer) < 2 ^ 64
    → Outcome write_all results
        (length (bytes_in buffer))
        base
        (write_from write_all results buffer base fd)
unfolding write_from
write_from-Outcome write_all [] buffer base fd h = omega arith
write_from-Outcome write_all (none ∷ results) buffer base fd h = tt
write_from-Outcome write_all (some n ∷ results) buffer base fd h =
    let size = views_size-eq buffer (omega (arith, h)) in
    elim (Bool-cases ((n == 0) && not (views_size buffer == 0))) [
      | inl e ↦ rw e (inl (ground (arith, e), ground (arith, e, size)))
      | inr e ↦ elim (Bool-cases (ltb (views_size buffer) n)) [
        | inl s ↦ rw (e, s) (inr (inl (ground (arith, s, size))))
        | inr s ↦
            let shown = views_remove_prefix-Shown n buffer (ground (arith, s, size)) in
            let left_size : length (bytes_in shown.left) ≡ length (bytes_in buffer) - n =
              ap length shown.bytes ∙ length-drop n (bytes_in buffer) in
            let le : n ≤ length (bytes_in buffer) = ground (arith, s, size) in
            let total : add64 base n ≡ base + n = omega (arith, h, le) in
            let left_views = views_size-eq shown.left (omega (arith, left_size, h)) in
            rw (e, s, shown.result)
              (elim (Bool-cases (write_all && not (views_size shown.left == 0))) [
                | inl m ↦ rw m (
                    Outcome-cons write_all results (length (bytes_in buffer)) base n
                      (write_from write_all results shown.left (add64 base n) (register_write fd))
                      (ground (arith, m)) (ground (arith, e, m, size, left_views, left_size)) le
                      (subst
                        (λ k. Outcome write_all results k (base + n) (
                          write_from write_all results shown.left (add64 base n)
                            (register_write fd)))
                        left_size
                        (subst
                          (λ b. Outcome write_all results (length (bytes_in shown.left)) b (
                            write_from write_all results shown.left (add64 base n)
                              (register_write fd)))
                          total
                          (write_from-Outcome write_all results shown.left (add64 base n)
                            (register_write fd) (omega (arith, left_size, h, total, le))))))
                | inr m ↦ rw m (
                  omega (arith, total),
                  record {
                    counts = n ∷ [];
                    rest = results;
                    used = refl;
                    sums = omega (arith, total);
                    bounded = omega (arith, total, le);
                    whole = λ a. ground (arith, a, m, left_views, left_size, total, le);
                    once = λ a. omega arith;
                  },
                )
              ])
      ]
    ]

abbrev pub Written : Bool → List (Option ℕ) → ℕ → WriteResult → Type 0
Written write_all results size (returned fd total) = Served write_all results size total
Written write_all results size failed = Faulty results size
Written write_all results size waiting = length results ≤ size

Outcome-Written :
    (write_all : Bool) (results : List (Option ℕ)) (size : ℕ) (w : WriteResult)
    → Outcome write_all results size 0 w
    → Written write_all results size w
Outcome-Written write_all results size (returned fd total) o =
    let e : total - 0 ≡ total = omega arith in subst (Served write_all results size) e o.1
Outcome-Written write_all results size failed o = o
Outcome-Written write_all results size waiting o = o

-- For a buffer of fewer than 2^64 bytes, whatever the calls of writev return: if the loop returns, the
-- number is the sum of what its calls took, at most the bytes of the buffer, and all of them when
-- `write_all` is set, after one call when it is not. It throws only if a call failed, took nothing of
-- the bytes that were left, or more than were left. It makes at most one call more than there are
-- bytes.
pub write_lem :
    (write_all : Bool) (results : List (Option ℕ)) (buffer : List (List ℕ)) (fd : FileDescriptor)
    → length (bytes_in buffer) < 2 ^ 64
    → Written write_all results (length (bytes_in buffer)) (write write_all results buffer fd)
write_lem write_all results buffer fd h =
    Outcome-Written write_all results (length (bytes_in buffer)) (write write_all results buffer fd)
      (write_from-Outcome write_all results buffer 0 fd (omega (arith, h)))

-- A write of one buffer of at most 65536 bytes.
pub write_one :
    (result : Option ℕ) (bytes : List ℕ) (fd : FileDescriptor)
    → length bytes ≤ 65536
    → Written false (result ∷ []) (length bytes) (write false (result ∷ []) (bytes ∷ []) fd)
write_one result bytes fd short =
    let size : length (bytes ++ []) ≡ length bytes = ap length (append-nil bytes) in
    subst (λ k. Written false (result ∷ []) k (write false (result ∷ []) (bytes ∷ []) fd)) size
      (write_lem false (result ∷ []) (bytes ∷ []) fd (omega (arith, size, short)))
