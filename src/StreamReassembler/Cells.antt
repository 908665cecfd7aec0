-- ===== src/StreamReassembler/Cells.antt =====
-- The two deques of the reassembler, read as one sequence of cells, each of which holds a byte or
-- nothing.
use csed353_sponge.Common.{
  ◌==◌, if◌then◌else◌, to_ℕ, length, get_or, set, replicate, get_or-append_left, ℕ, zero, suc, ◌+◌,
  ◌≤◌, ◌<◌, ◌≡◌, refl, sym, ap, Bool, true, false, Option, none, some, List, [], ◌∷◌, ◌++◌, arith,
}

abbrev pub cell : List ℕ → List Bool → ℕ → Option ℕ
cell buffer state i = if get_or state i false then some (get_or buffer i 0) else none

-- How many cells hold a byte.
abbrev pub count : List Bool → ℕ
count [] = 0
count (b ∷ bs) = to_ℕ b + count bs

pub count-le : (st : List Bool) → count st ≤ length st
count-le [] = omega arith
count-le (true ∷ st) = omega (arith, count-le st)
count-le (false ∷ st) = omega (arith, count-le st)

pub count-append : (xs ys : List Bool) → count (xs ++ ys) ≡ count xs + count ys
count-append [] ys = omega arith
count-append (x ∷ xs) ys = omega (arith, count-append xs ys)

pub count-set :
    (st : List Bool) (i : ℕ)
    → i < length st
    → get_or st i false ≡ false
    → count (set st i true) ≡ count st + 1
count-set [] i h e = absurd (omega arith)
count-set (x ∷ st) zero h e = rw e (omega arith)
count-set (x ∷ st) (suc i) h e = omega (arith, count-set st i (omega arith) e)

pub count-replicate : (n : ℕ) → count (replicate n false) ≡ 0
count-replicate zero = refl
count-replicate (suc n) = omega (arith, count-replicate n)

pub get_or-replicate : (n i : ℕ) → get_or (replicate n false) i false ≡ false
get_or-replicate zero i = refl
get_or-replicate (suc n) zero = refl
get_or-replicate (suc n) (suc i) = get_or-replicate n i

-- Writing one cell.
pub cell-set :
    (buffer : List ℕ) (state : List Bool) (i x k : ℕ)
    → i < length buffer
    → i < length state
    → cell (set buffer i x) (set state i true) k ≡ (if i == k then some x else cell buffer state k)
cell-set (b ∷ buffer) (s ∷ state) zero x zero hb hs = ground arith
cell-set (b ∷ buffer) (s ∷ state) zero x (suc k) hb hs = ground arith
cell-set (b ∷ buffer) (s ∷ state) (suc i) x zero hb hs = ground arith
cell-set (b ∷ buffer) (s ∷ state) (suc i) x (suc k) hb hs =
    ground (arith, cell-set buffer state i x k (omega arith) (omega arith))
cell-set [] state i x k hb hs = absurd (omega arith)
cell-set (b ∷ buffer) [] i x k hb hs = absurd (omega arith)

pub set-true : (st : List Bool) (i : ℕ) → get_or st i false ≡ true → set st i true ≡ st
set-true [] i e = refl
set-true (x ∷ st) zero e = ap (λ b. b ∷ st) (sym e)
set-true (x ∷ st) (suc i) e = ap (λ t. x ∷ t) (set-true st i e)

get_or-snoc_default {ℓ} :
    {A : Type ℓ} (xs : List A) (d : A) (i : ℕ) → get_or (xs ++ d ∷ []) i d ≡ get_or xs i d
get_or-snoc_default [] d zero = refl
get_or-snoc_default [] d (suc i) = refl
get_or-snoc_default (x ∷ xs) d zero = refl
get_or-snoc_default (x ∷ xs) d (suc i) = get_or-snoc_default xs d i

pub get_or-lt : (st : List Bool) (i : ℕ) → get_or st i false ≡ true → i < length st
get_or-lt [] i e = cc
get_or-lt (x ∷ st) zero e = omega arith
get_or-lt (x ∷ st) (suc i) e = omega (arith, get_or-lt st i e)

-- An empty cell at the end changes nothing.
pub cell-snoc :
    (buffer : List ℕ) (state : List Bool) (x i : ℕ)
    → length buffer ≡ length state
    → cell (buffer ++ x ∷ []) (state ++ false ∷ []) i ≡ cell buffer state i
cell-snoc buffer state x i e =
    rw (get_or-snoc_default state false i)
      (ground (arith, get_or-append_left buffer (x ∷ []) i 0, get_or-lt state i))

pub cell-none :
    (buffer : List ℕ) (state : List Bool) (i : ℕ)
    → cell buffer state i ≡ none
    → get_or state i false ≡ false
cell-none buffer state i e = ground arith

pub count_zero : (st : List Bool) (i : ℕ) → count st ≡ 0 → get_or st i false ≡ false
count_zero [] i e = refl
count_zero (true ∷ st) i e = absurd (omega arith)
count_zero (false ∷ st) zero e = refl
count_zero (false ∷ st) (suc i) e = count_zero st i (omega arith)
