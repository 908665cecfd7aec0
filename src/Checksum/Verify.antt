-- ===== src/Checksum/Verify.antt =====
-- The checksum of libsponge/util/util.cc verifies: its loop ends, and data with its checksum in it
-- has the checksum 0.
use csed353_sponge.Common.{
  if◌then◌else◌, add32, length, ℕ, ◌+◌, ◌-◌, ◌*◌, ◌/◌, ◌%◌, ◌^◌, ◌≤◌, ◌<◌, ◌≡◌, refl, ap, ◌∙◌, Bool,
  false, not, List, [], ◌∷◌, ◌++◌, arith,
}
use csed353_sponge.Checksum.{InternetChecksum, new_checksum, add, fold, value}

-- Two rounds bring every 32-bit sum below 2^16; the third finds nothing to do, and neither do more.
pub fold_ends :
    (rounds ret : ℕ) → ret < 2 ^ 32 → (fold 3 ret < 2 ^ 16) × (fold (3 + rounds) ret ≡ fold 3 ret)
unfolding fold
fold_ends rounds ret h = ground (arith, h)

-- What the loop keeps: the remainder by 2^16 - 1, and whether the sum is 0.
fold_keeps :
    (ret : ℕ)
    → ret < 2 ^ 32
    → (fold 3 ret % 0xffff ≡ ret % 0xffff) × ((fold 3 ret ≡ 0) → (ret ≡ 0)) × (fold 3 ret < 2 ^ 16)
unfolding fold
fold_keeps ret h = ground (arith, h)

value-eq : (c : InternetChecksum) → c.sum < 2 ^ 32 → value c ≡ 0xffff - fold 3 c.sum
unfolding value
value-eq c h = omega (arith, (fold_keeps c.sum h).2)

fold-verifies : (sum : ℕ) → sum + 2 ^ 16 < 2 ^ 32 → fold 3 (sum + (0xffff - fold 3 sum)) ≡ 0xffff
fold-verifies sum h = ground (
  arith,
  fold_keeps sum (omega (arith, h)),
  fold_keeps (sum + (0xffff - fold 3 sum)) (omega (arith, h)),
)

-- What bytes add to the sum, from a position of the given parity on.
abbrev weight : Bool → List ℕ → ℕ
weight parity [] = 0
weight parity (byte ∷ bytes) =
    (if not parity then byte % 2 ^ 8 * 2 ^ 8 else byte % 2 ^ 8) + weight (not parity) bytes

abbrev pub parity_after : Bool → List ℕ → Bool
parity_after parity [] = parity
parity_after parity (byte ∷ bytes) = parity_after (not parity) bytes

weight-le : (parity : Bool) (bytes : List ℕ) → weight parity bytes ≤ 2 ^ 16 * length bytes
weight-le parity [] = omega arith
weight-le parity (byte ∷ bytes) = ground (arith, weight-le (not parity) bytes)

weight-append :
    (parity : Bool) (xs ys : List ℕ)
    → weight parity (xs ++ ys) ≡ weight parity xs + weight (parity_after parity xs) ys
weight-append parity [] ys = omega arith
weight-append parity (x ∷ xs) ys = omega (arith, weight-append (not parity) xs ys)

sum-add :
    (bytes : List ℕ) (c : InternetChecksum)
    → c.sum + weight c.parity bytes < 2 ^ 32
    → (add bytes c).sum ≡ c.sum + weight c.parity bytes
unfolding add
sum-add [] c h = omega arith
sum-add (byte ∷ bytes) c h =
    let val = if not c.parity then byte % 2 ^ 8 * 2 ^ 8 % 2 ^ 16 else byte % 2 ^ 8 in
    let same : val ≡ (if not c.parity then byte % 2 ^ 8 * 2 ^ 8 else byte % 2 ^ 8) = ground arith in
    let next : InternetChecksum = record { sum = add32 c.sum val; parity = not c.parity } in
    let sum : add32 c.sum val ≡ c.sum + val = omega (arith, same, h) in
    omega (arith, sum-add bytes next (omega (arith, sum, same, h)), sum, same)

-- The sum over a packet with two bytes `hi` and `lo` at an even position.
sum-packet :
    (before rest : List ℕ) (initial hi lo : ℕ)
    → parity_after false before ≡ false
    → length before + length rest + 2 < 2 ^ 15
    → initial < 2 ^ 30
    → hi < 2 ^ 8
    → lo < 2 ^ 8
    → (add (before ++ (hi ∷ lo ∷ rest)) (new_checksum initial)).sum
      ≡ initial + weight false before + weight false rest + (hi * 2 ^ 8 + lo)
sum-packet before rest initial hi lo even short small hh hl =
    let packet : List ℕ = hi ∷ lo ∷ rest in
    let whole : weight false (before ++ packet) ≡ weight false before + weight false packet =
      weight-append false before packet ∙ ap (λ p. weight false before + weight p packet) even in
    let two : weight false packet ≡ hi * 2 ^ 8 + lo + weight false rest = omega (arith, hh, hl) in
    sum-add (before ++ packet) (new_checksum initial) (
      omega (arith, whole, two, hh, hl, weight-le false before, weight-le false rest, short, small))
    ∙ omega (arith, whole, two)

-- A packet of fewer than 2^15 bytes whose checksum field, at an even position, is 0: with the
-- checksum of the packet put there, upper byte first, the checksum of the whole is 0. Both
-- start from the same initial sum, which is less than 2^30.
pub checksum_verifies :
    (before rest : List ℕ) (initial : ℕ)
    → parity_after false before ≡ false
    → length before + length rest + 2 < 2 ^ 15
    → initial < 2 ^ 30
    → let v = value (add (before ++ (0 ∷ 0 ∷ rest)) (new_checksum initial)) in
      value (add (before ++ (v / 2 ^ 8 ∷ v % 2 ^ 8 ∷ rest)) (new_checksum initial)) ≡ 0
checksum_verifies before rest initial even short small =
    let c = add (before ++ (0 ∷ 0 ∷ rest)) (new_checksum initial) in
    let v = value c in
    let d = add (before ++ (v / 2 ^ 8 ∷ v % 2 ^ 8 ∷ rest)) (new_checksum initial) in
    let bound : weight false before + weight false rest + initial + 2 ^ 17 < 2 ^ 32 =
      omega (arith, weight-le false before, weight-le false rest, short, small) in
    let first = sum-packet before rest initial 0 0 even short small (omega arith) (omega arith) in
    let is : v ≡ 0xffff - fold 3 c.sum = value-eq c (omega (arith, first, bound)) in
    let second =
      sum-packet before rest initial (v / 2 ^ 8) (v % 2 ^ 8) even short small (omega (arith, is))
        (omega arith) in
    let sums : d.sum ≡ c.sum + (0xffff - fold 3 c.sum) = omega (arith, first, second, is) in
    let folded : fold 3 d.sum ≡ 0xffff =
      ap (fold 3) sums ∙ fold-verifies c.sum (omega (arith, first, bound)) in
    omega (arith, value-eq d (omega (arith, second, bound, is)), folded)

pub value-fits : (c : InternetChecksum) → value c < 2 ^ 16
unfolding value
value-fits c = omega arith

pub add-append : (xs ys : List ℕ) (c : InternetChecksum) → add (xs ++ ys) c ≡ add ys (add xs c)
unfolding add
add-append [] ys c = refl
add-append (x ∷ xs) ys c = add-append xs ys _
