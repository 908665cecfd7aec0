-- ===== src/Common/Masks.antt =====
-- The masks of address prefixes: `bit_and` with ones that are followed by zeros. Tests of the
-- numbers up to a bound.
use Prim.Native.Nat.{
  ℕ, zero, suc, ◌+◌, ◌-◌, ◌*◌, ◌/◌, ◌%◌, ◌^◌, ◌≤◌, ◌<◌, min, bit_and, digits, bit_and-bitwise,
}
use mathlib.Core.Path.{◌≡◌, refl, ap₂, ◌∙◌}
use mathlib.Core.Bool.{Bool, true, ◌&&◌}
use native.Mathlib.Nat.{pow-suc}
use native.Mathlib.Omega.{arith}

-- The test passes on every number up to the bound.
abbrev pub holds_to : (ℕ → Bool) → ℕ → Bool
holds_to p zero = p zero
holds_to p (suc bound) = p (suc bound) && holds_to p bound

pub holds_to-le : (p : ℕ → Bool) (bound x : ℕ) → holds_to p bound ≡ true → x ≤ bound → p x ≡ true
holds_to-le p zero zero h le = h
holds_to-le p zero (suc x) h le = absurd (omega (arith, le))
holds_to-le p (suc bound) x h le = ground (arith, h, le, holds_to-le p bound x)

-- The digits that `x` and `mask` have in common, for `count` digits of `x`.
abbrev common_digits : ℕ → ℕ → ℕ → ℕ
common_digits = digits (λ rest. zero) min

common_digits-zero : (count mask : ℕ) → common_digits count 0 mask ≡ 0
common_digits-zero zero mask = refl
common_digits-zero (suc count) mask = refl

-- The lowest digit stands for itself, and the others move down.
common_digits-suc :
    (count x mask : ℕ)
    → common_digits (suc count) x mask
      ≡ common_digits count (x / 2) (mask / 2) * 2 + min (x % 2) (mask % 2)
common_digits-suc count zero mask = omega (arith, common_digits-zero count (mask / 2))
common_digits-suc count (suc x) mask = refl

-- A mask of `ones` ones keeps a number of so many digits.
keep_digits :
    (count ones x : ℕ) → x ≤ count → x < 2 ^ ones → common_digits count x (2 ^ ones - 1) ≡ x
keep_digits zero ones x le lt = omega (arith, le)
keep_digits (suc count) zero zero le lt = refl
keep_digits (suc count) zero (suc x) le lt = absurd (omega (arith, lt))
keep_digits (suc count) (suc ones) x le lt =
    common_digits-suc count x (2 ^ suc ones - 1)
    ∙ ap₂ (λ rest lowest. common_digits count (x / 2) rest * 2 + min (x % 2) lowest) fewer last
    ∙ omega (
      arith,
      keep_digits count ones (x / 2) (omega (arith, le)) (omega (arith, pow-suc 2 ones, lt)),
    )
  where
    fewer : (2 ^ suc ones - 1) / 2 ≡ 2 ^ ones - 1
    fewer = omega (arith, pow-suc 2 ones)

    last : (2 ^ suc ones - 1) % 2 ≡ 1
    last = omega (arith, pow-suc 2 ones)

-- The zeros at the end of the mask clear as many digits, here `low`.
mask_digits :
    (shift count ones high low : ℕ)
    → high * 2 ^ shift + low ≤ count
    → low < 2 ^ shift
    → high < 2 ^ ones
    → common_digits count (high * 2 ^ shift + low) ((2 ^ ones - 1) * 2 ^ shift) ≡ high * 2 ^ shift
mask_digits zero count ones high low le small fits =
    ap₂ (common_digits count) whole unmoved
    ∙ keep_digits count ones high (omega (arith, le)) fits
    ∙ omega arith
  where
    whole : high * 2 ^ 0 + low ≡ high
    whole = omega (arith, small)

    unmoved : (2 ^ ones - 1) * 2 ^ 0 ≡ 2 ^ ones - 1
    unmoved = omega arith
mask_digits (suc shift) zero ones high low le small fits = omega (arith, le)
mask_digits (suc shift) (suc count) ones high low le small fits =
    common_digits-suc count (high * 2 ^ suc shift + low) ((2 ^ ones - 1) * 2 ^ suc shift)
    ∙ ap₂
        (λ x mask.
          common_digits count x mask * 2
          + min ((high * 2 ^ suc shift + low) % 2) ((2 ^ ones - 1) * 2 ^ suc shift % 2))
        shorter moved
    ∙ omega (
      arith,
      twice high,
      twice (2 ^ ones - 1),
      mask_digits shift count ones high (low / 2) (omega (arith, twice high, le))
          (omega (arith, pow-suc 2 shift, small)) fits,
    )
  where
    twice : (a : ℕ) → a * 2 ^ suc shift ≡ a * 2 ^ shift * 2
    twice a = rw pow-suc (omega arith)

    shorter : (high * 2 ^ suc shift + low) / 2 ≡ high * 2 ^ shift + low / 2
    shorter = omega (arith, twice high)

    moved : (2 ^ ones - 1) * 2 ^ suc shift / 2 ≡ (2 ^ ones - 1) * 2 ^ shift
    moved = omega (arith, twice (2 ^ ones - 1))

-- `x & mask`, for a mask of ones that are followed by zeros, clears the digits behind the ones.
pub bit_and-mask :
    (ones shift high low : ℕ)
    → low < 2 ^ shift
    → high < 2 ^ ones
    → bit_and (high * 2 ^ shift + low) ((2 ^ ones - 1) * 2 ^ shift) ≡ high * 2 ^ shift
bit_and-mask ones shift high low small fits =
    bit_and-bitwise (high * 2 ^ shift + low) ((2 ^ ones - 1) * 2 ^ shift)
    ∙ mask_digits shift (high * 2 ^ shift + low) ones high low (omega arith) small fits
