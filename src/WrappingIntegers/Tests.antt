-- ===== src/WrappingIntegers/Tests.antt =====
-- Concrete sequence numbers for libsponge/wrapping_integers.cc.
use csed353_sponge.Common.{ℕ, ◌+◌, ◌-◌, ◌^◌, ◌≤◌, ◌≡◌, refl, arith}
use csed353_sponge.WrappingIntegers.{WrappingInt32, wrap, unwrap}
use csed353_sponge.WrappingIntegers.Unwrap.{dist, unwrap-wrap, unwrap_nearest}

abbrev number : ℕ → WrappingInt32
number n = record { raw_value = n }

-- Around the second wrap of the numbers.
unwrap-wrap_example : unwrap (wrap (2 ^ 33 + 3) (number 17)) (number 17) (2 ^ 33 - 5) ≡ 2 ^ 33 + 3
unwrap-wrap_example =
    unwrap-wrap (2 ^ 33 + 3) (2 ^ 33 - 5) (number 17) (omega arith) (omega arith) (omega arith)
      (omega arith)

wraps : wrap (2 ^ 32 + 3) (number 17) ≡ number 20
unfolding wrap
wraps = refl

unwrap_nearest_example :
    (wrap (unwrap (number 20) (number 17) (2 ^ 33)) (number 17) ≡ number 20)
    × (dist (unwrap (number 20) (number 17) (2 ^ 33)) (2 ^ 33) ≤ dist (2 ^ 32 + 3) (2 ^ 33))
unwrap_nearest_example =
    unwrap_nearest (number 20) (number 17) (2 ^ 33) (2 ^ 32 + 3) (omega arith) (omega arith)
      (omega arith) wraps
