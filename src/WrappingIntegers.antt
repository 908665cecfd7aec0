-- ===== src/WrappingIntegers.antt =====
-- libsponge/wrapping_integers.hh and wrapping_integers.cc: 32-bit sequence numbers relative to an
-- initial sequence number, and their conversion to and from absolute 64-bit ones.
pub mod Unwrap
mod Tests
use Prim.Native.Nat.{bit_or}
use csed353_sponge.Common.{
  leb, ◌==◌, if◌then◌else◌, add64, sub64, add32, sub32, to_u32, ℕ, ◌*◌, ◌/◌, ◌%◌, ◌^◌, ◌<◌, Bool,
}

pub record WrappingInt32 : Type 0 where
  pub raw_value : ℕ

-- The value that the C++ field can hold.
abbrev pub IsU32 : WrappingInt32 → Type 0
IsU32 w = w.raw_value < 2 ^ 32

-- `operator==`
abbrev pub same : WrappingInt32 → WrappingInt32 → Bool
same a b = a.raw_value == b.raw_value

-- `operator+` and `operator-` with a `uint32_t`. The second is `a + -b`.
abbrev pub plus : WrappingInt32 → ℕ → WrappingInt32
plus a b = record { raw_value = add32 a.raw_value b }

abbrev pub minus : WrappingInt32 → ℕ → WrappingInt32
minus a b = plus a (sub32 0 b)

-- `n` is a `uint64_t`, which the call of `operator+` converts to `uint32_t`.
pub wrap : ℕ → WrappingInt32 → WrappingInt32
wrap n isn = plus isn (to_u32 n)

-- `x << 32` of a `uint64_t`.
abbrev shl_32 : ℕ → ℕ
shl_32 x = x * 2 ^ 32 % 2 ^ 64

pub unwrap : WrappingInt32 → WrappingInt32 → ℕ → ℕ
unwrap n isn checkpoint =
    let lower_32 = sub32 n.raw_value isn.raw_value in
    let upper_32 = sub64 checkpoint lower_32 / 2 ^ 32 in
    let low = bit_or (shl_32 upper_32) lower_32 in
    let high = bit_or (shl_32 (add64 upper_32 1)) lower_32 in
    if leb checkpoint lower_32
    then lower_32
    else if leb (sub64 high checkpoint) (sub64 checkpoint low)
    then high
    else low
