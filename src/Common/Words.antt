-- ===== src/Common/Words.antt =====
-- The unsigned machine integers of the program, as native numbers with their wrap-around.
-- `size_t` and `uint64_t` have 64 bits, `uint32_t` and `unsigned int` 32, `uint16_t` 16.
use Prim.Native.Nat.{ℕ, ◌+◌, ◌-◌, ◌%◌, ◌^◌}

abbrev pub add64 : ℕ → ℕ → ℕ
add64 a b = (a + b) % 2 ^ 64

abbrev pub sub64 : ℕ → ℕ → ℕ
sub64 a b = (a + 2 ^ 64 - b) % 2 ^ 64

abbrev pub add32 : ℕ → ℕ → ℕ
add32 a b = (a + b) % 2 ^ 32

abbrev pub sub32 : ℕ → ℕ → ℕ
sub32 a b = (a + 2 ^ 32 - b) % 2 ^ 32

-- The conversions to a narrower type.
abbrev pub to_u32 : ℕ → ℕ
to_u32 a = a % 2 ^ 32

abbrev pub to_u16 : ℕ → ℕ
to_u16 a = a % 2 ^ 16
