-- ===== src/Checksum.antt =====
-- libsponge/util/util.hh and util.cc: the checksum of the Internet protocols.
pub mod Verify
mod Tests
use csed353_sponge.Common.{
  ltb, if◌then◌else◌, add32, to_u16, ℕ, zero, suc, ◌-◌, ◌*◌, ◌/◌, ◌%◌, ◌^◌, Bool, false, not, List,
  [], ◌∷◌,
}

pub record InternetChecksum : Type 0 where
  pub sum : ℕ
  pub parity : Bool

abbrev pub new_checksum : ℕ → InternetChecksum
new_checksum initial_sum = record { sum = initial_sum; parity = false }

-- The loop of `add`. A `uint16_t` that is shifted by 8 loses its upper byte, which is 0.
pub add : List ℕ → InternetChecksum → InternetChecksum
add [] c = c
add (byte ∷ bytes) c =
    let low = byte % 2 ^ 8 in
    let val = if not c.parity then low * 2 ^ 8 % 2 ^ 16 else low in
    add bytes (record { sum = add32 c.sum val; parity = not c.parity })

-- The loop of `value`, at most `rounds` times. `Verify` shows that three are enough.
pub fold : ℕ → ℕ → ℕ
fold zero ret = ret
fold (suc rounds) ret =
    let next = fold rounds (add32 (ret / 2 ^ 16) (ret % 2 ^ 16)) in
    if ltb 0xffff ret then next else ret

-- `~ret`, returned as a `uint16_t`.
pub value : InternetChecksum → ℕ
value c = to_u16 (2 ^ 32 - 1 - fold 3 c.sum)
