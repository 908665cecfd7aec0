-- ===== src/WrappingIntegers/Unwrap.antt =====
-- `unwrap` inverts `wrap` near the checkpoint and picks the nearest candidate.
use Prim.Native.Nat.{bit_or}
use csed353_sponge.Common.{
  leb, if◌then◌else◌, leb→le, leb→gt, Bool-cases, add64, sub64, sub32, bit_or-shift, ℕ, ◌+◌, ◌-◌,
  ◌*◌, ◌/◌, ◌%◌, ◌^◌, ◌≤◌, ◌<◌, ◌≡◌, refl, ap, ◌∙◌, inl, inr, arith,
}
use csed353_sponge.WrappingIntegers.{WrappingInt32, IsU32, plus, wrap, unwrap, shl_32}

-- The distance between two absolute sequence numbers.
abbrev pub dist : ℕ → ℕ → ℕ
dist a b = (a - b) + (b - a)

-- `x << 32 | y`, with the shift taken in 64 bits.
join-eq : (x y : ℕ) → y < 2 ^ 32 → bit_or (shl_32 x) y ≡ x * 2 ^ 32 % 2 ^ 64 + y
join-eq x y h = ap (λ t. bit_or t y) shifted ∙ bit_or-shift 32 (x % 2 ^ 32) y h ∙ omega arith
  where
    shifted : shl_32 x ≡ x % 2 ^ 32 * 2 ^ 32
    shifted = omega arith

-- The results of `unwrap` for a checkpoint `c` and a lower half `d`.
data Nearest (c d : ℕ) : ℕ → Type 0 where
  first : c ≤ d → Nearest c d d
  below : (q r : ℕ) → r ≡ q * 2 ^ 32 + d → r ≤ c → c < r + 2 ^ 31 → Nearest c d r
  above :
      (q r : ℕ)
      → q * 2 ^ 32 + d + 2 ^ 31 ≤ c
      → c < q * 2 ^ 32 + d + 2 ^ 32
      → r ≡ (q * 2 ^ 32 + d + 2 ^ 32) % 2 ^ 64
      → Nearest c d r

-- The last test of `unwrap`, on the two candidates.
choose : ℕ → ℕ → ℕ → ℕ
choose c low high = if leb (sub64 high c) (sub64 c low) then high else low

choose-Nearest :
    (c d q low high : ℕ)
    → c < 2 ^ 64
    → d < 2 ^ 32
    → d < c
    → q ≡ (c - d) / 2 ^ 32
    → low ≡ q * 2 ^ 32 + d
    → high ≡ (q * 2 ^ 32 + d + 2 ^ 32) % 2 ^ 64
    → Nearest c d (choose c low high)
unfolding choose
choose-Nearest c d q low high hc hd lt hq hl hh =
    elim (Bool-cases (leb (sub64 high c) (sub64 c low))) [
      | inl e ↦
          rw e
            (above q high (omega (arith, leb→le (sub64 high c) (sub64 c low) e)) (omega arith) hh)
      | inr e ↦
          rw e (below q low hl (omega arith) (omega (arith, leb→gt (sub64 high c) (sub64 c low) e)))
    ]

-- Every result of `unwrap` is one of those.
unwrap-Nearest :
    (n isn : WrappingInt32) (c : ℕ)
    → c < 2 ^ 64
    → Nearest c (sub32 n.raw_value isn.raw_value) (unwrap n isn c)
unfolding unwrap
unwrap-Nearest n isn c hc =
    let d = sub32 n.raw_value isn.raw_value in
    let q = sub64 c d / 2 ^ 32 in
    elim (Bool-cases (leb c d)) [
      | inl e ↦ rw e (first (leb→le c d e))
      | inr e ↦ rw e (
          unfold choose in
          choose-Nearest c d ((c - d) / 2 ^ 32) (bit_or (shl_32 q) d)
            (bit_or (shl_32 (add64 q 1)) d) hc (omega arith) (leb→gt c d e) refl
            (omega (arith, join-eq q d, leb→gt c d e))
            (omega (arith, join-eq (add64 q 1) d, leb→gt c d e)))
    ]

pub wrap-IsU32 : (n : ℕ) (isn : WrappingInt32) → IsU32 (wrap n isn)
unfolding wrap
wrap-IsU32 n isn = omega arith

Nearest-lower :
    {c d r : ℕ} → d < 2 ^ 32 → c < 2 ^ 64 → Nearest c d r → (r % 2 ^ 32 ≡ d) × (r < 2 ^ 64)
Nearest-lower hd hc (first h) = omega arith
Nearest-lower hd hc (below q r e h k) = omega arith
Nearest-lower hd hc (above q r h k e) = omega arith

-- The result of `unwrap` fits 64 bits and wraps back to the sequence number, whatever the
-- checkpoint.
pub wrap-unwrap :
    (n isn : WrappingInt32) (checkpoint : ℕ)
    → IsU32 n
    → IsU32 isn
    → checkpoint < 2 ^ 64
    → (wrap (unwrap n isn checkpoint) isn ≡ n) × (unwrap n isn checkpoint < 2 ^ 64)
unfolding wrap
wrap-unwrap n isn checkpoint hn hi hc =
    let fact = Nearest-lower (omega arith) hc (unwrap-Nearest n isn checkpoint hc) in
    (ap (λ v. record { raw_value = v }) (omega arith), omega arith)

Nearest-unique :
    {c d r : ℕ} (m : ℕ)
    → m < 2 ^ 64
    → c < 2 ^ 64
    → m % 2 ^ 32 ≡ d
    → dist m c < 2 ^ 31
    → Nearest c d r
    → r ≡ m
Nearest-unique m hm hc e near (first h) = omega arith
Nearest-unique m hm hc e near (below q r e' h k) = omega arith
Nearest-unique m hm hc e near (above q r h k e') = omega arith

-- Decoding the wrapped form of a 64-bit number gives that number back, if it lies less than 2^31
-- away from the checkpoint.
pub unwrap-wrap :
    (m checkpoint : ℕ) (isn : WrappingInt32)
    → m < 2 ^ 64
    → checkpoint < 2 ^ 64
    → IsU32 isn
    → dist m checkpoint < 2 ^ 31
    → unwrap (wrap m isn) isn checkpoint ≡ m
unfolding wrap
unwrap-wrap m checkpoint isn hm hc hi near =
    Nearest-unique m hm hc (omega arith) near (unwrap-Nearest (wrap m isn) isn checkpoint hc)

Nearest-least :
    {c d r : ℕ} (m : ℕ)
    → d < 2 ^ 32
    → c + 2 ^ 31 < 2 ^ 64
    → m % 2 ^ 32 ≡ d
    → Nearest c d r
    → dist r c ≤ dist m c
Nearest-least m hd hc e (first h) = omega arith
Nearest-least m hd hc e (below q r e' h k) = omega arith
Nearest-least m hd hc e (above q r h k e') = omega arith

-- `unwrap` gives a number that wraps to the sequence number, and that is at least as close to the
-- checkpoint as every other that does, if the checkpoint is at least 2^31 below 2^64.
pub unwrap_nearest :
    (n isn : WrappingInt32) (checkpoint m : ℕ)
    → IsU32 n
    → IsU32 isn
    → checkpoint + 2 ^ 31 < 2 ^ 64
    → wrap m isn ≡ n
    → (wrap (unwrap n isn checkpoint) isn ≡ n)
      × (dist (unwrap n isn checkpoint) checkpoint ≤ dist m checkpoint)
unfolding wrap
unwrap_nearest n isn checkpoint m hn hi hc e = (
  (wrap-unwrap n isn checkpoint hn hi (omega arith)).0,
  Nearest-least m (omega arith) hc (omega (arith, ap (λ (w : WrappingInt32). w.raw_value) e))
      (unwrap-Nearest n isn checkpoint (omega arith)),
)

pub plus-wrap : (n k : ℕ) (isn : WrappingInt32) → plus (wrap n isn) k ≡ wrap (n + k) isn
unfolding wrap
plus-wrap n k isn = ap (λ v. record { raw_value = v }) (omega arith)

pub wrap-zero : (isn : WrappingInt32) → IsU32 isn → wrap 0 isn ≡ isn
unfolding wrap
wrap-zero isn h = ap (λ v. record { raw_value = v }) (omega arith)
