-- ===== src/Router/Prefix.antt =====
-- What a route of libsponge/router.cc matches.
use csed353_sponge.Common.{
  ltb, ◌==◌, ltb→lt, holds_to, holds_to-le, bit_and-mask, ℕ, ◌-◌, ◌*◌, ◌/◌, ◌%◌, ◌^◌, ◌≤◌, ◌<◌, ◌≡◌,
  refl, sym, ap₂, ◌∙◌, subst, true, Option, arith,
}
use Prim.Native.Nat.{bit_and}
use mathlib.Core.Logic.{◌↔◌}
use native.Mathlib.Nat.{div-add-mod', mod-lt, div-lt_iff_lt-mul}
use csed353_sponge.Router.{matches, mask_of, new_entry}

==→≡ : (a b : ℕ) → (a == b) ≡ true → a ≡ b
==→≡ a b h = ground (arith, h)

mask_table : holds_to (λ len. mask_of len == (2 ^ len - 1) * 2 ^ (32 - len)) 32 ≡ true
mask_table = refl

mask_of-eq : (len : ℕ) → len ≤ 32 → mask_of len ≡ (2 ^ len - 1) * 2 ^ (32 - len)
mask_of-eq len h =
    ==→≡ _ _
      (holds_to-le (λ len. mask_of len == (2 ^ len - 1) * 2 ^ (32 - len)) 32 len mask_table h)

powers_table : holds_to (λ len. 2 ^ len * 2 ^ (32 - len) == 2 ^ 32) 32 ≡ true
powers_table = refl

powers : (len : ℕ) → len ≤ 32 → 2 ^ len * 2 ^ (32 - len) ≡ 2 ^ 32
powers len h =
    ==→≡ _ _ (holds_to-le (λ len. 2 ^ len * 2 ^ (32 - len) == 2 ^ 32) 32 len powers_table h)

positive_table : holds_to (λ len. ltb 0 (2 ^ (32 - len))) 32 ≡ true
positive_table = refl

positive : (len : ℕ) → len ≤ 32 → 0 < 2 ^ (32 - len)
positive len h = ltb→lt _ _ (holds_to-le (λ len. ltb 0 (2 ^ (32 - len))) 32 len positive_table h)

masked :
    (dst len : ℕ)
    → dst < 2 ^ 32
    → len ≤ 32
    → bit_and dst (mask_of len) ≡ dst / 2 ^ (32 - len) * 2 ^ (32 - len)
masked dst len fits h =
    let unit = 2 ^ (32 - len) in
    ap₂ bit_and (sym (div-add-mod' dst unit)) (mask_of-eq len h)
    ∙ bit_and-mask len (32 - len) (dst / unit) (dst % unit) (mod-lt dst (positive len h))
        ((div-lt_iff_lt-mul (positive len h)).1 (subst (λ t. dst < t) (sym (powers len h)) fits))

-- A route of at most 32 bits matches a destination when the destination, with the bits behind the
-- prefix length cleared, is the prefix of the route; so a prefix with a bit set behind its length
-- matches nothing.
pub matches_iff :
    (dst route_prefix len interface_num : ℕ) (next_hop : Option ℕ)
    → dst < 2 ^ 32
    → len ≤ 32
    → (matches dst (new_entry route_prefix len next_hop interface_num) ≡ true)
      ↔ (route_prefix ≡ dst / 2 ^ (32 - len) * 2 ^ (32 - len))
matches_iff dst route_prefix len interface_num next_hop fits h =
    (λ m. sym (==→≡ _ _ m) ∙ masked dst len fits h, λ e. ground (arith, masked dst len fits h, e))
