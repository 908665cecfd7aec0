-- ===== src/Parser/RoundTrip.antt =====
-- What libsponge/util/parser.cc writes is read back.
use csed353_sponge.Common.{
  length, drop, ℕ, ◌+◌, ◌*◌, ◌/◌, ◌%◌, ◌^◌, ◌≤◌, ◌<◌, ◌≡◌, ap, ◌∙◌, ◌⊎◌, inl, inr, true, List, [],
  ◌∷◌, ◌++◌, arith,
}
use csed353_sponge.Parser.{
  is_error, NetParser, new_parser, check_size, parse_int, u32, u16, u8, put_u32, put_u16, put_u8,
  remove_prefix,
}

pub u8-eq : (a : ℕ) (rest : List ℕ) → u8 (new_parser (a ∷ rest)) ≡ (new_parser rest, a % 2 ^ 8)
unfolding u8 parse_int check_size
u8-eq a rest = ground arith

pub u16-eq :
    (a b : ℕ) (rest : List ℕ)
    → u16 (new_parser (a ∷ b ∷ rest)) ≡ (new_parser rest, a % 2 ^ 8 * 2 ^ 8 + b % 2 ^ 8)
unfolding u16 parse_int check_size
u16-eq a b rest = ground arith

pub u32-eq :
    (a b c d : ℕ) (rest : List ℕ)
    → u32 (new_parser (a ∷ b ∷ c ∷ d ∷ rest))
      ≡ (new_parser rest, ((a % 2 ^ 8 * 2 ^ 8 + b % 2 ^ 8) * 2 ^ 8 + c % 2 ^ 8) * 2 ^ 8 + d % 2 ^ 8)
unfolding u32 parse_int check_size
u32-eq a b c d rest = ground arith

pub u8-put :
    (a : ℕ)
    → a < 2 ^ 8
    → (rest : List ℕ) → u8 (new_parser (put_u8 [] a ++ rest)) ≡ (new_parser rest, a)
unfolding put_u8
u8-put a h rest =
    u8-eq (a / 2 ^ (0 * 8) % 2 ^ 8) rest ∙ ap (λ v. (new_parser rest, v)) (omega (arith, h))

pub u16-put :
    (a : ℕ)
    → a < 2 ^ 16
    → (rest : List ℕ) → u16 (new_parser (put_u16 [] a ++ rest)) ≡ (new_parser rest, a)
unfolding put_u16
u16-put a h rest =
    u16-eq (a / 2 ^ (1 * 8) % 2 ^ 8) (a / 2 ^ (0 * 8) % 2 ^ 8) rest
    ∙ ap (λ v. (new_parser rest, v)) (omega (arith, h))

pub u32-put :
    (a : ℕ)
    → a < 2 ^ 32
    → (rest : List ℕ) → u32 (new_parser (put_u32 [] a ++ rest)) ≡ (new_parser rest, a)
unfolding put_u32
u32-put a h rest =
    u32-eq (a / 2 ^ (3 * 8) % 2 ^ 8) (a / 2 ^ (2 * 8) % 2 ^ 8) (a / 2 ^ (1 * 8) % 2 ^ 8)
      (a / 2 ^ (0 * 8) % 2 ^ 8) rest
    ∙ ap (λ v. (new_parser rest, v)) (omega (arith, h))

-- With too few bytes left the read gives 0, takes nothing and notes the error; after an error of any
-- kind every further read gives 0 and takes nothing.
pub parse_int_error :
    (len : ℕ) (p : NetParser)
    → (length p.buffer < len) ⊎ (is_error p.error ≡ true)
    → ((parse_int len p).1 ≡ 0)
      × ((parse_int len p).0.buffer ≡ p.buffer)
      × (is_error (parse_int len p).0.error ≡ true)
unfolding parse_int check_size
parse_int_error len p (inl h) = ground (arith, h)
parse_int_error len p (inr h) = ground (arith, h)

-- Without an error, and with enough bytes left, `remove_prefix` takes them.
pub remove_prefix-eq :
    (n : ℕ) (buffer : List ℕ)
    → n ≤ length buffer
    → remove_prefix n (new_parser buffer) ≡ new_parser (drop n buffer)
unfolding remove_prefix check_size
remove_prefix-eq n buffer h = ground (arith, h)
