-- ===== src/Ipv4/Header.antt =====
-- The bytes of an IPv4 header of libsponge/tcp_helpers/ipv4_header.cc, and the fields in them.
use csed353_sponge.Common.{
  ltb, ◌==◌, if◌then◌else◌, to_ℕ, length, take, replicate, take_all, bit_or-shift, ℕ, ◌+◌, ◌-◌, ◌*◌,
  ◌%◌, ◌^◌, ◌≤◌, ◌<◌, ◌≡◌, refl, ap, ap₂, ◌∙◌, Bool, true, false, some, List, [], ◌++◌, arith,
}
use Prim.Native.Nat.{bit_or}
use csed353_sponge.Parser.{put_u32, put_u16, put_u8}
use csed353_sponge.Ipv4.{
  Ipv4Header, ip_header_length, header_of, first_byte, fo_val, serialize_header,
}

-- The values that the fields can hold, in version 4, with a length that covers the fixed part.
pub record IsHeader (h : Ipv4Header) : Type 0 where
  pub ver : h.ver ≡ 4
  pub hlen : h.hlen < 2 ^ 4
  pub covers : 5 ≤ h.hlen
  pub tos : h.tos < 2 ^ 8
  pub len : h.len < 2 ^ 16
  pub id : h.id < 2 ^ 16
  pub offset : h.offset < 2 ^ 13
  pub ttl : h.ttl < 2 ^ 8
  pub proto : h.proto < 2 ^ 8
  pub cksum : h.cksum < 2 ^ 16
  pub src : h.src < 2 ^ 32
  pub dst : h.dst < 2 ^ 32

first_byte-eq : (h : Ipv4Header) → IsHeader h → first_byte h ≡ 64 + h.hlen
first_byte-eq h v =
    omega (arith, bit_or-shift 4 h.ver (h.hlen % 2 ^ 4) (omega arith), v.ver, v.hlen)

fo_val-eq :
    (h : Ipv4Header) → IsHeader h → fo_val h ≡ (to_ℕ h.df * 2 + to_ℕ h.mf) * 2 ^ 13 + h.offset
fo_val-eq h v =
    ap (λ a. bit_or a (h.offset % 2 ^ 13)) (flags h.df h.mf)
    ∙ bit_or-shift 13 (to_ℕ h.df * 2 + to_ℕ h.mf) (h.offset % 2 ^ 13) (omega arith)
    ∙ omega (arith, v.offset)
  where
    flags :
        (df mf : Bool)
        → bit_or (if df then 0x4000 else 0) (if mf then 0x2000 else 0)
          ≡ (to_ℕ df * 2 + to_ℕ mf) * 2 ^ 13
    flags df mf = ground arith

pub header_of-fields :
    (h : Ipv4Header)
    → IsHeader h
    → header_of (first_byte h) h.tos h.len h.id (fo_val h) h.ttl h.proto h.cksum h.src h.dst ≡ h
header_of-fields h v =
    ap₂ (λ a b. header_of a h.tos h.len h.id b h.ttl h.proto h.cksum h.src h.dst)
      (first_byte-eq h v) (fo_val-eq h v)
    ∙ ground (arith, v.ver, v.hlen, v.offset)

pub first_byte-fits : (h : Ipv4Header) → first_byte h < 2 ^ 8
first_byte-fits h = omega arith

pub fo_val-fits : (h : Ipv4Header) → IsHeader h → fo_val h < 2 ^ 16
fo_val-fits h v = ground (arith, fo_val-eq h v, v.offset)

-- The bytes in the order of the wire, before options.
abbrev pub wire : Ipv4Header → List ℕ → List ℕ
wire h rest =
    put_u8 [] (first_byte h)
    ++ (put_u8 [] h.tos
        ++ (put_u16 [] h.len
            ++ (put_u16 [] h.id
                ++ (put_u16 [] (fo_val h)
                    ++ (put_u8 [] h.ttl
                        ++ (put_u8 [] h.proto
                            ++ (put_u16 [] h.cksum
                                ++ (put_u32 [] h.src ++ (put_u32 [] h.dst ++ rest)))))))))

abbrev pub options : Ipv4Header → List ℕ
options h = replicate (4 * h.hlen - ip_header_length) 0

resize-long :
    (n : ℕ) (s : List ℕ)
    → length s ≤ n
    → take n s ++ replicate (n - length s) 0 ≡ s ++ replicate (n - length s) 0
resize-long n s h = ap (λ t. t ++ replicate (n - length s) 0) (take_all n s h)

pub serialize-wire : (h : Ipv4Header) → IsHeader h → serialize_header h ≡ some (wire h (options h))
unfolding serialize_header put_u8 put_u16 put_u32
serialize-wire h v =
    rw (version h.ver v.ver, long h.hlen v.covers)
      (ap some (resize-long (4 * h.hlen) _ (omega (arith, v.covers))))
  where
    version : (ver : ℕ) → ver ≡ 4 → (ver == 4) ≡ true
    version ver e = ground (arith, e)

    long : (hlen : ℕ) → 5 ≤ hlen → ltb (4 * hlen) ip_header_length ≡ false
    long hlen h = ground (arith, h)

pub wire-append : (h : Ipv4Header) (xs ys : List ℕ) → wire h xs ++ ys ≡ wire h (xs ++ ys)
unfolding put_u8 put_u16 put_u32
wire-append h xs ys = refl

pub length-wire : (h : Ipv4Header) (rest : List ℕ) → length (wire h rest) ≡ 20 + length rest
unfolding put_u8 put_u16 put_u32
length-wire h rest = omega arith
