-- ===== src/TcpHeader/Wire/RoundTrip.antt =====
-- A TCP header is read back from its bytes.
use csed353_sponge.Common.{
  ltb, if◌then◌else◌, sub64, length, drop, replicate, length-append, length-replicate, take_all, ℕ,
  zero, suc, ◌+◌, ◌-◌, ◌*◌, ◌/◌, ◌%◌, ◌^◌, ◌≤◌, ◌<◌, ◌≡◌, refl, ap, ◌∙◌, Bool, false, some, List,
  [], ◌++◌, arith,
}
use Prim.Native.Nat.{bit_or}
use csed353_sponge.WrappingIntegers.{IsU32}
use csed353_sponge.Parser.{
  no_error, is_error, NetParser, new_parser, u32, u16, u8, remove_prefix, put_u32, put_u16, put_u8,
}
use csed353_sponge.Parser.RoundTrip.{u8-put, u16-put, u32-put, remove_prefix-eq}
use csed353_sponge.TcpHeader.{TcpHeader, header_length}
use csed353_sponge.TcpHeader.Wire.{has_bit, header_of, flags, resize, parse, serialize}

flags_back :
    (u a p r s f : Bool)
    → let b =
        bit_or
          (bit_or
            (bit_or
              (bit_or
                (bit_or (if u then 0x20 else 0) (if a then 0x10 else 0))
                (if p then 0x08 else 0))
              (if r then 0x04 else 0))
            (if s then 0x02 else 0))
          (if f then 0x01 else 0) in
      (b < 2 ^ 8)
      × (has_bit b 0x20 ≡ u)
      × (has_bit b 0x10 ≡ a)
      × (has_bit b 0x08 ≡ p)
      × (has_bit b 0x04 ≡ r)
      × (has_bit b 0x02 ≡ s)
      × (has_bit b 0x01 ≡ f)
flags_back u a p r s f = ground arith

-- The values that the fields can hold, with a data offset that covers the fixed part.
pub record IsHeader (h : TcpHeader) : Type 0 where
  pub sport : h.sport < 2 ^ 16
  pub dport : h.dport < 2 ^ 16
  pub seqno : IsU32 h.seqno
  pub ackno : IsU32 h.ackno
  pub doff : h.doff < 2 ^ 4
  pub covers : 5 ≤ h.doff
  pub win : h.win < 2 ^ 16
  pub cksum : h.cksum < 2 ^ 16
  pub uptr : h.uptr < 2 ^ 16

-- The bytes in the order of the wire, before options.
abbrev pub wire : TcpHeader → List ℕ → List ℕ
wire h rest =
    put_u16 [] h.sport
    ++ (put_u16 [] h.dport
        ++ (put_u32 [] h.seqno.raw_value
            ++ (put_u32 [] h.ackno.raw_value
                ++ (put_u8 [] (h.doff * 2 ^ 4 % 2 ^ 8)
                    ++ (put_u8 [] (flags h)
                        ++ (put_u16 [] h.win
                            ++ (put_u16 [] h.cksum ++ (put_u16 [] h.uptr ++ rest))))))))

-- The reads one after the other, for any parser states between them.
parse-steps :
    (a b c d e f g i j : ℕ) (p p1 p2 p3 p4 p5 p6 p7 p8 p9 q : NetParser)
    → u16 p ≡ (p1, a)
    → u16 p1 ≡ (p2, b)
    → u32 p2 ≡ (p3, c)
    → u32 p3 ≡ (p4, d)
    → u8 p4 ≡ (p5, e)
    → u8 p5 ≡ (p6, f)
    → u16 p6 ≡ (p7, g)
    → u16 p7 ≡ (p8, i)
    → u16 p8 ≡ (p9, j)
    → ltb (e / 2 ^ 4) 5 ≡ false
    → remove_prefix (sub64 (e / 2 ^ 4 * 4) header_length) p9 ≡ q
    → is_error q.error ≡ false
    → parse p ≡ (q, header_of a b c d e f g i j, no_error)
unfolding parse
parse-steps a b c d e f g i j p p1 p2 p3 p4 p5 p6 p7 p8 p9 q ea eb ec ed ee ef eg ei ej long skip
      fine =
    rw (ea, eb, ec, ed, ee, ef, eg, ei, ej, long, skip, fine) refl

header_of-fields :
    (h : TcpHeader)
    → IsHeader h
    → header_of h.sport h.dport h.seqno.raw_value h.ackno.raw_value
        (h.doff * 2 ^ 4 % 2 ^ 8)
        (flags h)
        h.win
        h.cksum
        h.uptr
      ≡ h
header_of-fields h v = ground (arith, flags_back h.urg h.ack h.psh h.rst h.syn h.fin, v.doff)

resize-long : (n : ℕ) (s : List ℕ) → length s ≤ n → resize n s ≡ s ++ replicate (n - length s) 0
resize-long n s h = ap (λ t. t ++ replicate (n - length s) 0) (take_all n s h)

covers-ltb : (doff : ℕ) → 5 ≤ doff → ltb doff 5 ≡ false
covers-ltb doff h = ground (arith, h)

pub serialize-wire :
    (h : TcpHeader)
    → IsHeader h
    → serialize h ≡ some (wire h (replicate (4 * h.doff - header_length) 0))
unfolding serialize put_u8 put_u16 put_u32
serialize-wire h v =
    rw (covers-ltb h.doff v.covers) (ap some (resize-long (4 * h.doff) _ (omega (arith, v.covers))))

pub wire-append : (h : TcpHeader) (pad rest : List ℕ) → wire h pad ++ rest ≡ wire h (pad ++ rest)
unfolding put_u8 put_u16 put_u32
wire-append h pad rest = refl

pub length-wire : (h : TcpHeader) (pad : List ℕ) → length (wire h pad) ≡ 20 + length pad
unfolding put_u8 put_u16 put_u32
length-wire h pad = omega arith

drop-pad : (n : ℕ) (rest : List ℕ) → drop n (replicate n 0 ++ rest) ≡ rest
drop-pad zero rest = refl
drop-pad (suc n) rest = drop-pad n rest

-- The options are skipped.
skip-pad :
    (h : TcpHeader) (rest : List ℕ)
    → IsHeader h
    → remove_prefix
        (sub64 (h.doff * 2 ^ 4 % 2 ^ 8 / 2 ^ 4 * 4) header_length)
        (new_parser (replicate (4 * h.doff - header_length) 0 ++ rest))
      ≡ new_parser rest
skip-pad h rest v =
    let n = 4 * h.doff - header_length in
    let amount : sub64 (h.doff * 2 ^ 4 % 2 ^ 8 / 2 ^ 4 * 4) header_length ≡ n =
      omega (arith, v.doff, v.covers) in
    let pad : List ℕ = replicate n 0 in
    ap (λ k. remove_prefix k (new_parser (pad ++ rest))) amount
    ∙ remove_prefix-eq n (pad ++ rest)
        (omega (arith, length-append pad rest, length-replicate {A = ℕ} n 0))
    ∙ ap new_parser (drop-pad n rest)

pub parse-wire :
    (h : TcpHeader) (rest : List ℕ)
    → IsHeader h
    → parse (new_parser (wire h (replicate (4 * h.doff - header_length) 0 ++ rest)))
      ≡ (new_parser rest, h, no_error)
parse-wire h rest v =
    let end : List ℕ = replicate (4 * h.doff - header_length) 0 ++ rest in
    parse-steps _ _ _ _ _ _ _ _ _ _ _ _ _ _ _ _ _ _ _ (new_parser rest) (u16-put h.sport v.sport _)
      (u16-put h.dport v.dport _) (u32-put h.seqno.raw_value v.seqno _)
      (u32-put h.ackno.raw_value v.ackno _) (u8-put (h.doff * 2 ^ 4 % 2 ^ 8) (omega arith) _)
      (u8-put (flags h) (flags_back h.urg h.ack h.psh h.rst h.syn h.fin).0 _)
      (u16-put h.win v.win _) (u16-put h.cksum v.cksum _) (u16-put h.uptr v.uptr end)
      (covers-ltb (h.doff * 2 ^ 4 % 2 ^ 8 / 2 ^ 4) (omega (arith, v.doff, v.covers)))
      (skip-pad h rest v) refl
    ∙ ap (λ g. (new_parser rest, g, no_error)) (header_of-fields h v)

-- The bytes of a header whose fields have the widths of the wire and whose data offset is at least 5
-- are read back as the header, whatever bytes follow; there are 4 for each unit of the offset.
pub tcp_header_roundtrip :
    (h : TcpHeader) (rest : List ℕ)
    → IsHeader h
    → (bytes : List ℕ) × (serialize h ≡ some bytes)
      × (length bytes ≡ 4 * h.doff)
      × (parse (new_parser (bytes ++ rest)) ≡ (new_parser rest, h, no_error))
tcp_header_roundtrip h rest v =
    let pad : List ℕ = replicate (4 * h.doff - header_length) 0 in
    (
      wire h pad,
      serialize-wire h v,
      omega (
        arith,
        length-wire h pad,
        length-replicate {A = ℕ} (4 * h.doff - header_length) 0,
        v.covers,
      ),
      ap (λ b. parse (new_parser b)) (wire-append h pad rest) ∙ parse-wire h rest v,
    )
