-- ===== src/Ipv4/RoundTrip.antt =====
-- An IPv4 datagram of libsponge/tcp_helpers/ipv4_datagram.cc is read back from its bytes, with the
-- checksum that was put in.
use csed353_sponge.Common.{
  ltb, ◌==◌, sub64, length, take, drop, replicate, length-append, length-replicate, take_all,
  take-append_le, ℕ, zero, suc, ◌+◌, ◌-◌, ◌*◌, ◌/◌, ◌%◌, ◌^◌, ◌<◌, ◌≡◌, refl, sym, ap, ap₂, ◌∙◌,
  subst, true, false, some, List, [], ◌∷◌, ◌++◌, arith,
}
use csed353_sponge.Checksum.{new_checksum, add, value}
use csed353_sponge.Checksum.Verify.{parity_after, checksum_verifies, value-fits}
use csed353_sponge.Parser.{
  no_error, is_error, NetParser, new_parser, u32, u16, u8, remove_prefix, put_u32, put_u16, put_u8,
}
use csed353_sponge.Parser.RoundTrip.{u8-put, u16-put, u32-put, remove_prefix-eq}
use csed353_sponge.Ipv4.{
  Ipv4Header, Ipv4Datagram, ip_header_length, header_of, verifies, parse_header, first_byte, fo_val,
  payload_length, parse_datagram, serialize_datagram,
}
use csed353_sponge.Ipv4.Header.{
  IsHeader, header_of-fields, first_byte-fits, fo_val-fits, wire, options, serialize-wire,
  wire-append, length-wire,
}

-- The tests of `parse_header`, once `p` is left to read and `q` behind the options.
record Passes (buffer : List ℕ) (p q : NetParser) (h : Ipv4Header) : Type 0 where
  whole : ltb (length buffer) ip_header_length ≡ false
  covered : ltb (length buffer) (4 * h.hlen) ≡ false
  version : (h.ver == 4) ≡ true
  long : ltb h.hlen 5 ≡ false
  size : (length buffer == h.len) ≡ true
  skip : remove_prefix (sub64 (h.hlen * 4) ip_header_length) p ≡ q
  fine : is_error q.error ≡ false
  sum : verifies buffer h ≡ true

-- The reads one after the other, for any parser states between them.
parse-steps :
    (a b c d e f g i j k : ℕ) (old : Ipv4Header) (buffer : List ℕ)
    (p1 p2 p3 p4 p5 p6 p7 p8 p9 p10 q : NetParser)
    → u8 (new_parser buffer) ≡ (p1, a)
    → u8 p1 ≡ (p2, b)
    → u16 p2 ≡ (p3, c)
    → u16 p3 ≡ (p4, d)
    → u16 p4 ≡ (p5, e)
    → u8 p5 ≡ (p6, f)
    → u8 p6 ≡ (p7, g)
    → u16 p7 ≡ (p8, i)
    → u32 p8 ≡ (p9, j)
    → u32 p9 ≡ (p10, k)
    → Passes buffer p10 q (header_of a b c d e f g i j k)
    → parse_header (new_parser buffer) old ≡ (q, header_of a b c d e f g i j k, no_error)
unfolding parse_header
parse-steps a b c d e f g i j k old buffer p1 p2 p3 p4 p5 p6 p7 p8 p9 p10 q ea eb ec ed ee ef eg ei
      ej ek t =
    rw (ea, eb, ec, ed, ee, ef, eg, ei, ej, ek)
      (rw (t.whole, t.covered, t.version, t.long, t.size, t.skip, t.fine, t.sum) refl)

drop-pad : (n : ℕ) (rest : List ℕ) → drop n (replicate n 0 ++ rest) ≡ rest
drop-pad zero rest = refl
drop-pad (suc n) rest = drop-pad n rest

-- The options are skipped.
skip-options :
    (h : Ipv4Header) (rest : List ℕ)
    → IsHeader h
    → remove_prefix (sub64 (h.hlen * 4) ip_header_length) (new_parser (options h ++ rest))
      ≡ new_parser rest
skip-options h rest v =
    let n = 4 * h.hlen - ip_header_length in
    let amount : sub64 (h.hlen * 4) ip_header_length ≡ n = omega (arith, v.hlen, v.covers) in
    ap (λ k. remove_prefix k (new_parser (options h ++ rest))) amount
    ∙ remove_prefix-eq n (options h ++ rest)
        (omega (arith, length-append (options h) rest, length-replicate {A = ℕ} n 0))
    ∙ ap new_parser (drop-pad n rest)

parse-wire :
    (h old : Ipv4Header) (rest : List ℕ)
    → IsHeader h
    → 4 * h.hlen + length rest ≡ h.len
    → verifies (wire h (options h ++ rest)) h ≡ true
    → parse_header (new_parser (wire h (options h ++ rest))) old ≡ (new_parser rest, h, no_error)
parse-wire h old rest v size sum =
    let buffer = wire h (options h ++ rest) in
    let total : length buffer ≡ h.len = omega (
      arith,
      length-wire h (options h ++ rest),
      length-append (options h) rest,
      length-replicate {A = ℕ} (4 * h.hlen - ip_header_length) 0,
      size,
      v.covers,
    ) in
    let passes : Passes buffer (new_parser (options h ++ rest)) (new_parser rest) h = record {
      whole = ground (arith, total, size, v.covers);
      covered = ground (arith, total, size);
      version = ground (arith, v.ver);
      long = ground (arith, v.covers);
      size = ground (arith, total);
      skip = skip-options h rest v;
      fine = refl;
      sum = sum;
    } in
    parse-steps _ _ _ _ _ _ _ _ _ _ old buffer _ _ _ _ _ _ _ _ _ (new_parser (options h ++ rest))
      (new_parser rest) (u8-put (first_byte h) (first_byte-fits h) _) (u8-put h.tos v.tos _)
      (u16-put h.len v.len _) (u16-put h.id v.id _) (u16-put (fo_val h) (fo_val-fits h v) _)
      (u8-put h.ttl v.ttl _) (u8-put h.proto v.proto _) (u16-put h.cksum v.cksum _)
      (u32-put h.src v.src _) (u32-put h.dst v.dst (options h ++ rest))
      (subst (Passes buffer (new_parser (options h ++ rest)) (new_parser rest))
        (sym (header_of-fields h v)) passes)
    ∙ ap (λ g. (new_parser rest, g, no_error)) (header_of-fields h v)

-- The checksum covers exactly the header.
take-wire :
    (h : Ipv4Header) (rest : List ℕ)
    → IsHeader h
    → take (4 * h.hlen) (wire h (options h ++ rest)) ≡ wire h (options h)
take-wire h rest v =
    let bytes = wire h (options h) in
    let size : length bytes ≡ 4 * h.hlen = omega (
      arith,
      length-wire h (options h),
      length-replicate {A = ℕ} (4 * h.hlen - ip_header_length) 0,
      v.covers,
    ) in
    ap (take (4 * h.hlen)) (sym (wire-append h (options h) rest))
    ∙ take-append_le (4 * h.hlen) bytes rest (omega (arith, size))
    ∙ take_all (4 * h.hlen) bytes (omega (arith, size))

-- The bytes before the checksum and behind it.
abbrev before : Ipv4Header → List ℕ
before h =
    put_u8 [] (first_byte h)
    ++ (put_u8 [] h.tos
        ++ (put_u16 [] h.len
            ++ (put_u16 [] h.id
                ++ (put_u16 [] (fo_val h) ++ (put_u8 [] h.ttl ++ put_u8 [] h.proto)))))

abbrev behind : Ipv4Header → List ℕ
behind h = put_u32 [] h.src ++ (put_u32 [] h.dst ++ options h)

split-wire :
    (h : Ipv4Header) (c : ℕ)
    → c < 2 ^ 16
    → wire (record h { cksum = c }) (options h) ≡ before h ++ (c / 2 ^ 8 ∷ c % 2 ^ 8 ∷ behind h)
unfolding put_u8 put_u16 put_u32
split-wire h c fits = ap₂ (λ hi lo. before h ++ (hi ∷ lo ∷ behind h)) upper lower
  where
    upper : c / 2 ^ (1 * 8) % 2 ^ 8 ≡ c / 2 ^ 8
    upper = omega (arith, fits)

    lower : c / 2 ^ (0 * 8) % 2 ^ 8 ≡ c % 2 ^ 8
    lower = omega arith

before-even : (h : Ipv4Header) → parity_after false (before h) ≡ false
unfolding put_u8 put_u16 put_u32
before-even h = refl

before-short : (h : Ipv4Header) → IsHeader h → length (before h) + length (behind h) + 2 < 2 ^ 15
unfolding put_u8 put_u16 put_u32
before-short h v = omega (arith, length-replicate {A = ℕ} (4 * h.hlen - ip_header_length) 0, v.hlen)

abbrev checksum_of : Ipv4Header → ℕ
checksum_of h = value (add (wire (record h { cksum = 0 }) (options h)) (new_checksum 0))

header-sum :
    (h : Ipv4Header)
    → IsHeader h
    → value (add (wire (record h { cksum = checksum_of h }) (options h)) (new_checksum 0)) ≡ 0
header-sum h v =
    let c = checksum_of h in
    let sum : List ℕ → ℕ = λ bytes. value (add bytes (new_checksum 0)) in
    let same : sum (before h ++ (0 ∷ 0 ∷ behind h)) ≡ c =
      ap sum (sym (split-wire h 0 (omega arith))) in
    ap sum (
      split-wire h c
        (value-fits (add (wire (record h { cksum = 0 }) (options h)) (new_checksum 0))))
    ∙ subst (λ w. sum (before h ++ (w / 2 ^ 8 ∷ w % 2 ^ 8 ∷ behind h)) ≡ 0) same
        (checksum_verifies (before h) (behind h) 0 (before-even h) (before-short h v) (omega arith))

with-IsHeader :
    (h : Ipv4Header) (c : ℕ) → IsHeader h → c < 2 ^ 16 → IsHeader (record h { cksum = c })
with-IsHeader h c v fits = record {
  ver = v.ver;
  hlen = v.hlen;
  covers = v.covers;
  tos = v.tos;
  len = v.len;
  id = v.id;
  offset = v.offset;
  ttl = v.ttl;
  proto = v.proto;
  cksum = fits;
  src = v.src;
  dst = v.dst;
}

-- A datagram of version 4 whose fields have the widths of the wire, and whose length is that of its
-- header and payload, is written, and is read back from its bytes without an error, with the
-- checksum of its header put in, whatever the reader held before.
pub datagram_roundtrip :
    (d old : Ipv4Datagram)
    → IsHeader d.header
    → 4 * d.header.hlen + length d.payload ≡ d.header.len
    → (bytes : List ℕ) × (c : ℕ) × (serialize_datagram d ≡ some bytes)
      × (parse_datagram bytes old
          ≡ (record { header = record d.header { cksum = c }; payload = d.payload }, no_error))
unfolding serialize_datagram parse_datagram
datagram_roundtrip d old v size =
    let h = d.header in
    let c = checksum_of h in
    let fits = value-fits (add (wire (record h { cksum = 0 }) (options h)) (new_checksum 0)) in
    let zero_valid = with-IsHeader h 0 v (omega arith) in
    let valid = with-IsHeader h c v fits in
    let sent : Ipv4Header = record h { cksum = c } in
    let sum : verifies (wire sent (options h ++ d.payload)) sent ≡ true =
      ap (λ bytes. value (add bytes (new_checksum 0)) == 0) (take-wire sent d.payload valid)
      ∙ ap (λ n. n == 0) (header-sum h v) in
    let payload_size : (length d.payload == payload_length h) ≡ true =
      ground (arith, size, v.len, v.hlen) in
    let read = parse-wire sent old.header d.payload valid size sum in
    (
      wire sent (options h) ++ d.payload,
      c,
      rw
          (
            payload_size,
            serialize-wire (record h { cksum = 0 }) zero_valid,
            serialize-wire sent valid,
          )
          refl,
      rw (wire-append sent (options h) d.payload, read, payload_size) refl,
    )
