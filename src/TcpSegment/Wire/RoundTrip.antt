-- ===== src/TcpSegment/Wire/RoundTrip.antt =====
-- A TCP segment of libsponge/tcp_helpers/tcp_segment.cc is read back from its bytes.
use csed353_sponge.Common.{
  ◌==◌, length, replicate, length-append, length-replicate, ℕ, ◌+◌, ◌-◌, ◌*◌, ◌/◌, ◌%◌, ◌^◌, ◌<◌,
  ◌≡◌, refl, sym, ap, ap₂, ◌∙◌, subst, true, false, Option, none, some, List, [], ◌∷◌, ◌++◌, arith,
}
use csed353_sponge.Checksum.{new_checksum, add, value}
use csed353_sponge.Checksum.Verify.{parity_after, checksum_verifies, value-fits, add-append}
use csed353_sponge.Parser.{no_error, put_u32, put_u16, put_u8}
use csed353_sponge.TcpHeader.{TcpHeader, header_length}
use csed353_sponge.TcpHeader.Wire
use csed353_sponge.TcpHeader.Wire.{flags}
use csed353_sponge.TcpHeader.Wire.RoundTrip.{
  IsHeader, wire, serialize-wire, wire-append, parse-wire, length-wire,
}
use csed353_sponge.TcpSegment.{TcpSegment}
use csed353_sponge.TcpSegment.Wire.{parse, serialize, with_checksum}

abbrev options : TcpHeader → List ℕ
options h = replicate (4 * h.doff - header_length) 0

-- The bytes before the checksum and behind it.
abbrev before : TcpHeader → List ℕ
before h =
    put_u16 [] h.sport
    ++ (put_u16 [] h.dport
        ++ (put_u32 [] h.seqno.raw_value
            ++ (put_u32 [] h.ackno.raw_value
                ++ (put_u8 [] (h.doff * 2 ^ 4 % 2 ^ 8)
                    ++ (put_u8 [] (flags h) ++ put_u16 [] h.win)))))

abbrev behind : TcpSegment → List ℕ
behind seg = put_u16 [] seg.header.uptr ++ (options seg.header ++ seg.payload)

split-wire :
    (seg : TcpSegment) (c : ℕ)
    → c < 2 ^ 16
    → wire (record seg.header { cksum = c }) (options seg.header ++ seg.payload)
      ≡ before seg.header ++ (c / 2 ^ 8 ∷ c % 2 ^ 8 ∷ behind seg)
unfolding put_u8 put_u16 put_u32
split-wire seg c fits = ap₂ (λ hi lo. before seg.header ++ (hi ∷ lo ∷ behind seg)) upper lower
  where
    upper : c / 2 ^ (1 * 8) % 2 ^ 8 ≡ c / 2 ^ 8
    upper = omega (arith, fits)

    lower : c / 2 ^ (0 * 8) % 2 ^ 8 ≡ c % 2 ^ 8
    lower = omega arith

before-even : (h : TcpHeader) → parity_after false (before h) ≡ false
unfolding put_u8 put_u16 put_u32
before-even h = refl

before-short :
    (seg : TcpSegment)
    → IsHeader seg.header
    → length seg.payload < 2 ^ 14
    → length (before seg.header) + length (behind seg) + 2 < 2 ^ 15
unfolding put_u8 put_u16 put_u32
before-short seg v short = omega (
  arith,
  length-append (options seg.header) seg.payload,
  length-replicate {A = ℕ} (4 * seg.header.doff - header_length) 0,
  v.doff,
  short,
)

with-IsHeader :
    (h : TcpHeader) (c : ℕ) → IsHeader h → c < 2 ^ 16 → IsHeader (record h { cksum = c })
with-IsHeader h c v fits = record {
  sport = v.sport;
  dport = v.dport;
  seqno = v.seqno;
  ackno = v.ackno;
  doff = v.doff;
  covers = v.covers;
  win = v.win;
  cksum = fits;
  uptr = v.uptr;
}

abbrev bytes_with : TcpSegment → ℕ → List ℕ
bytes_with seg c = wire (record seg.header { cksum = c }) (options seg.header ++ seg.payload)

abbrev checksum_of : TcpSegment → ℕ → ℕ
checksum_of seg initial = value (
    add seg.payload
      (add (wire (record seg.header { cksum = 0 }) (options seg.header)) (new_checksum initial)))

segment-sum :
    (seg : TcpSegment) (initial : ℕ)
    → IsHeader seg.header
    → length seg.payload < 2 ^ 14
    → initial < 2 ^ 30
    → value (add (bytes_with seg (checksum_of seg initial)) (new_checksum initial)) ≡ 0
segment-sum seg initial v short small =
    let c = checksum_of seg initial in
    let sum : List ℕ → ℕ = λ bytes. value (add bytes (new_checksum initial)) in
    let zero_wire = wire (record seg.header { cksum = 0 }) (options seg.header) in
    let same : sum (before seg.header ++ (0 ∷ 0 ∷ behind seg)) ≡ c =
      ap sum (
        sym (split-wire seg 0 (omega arith))
        ∙ sym (wire-append (record seg.header { cksum = 0 }) (options seg.header) seg.payload))
      ∙ ap value (add-append zero_wire seg.payload (new_checksum initial)) in
    ap sum (split-wire seg c (value-fits (add seg.payload (add zero_wire (new_checksum initial)))))
    ∙ subst (λ w. sum (before seg.header ++ (w / 2 ^ 8 ∷ w % 2 ^ 8 ∷ behind seg)) ≡ 0) same
        (checksum_verifies (before seg.header) (behind seg) initial (before-even seg.header)
          (before-short seg v short) small)

serialize-steps :
    (seg : TcpSegment) (initial : ℕ) (zero_checksum header : List ℕ)
    → Wire.serialize (record seg.header { cksum = 0 }) ≡ some zero_checksum
    → Wire.serialize (with_checksum seg zero_checksum initial) ≡ some header
    → serialize seg initial ≡ some (header ++ seg.payload)
unfolding serialize
serialize-steps seg initial zero_checksum header first second =
    ap
      (λ o. elim o as (λ _. Option (List ℕ)) [
        | none ↦ none
        | some bytes ↦ elim (Wire.serialize (with_checksum seg bytes initial)) [
          | none ↦ none
          | some h ↦ some (h ++ seg.payload)
        ]
      ])
      first
    ∙ ap (λ o. elim o as (λ _. Option (List ℕ)) [ none ↦ none | some h ↦ some (h ++ seg.payload) ])
        second

-- A segment whose header fields have the widths of the wire and whose data offset is at least 5, with
-- fewer than 2^14 bytes of payload, is written, to 4 bytes for each unit of the offset and the
-- payload, and is read back from its bytes without an error, with its checksum put in, whatever the
-- reader held before and whatever the lower layer adds to the checksum, if both sides add the same
-- and it is less than 2^30.
pub segment_roundtrip :
    (seg old : TcpSegment) (initial : ℕ)
    → IsHeader seg.header
    → length seg.payload < 2 ^ 14
    → initial < 2 ^ 30
    → (bytes : List ℕ) × (c : ℕ) × (serialize seg initial ≡ some bytes)
      × (length bytes ≡ 4 * seg.header.doff + length seg.payload)
      × (parse bytes initial old
          ≡ (record { header = record seg.header { cksum = c }; payload = seg.payload }, no_error))
unfolding parse
segment_roundtrip seg old initial v short small =
    let h = seg.header in
    let c = checksum_of seg initial in
    let unsummed : TcpHeader = record h { cksum = 0 } in
    let fits =
      value-fits (add seg.payload (add (wire unsummed (options h)) (new_checksum initial))) in
    let sent : TcpHeader = record h { cksum = c } in
    let valid = with-IsHeader h c v fits in
    let joined = wire-append sent (options h) seg.payload in
    let sum : (value (add (bytes_with seg c) (new_checksum initial)) == 0) ≡ true =
      ap (λ n. n == 0) (segment-sum seg initial v short small) in
    (
      wire sent (options h) ++ seg.payload,
      c,
      serialize-steps seg initial _ _ (serialize-wire unsummed (with-IsHeader h 0 v (omega arith)))
          (serialize-wire sent valid),
      omega (
        arith,
        length-append (wire sent (options h)) seg.payload,
        length-wire sent (options h),
        length-replicate {A = ℕ} (4 * h.doff - header_length) 0,
        v.covers,
      ),
      rw (joined, sum, parse-wire sent seg.payload valid, parse) refl,
    )
