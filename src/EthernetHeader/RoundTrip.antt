-- ===== src/EthernetHeader/RoundTrip.antt =====
-- An Ethernet frame is read back from its bytes, and what happens to a short one.
use csed353_sponge.Common.{
  ltb, lt→ltb, length, ℕ, ◌^◌, ◌<◌, ◌≡◌, refl, false, List, [], ◌++◌, arith,
}
use csed353_sponge.Parser.{no_error, NetParser, new_parser, u16, put_u8, put_u16}
use csed353_sponge.Parser.RoundTrip.{u16-put}
use csed353_sponge.ArpMessage.{read_address}
use csed353_sponge.ArpMessage.RoundTrip.{IsAddress, wire_address, read_address-wire}
use csed353_sponge.EthernetHeader.{
  EthernetHeader, EthernetFrame, frame_header_length, parse_header, serialize_header, parse_frame,
  serialize_frame,
}

-- The values that the fields can hold.
pub record IsEthernet (h : EthernetHeader) : Type 0 where
  pub dst : IsAddress h.dst
  pub src : IsAddress h.src
  pub type : h.type < 2 ^ 16

abbrev wire : EthernetHeader → List ℕ → List ℕ
wire h rest = wire_address h.dst (wire_address h.src (put_u16 [] h.type ++ rest))

wire-long :
    (h : EthernetHeader) (rest : List ℕ) → ltb (length (wire h rest)) frame_header_length ≡ false
unfolding put_u8 put_u16
wire-long h rest = ground arith

serialize-wire : (h : EthernetHeader) (rest : List ℕ) → serialize_header h ++ rest ≡ wire h rest
unfolding serialize_header put_u8 put_u16
serialize-wire h rest = refl

parse-steps :
    (h g : EthernetHeader) (buffer : List ℕ) (p q r : NetParser)
    → ltb (length buffer) frame_header_length ≡ false
    → read_address (new_parser buffer) ≡ (p, h.dst)
    → read_address p ≡ (q, h.src)
    → u16 q ≡ (r, h.type)
    → parse_header (new_parser buffer) g ≡ (r, h, r.error)
unfolding parse_header
parse-steps h g buffer p q r long a b c = rw (long, a, b, c) refl

-- A frame whose header fields have the widths of the wire is read back from its bytes, payload
-- included, whatever the reader held before.
pub frame_roundtrip :
    (f g : EthernetFrame) → IsEthernet f.header → parse_frame (serialize_frame f) g ≡ (f, no_error)
unfolding parse_frame serialize_frame
frame_roundtrip f g v =
    rw
      (
        serialize-wire f.header f.payload,
        parse-steps f.header g.header (wire f.header f.payload) _ _ (new_parser f.payload)
            (wire-long f.header f.payload) (read_address-wire f.header.dst _ v.dst)
            (read_address-wire f.header.src _ v.src) (u16-put f.header.type v.type f.payload),
      )
      refl

-- A buffer that is too short for a header is taken as a frame without an error: the old header
-- stays, and the buffer becomes the payload.
pub short_frame_accepted :
    (buffer : List ℕ) (g : EthernetFrame)
    → length buffer < frame_header_length
    → parse_frame buffer g ≡ (record { header = g.header; payload = buffer }, no_error)
unfolding parse_frame parse_header
short_frame_accepted buffer g h = rw (lt→ltb (length buffer) frame_header_length h) refl
