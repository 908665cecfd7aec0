-- ===== src/ArpMessage/RoundTrip.antt =====
-- A supported ARP message is read back from its bytes.
use csed353_sponge.Common.{
  ltb, length, ℕ, ◌^◌, ◌<◌, ◌≡◌, refl, ap, ◌∙◌, true, false, none, some, List, [], ◌++◌, arith,
}
use csed353_sponge.Parser.{no_error, NetParser, new_parser, u32, u16, u8, put_u32, put_u16, put_u8}
use csed353_sponge.Parser.RoundTrip.{u8-put, u16-put, u32-put}
use csed353_sponge.ArpMessage.{
  EthernetAddress, ArpMessage, message_length, supported, read_address, read_fixed, read_addresses,
  parse, serialize,
}

-- The values that the fields can hold.
pub record IsAddress (a : EthernetAddress) : Type 0 where
  pub fits_0 : a.byte_0 < 2 ^ 8
  pub fits_1 : a.byte_1 < 2 ^ 8
  pub fits_2 : a.byte_2 < 2 ^ 8
  pub fits_3 : a.byte_3 < 2 ^ 8
  pub fits_4 : a.byte_4 < 2 ^ 8
  pub fits_5 : a.byte_5 < 2 ^ 8

pub record IsMessage (m : ArpMessage) : Type 0 where
  pub hardware : m.hardware_type < 2 ^ 16
  pub protocol : m.protocol_type < 2 ^ 16
  pub hardware_size : m.hardware_address_size < 2 ^ 8
  pub protocol_size : m.protocol_address_size < 2 ^ 8
  pub opcode : m.opcode < 2 ^ 16
  pub sender : IsAddress m.sender_ethernet_address
  pub sender_ip : m.sender_ip_address < 2 ^ 32
  pub target : IsAddress m.target_ethernet_address
  pub target_ip : m.target_ip_address < 2 ^ 32

-- The bytes in the order of the wire.
abbrev pub wire_address : EthernetAddress → List ℕ → List ℕ
wire_address a rest =
    put_u8 [] a.byte_0
    ++ (put_u8 [] a.byte_1
        ++ (put_u8 [] a.byte_2
            ++ (put_u8 [] a.byte_3 ++ (put_u8 [] a.byte_4 ++ (put_u8 [] a.byte_5 ++ rest)))))

abbrev wire_addresses : ArpMessage → List ℕ → List ℕ
wire_addresses m rest = wire_address m.sender_ethernet_address (
    put_u32 [] m.sender_ip_address
    ++ wire_address m.target_ethernet_address (put_u32 [] m.target_ip_address ++ rest))

abbrev pub wire : ArpMessage → List ℕ → List ℕ
wire m rest =
    put_u16 [] m.hardware_type
    ++ (put_u16 [] m.protocol_type
        ++ (put_u8 [] m.hardware_address_size
            ++ (put_u8 [] m.protocol_address_size
                ++ (put_u16 [] m.opcode ++ wire_addresses m rest))))

-- The reads one after the other, for any parser states between them.
read_address-steps :
    (a : EthernetAddress) (p p1 p2 p3 p4 p5 p6 : NetParser)
    → u8 p ≡ (p1, a.byte_0)
    → u8 p1 ≡ (p2, a.byte_1)
    → u8 p2 ≡ (p3, a.byte_2)
    → u8 p3 ≡ (p4, a.byte_3)
    → u8 p4 ≡ (p5, a.byte_4)
    → u8 p5 ≡ (p6, a.byte_5)
    → read_address p ≡ (p6, a)
unfolding read_address
read_address-steps a p p1 p2 p3 p4 p5 p6 e0 e1 e2 e3 e4 e5 = rw (e0, e1, e2, e3, e4, e5) refl

read_addresses-steps :
    (m n : ArpMessage) (p p1 p2 p3 p4 : NetParser)
    → read_address p ≡ (p1, m.sender_ethernet_address)
    → u32 p1 ≡ (p2, m.sender_ip_address)
    → read_address p2 ≡ (p3, m.target_ethernet_address)
    → u32 p3 ≡ (p4, m.target_ip_address)
    → read_addresses p n ≡ (
      p4,
      record n {
        sender_ethernet_address = m.sender_ethernet_address;
        sender_ip_address = m.sender_ip_address;
        target_ethernet_address = m.target_ethernet_address;
        target_ip_address = m.target_ip_address;
      },
    )
unfolding read_addresses
read_addresses-steps m n p p1 p2 p3 p4 e0 e1 e2 e3 = rw (e0, e1, e2, e3) refl

read_fixed-steps :
    (m n : ArpMessage) (p p1 p2 p3 p4 p5 : NetParser)
    → u16 p ≡ (p1, m.hardware_type)
    → u16 p1 ≡ (p2, m.protocol_type)
    → u8 p2 ≡ (p3, m.hardware_address_size)
    → u8 p3 ≡ (p4, m.protocol_address_size)
    → u16 p4 ≡ (p5, m.opcode)
    → read_fixed p n ≡ (
      p5,
      record n {
        hardware_type = m.hardware_type;
        protocol_type = m.protocol_type;
        hardware_address_size = m.hardware_address_size;
        protocol_address_size = m.protocol_address_size;
        opcode = m.opcode;
      },
    )
unfolding read_fixed
read_fixed-steps m n p p1 p2 p3 p4 p5 e0 e1 e2 e3 e4 = rw (e0, e1, e2, e3, e4) refl

pub read_address-wire :
    (a : EthernetAddress) (rest : List ℕ)
    → IsAddress a
    → read_address (new_parser (wire_address a rest)) ≡ (new_parser rest, a)
read_address-wire a rest h =
    read_address-steps a _ _ _ _ _ _ _ (u8-put a.byte_0 h.fits_0 _) (u8-put a.byte_1 h.fits_1 _)
      (u8-put a.byte_2 h.fits_2 _) (u8-put a.byte_3 h.fits_3 _) (u8-put a.byte_4 h.fits_4 _)
      (u8-put a.byte_5 h.fits_5 rest)

wire-long : (m : ArpMessage) (rest : List ℕ) → ltb (length (wire m rest)) message_length ≡ false
unfolding put_u8 put_u16 put_u32
wire-long m rest = ground arith

wire-length : (m : ArpMessage) → length (wire m []) ≡ message_length
unfolding put_u8 put_u16 put_u32
wire-length m = omega arith

-- A long enough buffer with a supported message, for any parser states between the reads.
parse-steps :
    (m n fixed : ArpMessage) (buffer : List ℕ) (p q : NetParser)
    → ltb (length buffer) message_length ≡ false
    → read_fixed (new_parser buffer) n ≡ (p, fixed)
    → supported fixed ≡ true
    → read_addresses p fixed ≡ (q, m)
    → q.error ≡ no_error
    → parse buffer n ≡ (m, no_error)
unfolding parse
parse-steps m n fixed buffer p q long first ok second fine = rw (long, first, ok, second, fine) refl

pub parse-wire :
    (m n : ArpMessage) (rest : List ℕ)
    → IsMessage m
    → supported m ≡ true
    → parse (wire m rest) n ≡ (m, no_error)
parse-wire m n rest h e =
    parse-steps m n _ (wire m rest) _ (new_parser rest) (wire-long m rest)
      (read_fixed-steps m n _ _ _ _ _ _ (u16-put m.hardware_type h.hardware _)
        (u16-put m.protocol_type h.protocol _) (u8-put m.hardware_address_size h.hardware_size _)
        (u8-put m.protocol_address_size h.protocol_size _)
        (u16-put m.opcode h.opcode (wire_addresses m rest)))
      e
      (read_addresses-steps m _ _ _ _ _ _ (read_address-wire m.sender_ethernet_address _ h.sender)
        (u32-put m.sender_ip_address h.sender_ip _)
        (read_address-wire m.target_ethernet_address _ h.target)
        (u32-put m.target_ip_address h.target_ip rest))
      refl

pub serialize-wire : (m : ArpMessage) → supported m ≡ true → serialize m ≡ some (wire m [])
unfolding serialize put_u8 put_u16 put_u32
serialize-wire m e = rw e refl

wire-append : (m : ArpMessage) (rest : List ℕ) → wire m [] ++ rest ≡ wire m rest
unfolding put_u8 put_u16 put_u32
wire-append m rest = refl

-- The bytes of a supported message, whose fields have the widths of the wire, are read back as the
-- message, whatever the reader held before and whatever bytes follow; there are 28 of them.
pub arp_roundtrip :
    (m n : ArpMessage) (rest : List ℕ)
    → IsMessage m
    → supported m ≡ true
    → (bytes : List ℕ) × (serialize m ≡ some bytes)
      × (length bytes ≡ message_length)
      × (parse (bytes ++ rest) n ≡ (m, no_error))
arp_roundtrip m n rest h e = (
  wire m [],
  serialize-wire m e,
  wire-length m,
  ap (λ b. parse b n) (wire-append m rest) ∙ parse-wire m n rest h e,
)

-- A message that is not supported is not written.
pub serialize_unsupported : (m : ArpMessage) → supported m ≡ false → serialize m ≡ none
unfolding serialize
serialize_unsupported m e = rw e refl
