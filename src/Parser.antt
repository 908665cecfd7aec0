-- ===== src/Parser.antt =====
-- libsponge/util/parser.hh and parser.cc: integers in network byte order.
pub mod RoundTrip
use csed353_sponge.Common.{
  ltb, if◌then◌else◌, length, take, drop, ℕ, zero, suc, ◌+◌, ◌*◌, ◌/◌, ◌%◌, ◌^◌, Bool, true, false,
  List, [], ◌∷◌, ◌++◌,
}

pub data ParseResult : Type 0 where
  no_error : ParseResult
  bad_checksum : ParseResult
  packet_too_short : ParseResult
  wrong_ip_version : ParseResult
  header_too_short : ParseResult
  truncated_packet : ParseResult
  unsupported : ParseResult

-- `error`, without the call of `get_error`.
abbrev pub is_error : ParseResult → Bool
is_error no_error = false
is_error _ = true

pub record NetParser : Type 0 where
  pub buffer : List ℕ
  pub error : ParseResult

abbrev pub new_parser : List ℕ → NetParser
new_parser buffer = record { buffer = buffer; error = no_error }

pub check_size : ℕ → NetParser → NetParser
check_size size p = if ltb (length p.buffer) size then record p { error = packet_too_short } else p

-- The loop of `_parse_int` over the bytes of an integer of `width` bits.
abbrev pub accumulate : ℕ → List ℕ → ℕ → ℕ
accumulate width [] ret = ret
accumulate width (byte ∷ bytes) ret =
    accumulate width bytes ((ret * 2 ^ 8 % 2 ^ width + byte % 2 ^ 8) % 2 ^ width)

pub parse_int : ℕ → NetParser → NetParser × ℕ
parse_int len p =
    let checked = check_size len p in
    if is_error checked.error then (checked, 0) else (
      record checked { buffer = drop len checked.buffer },
      accumulate (8 * len) (take len checked.buffer) 0,
    )

pub u32 : NetParser → NetParser × ℕ
u32 p = parse_int 4 p

pub u16 : NetParser → NetParser × ℕ
u16 p = parse_int 2 p

pub u8 : NetParser → NetParser × ℕ
u8 p = parse_int 1 p

pub remove_prefix : ℕ → NetParser → NetParser
remove_prefix n p =
    let checked = check_size n p in
    if is_error checked.error then checked else record checked { buffer = drop n checked.buffer }

-- The loop of `_unparse_int`, on the bytes that are left.
abbrev pub unparse_bytes : ℕ → ℕ → List ℕ
unparse_bytes zero val = []
unparse_bytes (suc left) val = val / 2 ^ (left * 8) % 2 ^ 8 ∷ unparse_bytes left val

unfoldable pub put_u32 : List ℕ → ℕ → List ℕ
put_u32 s val = s ++ unparse_bytes 4 val

unfoldable pub put_u16 : List ℕ → ℕ → List ℕ
put_u16 s val = s ++ unparse_bytes 2 val

unfoldable pub put_u8 : List ℕ → ℕ → List ℕ
put_u8 s val = s ++ unparse_bytes 1 val
