-- ===== src/Wire.antt =====
-- NightNetwork/src/Protocol.h and the header codec of NightNetwork/src/TransportDetail.h: the eight
-- bytes [magic(2)][version][flags][payload size(4), big endian] in front of every payload.
pub mod Bytes
pub mod Decode
pub mod Roundtrip
use Prim.Native.Nat.{bit_and, bit_or}
use project_night.Prelude.{
  ℕ, zero, suc, ◌-◌, ◌*◌, ◌/◌, ◌%◌, ◌^◌, Bool, true, false, not, List, [], ◌∷◌, ltb, ◌==◌,
  if◌then◌else◌, get_or,
}

-- Byte strings: std::vector<uint8_t>, std::string and std::span<const uint8_t>.
abbrev pub Bytes : Type 0
Bytes = List ℕ

abbrev pub magic : ℕ
magic = 0x4E4E

abbrev pub version : ℕ
version = 1

abbrev pub flag_keepalive : ℕ
flag_keepalive = 0x01

abbrev known_flags_mask : ℕ
known_flags_mask = flag_keepalive

abbrev pub header_size : ℕ
header_size = 8

abbrev pub max_payload_size : ℕ
max_payload_size = 2048

-- Seconds.
abbrev heartbeat_interval : ℕ
heartbeat_interval = 5

abbrev pub heartbeat_timeout : ℕ
heartbeat_timeout = 15

pub record Header : Type 0 where
  pub magic : ℕ
  pub version : ℕ
  pub flags : ℕ
  pub payload_size : ℕ

unfoldable pub is_keepalive : Header → Bool
is_keepalive h = not (bit_and h.flags flag_keepalive == 0)

pub data HeaderDecodeError : Type 0 where
  invalid_magic unsupported_version invalid_flags invalid_payload_size : HeaderDecodeError

-- std::expected<Header, HeaderDecodeError>.
pub data Decoded : Type 0 where
  header : Header → Decoded
  unexpected : HeaderDecodeError → Decoded

-- The byte at an offset of the array that a pointer points to.
abbrev pub byte : Bytes → ℕ → ℕ
byte p i = get_or p i 0

unfoldable pub read_u16_be : ℕ → ℕ → ℕ
read_u16_be p0 p1 = bit_or (p0 * 2 ^ 8) p1 % 2 ^ 16

-- `uint32_t` shifts drop what passes bit 31.
unfoldable pub read_u32_be : ℕ → ℕ → ℕ → ℕ → ℕ
read_u32_be p0 p1 p2 p3 =
    bit_or (bit_or (bit_or (p0 * 2 ^ 24 % 2 ^ 32) (p1 * 2 ^ 16 % 2 ^ 32)) (p2 * 2 ^ 8 % 2 ^ 32)) p3

-- `output[i] = v`.
unfoldable pub set : Bytes → ℕ → ℕ → Bytes
set [] i v = []
set (x ∷ xs) zero v = v ∷ xs
set (x ∷ xs) (suc i) v = x ∷ set xs i v

unfoldable pub write_header : Bytes → ℕ → ℕ → Bytes
unfolding set
write_header output flags payload_size =
    let o0 = set output 0 (magic / 2 ^ 8 % 256) in
    let o1 = set o0 1 (bit_and magic 0xFF) in
    let o2 = set o1 2 version in
    let o3 = set o2 3 flags in
    let o4 = set o3 4 (payload_size / 2 ^ 24 % 256) in
    let o5 = set o4 5 (payload_size / 2 ^ 16 % 256) in
    let o6 = set o5 6 (payload_size / 2 ^ 8 % 256) in set o6 7 (payload_size % 256)

-- The tests of `decode_header`, in their order. Of `~KNOWN_FLAGS_MASK`, an int, only the low byte
-- meets the eight bits of `flags`.
unfoldable pub check_header : Header → Decoded
unfolding is_keepalive
check_header h =
    if not (h.magic == magic)
    then unexpected invalid_magic
    else if not (h.version == version)
    then unexpected unsupported_version
    else if not (bit_and h.flags (255 - known_flags_mask) == 0)
    then unexpected invalid_flags
    else if ltb max_payload_size h.payload_size
    then unexpected invalid_payload_size
    else if is_keepalive h
    then (if not (h.payload_size == 0) then unexpected invalid_payload_size else header h)
    else if h.payload_size == 0
    then unexpected invalid_payload_size
    else header h

unfoldable pub decode_header : Bytes → Decoded
unfolding check_header read_u16_be read_u32_be
decode_header input = check_header (record {
  magic = read_u16_be (byte input 0) (byte input 1);
  version = byte input 2;
  flags = byte input 3;
  payload_size = read_u32_be (byte input 4) (byte input 5) (byte input 6) (byte input 7);
})
