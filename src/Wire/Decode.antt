-- ===== src/Wire/Decode.antt =====
-- The frame header as the transport's documentation describes it (NightNetwork/README.md), and
-- `decode_header` of NightNetwork/src/TransportDetail.h against it.
use Prim.Native.Nat.{bit_and}
use project_night.Prelude.{
  ℕ, ◌+◌, ◌*◌, ◌/◌, ◌%◌, ◌^◌, ◌≤◌, ◌<◌, ◌≡◌, refl, sym, ap, ◌⊎◌, inl, inr, ◌↔◌, Bool, true, not,
  ◌||◌, [], ◌∷◌, ◌++◌, arith, length, All, ◌==◌,
}
use project_night.Prelude.Bits.{every_byte, every_byte_sound}
use project_night.Wire.{
  Bytes, Header, header, is_keepalive, check_header, decode_header, read_u16_be, read_u32_be,
}
use project_night.Wire.Bytes.{read_u16_be-sum, read_u32_be-sum}

abbrev AreBytes : Bytes → Type 0
AreBytes = All (λ b. b < 256)

-- The eight bytes of a header, from its two variable fields.
abbrev pub header_bytes : ℕ → ℕ → Bytes
header_bytes flags size =
    0x4E
    ∷ 0x4E
    ∷ 1
    ∷ flags
    ∷ size / 2 ^ 24 % 256
    ∷ size / 2 ^ 16 % 256
    ∷ size / 2 ^ 8 % 256
    ∷ size % 256
    ∷ []

-- A data frame has no flag and a payload of 1 to 2048 bytes; a keepalive has its flag alone.
abbrev pub IsFrameKind : ℕ → ℕ → Type 0
IsFrameKind flags size = ((flags ≡ 0) × (0 < size) × (size ≤ 2048)) ⊎ ((flags ≡ 1) × (size ≡ 0))

pub record IsHeader (input : Bytes) (h : Header) : Type 0 where
  pub magic_number : h.magic ≡ 0x4E4E
  pub version_number : h.version ≡ 1
  pub kind : IsFrameKind h.flags h.payload_size
  pub layout : input ≡ header_bytes h.flags h.payload_size

unknown_flags : ℕ → Bool
unknown_flags f = not (bit_and f 254 == 0) || (f == 0 || f == 1)

unknown_flags_table : every_byte unknown_flags ≡ true
unfolding unknown_flags every_byte
unknown_flags_table = refl

-- With no unknown flag, the flags are those of a data frame or of a keepalive.
known_flags :
    (f : ℕ)
    → f < 256
    → bit_and f 254 ≡ 0
    → ((f ≡ 0) × (bit_and f 1 ≡ 0)) ⊎ ((f ≡ 1) × (bit_and f 1 ≡ 1))
unfolding unknown_flags
known_flags f h e = ground (
  arith,
  every_byte_sound unknown_flags unknown_flags_table f h,
  (λ (p : f ≡ 0). ap (λ (t : ℕ). bit_and t 1) p),
  (λ (p : f ≡ 1). ap (λ (t : ℕ). bit_and t 1) p),
)

pub check_sound :
    (h r : Header)
    → h.flags < 256
    → check_header h ≡ header r
    → (r ≡ h) × (h.magic ≡ 0x4E4E) × (h.version ≡ 1) × IsFrameKind h.flags h.payload_size
unfolding check_header is_keepalive
check_sound h r hf e = ground (arith, known_flags h.flags hf)

pub check_complete :
    (h : Header)
    → h.magic ≡ 0x4E4E
    → h.version ≡ 1
    → IsFrameKind h.flags h.payload_size
    → check_header h ≡ header h
unfolding check_header is_keepalive
check_complete h m v (inl (f, lo, hi)) =
    ground (arith, ap (λ (t : ℕ). bit_and t 254) f, ap (λ (t : ℕ). bit_and t 1) f)
check_complete h m v (inr (f, s)) =
    ground (arith, ap (λ (t : ℕ). bit_and t 254) f, ap (λ (t : ℕ). bit_and t 1) f)

-- The header that eight bytes spell, before any test.
abbrev fields : ℕ → ℕ → ℕ → ℕ → ℕ → ℕ → ℕ → ℕ → Header
fields a b c d e f g i = record {
  magic = read_u16_be a b;
  version = c;
  flags = d;
  payload_size = read_u32_be e f g i;
}

layout_sound :
    (a b c d e f g i : ℕ) (size : ℕ)
    → AreBytes (a ∷ b ∷ c ∷ d ∷ e ∷ f ∷ g ∷ i ∷ [])
    → a * 256 + b ≡ 0x4E4E
    → c ≡ 1
    → ((e * 256 + f) * 256 + g) * 256 + i ≡ size
    → a ∷ b ∷ c ∷ d ∷ e ∷ f ∷ g ∷ i ∷ [] ≡ header_bytes d size
layout_sound a b c d e f g i size h p q s =
    let ea : a ≡ 0x4E = omega arith in
    let eb : b ≡ 0x4E = omega arith in
    let ee : e ≡ size / 2 ^ 24 % 256 = omega arith in
    let ef : f ≡ size / 2 ^ 16 % 256 = omega arith in
    let eg : g ≡ size / 2 ^ 8 % 256 = omega arith in let ei : i ≡ size % 256 = omega arith in cc

decode_eight_sound :
    (a b c d e f g i : ℕ) (h : Header)
    → AreBytes (a ∷ b ∷ c ∷ d ∷ e ∷ f ∷ g ∷ i ∷ [])
    → check_header (fields a b c d e f g i) ≡ header h
    → IsHeader (a ∷ b ∷ c ∷ d ∷ e ∷ f ∷ g ∷ i ∷ []) h
decode_eight_sound a b c d e f g i h bytes ok =
    let (same, m, v, k) = check_sound (fields a b c d e f g i) h (omega arith) ok in
    let size = read_u32_be-sum e f g i (omega arith) (omega arith) (omega arith) (omega arith) in
    let word = read_u16_be-sum a b (omega arith) (omega arith) in
    rw same (record {
      magic_number = m;
      version_number = v;
      kind = k;
      layout = layout_sound a b c d e f g i _ bytes (omega arith) v (sym size);
    })

decode_header_sound :
    (input : Bytes) (h : Header)
    → length input ≡ 8
    → AreBytes input
    → decode_header input ≡ header h
    → IsHeader input h
unfolding decode_header
decode_header_sound (a ∷ b ∷ c ∷ d ∷ e ∷ f ∷ g ∷ i ∷ []) h len bytes ok =
    decode_eight_sound a b c d e f g i h bytes ok
decode_header_sound input h len bytes ok = absurd (omega arith)

kind-bounds : (flags size : ℕ) → IsFrameKind flags size → (flags < 256) × (size ≤ 2048)
kind-bounds flags size (inl k) = omega arith
kind-bounds flags size (inr k) = omega arith

-- The header of this protocol with the given flags and size.
abbrev pub built : ℕ → ℕ → Header
built flags size = record { magic = 0x4E4E; version = 1; flags = flags; payload_size = size }

-- Reading back the bytes of a header gives its fields.
fields-header_bytes :
    (flags size : ℕ)
    → size < 2 ^ 32
    → fields 0x4E 0x4E 1 flags
        (size / 2 ^ 24 % 256)
        (size / 2 ^ 16 % 256)
        (size / 2 ^ 8 % 256)
        (size % 256)
      ≡ built flags size
fields-header_bytes flags size h =
    let word = read_u16_be-sum 0x4E 0x4E (omega arith) (omega arith) in
    let number =
      read_u32_be-sum (size / 2 ^ 24 % 256) (size / 2 ^ 16 % 256) (size / 2 ^ 8 % 256) (size % 256)
        (omega arith) (omega arith) (omega arith) (omega arith) in
    ground arith

pub decode-header_bytes :
    (flags size : ℕ) (rest : Bytes)
    → size < 2 ^ 32
    → decode_header (header_bytes flags size ++ rest) ≡ check_header (built flags size)
unfolding decode_header
decode-header_bytes flags size rest h = ap check_header (fields-header_bytes flags size h)

decode_header_complete :
    (input : Bytes) (h : Header) → IsHeader input h → decode_header input ≡ header h
decode_header_complete input h is =
    let bounds = kind-bounds h.flags h.payload_size is.kind in
    let read = decode-header_bytes h.flags h.payload_size [] (omega arith) in
    let pass = check_complete (built h.flags h.payload_size) refl refl is.kind in
    rw is.layout (ground arith)

-- `decode_header` accepts the eight bytes of a data frame's header with 1 to 2048 payload bytes,
-- those of a keepalive, and no other eight bytes; and it returns the fields that they spell.
pub decode_header_iff :
    (input : Bytes) (h : Header)
    → length input ≡ 8
    → AreBytes input
    → (decode_header input ≡ header h) ↔ IsHeader input h
decode_header_iff input h len bytes =
    (decode_header_sound input h len bytes, decode_header_complete input h)
