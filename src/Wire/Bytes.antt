-- ===== src/Wire/Bytes.antt =====
-- Big-endian numbers: reading is a sum of bytes, and writing is its inverse.
use Prim.Native.Nat.{bit_or}
use project_night.Prelude.{ℕ, ◌+◌, ◌*◌, ◌%◌, ◌^◌, ◌<◌, ◌≡◌, arith, ap, ◌∙◌}
use project_night.Prelude.Bits.{bit_or-shift}
use project_night.Wire.{read_u16_be, read_u32_be}

-- `x | y` where `x` ends in `k` zero bits and `y` fits them.
bit_or-join : (k q x y : ℕ) → x ≡ q * 2 ^ k → y < 2 ^ k → bit_or x y ≡ q * 2 ^ k + y
bit_or-join k q x y e h = ap (λ (t : ℕ). bit_or t y) e ∙ bit_or-shift k q y h

pub read_u16_be-sum : (a b : ℕ) → a < 256 → b < 256 → read_u16_be a b ≡ a * 256 + b
unfolding read_u16_be
read_u16_be-sum a b ha hb = omega (arith, bit_or-shift 8 a b hb)

pub read_u32_be-sum :
    (a b c d : ℕ)
    → a < 256
    → b < 256
    → c < 256
    → d < 256
    → read_u32_be a b c d ≡ ((a * 256 + b) * 256 + c) * 256 + d
unfolding read_u32_be
read_u32_be-sum a b c d ha hb hc hd =
    let x = a * 2 ^ 24 % 2 ^ 32 in
    let y = b * 2 ^ 16 % 2 ^ 32 in
    let z = c * 2 ^ 8 % 2 ^ 32 in
    let ab = bit_or-join 24 a x y (omega arith) (omega arith) in
    let abc = bit_or-join 16 (a * 256 + b) (bit_or x y) z (omega arith) (omega arith) in
    omega
      (arith, bit_or-join 8 ((a * 256 + b) * 256 + c) (bit_or (bit_or x y) z) d (omega arith) hd)
