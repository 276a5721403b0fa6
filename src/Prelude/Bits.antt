-- ===== src/Prelude/Bits.antt =====
-- Laws of `|` and `&` at variables: a shifted value joined to lower bits is a sum, and a fact
-- about every byte is checked byte by byte.
use Prim.Native.Nat.{
  ℕ, zero, suc, ◌+◌, ◌*◌, ◌/◌, ◌%◌, ◌^◌, ◌≤◌, ◌<◌, max, bit_or, digits, bit_or-bitwise,
}
use mathlib.Core.Path.{◌≡◌, refl, ap}
use mathlib.Core.Bool.{Bool, true, ◌&&◌}
use native.Mathlib.Nat.{pow-suc}
use native.Mathlib.Omega.{arith}

-- The recursion on digits that `bit_or` stands for, with its count of digits to go.
abbrev or_digits : ℕ → ℕ → ℕ → ℕ
or_digits = digits (λ b. b) max

-- Two counts that are large enough give the same.
or_digits-enough : (c d a b : ℕ) → a ≤ c → a ≤ d → or_digits c a b ≡ or_digits d a b
or_digits-enough c d zero b h k = none_left c d
  where
    none_left : (c d : ℕ) → or_digits c 0 b ≡ or_digits d 0 b
    none_left zero zero = refl
    none_left zero (suc d) = refl
    none_left (suc c) zero = refl
    none_left (suc c) (suc d) = refl
or_digits-enough zero d (suc a) b h k = absurd (omega arith)
or_digits-enough (suc c) zero (suc a) b h k = absurd (omega arith)
or_digits-enough (suc c) (suc d) (suc a) b h k =
    omega (arith, or_digits-enough c d (suc a / 2) (b / 2) (omega arith) (omega arith))

bit_or-lowest : (a b : ℕ) → bit_or a b ≡ bit_or (a / 2) (b / 2) * 2 + max (a % 2) (b % 2)
bit_or-lowest zero b = omega (arith, bit_or-bitwise 0 b, bit_or-bitwise 0 (b / 2))
bit_or-lowest (suc a) b =
    let half = suc a / 2 in
    omega (
      arith,
      bit_or-bitwise (suc a) b,
      bit_or-bitwise half (b / 2),
      or_digits-enough a half half (b / 2) (omega arith) (omega arith),
    )

bit_or-zero_below : (c a : ℕ) → a ≤ c → bit_or a 0 ≡ a
bit_or-zero_below c zero h = refl
bit_or-zero_below zero (suc a) h = absurd (omega arith)
bit_or-zero_below (suc c) (suc a) h =
    omega (arith, bit_or-lowest (suc a) 0, bit_or-zero_below c (suc a / 2) (omega arith))

-- `(q << k) | r` where `r` has at most `k` bits.
pub bit_or-shift : (k q r : ℕ) → r < 2 ^ k → bit_or (q * 2 ^ k) r ≡ q * 2 ^ k + r
bit_or-shift zero q r h = ground (arith, bit_or-zero_below q q)
bit_or-shift (suc k) q r h = omega (
  arith,
  pow-suc 2 k,
  ap (λ (t : ℕ). q * t) (pow-suc 2 k),
  bit_or-lowest (q * 2 ^ suc k) r,
  ap (λ (t : ℕ). bit_or t (r / 2)) (halve q k),
  bit_or-shift k q (r / 2) (omega (arith, pow-suc 2 k)),
)
  where
    halve : (q k : ℕ) → q * 2 ^ suc k / 2 ≡ q * 2 ^ k
    halve q k = omega (arith, ap (λ (t : ℕ). q * t) (pow-suc 2 k))

every_below : ℕ → (ℕ → Bool) → Bool
every_below zero p = true
every_below (suc n) p = p n && every_below n p

every_below_sound : (n : ℕ) (p : ℕ → Bool) → every_below n p ≡ true → (x : ℕ) → x < n → p x ≡ true
unfolding every_below
every_below_sound zero p h x lt = absurd (omega arith)
every_below_sound (suc n) p h x lt = ground (arith, every_below_sound n p (ground arith) x)

-- Every byte passes a test that the 256 bytes pass.
unfoldable pub every_byte : (ℕ → Bool) → Bool
unfolding every_below
every_byte p = every_below 256 p

pub every_byte_sound : (p : ℕ → Bool) → every_byte p ≡ true → (x : ℕ) → x < 256 → p x ≡ true
unfolding every_byte
every_byte_sound p h x lt = every_below_sound 256 p h x lt
