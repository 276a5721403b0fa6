-- ===== src/Window/Port.antt =====
-- `ParsePort` of NightClient/ChatClientFrame.cpp: which texts are ports.
use native.Mathlib.Nat.{pow-succ'}
use project_night.Prelude.{
  ℕ, suc, ◌+◌, ◌-◌, ◌*◌, ◌^◌, ◌<◌, ◌≤◌, ◌≡◌, sym, ◌∙◌, ap, ◌↔◌, inl, inr, true, false, ◌&&◌, ◌||◌,
  [], ◌∷◌, none, some, arith, All, Bool-cases, length, is_empty, ltb, leb, ◌==◌, if◌then◌else◌,
}
use project_night.Wire.{Bytes}
use project_night.Window.{Wx, trimmed, parse_port, from_chars, scan_digits}

abbrev pub IsDigit : ℕ → Type 0
IsDigit c = (48 ≤ c) × (c ≤ 57)

-- The number that a row of digits stands for.
abbrev pub value_of : Bytes → ℕ
value_of [] = 0
value_of (c ∷ cs) = (c - 48) * 10 ^ length cs + value_of cs

shift_digit : (v d p w : ℕ) → (v * 10 + d) * p + w ≡ v * (10 * p) + (d * p + w)
shift_digit v d p w = grind arith

scan_digits_lem :
    (v : ℕ) (text : Bytes)
    → All IsDigit text
    → scan_digits v text ≡ (v * 10 ^ length text + value_of text, [])
unfolding scan_digits
scan_digits_lem v [] h = ap (λ (n : ℕ). (n, [])) (omega arith)
scan_digits_lem v (c ∷ cs) h =
    let total : (v * 10 + (c - 48)) * 10 ^ length cs + value_of cs
        ≡ v * 10 ^ suc (length cs) + ((c - 48) * 10 ^ length cs + value_of cs) =
      shift_digit v (c - 48) (10 ^ length cs) (value_of cs)
      ∙ ap (λ (p : ℕ). v * p + ((c - 48) * 10 ^ length cs + value_of cs))
          (sym (pow-succ' 10 (length cs))) in
    let one_more : scan_digits v (c ∷ cs) ≡ scan_digits (v * 10 + (c - 48)) cs = ground arith in
    one_more ∙ scan_digits_lem (v * 10 + (c - 48)) cs h.1 ∙ ap (λ (n : ℕ). (n, [])) total

scan_digits-All : (v : ℕ) (text : Bytes) → is_empty (scan_digits v text).1 ≡ true → All IsDigit text
unfolding scan_digits
scan_digits-All v [] h = tt
scan_digits-All v (c ∷ cs) h = elim (Bool-cases (leb 48 c && leb c 57)) [
  | inl digit ↦
      ((ground arith, ground arith), scan_digits-All (v * 10 + (c - 48)) cs (ground arith))
  | inr other ↦ absurd (ground arith)
]

module _ (wx : Wx) (value : Bytes) where
  abbrev text : Bytes
  text = wx.to_std_string (trimmed wx value)

  digits_only :
      All IsDigit text
      → parse_port wx value
        ≡ (if length text == 0 || ltb 65535 (value_of text) then none else some (value_of text))
  unfolding parse_port from_chars
  digits_only all =
      let scanned : scan_digits 0 text ≡ (value_of text, []) =
        scan_digits_lem 0 text all ∙ ap (λ (n : ℕ). (n, [])) (omega arith) in
      ground (arith, scanned)

  other_characters : is_empty (scan_digits 0 text).1 ≡ false → parse_port wx value ≡ none
  unfolding parse_port from_chars
  other_characters left = ground arith

  -- A text is taken as a port just when, trimmed, it is one or more decimal digits and nothing
  -- else, and they stand for that port, which is at most 65535.
  pub parse_port_iff :
      (port : ℕ)
      → (parse_port wx value ≡ some port)
        ↔ ((0 < length text) × All IsDigit text × (value_of text ≡ port) × (port ≤ 65535))
  parse_port_iff port = elim (Bool-cases (is_empty (scan_digits 0 text).1)) [
    | inl all ↦
        let digits = scan_digits-All 0 text all in
        let parsed = digits_only digits in
        (
          λ h. (ground (arith, parsed), digits, ground (arith, parsed), ground (arith, parsed)),
          λ h. ground (arith, parsed, h),
        )
    | inr left ↦ (
      λ h. absurd (ground (arith, other_characters left)),
      λ h. absurd (ground (arith, scan_digits_lem 0 text h.1)),
    )
  ]
