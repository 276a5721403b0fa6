-- ===== src/Wire/Roundtrip.antt =====
-- `write_header` and `decode_header` (NightNetwork/src/TransportDetail.h) are inverse to one another.
use project_night.Prelude.{
  ℕ, ◌^◌, ◌≤◌, ◌<◌, ◌≡◌, refl, sym, ap, ◌∙◌, ◌↔◌, ◌∷◌, ◌++◌, arith, length, drop,
}
use project_night.Wire.{Bytes, Header, header, write_header, decode_header}
use project_night.Wire.Decode.{
  IsFrameKind, header_bytes, built, decode-header_bytes, check_sound, check_complete,
}

-- The eight bytes are written over the front of the buffer; the rest of it stays.
pub write_header_lem :
    (output : Bytes) (flags size : ℕ)
    → 8 ≤ length output
    → write_header output flags size ≡ header_bytes flags size ++ drop 8 output
unfolding write_header
write_header_lem (a ∷ b ∷ c ∷ d ∷ e ∷ f ∷ g ∷ i ∷ rest) flags size h = refl
write_header_lem output flags size h = absurd (omega arith)

-- A header that was written is read back with its flags and size, and passes the reader's tests
-- exactly when it is the header of a data frame of 1 to 2048 bytes or of a keepalive.
pub decode_header-write_header :
    (output : Bytes) (flags size : ℕ) (r : Header)
    → 8 ≤ length output
    → flags < 256
    → size < 2 ^ 32
    → (decode_header (write_header output flags size) ≡ header r)
      ↔ (IsFrameKind flags size × (r ≡ built flags size))
decode_header-write_header output flags size r room hf hs =
    let read = decode-header_bytes flags size (drop 8 output) hs in
    rw (write_header_lem output flags size room, read)
      (
        (λ e. let sound = check_sound (built flags size) r hf e in (sound.3, sound.0)),
        (λ p. check_complete (built flags size) refl refl p.0 ∙ ap header (sym p.1)),
      )
