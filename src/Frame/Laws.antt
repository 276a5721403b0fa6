-- ===== src/Frame/Laws.antt =====
-- What the frame builders of NightNetwork/src/TransportDetail.h produce: a header and the payload,
-- which the reader's decoder takes apart again.
use mathlib.Core.List.{append-nil}
use project_night.Prelude.{
  ℕ, sym, take, ◌%◌, ◌^◌, is_empty_of_pos, ◌+◌, ◌≤◌, ◌<◌, ◌≡◌, refl, ap, ◌∙◌, ◌⊎◌, inl, inr,
  Bool-cases, ltb, [], ◌∷◌, ◌++◌, arith, length, length-append, suc, zero, drop, replicate,
  length-replicate, take-append, drop_of_length-le, take_of_length-le, length-drop,
}
use project_night.Wire.{Bytes, header, decode_header}
use project_night.Wire.Decode.{header_bytes, built, check_complete, decode-header_bytes}
use project_night.Wire.Roundtrip.{write_header_lem}
use project_night.Pool.{Buffer, BufferPool, block_size, no_buffer, acquire}
use project_night.Pool.Laws.{IsValid, acquire_lem, acquire-IsValid}
use project_night.Frame.{
  clone_frame, fill_frame, memcpy, build_frame, build_data_frame, build_keepalive_frame,
}

abbrev zeros : ℕ → Bytes
zeros n = replicate n 0

length-take : (n : ℕ) (bytes : Bytes) → n ≤ length bytes → length (take n bytes) ≡ n
length-take zero bytes h = refl
length-take (suc n) [] h = absurd (omega (arith, h))
length-take (suc n) (b ∷ bytes) h = omega (arith, length-take n bytes (omega (arith, h)))

-- A copy that ends where the destination ends.
pub memcpy-end :
    (front rest payload : Bytes)
    → length rest ≡ length payload
    → memcpy (front ++ rest) (length front) payload (length payload) ≡ front ++ payload
memcpy-end front rest payload h =
    let end =
      drop_of_length-le (length front + length payload) (front ++ rest)
        (omega (arith, length-append front rest)) in
    rw (
      take-append front rest,
      take_of_length-le (length payload) payload (omega arith),
      end,
      append-nil,
    )

-- A clean block of the right size becomes header and payload.
fill_frame-clean :
    (flags : ℕ) (payload : Bytes)
    → fill_frame
        (record { bytes = zeros (8 + length payload); capacity = block_size })
        flags
        payload
        (length payload)
      ≡ record { bytes = header_bytes flags (length payload) ++ payload; capacity = block_size }
fill_frame-clean flags [] =
    ap (λ (t : Bytes). record { bytes = t; capacity = block_size })
      (write_header_lem (zeros 8) flags 0 (omega arith))
fill_frame-clean flags (b ∷ payload) =
    let n : ℕ = suc (length payload) in
    let size = length-replicate {A = ℕ} (8 + n) 0 in
    let headed = write_header_lem (zeros (8 + n)) flags n (omega arith) in
    let rest = drop 8 (zeros (8 + n)) in
    let copied =
      memcpy-end (header_bytes flags n) rest (b ∷ payload)
        (omega (arith, length-drop 8 (zeros (8 + n)))) in
    ap (λ (t : Bytes). record { bytes = t; capacity = block_size })
      (ap (λ (t : Bytes). memcpy t 8 (b ∷ payload) n) headed ∙ copied)

-- From a valid pool, a payload that fits a block becomes a frame of its header and its bytes.
build_frame_lem :
    (pool : BufferPool) (flags : ℕ) (payload : Bytes)
    → IsValid pool
    → length payload ≤ 2048
    → (build_frame pool flags payload).0
      ≡ record { bytes = header_bytes flags (length payload) ++ payload; capacity = block_size }
unfolding build_frame
build_frame_lem pool flags payload v fits =
    let n : ℕ = length payload in
    let small : n % 2 ^ 32 ≡ n = omega arith in
    rw small (elim (acquire_lem pool (8 + n) v) [
      | inr big ↦ absurd (omega arith)
      | inl (_, clean) ↦
          rw
            (
              clean,
              is_empty_of_pos (zeros (8 + n)) (omega (arith, length-replicate {A = ℕ} (8 + n) 0)),
            )
            (fill_frame-clean flags payload)
    ])

-- A clean block takes the part of a payload that its size counts.
fill_frame-cut :
    (flags size : ℕ) (payload : Bytes)
    → 0 < length payload
    → size ≤ length payload
    → size ≤ 2048
    → fill_frame (record { bytes = zeros (8 + size); capacity = block_size }) flags payload size
      ≡ record { bytes = header_bytes flags size ++ take size payload; capacity = block_size }
fill_frame-cut flags size [] some_bytes enough fits = absurd (omega (arith, some_bytes))
fill_frame-cut flags size (b ∷ rest) some_bytes enough fits =
    let payload : Bytes = b ∷ rest in
    let cut = take size payload in
    let count : length cut ≡ size = length-take size payload enough in
    let again : take size cut ≡ cut = take_of_length-le size cut (omega (arith, count)) in
    let sizes : length (zeros (8 + size)) ≡ 8 + size = length-replicate {A = ℕ} (8 + size) 0 in
    let headed = write_header_lem (zeros (8 + size)) flags size (omega (arith, sizes)) in
    let left = drop 8 (zeros (8 + size)) in
    let copied : memcpy (header_bytes flags size ++ left) 8 cut (length cut)
        ≡ header_bytes flags size ++ cut =
      memcpy-end (header_bytes flags size) left cut
        (omega (arith, length-drop 8 (zeros (8 + size)), sizes, count)) in
    ap (λ (t : Bytes). record { bytes = t; capacity = block_size })
      (ap (λ (t : Bytes). memcpy t 8 payload size) headed
        ∙ ap
            (λ (t : Bytes).
              take 8 (header_bytes flags size ++ left)
              ++ t
              ++ drop (8 + size) (header_bytes flags size ++ left))
            (sym again)
        ∙ ap (λ (k : ℕ). memcpy (header_bytes flags size ++ left) 8 cut k) (sym count)
        ∙ copied)

-- From a valid pool, the size of a payload modulo 2^32 decides.
build_frame-cut :
    (pool : BufferPool) (flags : ℕ) (payload : Bytes)
    → IsValid pool
    → 0 < length payload
    → length payload % 2 ^ 32 ≤ 2048
    → (build_frame pool flags payload).0.bytes
      ≡ header_bytes flags (length payload % 2 ^ 32) ++ take (length payload % 2 ^ 32) payload
unfolding build_frame
build_frame-cut pool flags payload v some_bytes fits =
    let n : ℕ = length payload % 2 ^ 32 in
    elim (acquire_lem pool (8 + n) v) [
      | inr big ↦ absurd (omega arith)
      | inl (_, clean) ↦
          rw
            (
              clean,
              is_empty_of_pos (zeros (8 + n)) (omega (arith, length-replicate {A = ℕ} (8 + n) 0)),
            )
            (ap (λ (b : Buffer). b.bytes)
              (fill_frame-cut flags n payload some_bytes (omega arith) fits))
    ]

build_frame-refuses :
    (pool : BufferPool) (flags : ℕ) (payload : Bytes)
    → 2048 < length payload % 2 ^ 32
    → build_frame pool flags payload ≡ (no_buffer, pool)
unfolding build_frame acquire
build_frame-refuses pool flags payload big = ground arith

-- The frame of a payload of any length, built from a valid pool; `n` is the length modulo 2^32. A
-- payload that is not empty and whose `n` is at most 2048 becomes a frame of 8 + n bytes, in which
-- its first n bytes follow the header; and where n is not 0, the header is one that the reader
-- accepts as that of a data frame of n bytes. So a payload of 1 to 2048 bytes is in its frame as
-- a whole, and one of 4 GiB or more may be cut. An empty payload and one whose n is over 2048 give
-- an empty frame.
pub build_data_frame_lem :
    (pool : BufferPool) (payload : Bytes)
    → IsValid pool
    → let frame = (build_data_frame pool payload).0.bytes in
      let n = length payload % 2 ^ 32 in
      ((0 < length payload)
        × (n ≤ 2048)
        × (length frame ≡ 8 + n)
        × (drop 8 frame ≡ take n payload)
        × (0 < n → decode_header frame ≡ header (built 0 n)))
      ⊎ (((length payload ≡ 0) ⊎ (2048 < n)) × (frame ≡ []))
unfolding build_data_frame
build_data_frame_lem pool [] v = inr (inl refl, refl)
build_data_frame_lem pool (b ∷ rest) v =
    let payload : Bytes = b ∷ rest in
    let n : ℕ = length payload % 2 ^ 32 in
    elim (Bool-cases (ltb 2048 n)) [
      | inl big ↦
          let e = build_frame-refuses pool 0 payload (ground arith) in
          inr (inr (ground arith), rw e refl)
      | inr fits ↦
          let e = build_frame-cut pool 0 payload v (omega arith) (ground arith) in
          let pass = λ (some_bytes : 0 < n).
            check_complete (built 0 n) refl refl (inl (refl, some_bytes, ground arith)) in
          inl (
            omega arith,
            ground arith,
            rw e (omega (arith, length-take n payload (omega arith))),
            rw e refl,
            λ some_bytes.
                rw e (decode-header_bytes 0 n (take n payload) (omega arith) ∙ pass some_bytes),
          )
    ]

-- The frame of a keepalive is its header alone.
pub build_keepalive_frame_lem :
    (pool : BufferPool)
    → IsValid pool
    → ((build_keepalive_frame pool).0.bytes ≡ header_bytes 1 0)
      × (decode_header (build_keepalive_frame pool).0.bytes ≡ header (built 1 0))
unfolding build_keepalive_frame
build_keepalive_frame_lem pool v =
    let e = build_frame_lem pool 1 [] v (omega arith) in
    let pass = check_complete (built 1 0) refl refl (inr (refl, refl)) in
    (rw e refl, rw e (decode-header_bytes 1 0 [] (omega arith) ∙ pass))

pub build_keepalive_frame-IsValid :
    (pool : BufferPool) → IsValid pool → IsValid (build_keepalive_frame pool).1
unfolding build_keepalive_frame build_frame
build_keepalive_frame-IsValid pool v = ground (arith, acquire-IsValid pool 8 v)

pub data_frame-bytes :
    (pool : BufferPool) (payload : Bytes)
    → IsValid pool
    → 0 < length payload
    → length payload ≤ 2048
    → (build_data_frame pool payload).0.bytes ≡ header_bytes 0 (length payload) ++ payload
unfolding build_data_frame
data_frame-bytes pool [] v some_bytes fits = absurd (omega arith)
data_frame-bytes pool (b ∷ payload) v some_bytes fits =
    rw (build_frame_lem pool 0 (b ∷ payload) v fits) refl

-- From a valid pool, a frame of 1 to 2056 bytes is copied byte for byte into a block of its own, and
-- the pool that is left is valid.
pub clone_frame_lem :
    (pool : BufferPool) (frame_template : Bytes)
    → IsValid pool
    → 0 < length frame_template
    → length frame_template ≤ block_size
    → ((clone_frame pool frame_template).0
        ≡ record { bytes = frame_template; capacity = block_size })
      × IsValid (clone_frame pool frame_template).1
unfolding clone_frame
clone_frame_lem pool [] v some_bytes fits = absurd (omega (arith, some_bytes))
clone_frame_lem pool (b ∷ rest) v some_bytes fits =
    let n : ℕ = suc (length rest) in
    let size = length-replicate {A = ℕ} n 0 in
    let copied = memcpy-end [] (zeros n) (b ∷ rest) size in
    elim (acquire_lem pool n v) [
      | inr (big, _) ↦ absurd (omega (arith, big, fits))
      | inl (_, clean) ↦ rw clean (
        ap (λ (t : Bytes). record { bytes = t; capacity = block_size }) copied,
        acquire-IsValid pool n v,
      )
    ]

pub data_frame_lem :
    (pool : BufferPool) (payload : Bytes)
    → IsValid pool
    → 0 < length payload
    → length payload ≤ 2048
    → (build_data_frame pool payload).0
      ≡ record { bytes = header_bytes 0 (length payload) ++ payload; capacity = block_size }
unfolding build_data_frame
data_frame_lem pool [] v some_bytes fits = absurd (omega arith)
data_frame_lem pool (b ∷ payload) v some_bytes fits = build_frame_lem pool 0 (b ∷ payload) v fits
