-- ===== src/Pool/Laws.antt =====
-- The buffers that NightNetwork/src/BufferPool.h hands out are clean blocks of the asked size, and
-- the pool stays within its bound.
use project_night.Prelude.{
  ℕ, ◌≤◌, ◌<◌, ◌≡◌, refl, ◌⊎◌, List, [], ◌∷◌, arith, length, replicate, All, take-nil, Bool-cases,
  ltb, inl, inr, ap, ◌-◌,
}
use project_night.Pool.{
  Buffer, BufferPool, block_size, no_buffer, acquire, release, resize, take_back,
}

-- A pooled buffer is an empty block.
abbrev IsFree : Buffer → Type 0
IsFree b = (b.bytes ≡ []) × (b.capacity ≡ block_size)

pub record IsValid (p : BufferPool) : Type 0 where
  pub free : All IsFree p.pool
  pub bounded : length p.pool ≤ p.max_size_per_thread

resize-free :
    (size : ℕ) (b : Buffer)
    → IsFree b
    → size ≤ block_size
    → resize size b ≡ record { bytes = replicate size 0; capacity = block_size }
resize-free size b f h =
    ground (arith, take-nil {A = ℕ} size, ap (λ (t : ℕ). replicate {A = ℕ} t 0) (zeros size))
  where
    zeros : (n : ℕ) → n - 0 ≡ n
    zeros n = omega arith

take_back-clean :
    (p : BufferPool) (size : ℕ) (buffers : List Buffer)
    → All IsFree buffers
    → size ≤ block_size
    → (take_back p size buffers).0 ≡ record { bytes = replicate size 0; capacity = block_size }
take_back-clean p size [] f h =
    resize-free size (record { bytes = []; capacity = block_size }) (refl, refl) h
take_back-clean p size (b ∷ rest) f h = resize-free size b f.0 h

-- From a valid pool `acquire` hands out a block of exactly `size` zero bytes, whether it is recycled
-- or new; over the block size it refuses with an empty buffer and leaves the pool alone.
pub acquire_lem :
    (p : BufferPool) (size : ℕ)
    → IsValid p
    → ((size ≤ block_size)
        × ((acquire p size).0 ≡ record { bytes = replicate size 0; capacity = block_size }))
      ⊎ ((block_size < size) × (acquire p size ≡ (no_buffer, p)))
unfolding acquire
acquire_lem p size v = elim (Bool-cases (ltb block_size size)) [
  | inl big ↦ inr (ground arith, rw big refl)
  | inr fits ↦ inl (ground arith, rw fits (take_back-clean p size p.pool v.free (ground arith)))
]

pub acquire-IsValid : (p : BufferPool) (size : ℕ) → IsValid p → IsValid (acquire p size).1
unfolding acquire
acquire-IsValid p size v = ground arith

pub release-IsValid : (p : BufferPool) (b : Buffer) → IsValid p → IsValid (release p b)
unfolding release
release-IsValid p b v = ground arith
