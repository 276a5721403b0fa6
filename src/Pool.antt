-- ===== src/Pool.antt =====
-- NightNetwork/src/BufferPool.h: the LIFO pool of one thread. A std::vector<uint8_t> is its bytes
-- and its capacity; `reserve` on a new vector gives the capacity asked for, and a growing `resize`
-- gives at least the size. The pool's back is the head of the list.
pub mod Laws
use project_night.Prelude.{
  ℕ, ◌+◌, ◌-◌, Bool, List, [], ◌∷◌, ◌++◌, length, take, replicate, ltb, leb, not, ◌==◌,
  if◌then◌else◌,
}
use project_night.Wire.{Bytes, header_size, max_payload_size}

pub record Buffer : Type 0 where
  pub bytes : Bytes
  pub capacity : ℕ

abbrev pub block_size : ℕ
block_size = header_size + max_payload_size

pub record BufferPool : Type 0 where
  pub max_size_per_thread : ℕ
  pub pool : List Buffer

-- `Buffer {}`.
abbrev pub no_buffer : Buffer
no_buffer = record { bytes = []; capacity = 0 }

-- `buf.reserve(n)` of a vector with no capacity.
abbrev reserve : ℕ → Buffer → Buffer
reserve n b = record b { capacity = if ltb b.capacity n then n else b.capacity }

-- `buf.resize(n)`: the front stays, new bytes are zero, and the capacity never falls.
abbrev pub resize : ℕ → Buffer → Buffer
resize n b = record {
  bytes = take n b.bytes ++ replicate (n - length b.bytes) 0;
  capacity = if ltb b.capacity n then n else b.capacity;
}

-- The part of `acquire` below its guard: the pool's back, or a new block.
abbrev pub take_back : BufferPool → ℕ → List Buffer → Buffer × BufferPool
take_back p size [] = (resize size (reserve block_size no_buffer), p)
take_back p size (buf ∷ rest) = (resize size buf, record p { pool = rest })

unfoldable pub acquire : BufferPool → ℕ → Buffer × BufferPool
acquire p size = if ltb block_size size then (no_buffer, p) else take_back p size p.pool

unfoldable pub release : BufferPool → Buffer → BufferPool
release p buf =
    if not (buf.capacity == block_size)
    then p
    else if ltb (length p.pool) p.max_size_per_thread
    then record p { pool = record buf { bytes = [] } ∷ p.pool }
    else p
