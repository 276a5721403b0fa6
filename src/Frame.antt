-- ===== src/Frame.antt =====
-- The frame builders of NightNetwork/src/TransportDetail.h, over the pool of the thread they run on,
-- and its `enqueue_frame`. A frame is a buffer of the pool.
pub mod Laws
use project_night.Prelude.{
  ℕ, ◌+◌, ◌%◌, ◌^◌, Bool, true, false, not, ◌&&◌, List, [], ◌∷◌, ◌++◌, length, is_empty, take, drop,
  leb, ◌==◌, if◌then◌else◌,
}
use project_night.Wire.{Bytes, header_size, flag_keepalive, write_header}
use project_night.Pool.{Buffer, BufferPool, no_buffer, acquire}

-- `std::memcpy(dst + offset, src, n)` into the bytes of a buffer.
abbrev pub memcpy : Bytes → ℕ → Bytes → ℕ → Bytes
memcpy dst offset src n = take offset dst ++ take n src ++ drop (offset + n) dst

-- `build_frame` below `acquire`: the header and the payload go into the buffer.
abbrev pub fill_frame : Buffer → ℕ → Bytes → ℕ → Buffer
fill_frame frame flags payload size =
    let headed = write_header frame.bytes flags size in
    record frame {
      bytes = if is_empty payload then headed else memcpy headed header_size payload size;
    }

unfoldable pub build_frame : BufferPool → ℕ → Bytes → Buffer × BufferPool
build_frame pool flags payload =
    let size = length payload % 2 ^ 32 in
    let (frame, pool') = acquire pool (header_size + size) in
    if is_empty frame.bytes then (frame, pool') else (fill_frame frame flags payload size, pool')

unfoldable pub build_data_frame : BufferPool → Bytes → Buffer × BufferPool
unfolding build_frame
build_data_frame pool payload =
    if is_empty payload then (no_buffer, pool) else build_frame pool 0 payload

-- `clone_frame` below `acquire`.
abbrev fill_clone : Buffer → Bytes → Buffer
fill_clone frame frame_template = record frame {
  bytes =
      if not (is_empty frame_template)
      then memcpy frame.bytes 0 frame_template (length frame_template)
      else frame.bytes;
}

unfoldable pub clone_frame : BufferPool → Bytes → Buffer × BufferPool
clone_frame pool frame_template =
    if is_empty frame_template
    then (no_buffer, pool)
    else let (frame, pool') = acquire pool (length frame_template) in
      if is_empty frame.bytes then (frame, pool') else (fill_clone frame frame_template, pool')

unfoldable pub build_keepalive_frame : BufferPool → Buffer × BufferPool
unfolding build_frame
build_keepalive_frame pool = build_frame pool flag_keepalive []

-- What `enqueue_frame` does to the queue, and whether it calls `start_write`.
pub data Enqueued {ℓ} (A : Type ℓ) : Type ℓ where
  full : Enqueued A
  queued : List A → Enqueued A
  queued_and_start : List A → Enqueued A

-- The front of the queue is the head of the list. A limit of 0 is no limit. When the queue is full
-- the frame is not moved from, and the caller still owns it.
unfoldable pub enqueue_frame {ℓ} : {A : Type ℓ} → List A → Bool → A → ℕ → Enqueued A
enqueue_frame write_queue writing frame max_pending_frames =
    if not (max_pending_frames == 0) && leb max_pending_frames (length write_queue)
    then full
    else if not writing
    then queued_and_start (write_queue ++ frame ∷ [])
    else queued (write_queue ++ frame ∷ [])
