-- ===== src/Server/Sending.antt =====
-- From `send` and `broadcast` of NightNetwork/src/Server.cpp to the strands of the sessions.
use mathlib.Core.List.{append-nil, append_assoc}
use project_night.Prelude.{
  ℕ, ◌<◌, ◌≤◌, ◌≡◌, sym, ◌∙◌, ap, false, List, [], ◌∷◌, ◌++◌, arith, length, if◌then◌else◌,
}
use project_night.Prelude.Set
use project_night.Wire.{Bytes}
use project_night.Wire.Decode.{header_bytes}
use project_night.Pool.{Buffer, BufferPool, block_size}
use project_night.Pool.Laws.{IsValid}
use project_night.Frame.{clone_frame}
use project_night.Frame.Laws.{clone_frame_lem, data_frame_lem}
use project_night.Server.{
  Server, Task, Post, send_frame, broadcast_frame, raw_frame, post_to, broadcast_to, run_task,
  run_posted, post_task, post_data, send, broadcast,
}

-- The frame of a payload: its header, and its bytes.
abbrev pub frame_of : Bytes → Buffer
frame_of payload = record {
  bytes = header_bytes 0 (length payload) ++ payload;
  capacity = block_size;
}

-- One post of a frame for each of the sessions.
abbrev pub to_each : Buffer → List ℕ → List (ℕ × Post)
to_each frame [] = []
to_each frame (id ∷ ids) = (id, raw_frame frame) ∷ to_each frame ids

module _ (payload : Bytes) (some_bytes : 0 < length payload) (fits : length payload ≤ 2048) where
  pub broadcast_to_lem :
      (v : Server) (pool : BufferPool) (ids : List ℕ)
      → IsValid pool
      → (broadcast_to v pool (frame_of payload) ids).0
        ≡ record v { to_sessions = v.to_sessions ++ to_each (frame_of payload) ids }
  unfolding broadcast_to
  broadcast_to_lem v pool [] valid =
      ap (λ (l : List (ℕ × Post)). record v { to_sessions = l }) (sym (append-nil v.to_sessions))
  broadcast_to_lem v pool (id ∷ ids) valid =
      let cloned =
        clone_frame_lem pool (frame_of payload).bytes valid (omega arith) (omega (arith, fits)) in
      let pool' = (clone_frame pool (frame_of payload).bytes).1 in
      ap
        (λ (f : Buffer). (broadcast_to (post_to v id (raw_frame f)) pool' (frame_of payload) ids).0)
        cloned.0
      ∙ broadcast_to_lem (post_to v id (raw_frame (frame_of payload))) pool' ids cloned.1
      ∙ ap (λ (l : List (ℕ × Post)). record v { to_sessions = l })
          (append_assoc v.to_sessions ((id, raw_frame (frame_of payload)) ∷ [])
            (to_each (frame_of payload) ids))

  -- What the two sending functions post.
  pub post_data_lem :
      (v : Server) (pool : BufferPool) (task : Buffer → Task)
      → IsValid pool
      → v.shutting_down ≡ false
      → (post_data v pool payload task).0 ≡ post_task v (task (frame_of payload))
  post_data_lem v pool task valid up =
      ground (arith, data_frame_lem pool payload valid some_bytes fits)

  run_send :
      (v : Server) (pool : BufferPool) (id : ℕ)
      → v.posted ≡ []
      → v.shutting_down ≡ false
      → (run_posted (post_task v (send_frame id (frame_of payload))) pool).0
        ≡ (if Set.contains id v.sessions then post_to v id (raw_frame (frame_of payload)) else v)
  unfolding run_posted run_task
  run_send v pool id idle up = ground arith

  run_broadcast :
      (v : Server) (pool : BufferPool)
      → v.posted ≡ []
      → v.shutting_down ≡ false
      → (run_posted (post_task v (broadcast_frame (frame_of payload))) pool).0
        ≡ (broadcast_to v pool (frame_of payload) v.sessions).0
  unfolding run_posted run_task
  run_broadcast v pool idle up = ground arith

  -- With no task before it, a payload of 1 to 2048 bytes that is sent to a session is posted, as
  -- one frame of header and payload, to that session when it is connected, and to no other; one that
  -- is broadcast is posted, as such a frame, once to each session that is connected. Nothing else
  -- changes. The pools are valid and the server is not shutting down.
  pub sends_reach_sessions :
      (v : Server) (pool strand_pool : BufferPool) (id : ℕ)
      → IsValid pool
      → IsValid strand_pool
      → v.posted ≡ []
      → v.shutting_down ≡ false
      → ((run_posted (send v pool id payload).0 strand_pool).0 ≡ (
          if Set.contains id v.sessions
          then record v { to_sessions = v.to_sessions ++ (id, raw_frame (frame_of payload)) ∷ [] }
          else v))
        × ((run_posted (broadcast v pool payload).0 strand_pool).0
            ≡ record v { to_sessions = v.to_sessions ++ to_each (frame_of payload) v.sessions })
  unfolding send broadcast
  sends_reach_sessions v pool strand_pool id valid valid' idle up = (
    ap (λ (w : Server). (run_posted w strand_pool).0)
          (post_data_lem v pool (send_frame id) valid up)
        ∙ run_send v strand_pool id idle up,
    ap (λ (w : Server). (run_posted w strand_pool).0)
          (post_data_lem v pool broadcast_frame valid up)
        ∙ run_broadcast v strand_pool idle up
        ∙ broadcast_to_lem v strand_pool v.sessions valid',
  )
