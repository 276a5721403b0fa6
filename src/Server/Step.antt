-- ===== src/Server/Step.antt =====
-- The runs of NightNetwork/src/Server.cpp over those of its sessions.
use project_night.Prelude.{ℕ, ◌+◌, ◌<◌, ◌^◌, ◌≡◌, Bool, true, false, some}
use project_night.Prelude.Map
use project_night.Wire.{Bytes}
use project_night.Pool.{BufferPool}
use project_night.Pool.Laws.{IsValid}
use project_night.Session.{Session}
use project_night.Session.Step
use project_night.Server.{
  Server, accept_completed, session_ran, run_posted, send, broadcast, disconnect, poll_packet,
  begin_shutdown, end_shutdown,
}

-- On the I/O threads, while `io` is not stopped: an accept completes only when it is pending. Ids are
-- not used again before 2^32 connections. The pools of the threads are valid. On the game's thread:
-- sending, polling, and the shutdown, which stops `io` when the posted end was run, and so the
-- acceptor closed.
pub data ServerStep : Server → Server → Type 0 where
  accepted :
      (v : Server) (ok : Bool) (pool : BufferPool) (now : ℕ)
      → v.stopped ≡ false
      → v.accepting ≡ true
      → v.next_id + 1 < 2 ^ 32
      → ServerStep v (accept_completed v ok pool now)
  ran :
      (v : Server) (id : ℕ) (s t : Session)
      → v.stopped ≡ false
      → Map.find id v.objects ≡ some s
      → Step.Step s t
      → ServerStep v (session_ran v id s t)
  task_ran :
      (v : Server) (pool : BufferPool)
      → v.stopped ≡ false
      → IsValid pool
      → ServerStep v (run_posted v pool).0
  sent :
      (v : Server) (pool : BufferPool) (session_id : ℕ) (payload : Bytes)
      → IsValid pool
      → ServerStep v (send v pool session_id payload).0
  sent_to_all :
      (v : Server) (pool : BufferPool) (payload : Bytes)
      → IsValid pool
      → ServerStep v (broadcast v pool payload).0
  disconnected : (v : Server) (session_id : ℕ) → ServerStep v (disconnect v session_id)
  taken : (v : Server) → ServerStep v (poll_packet v).1
  shutdown_begun : (v : Server) → ServerStep v (begin_shutdown v)
  shutdown_ended :
      (v : Server) → v.shutting_down ≡ true → v.listening ≡ false → ServerStep v (end_shutdown v)

pub data ServerSteps : Server → Server → Type 0 where
  no_more : (v : Server) → ServerSteps v v
  one_more : (v w x : Server) → ServerSteps v w → ServerStep w x → ServerSteps v x
