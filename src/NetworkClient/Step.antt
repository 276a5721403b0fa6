-- ===== src/NetworkClient/Step.antt =====
-- The runs of NightNetwork/src/Client.cpp: what its two threads may do in a state.
use project_night.Prelude.{ℕ, ◌<◌, ◌≡◌, Bool, true, false, length, []}
use project_night.Wire.{Bytes}
use project_night.Pool.{BufferPool}
use project_night.Pool.Laws.{IsValid}
use project_night.Session.{read_header, read_body}
use project_night.NetworkClient.{
  Client, header_completed, body_completed, write_completed, timer_completed, run_posted, send,
  poll_packet, begin_shutdown, end_shutdown,
}

-- On the I/O thread, while `io` is not stopped: a read completes only when it is pending, with the
-- bytes asked for where there is no error; a write only when one was started; the timer only when
-- armed, and as cancelled only after the socket was closed. On the thread of the game, over its
-- valid pool: sending, polling, and the shutdown, which stops `io` when the posted end was reached.
pub data Step : Client → Client → Type 0 where
  header_read :
      (c : Client) (ok : Bool) (bytes : Bytes) (now : ℕ)
      → c.stopped ≡ false
      → c.reading ≡ read_header
      → length bytes ≡ 8
      → Step c (header_completed c ok bytes now)
  body_read :
      (c : Client) (ok : Bool) (size : ℕ) (body : Bytes) (meanwhile : Bool)
      → c.stopped ≡ false
      → c.reading ≡ read_body size
      → length body ≡ size
      → Step c (body_completed c ok body meanwhile)
  written :
      (c : Client) (ok : Bool) → c.stopped ≡ false → 0 < c.writes → Step c (write_completed c ok)
  timer_fired :
      (c : Client) (now : ℕ)
      → c.stopped ≡ false
      → c.timer ≡ true
      → Step c (timer_completed c true now)
  timer_cancelled :
      (c : Client) (now : ℕ)
      → c.stopped ≡ false
      → c.timer ≡ true
      → c.socket_open ≡ false
      → Step c (timer_completed c false now)
  task_run : (c : Client) → c.stopped ≡ false → Step c (run_posted c)
  sent :
      (c : Client) (pool : BufferPool) (payload : Bytes)
      → IsValid pool
      → Step c (send c pool payload).0
  polled : (c : Client) → Step c (poll_packet c).1
  shutdown_begun : (c : Client) → Step c (begin_shutdown c)
  shutdown_ended : (c : Client) → c.shutting_down ≡ true → c.posted ≡ [] → Step c (end_shutdown c)

-- Any number of steps.
pub data Steps : Client → Client → Type 0 where
  none_left : (c : Client) → Steps c c
  then_step : (c d e : Client) → Steps c d → Step d e → Steps c e
