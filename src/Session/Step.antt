-- ===== src/Session/Step.antt =====
-- The runs of NightNetwork/src/Session.cpp: which handler the strand may run in a state.
use project_night.Prelude.{ℕ, ◌<◌, ◌≡◌, Bool, true, length}
use project_night.Wire.{Bytes}
use project_night.Pool.{Buffer, BufferPool}
use project_night.Pool.Laws.{IsValid}
use project_night.Session.{
  Session, read_header, read_body, handle_close, enqueue_write, header_completed, body_completed,
  write_completed, timer_completed,
}

-- A read completes only when it is pending, with the bytes asked for where there is no error; a
-- write completes only when one was started; a posted frame or close may come at any time; and the
-- strand may go on on a thread with another pool.
pub data Step : Session → Session → Type 0 where
  header_read :
      (s : Session) (ok : Bool) (bytes : Bytes) (now : ℕ)
      → s.reading ≡ read_header
      → length bytes ≡ 8
      → Step s (header_completed s ok bytes now)
  body_read :
      (s : Session) (ok : Bool) (size : ℕ) (body : Bytes)
      → s.reading ≡ read_body size
      → length body ≡ size
      → Step s (body_completed s ok body)
  written : (s : Session) (ok : Bool) → 0 < s.writes → Step s (write_completed s ok)
  timer_fired :
      (s : Session) (ok : Bool) (now : ℕ) → s.timer ≡ true → Step s (timer_completed s ok now)
  frame_posted : (s : Session) (frame : Buffer) → Step s (enqueue_write s frame)
  close_posted : (s : Session) → Step s (handle_close s)
  other_thread :
      (s : Session) (pool : BufferPool) → IsValid pool → Step s (record s { pool = pool })

-- Any number of steps.
pub data Steps : Session → Session → Type 0 where
  none_left : (s : Session) → Steps s s
  then_step : (s t u : Session) → Steps s t → Step t u → Steps s u
