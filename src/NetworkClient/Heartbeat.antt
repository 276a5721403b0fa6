-- ===== src/NetworkClient/Heartbeat.antt =====
-- The heartbeat of NightNetwork/src/Client.cpp: how a silent connection ends.
use project_night.Prelude.{
  ℕ, ◌-◌, ◌*◌, ◌^◌, ◌≤◌, ◌≡◌, refl, ◌∙◌, ◌⊎◌, inl, inr, Bool, true, false, List, [], ◌∷◌, ◌++◌,
  arith, Bool-cases,
}
use project_night.Wire.{Bytes}
use project_night.Pool.{Buffer, BufferPool, release}
use project_night.Pool.Laws.{IsValid}
use project_night.Frame
use project_night.Frame.{build_keepalive_frame, memcpy}
use project_night.NetworkClient.{
  Client, Task, Connecting, send_frame, close_connection, create, handle_disconnect, do_write,
  write_front, enqueue_frame, body_completed, begin_shutdown, write_completed, write_popped,
  timer_completed, send, run_task, run_posted, poll_packet,
}
use project_night.NetworkClient.Step.{
  Step, Steps, header_read, body_read, written, timer_fired, timer_cancelled, task_run, sent,
  polled, shutdown_begun, shutdown_ended, none_left, then_step,
}
use project_night.NetworkClient.Invariant.{create-IsSound}

-- No header is read.
abbrev IsQuietStep : (c d : Client) → Step c d → Type 0
IsQuietStep _ _ (header_read c ok bytes now runs reading sized) = ⊥
IsQuietStep _ _ (body_read c ok size body meanwhile runs reading sized) = Unit
IsQuietStep _ _ (written c ok runs pending) = Unit
IsQuietStep _ _ (timer_fired c now runs armed) = Unit
IsQuietStep _ _ (timer_cancelled c now runs armed gone) = Unit
IsQuietStep _ _ (task_run c runs) = Unit
IsQuietStep _ _ (sent c pool payload valid) = Unit
IsQuietStep _ _ (polled c) = Unit
IsQuietStep _ _ (shutdown_begun c) = Unit
IsQuietStep _ _ (shutdown_ended c down done) = Unit

abbrev pub IsQuiet : (c d : Client) → Steps c d → Type 0
IsQuiet _ _ (none_left c) = Unit
IsQuiet _ _ (then_step c d e run last) = IsQuiet c d run × IsQuietStep d e last

abbrev last : Client → ℕ
last c = c.last_activity

handle_disconnect-last : (c : Client) → last (handle_disconnect c) ≡ last c
unfolding handle_disconnect
handle_disconnect-last c = ground arith

do_write-last : (c : Client) → last (do_write c) ≡ last c
unfolding do_write
do_write-last c = go c.write_queue
  where
    go : (frames : List Buffer) → last (write_front c frames) ≡ last c
    go [] = refl
    go (f ∷ fs) = refl

enqueue_frame-last : (c : Client) (frame : Buffer) → last (enqueue_frame c frame) ≡ last c
unfolding enqueue_frame Frame.enqueue_frame handle_disconnect
enqueue_frame-last c frame =
    ground (arith, do_write-last (record c { write_queue = c.write_queue ++ frame ∷ [] }))

body_completed-last :
    (c : Client) (ok : Bool) (body : Bytes) (meanwhile : Bool)
    → last (body_completed c ok body meanwhile) ≡ last c
unfolding body_completed
body_completed-last c ok body meanwhile = ground arith

write_completed-last : (c : Client) (ok : Bool) → last (write_completed c ok) ≡ last c
unfolding write_completed handle_disconnect
write_completed-last c ok = go c.write_queue
  where
    go : (frames : List Buffer) → last (write_popped c ok frames) ≡ last c
    go [] = refl
    go (front ∷ rest) = ground (
      arith,
      do_write-last
          (record c { pool = release c.pool front; write_queue = rest; writes = c.writes - 1 }),
    )

timer_completed-last : (c : Client) (ok : Bool) (now : ℕ) → last (timer_completed c ok now) ≡ last c
unfolding timer_completed handle_disconnect
timer_completed-last c ok now =
    let (frame, pool) = build_keepalive_frame c.pool in
    ground (arith, enqueue_frame-last (record c { timer = false; pool = pool }) frame)

run_task-last : (c : Client) (task : Task) → last (run_task c task) ≡ last c
unfolding run_task
run_task-last c (send_frame frame) = ground (arith, enqueue_frame-last c frame)
run_task-last c close_connection = refl

run_posted-last : (c : Client) → last (run_posted c) ≡ last c
unfolding run_posted
run_posted-last c = go c.posted refl
  where
    go : (tasks : List Task) → c.posted ≡ tasks → last (run_posted c) ≡ last c
    go [] e = ground arith
    go (task ∷ rest) e = ground (arith, run_task-last (record c { posted = rest }) task)

Step-last : (c d : Client) (step : Step c d) → IsQuietStep c d step → last d ≡ last c
unfolding send poll_packet begin_shutdown
Step-last _ _ (header_read c ok bytes now runs reading sized) q = absurd q
Step-last _ _ (body_read c ok size body meanwhile runs reading sized) q =
    body_completed-last c ok body meanwhile
Step-last _ _ (written c ok runs pending) q = write_completed-last c ok
Step-last _ _ (timer_fired c now runs armed) q = timer_completed-last c true now
Step-last _ _ (timer_cancelled c now runs armed gone) q = timer_completed-last c false now
Step-last _ _ (task_run c runs) q = run_posted-last c
Step-last _ _ (sent c pool payload valid) q = ground arith
Step-last _ _ (polled c) q = ground arith
Step-last _ _ (shutdown_begun c) q = ground arith
Step-last _ _ (shutdown_ended c down done) q = refl

Steps-last : (c d : Client) (run : Steps c d) → IsQuiet c d run → last d ≡ last c
Steps-last _ _ (none_left c) q = refl
Steps-last _ _ (then_step c d e run step) q = Step-last d e step q.1 ∙ Steps-last c d run q.0

Steps-append : (c d e : Client) → Steps c d → Steps d e → Steps c e
Steps-append _ _ _ before (none_left d) = before
Steps-append c _ _ before (then_step d e f run step) =
    then_step c e f (Steps-append c d e before run) step

-- It is over, or the timer is armed and its expiry at a time ends it.
abbrev pub Ends : Client → ℕ → Type 0
Ends e now =
    (e.connected ≡ false)
    ⊎ (Step e (timer_completed e true now)
        × ((timer_completed e true now).connected ≡ false)
        × ((timer_completed e true now).socket_open ≡ false)
        × ((timer_completed e true now).timer ≡ false))

-- When no header is read after some moment of a run, then 15 seconds or more after the last activity
-- before that moment, whatever else has happened, the client is disconnected, or its timer is
-- armed and closes the socket when it expires then, and is not armed again.
pub silence-Ends :
    (pool : BufferPool) (start : ℕ) (calls : Connecting) (c d e : Client) (now : ℕ)
    → IsValid pool
    → create pool start calls ≡ inr c
    → Steps c d
    → (quiet : Steps d e) → IsQuiet d e quiet
    → e.stopped ≡ false
    → 15 * 10 ^ 9 ≤ now - d.last_activity
    → Ends e now
unfolding timer_completed handle_disconnect
silence-Ends pool start calls c d e now valid made run quiet silent runs late =
    let v = create-IsSound pool start calls c e valid made (Steps-append c d e run quiet) in
    let same = Steps-last d e quiet silent in
    elim (Bool-cases e.connected) [
      | inl on ↦
          inr (timer_fired e now runs (v.beating on), ground arith, ground arith, ground arith)
      | inr off ↦ inl off
    ]
