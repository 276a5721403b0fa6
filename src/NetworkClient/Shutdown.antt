-- ===== src/NetworkClient/Shutdown.antt =====
-- What the shutdown of NightNetwork/src/Client.cpp ends for good.
use mathlib.Core.List.{append_assoc}
use project_night.Prelude.{
  ℕ, ◌-◌, ◌*◌, ◌^◌, ◌≡◌, refl, sym, ◌∙◌, subst, Bool, true, false, List, [], ◌∷◌, ◌++◌, arith,
  Bool-cases, leb, inl, inr,
}
use project_night.Wire.{Bytes}
use project_night.Pool.{Buffer, BufferPool, release}
use project_night.Frame.{build_keepalive_frame}
use project_night.Session.{Reading, no_read}
use project_night.NetworkClient.{
  Client, Task, send_frame, close_connection, handle_disconnect, header_completed, body_completed,
  write_completed, write_popped, timer_completed, enqueue_frame, send, run_task, run_posted,
  poll_packet, begin_shutdown,
}
use project_night.NetworkClient.Step.{
  Step, Steps, header_read, body_read, written, timer_fired, timer_cancelled, task_run, sent,
  polled, shutdown_begun, shutdown_ended, none_left, then_step,
}

-- The packets of the game's thread: those polled, then those that wait.
abbrev packets : Client → List Bytes
packets c = c.polled ++ c.receive_queue

-- Between two states of a shutdown: nothing more is written or read, no packet is added or lost, and
-- there is no new connection.
pub record IsOver (c d : Client) : Type 0 where
  pub down : d.shutting_down ≡ true
  pub wire : d.wire ≡ c.wire
  pub arrived : d.arrived ≡ c.arrived
  pub packets_lem : packets d ≡ packets c
  pub dropped : d.dropped_packets ≡ c.dropped_packets
  pub connected : d.connected ≡ true → c.connected ≡ true

IsOver-trans : (b c d : Client) → IsOver b c → IsOver c d → IsOver b d
IsOver-trans b c d x y = record {
  down = y.down;
  wire = y.wire ∙ x.wire;
  arrived = y.arrived ∙ x.arrived;
  packets_lem = y.packets_lem ∙ x.packets_lem;
  dropped = y.dropped ∙ x.dropped;
  connected = λ h. x.connected (y.connected h);
}

-- What else a step may change.
abbrev others : Client → BufferPool → Reading → List Buffer → ℕ → Bool → List Task → Bool → Client
others c pool reading write_queue writes timer posted stopped = record c {
  pool = pool;
  reading = reading;
  write_queue = write_queue;
  writes = writes;
  timer = timer;
  posted = posted;
  stopped = stopped;
}

module _ (c : Client) (down : c.shutting_down ≡ true) (pool : BufferPool) (reading : Reading)
    (write_queue : List Buffer) (writes : ℕ) (timer : Bool) (posted : List Task)
    (stopped : Bool) where
  others-IsOver : IsOver c (others c pool reading write_queue writes timer posted stopped)
  others-IsOver = record {
    down = down;
    wire = refl;
    arrived = refl;
    packets_lem = refl;
    dropped = refl;
    connected = λ h. h;
  }

  disconnected-IsOver :
      IsOver c (handle_disconnect (others c pool reading write_queue writes timer posted stopped))
  unfolding handle_disconnect
  disconnected-IsOver = record {
    down = ground arith;
    wire = ground arith;
    arrived = ground arith;
    packets_lem = ground arith;
    dropped = ground arith;
    connected = λ h. ground arith;
  }

enqueue_frame-over :
    (c : Client) (frame : Buffer)
    → c.shutting_down ≡ true
    → enqueue_frame c frame ≡ record c { pool = release c.pool frame }
unfolding enqueue_frame
enqueue_frame-over c frame down = ground arith

unchanged : (c d : Client) → c.shutting_down ≡ true → d ≡ c → IsOver c d
unchanged c d down e =
    subst (IsOver c) (sym e)
      (others-IsOver c down c.pool c.reading c.write_queue c.writes c.timer c.posted c.stopped)

header_completed-IsOver :
    (c : Client) (ok : Bool) (bytes : Bytes) (now : ℕ)
    → c.shutting_down ≡ true
    → IsOver c (header_completed c ok bytes now)
unfolding header_completed
header_completed-IsOver c ok bytes now down =
    let gone : header_completed c ok bytes now
        ≡ handle_disconnect (record c { reading = no_read }) =
      ground arith in
    subst (IsOver c) (sym gone)
      (disconnected-IsOver c down c.pool no_read c.write_queue c.writes c.timer c.posted c.stopped)

body_completed-IsOver :
    (c : Client) (ok : Bool) (body : Bytes) (meanwhile : Bool)
    → c.shutting_down ≡ true
    → IsOver c (body_completed c ok body meanwhile)
unfolding body_completed
body_completed-IsOver c ok body meanwhile down =
    let gone : body_completed c ok body meanwhile
        ≡ handle_disconnect (record c { reading = no_read }) =
      ground arith in
    subst (IsOver c) (sym gone)
      (disconnected-IsOver c down c.pool no_read c.write_queue c.writes c.timer c.posted c.stopped)

write_completed-IsOver :
    (c : Client) (ok : Bool) → c.shutting_down ≡ true → IsOver c (write_completed c ok)
unfolding write_completed
write_completed-IsOver c ok down = go c.write_queue
  where
    go : (frames : List Buffer) → IsOver c (write_popped c ok frames)
    go [] = unchanged c c down refl
    go (front ∷ rest) =
        let pool = release c.pool front in
        let popped = record c { pool = pool; write_queue = rest; writes = c.writes - 1 } in
        let gone : write_popped c ok (front ∷ rest) ≡ handle_disconnect popped = ground arith in
        subst (IsOver c) (sym gone)
          (disconnected-IsOver c down pool c.reading rest (c.writes - 1) c.timer c.posted c.stopped)

timer_completed-IsOver :
    (c : Client) (ok : Bool) (now : ℕ)
    → c.shutting_down ≡ true
    → IsOver c (timer_completed c ok now)
unfolding timer_completed
timer_completed-IsOver c false now down =
    others-IsOver c down c.pool c.reading c.write_queue c.writes false c.posted c.stopped
timer_completed-IsOver c true now down =
    let done = record c { timer = false } in
    let (frame, pool) = build_keepalive_frame c.pool in
    elim (Bool-cases (leb (15 * 10 ^ 9) (now - c.last_activity))) [
      | inl late ↦ rw late (
          disconnected-IsOver c down c.pool c.reading c.write_queue c.writes false c.posted
            c.stopped)
      | inr alive ↦
          rw (alive, enqueue_frame-over (record done { pool = pool }) frame down)
            (others-IsOver c down (release pool frame) c.reading c.write_queue c.writes true
              c.posted c.stopped)
    ]

run_posted-IsOver : (c : Client) → c.shutting_down ≡ true → IsOver c (run_posted c)
unfolding run_posted run_task
run_posted-IsOver c down = go c.posted refl
  where
    go : (tasks : List Task) → c.posted ≡ tasks → IsOver c (run_posted c)
    go [] e = unchanged c _ down (ground arith)
    go (send_frame frame ∷ rest) e =
        let pool = release c.pool frame in
        let same : run_posted c ≡ record c { pool = pool; posted = rest } = ground arith in
        subst (IsOver c) (sym same)
          (others-IsOver c down pool c.reading c.write_queue c.writes c.timer rest c.stopped)
    go (close_connection ∷ rest) e = record {
      down = ground arith;
      wire = ground arith;
      arrived = ground arith;
      packets_lem = ground arith;
      dropped = ground arith;
      connected = λ h. ground arith;
    }

poll_packet-IsOver : (c : Client) → c.shutting_down ≡ true → IsOver c (poll_packet c).1
unfolding poll_packet
poll_packet-IsOver c down = go c.receive_queue refl
  where
    go : (frames : List Bytes) → c.receive_queue ≡ frames → IsOver c (poll_packet c).1
    go [] e = unchanged c _ down (ground arith)
    go (packet ∷ rest) e = record {
      down = ground arith;
      wire = ground arith;
      arrived = ground arith;
      packets_lem = ground (arith, append_assoc c.polled (packet ∷ []) rest);
      dropped = ground arith;
      connected = λ h. ground arith;
    }

Step-IsOver : (c d : Client) → Step c d → c.shutting_down ≡ true → IsOver c d
unfolding send begin_shutdown
Step-IsOver _ _ (header_read c ok bytes now runs reading sized) down =
    header_completed-IsOver c ok bytes now down
Step-IsOver _ _ (body_read c ok size body meanwhile runs reading sized) down =
    body_completed-IsOver c ok body meanwhile down
Step-IsOver _ _ (written c ok runs pending) down = write_completed-IsOver c ok down
Step-IsOver _ _ (timer_fired c now runs armed) down = timer_completed-IsOver c true now down
Step-IsOver _ _ (timer_cancelled c now runs armed gone) down =
    timer_completed-IsOver c false now down
Step-IsOver _ _ (task_run c runs) down = run_posted-IsOver c down
Step-IsOver _ _ (sent c pool payload valid) down = unchanged c _ down (ground arith)
Step-IsOver _ _ (polled c) down = poll_packet-IsOver c down
Step-IsOver _ _ (shutdown_begun c) down = unchanged c _ down (ground arith)
Step-IsOver _ _ (shutdown_ended c is_down done) down =
    others-IsOver c down c.pool c.reading c.write_queue c.writes c.timer c.posted true

Steps-IsOver : (c d : Client) → Steps c d → c.shutting_down ≡ true → IsOver c d
Steps-IsOver _ _ (none_left c) down = unchanged c c down refl
Steps-IsOver _ _ (then_step c d e run last) down =
    let before = Steps-IsOver c d run down in
    IsOver-trans c d e before (Step-IsOver d e last before.down)

begun_down : (c : Client) → (begin_shutdown c).shutting_down ≡ true
unfolding begin_shutdown
begun_down c = ground arith

-- From the moment the shutdown begins, whatever the two threads do then: nothing more is given to the
-- socket, nothing that is read arrives any more, no packet is dropped or lost before it is polled,
-- and a connection that was lost does not come back.
pub shutdown-IsOver : (c d : Client) → Steps (begin_shutdown c) d → IsOver (begin_shutdown c) d
shutdown-IsOver c d run = Steps-IsOver (begin_shutdown c) d run (begun_down c)
