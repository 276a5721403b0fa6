-- ===== src/NetworkClient/Stopped.antt =====
-- Why a client of NightNetwork/src/Client.cpp that was shut down has closed its connection.
use project_night.Prelude.{
  ℕ, ◌≡◌, refl, sym, ◌∙◌, ap, subst, inl, inr, Bool, true, false, List, [], ◌∷◌, ◌++◌, arith,
  Bool-cases,
}
use project_night.Wire.{Bytes}
use project_night.Pool.{BufferPool}
use project_night.Pool.Laws.{IsValid}
use project_night.NetworkClient.{
  Client, Task, Connecting, send_frame, close_connection, handle_disconnect, body_completed,
  enqueue_frame, send, run_task, run_posted, poll_packet, begin_shutdown, push_packet, create,
  release_frame,
}
use project_night.NetworkClient.Step.{
  Step, Steps, header_read, body_read, written, timer_fired, timer_cancelled, task_run, sent,
  polled, shutdown_begun, shutdown_ended, none_left, then_step,
}
use project_night.NetworkClient.Sound.{IsSound}
use project_night.NetworkClient.Invariant.{started, create-started, create-IsSound}
use project_night.NetworkClient.Calm.{
  Calm, enqueue_frame-Calm, header_completed-Calm, write_completed-Calm, timer_completed-Calm,
}

-- The end of the connection is posted.
abbrev has_end : List Task → Bool
has_end [] = false
has_end (send_frame frame ∷ tasks) = has_end tasks
has_end (close_connection ∷ tasks) = true

-- A client that shuts down is disconnected, or will be by a posted task; and one that was stopped
-- is disconnected.
record Ends (c : Client) : Type 0 where
  promised : c.shutting_down ≡ true → c.connected ≡ true → has_end c.posted ≡ true
  kept : c.stopped ≡ true → c.connected ≡ false

Calm-Ends : (c d : Client) → Calm c d → Ends c → Ends d
Calm-Ends c d k e = record {
  promised =
      λ down on. ap has_end k.posted ∙ e.promised (sym k.shutting_down ∙ down) (k.connected on);
  kept = λ halted. elim (Bool-cases d.connected) [
    | inl on ↦ absurd (cc (e.kept (sym k.stopped ∙ halted), k.connected on))
    | inr off ↦ off
  ];
}

has_end-close : (tasks : List Task) → has_end (tasks ++ close_connection ∷ []) ≡ true
has_end-close [] = refl
has_end-close (send_frame frame ∷ tasks) = has_end-close tasks
has_end-close (close_connection ∷ tasks) = refl

begin_shutdown-Ends : (c : Client) → Ends c → Ends (begin_shutdown c)
unfolding begin_shutdown
begin_shutdown-Ends c e = record {
  promised = λ down on. ground (arith, e.promised, has_end-close c.posted);
  kept = λ halted. ground (arith, e.kept);
}

body_completed-Ends :
    (c : Client) (ok : Bool) (body : Bytes) (meanwhile : Bool)
    → Ends c
    → Ends (body_completed c ok body meanwhile)
unfolding body_completed handle_disconnect push_packet begin_shutdown
body_completed-Ends c ok body meanwhile e = record {
  promised = λ down on. ground (arith, e.promised, has_end-close c.posted);
  kept = λ halted. ground (arith, e.kept);
}

run_posted-Ends : (c : Client) → Ends c → Ends (run_posted c)
unfolding run_posted run_task
run_posted-Ends c e = go c.posted refl
  where
    go : (tasks : List Task) → c.posted ≡ tasks → Ends (run_posted c)
    go [] none_there = subst Ends (ground arith) e
    go (send_frame frame ∷ rest) front =
        let left : Client = record c { posted = rest } in
        let ends : Ends left = record {
          promised = λ down on. ap has_end (sym front) ∙ e.promised down on;
          kept = e.kept;
        } in
        elim (Bool-cases c.shutting_down) [
          | inl down ↦
              let same : run_posted c ≡ release_frame left frame = ground arith in
              subst Ends (sym same) (record { promised = ends.promised; kept = ends.kept })
          | inr up ↦
              let same : run_posted c ≡ enqueue_frame left frame = ground arith in
              subst Ends (sym same)
                (Calm-Ends left (enqueue_frame left frame) (enqueue_frame-Calm left frame) ends)
        ]
    go (close_connection ∷ rest) front = record {
      promised = λ down on. absurd (ground arith);
      kept = λ halted. ground arith;
    }

send-Ends :
    (c : Client) (pool : BufferPool) (payload : Bytes) → Ends c → Ends (send c pool payload).0
unfolding send
send-Ends c pool payload e = record {
  promised = λ down on. ground (arith, e.promised);
  kept = λ halted. ground (arith, e.kept);
}

poll_packet-Ends : (c : Client) → Ends c → Ends (poll_packet c).1
unfolding poll_packet
poll_packet-Ends c e = record {
  promised = λ down on. ground (arith, e.promised);
  kept = λ halted. ground (arith, e.kept);
}

-- When no task waits, the promise was kept.
end_shutdown-Ends :
    (c : Client)
    → c.shutting_down ≡ true
    → c.posted ≡ []
    → Ends c
    → Ends (record c { stopped = true })
end_shutdown-Ends c down done e = record {
  promised = e.promised;
  kept = λ halted. elim (Bool-cases c.connected) [
    | inl on ↦ absurd (cc (ap has_end (sym done) ∙ e.promised down on))
    | inr off ↦ off
  ];
}

Step-Ends : (c d : Client) → Step c d → Ends c → Ends d
Step-Ends _ d (header_read c ok bytes now runs reading sized) e =
    Calm-Ends c d (header_completed-Calm c ok bytes now) e
Step-Ends _ _ (body_read c ok size body meanwhile runs reading sized) e =
    body_completed-Ends c ok body meanwhile e
Step-Ends _ d (written c ok runs pending) e = Calm-Ends c d (write_completed-Calm c ok) e
Step-Ends _ d (timer_fired c now runs armed) e = Calm-Ends c d (timer_completed-Calm c true now) e
Step-Ends _ d (timer_cancelled c now runs armed gone) e =
    Calm-Ends c d (timer_completed-Calm c false now) e
Step-Ends _ _ (task_run c runs) e = run_posted-Ends c e
Step-Ends _ _ (sent c pool payload valid) e = send-Ends c pool payload e
Step-Ends _ _ (polled c) e = poll_packet-Ends c e
Step-Ends _ _ (shutdown_begun c) e = begin_shutdown-Ends c e
Step-Ends _ _ (shutdown_ended c down done) e = end_shutdown-Ends c down done e

Steps-Ends : (c d : Client) → Steps c d → Ends c → Ends d
Steps-Ends _ _ (none_left c) e = e
Steps-Ends _ _ (then_step c d f run last) e = Step-Ends d f last (Steps-Ends c d run e)

started-Ends : (pool : BufferPool) (now : ℕ) → Ends (started pool now)
unfolding started
started-Ends pool now = record { promised = λ down on. cc; kept = λ halted. cc }

-- In every run of a client that `create` gave: when `shutdown` has stopped the I/O thread, the client
-- is not connected and its socket is closed.
pub stopped_is_closed :
    (pool : BufferPool) (now : ℕ) (calls : Connecting) (c d : Client)
    → IsValid pool
    → create pool now calls ≡ inr c
    → Steps c d
    → d.stopped ≡ true
    → (d.connected ≡ false) × (d.socket_open ≡ false)
stopped_is_closed pool now calls c d valid made run halted =
    let is = create-started pool now calls c made in
    let ends = Steps-Ends c d run (subst Ends (sym is) (started-Ends pool now)) in
    let sound : IsSound d = create-IsSound pool now calls c d valid made run in
    (ends.kept halted, sound.safe.open_lem ∙ ends.kept halted)
