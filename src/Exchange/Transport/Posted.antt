-- ===== src/Exchange/Transport/Posted.antt =====
-- The posted tasks of NightNetwork/src/Client.cpp while its handlers run.
use mathlib.Core.List.{append-nil}
use project_night.Prelude.{
  ◌≡◌, refl, sym, ap, subst, inl, inr, Bool, List, [], ◌∷◌, arith, Bool-cases,
}
use project_night.Wire.{Bytes}
use project_night.NetworkClient.{
  Client, Task, send_frame, close_connection, run_task, run_posted, enqueue_frame, begin_shutdown,
  handle_disconnect, body_completed, push_packet,
}
use project_night.NetworkClient.Sound.{IsSound}
use project_night.NetworkClient.Sound.Writes.{apart-IsSound}
use project_night.NetworkClient.Fifo.{line, enqueue_frame-line}
use project_night.NetworkClient.Calm.{enqueue_frame-Calm}
use project_night.Exchange.Transport.Upstream.{frames_in, frames_in-append, InTransit, same_transit}
use project_night.Exchange.Transport.Arrival.{front_transit}

pub body_completed-frames :
    (c : Client) (ok : Bool) (body : Bytes) (meanwhile : Bool)
    → frames_in (body_completed c ok body meanwhile).posted ≡ frames_in c.posted
unfolding body_completed handle_disconnect push_packet begin_shutdown
body_completed-frames c ok body meanwhile =
    ground
      (arith, frames_in-append c.posted (close_connection ∷ []), append-nil (frames_in c.posted))

pub begin_shutdown-frames : (c : Client) → frames_in (begin_shutdown c).posted ≡ frames_in c.posted
unfolding begin_shutdown
begin_shutdown-frames c =
    ground
      (arith, frames_in-append c.posted (close_connection ∷ []), append-nil (frames_in c.posted))

pub begin_shutdown-line : (c : Client) → line (begin_shutdown c) ≡ line c
unfolding begin_shutdown
begin_shutdown-line c = ground arith

-- A task that is run leaves the list, and its frame is taken in or dropped.
pub run_posted_transit :
    (c : Client) (payloads : List Bytes)
    → IsSound c
    → InTransit c payloads
    → InTransit (run_posted c) payloads
unfolding run_posted run_task
run_posted_transit c payloads v t = go c.posted refl
  where
    go : (tasks : List Task) → c.posted ≡ tasks → InTransit (run_posted c) payloads
    go [] e = subst (λ d. InTransit d payloads) (ground arith) t
    go (close_connection ∷ rest) e =
        same_transit c (run_posted c) payloads (ground arith) (ground arith) t
    go (send_frame frame ∷ rest) e =
        let left = record c { posted = rest } in
        let apart = apart-IsSound c rest c.receive_queue c.polled c.stopped v.safe.received v in
        elim (Bool-cases c.shutting_down) [
          | inl down ↦
              front_transit c (run_posted c) frame.bytes rest payloads t (ap frames_in e)
                (ground arith) (inl (ground arith))
          | inr up ↦
              let taken : run_posted c ≡ enqueue_frame left frame = ground arith in
              subst (λ d. InTransit d payloads) (sym taken)
                (front_transit c (enqueue_frame left frame) frame.bytes rest payloads t
                  (ap frames_in e) (enqueue_frame-Calm left frame).posted
                  (enqueue_frame-line left frame
                    (record { safe = apart.safe; awake = apart.awake })))
        ]
