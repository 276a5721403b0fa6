-- ===== src/Exchange/Transport/Received.antt =====
-- What a session reads of what a client sends, over whole runs (NightNetwork/src/Client.cpp, NightNetwork/src/Session.cpp).
use mathlib.Core.List.{append-nil, append_assoc}
use project_night.Prelude.{
  ℕ, ◌*◌, ◌≤◌, ◌≡◌, refl, sym, ◌∙◌, ap, subst, inr, true, false, List, [], ◌++◌, arith, length,
  length-map,
}
use project_night.Prelude.Within.{Within, nothing, Within-all, Within-front, Within-trans}
use project_night.Wire.{Bytes}
use project_night.Pool.{BufferPool}
use project_night.Pool.Laws.{IsValid}
use project_night.Session.{Session, read_header}
use project_night.Session.Fifo.{contents, behind}
use project_night.Session.Stream.{session_reader, read_stream-Delivered}
use project_night.Reader.{frame_of, stream_of, payloads_of, read_stream}
use project_night.NetworkClient.{
  Client, Connecting, create, run_posted, poll_packet, begin_shutdown, timer_completed,
  header_completed, body_completed, write_completed, end_shutdown,
}
use project_night.NetworkClient.Step.{
  Step, Steps, header_read, body_read, written, timer_fired, timer_cancelled, task_run, sent,
  polled, shutdown_begun, shutdown_ended, none_left, then_step,
}
use project_night.NetworkClient.Sound.{IsSound}
use project_night.NetworkClient.Invariant.{started, create-started, create-IsSound, Steps-IsSound}
use project_night.NetworkClient.Fifo.{
  line, write_completed-line, header_completed-line, body_completed-line,
}
use project_night.NetworkClient.Calm.{
  header_completed-Calm, write_completed-Calm, timer_completed-Calm,
}
use project_night.Exchange.Transport.Upstream.{
  payloads_in_step, payloads_in, frames_in, InTransit, same_transit, sent_transit,
}
use project_night.Exchange.Transport.Arrival.{timer_transit}
use project_night.Exchange.Transport.Delivery.{concat, concat_frames, Front, frames-Front}
use project_night.Exchange.Transport.Posted.{
  body_completed-frames, begin_shutdown-frames, begin_shutdown-line, run_posted_transit,
}

poll_packet_transit :
    (c : Client) (payloads : List Bytes)
    → InTransit c payloads
    → InTransit (poll_packet c).1 payloads
unfolding poll_packet
poll_packet_transit c payloads t =
    same_transit c (poll_packet c).1 payloads (ground arith) (ground arith) t

cancelled_transit :
    (c : Client) (now : ℕ) (payloads : List Bytes)
    → InTransit c payloads
    → InTransit (timer_completed c false now) payloads
unfolding timer_completed
cancelled_transit c now payloads t =
    same_transit c (timer_completed c false now) payloads refl refl t

by_none : (d : Client) (ps : List Bytes) → InTransit d ps → InTransit d (ps ++ [])
by_none d ps t = subst (InTransit d) (sym (append-nil ps)) t

Step-InTransit :
    (c d : Client) (step : Step c d) (payloads : List Bytes)
    → IsSound c
    → InTransit c payloads
    → InTransit d (payloads ++ payloads_in_step c d step)
Step-InTransit _ _ (header_read c ok bytes now runs reading sized) ps v t =
    by_none (header_completed c ok bytes now) ps (
      same_transit c (header_completed c ok bytes now) ps (header_completed-line c ok bytes now)
        (ap frames_in (header_completed-Calm c ok bytes now).posted) t)
Step-InTransit _ _ (body_read c ok size body meanwhile runs reading sized) ps v t =
    by_none (body_completed c ok body meanwhile) ps (
      same_transit c (body_completed c ok body meanwhile) ps
        (body_completed-line c ok body meanwhile) (body_completed-frames c ok body meanwhile) t)
Step-InTransit _ _ (written c ok runs pending) ps v t = by_none (write_completed c ok) ps (
    same_transit c (write_completed c ok) ps (write_completed-line c ok v pending)
      (ap frames_in (write_completed-Calm c ok).posted) t)
Step-InTransit _ _ (timer_fired c now runs armed) ps v t =
    by_none (timer_completed c true now) ps
      (timer_transit c now ps v (timer_completed-Calm c true now).posted t)
Step-InTransit _ _ (timer_cancelled c now runs armed gone) ps v t =
    by_none (timer_completed c false now) ps (cancelled_transit c now ps t)
Step-InTransit _ _ (task_run c runs) ps v t =
    by_none (run_posted c) ps (run_posted_transit c ps v t)
Step-InTransit _ _ (sent c pool payload valid) ps v t = sent_transit c pool payload ps valid t
Step-InTransit _ _ (polled c) ps v t = by_none (poll_packet c).1 ps (poll_packet_transit c ps t)
Step-InTransit _ _ (shutdown_begun c) ps v t =
    by_none (begin_shutdown c) ps
      (same_transit c (begin_shutdown c) ps (begin_shutdown-line c) (begin_shutdown-frames c) t)
Step-InTransit _ _ (shutdown_ended c down done) ps v t =
    by_none (end_shutdown c) ps (same_transit c (end_shutdown c) ps refl refl t)

Steps-InTransit :
    (c d : Client) (run : Steps c d) (payloads : List Bytes)
    → IsSound c
    → InTransit c payloads
    → InTransit d (payloads ++ payloads_in c d run)
Steps-InTransit _ _ (none_left c) ps v t = by_none c ps t
Steps-InTransit _ _ (then_step c d e run last) ps v t =
    subst (InTransit e) (append_assoc ps (payloads_in c d run) (payloads_in_step d e last)) (
      Step-InTransit d e last (ps ++ payloads_in c d run) (Steps-IsSound c d run v)
        (Steps-InTransit c d run ps v t))

started-InTransit : (pool : BufferPool) (now : ℕ) → InTransit (started pool now) []
unfolding started
started-InTransit pool now = record {
  units = [];
  in_line = refl;
  sendable = tt;
  waiting = [];
  in_tasks = refl;
  waiting_ok = tt;
  order = nothing;
}

-- A session has read all that was written: it waits for the next header, is as open as before, and
-- what it received is part of what was sent.
pub record Arrived (clock : ℕ → ℕ) (n : ℕ) (s : Session) (stream : Bytes) (sent : List Bytes)
    : Type 0 where
  pub next : Session
  pub read : read_stream session_reader clock n s stream ≡ (next, [])
  pub new : List Bytes
  pub received : next.received ≡ s.received ++ new
  pub from_sent : Within new sent
  pub waiting : next.reading ≡ read_header
  pub still : next.closed ≡ s.closed

-- What is on its way when some of it was written.
written-Arrived :
    (d : Client) (payloads : List Bytes) (clock : ℕ → ℕ) (n : ℕ) (s : Session)
    → InTransit d payloads
    → s.reading ≡ read_header
    → IsValid s.pool
    → 2 * length d.wire ≤ n
    → Arrived clock n s (concat d.wire) payloads
written-Arrived d payloads clock n s t waits valid enough =
    let front : Front t.units d.wire =
      frames-Front t.units (line d) (line d) d.wire (contents (behind d.writes d.write_queue))
        (Within-all (line d)) (sym t.in_line) refl t.sendable in
    let stream : concat d.wire ≡ stream_of front.chosen =
      ap concat (sym front.chosen_frames) ∙ concat_frames front.chosen in
    let count : length d.wire ≡ length front.chosen =
      ap length (sym front.chosen_frames) ∙ length-map front.chosen frame_of in
    let read =
      read_stream-Delivered clock n s front.chosen waits valid front.sendable
        (omega (arith, enough, count)) in
    record {
      next = read.next;
      read = ap (read_stream session_reader clock n s) stream ∙ read.read;
      new = payloads_of front.chosen;
      received = read.received;
      from_sent =
          Within-trans (payloads_of front.chosen) (payloads_of t.units) payloads front.payloads
            (Within-front (payloads_of t.units) (payloads_of t.waiting) payloads t.order);
      waiting = read.waiting;
      still = read.still;
    }

-- In every run of a client that `create` gave: a session that waits for a header reads all the bytes
-- that the client gave to its socket, in at most two reads for each frame, and stays as open as it
-- was; what it passes on is payloads that were given to `send`, unchanged and in the order of the
-- calls, each at most once; some may be missing, for they were refused, or wait. The pools on both
-- sides are valid.
pub client-Arrived :
    (pool : BufferPool) (now : ℕ) (calls : Connecting) (c d : Client) (clock : ℕ → ℕ) (n : ℕ)
    (s : Session)
    → IsValid pool
    → create pool now calls ≡ inr c
    → (run : Steps c d) → s.reading ≡ read_header
    → IsValid s.pool
    → 2 * length d.wire ≤ n
    → Arrived clock n s (concat d.wire) (payloads_in c d run)
client-Arrived pool now calls c d clock n s valid made run waits ok enough =
    let is : c ≡ started pool now = create-started pool now calls c made in
    let sound : IsSound c = create-IsSound pool now calls c c valid made (none_left c) in
    let on_the_way : InTransit d (payloads_in c d run) =
      Steps-InTransit c d run [] sound
        (subst (λ e. InTransit e []) (sym is) (started-InTransit pool now)) in
    written-Arrived d (payloads_in c d run) clock n s on_the_way waits ok enough
