-- ===== src/NetworkClient/Sized.antt =====
-- The sizes of the bodies that NightNetwork/src/Client.cpp asks for.
use project_night.Prelude.{
  ℕ, ◌-◌, ◌≤◌, ◌≡◌, refl, sym, ◌∙◌, inl, inr, Bool, true, false, not, ◌||◌, List, [], ◌∷◌, arith,
  Bool-cases,
}
use project_night.Wire.{Bytes, Header, Decoded, header, unexpected, decode_header, check_header}
use project_night.Pool.{Buffer, release}
use project_night.Frame.{build_keepalive_frame}
use project_night.Session.{read_body}
use project_night.NetworkClient.{
  Client, Task, send_frame, close_connection, handle_disconnect, header_completed, body_completed,
  push_packet, write_completed, write_popped, timer_completed, send, run_task, run_posted,
  poll_packet, begin_shutdown,
}
use project_night.NetworkClient.Step.{
  Step, Steps, header_read, body_read, written, timer_fired, timer_cancelled, task_run, sent,
  polled, shutdown_begun, shutdown_ended, none_left, then_step,
}
use project_night.NetworkClient.Sound.{do_write-Keeps, enqueue_frame-Keeps}

-- A body is read only of a size that a header was accepted with.
abbrev pub IsSized : Client → Type 0
IsSized c = (size : ℕ) → c.reading ≡ read_body size → size ≤ 2048

same_reading : (c d : Client) → d.reading ≡ c.reading → IsSized c → IsSized d
same_reading c d e v size h = v size (sym e ∙ h)

handle_disconnect-reading : (c : Client) → (handle_disconnect c).reading ≡ c.reading
unfolding handle_disconnect
handle_disconnect-reading c = ground arith

-- A header that is accepted has a payload of at most 2048 bytes.
accepted_size :
    (bytes : Bytes) (h : Header) → decode_header bytes ≡ header h → h.payload_size ≤ 2048
unfolding decode_header check_header
accepted_size bytes h e = ground arith

header_completed-IsSized :
    (c : Client) (ok : Bool) (bytes : Bytes) (now : ℕ) → IsSized (header_completed c ok bytes now)
unfolding header_completed handle_disconnect
header_completed-IsSized c ok bytes now size e = go (decode_header bytes) refl
  where
    go : (d : Decoded) → decode_header bytes ≡ d → size ≤ 2048
    go (unexpected error) same = absurd (ground arith)
    go (header h) same = ground (arith, accepted_size bytes h same)

body_completed-IsSized :
    (c : Client) (ok : Bool) (body : Bytes) (meanwhile : Bool)
    → IsSized (body_completed c ok body meanwhile)
unfolding body_completed handle_disconnect push_packet begin_shutdown
body_completed-IsSized c ok body meanwhile size e = absurd (ground arith)

write_completed-reading : (c : Client) (ok : Bool) → (write_completed c ok).reading ≡ c.reading
unfolding write_completed
write_completed-reading c ok = go c.write_queue
  where
    go : (frames : List Buffer) → (write_popped c ok frames).reading ≡ c.reading
    go [] = refl
    go (front ∷ rest) =
        let popped : Client = record c {
          pool = release c.pool front;
          write_queue = rest;
          writes = c.writes - 1;
        } in
        elim (Bool-cases (not ok || c.shutting_down)) [
          | inl ends ↦ rw ends (handle_disconnect-reading popped)
          | inr goes ↦ rw goes (do_write-Keeps popped).reading
        ]

timer_completed-reading :
    (c : Client) (ok : Bool) (now : ℕ) → (timer_completed c ok now).reading ≡ c.reading
unfolding timer_completed handle_disconnect
timer_completed-reading c ok now =
    let (frame, pool) = build_keepalive_frame c.pool in
    let k = enqueue_frame-Keeps (record c { timer = false; pool = pool }) frame in
    ground (arith, k.reading)

run_posted-reading : (c : Client) → (run_posted c).reading ≡ c.reading
unfolding run_posted run_task
run_posted-reading c = go c.posted refl
  where
    go : (tasks : List Task) → c.posted ≡ tasks → (run_posted c).reading ≡ c.reading
    go [] e = ground arith
    go (send_frame frame ∷ rest) e =
        let k = enqueue_frame-Keeps (record c { posted = rest }) frame in ground (arith, k.reading)
    go (close_connection ∷ rest) e = ground arith

Step-IsSized : (c d : Client) → Step c d → IsSized c → IsSized d
unfolding send begin_shutdown poll_packet
Step-IsSized _ _ (header_read c ok bytes now runs reading sized) v =
    header_completed-IsSized c ok bytes now
Step-IsSized _ _ (body_read c ok size body meanwhile runs reading sized) v =
    body_completed-IsSized c ok body meanwhile
Step-IsSized _ d (written c ok runs pending) v = same_reading c d (write_completed-reading c ok) v
Step-IsSized _ d (timer_fired c now runs armed) v =
    same_reading c d (timer_completed-reading c true now) v
Step-IsSized _ d (timer_cancelled c now runs armed gone) v =
    same_reading c d (timer_completed-reading c false now) v
Step-IsSized _ d (task_run c runs) v = same_reading c d (run_posted-reading c) v
Step-IsSized _ d (sent c pool payload valid) v = same_reading c d (ground arith) v
Step-IsSized _ d (polled c) v = same_reading c d (ground arith) v
Step-IsSized _ d (shutdown_begun c) v = same_reading c d (ground arith) v
Step-IsSized _ d (shutdown_ended c down done) v = same_reading c d refl v

pub Steps-IsSized : (c d : Client) → Steps c d → IsSized c → IsSized d
Steps-IsSized _ _ (none_left c) v = v
Steps-IsSized _ _ (then_step c d e run last) v = Step-IsSized d e last (Steps-IsSized c d run v)
