-- ===== src/NetworkClient/Accounts.antt =====
-- The account of the packets of NightNetwork/src/Client.cpp, and the handlers that leave it alone.
use mathlib.Core.List.{append_assoc}
use project_night.Prelude.{
  ℕ, ◌≤◌, ◌+◌, ◌-◌, ◌%◌, ◌^◌, ◌≡◌, refl, sym, ◌∙◌, ap, subst, inl, inr, Bool, false, not, ◌||◌,
  List, [], ◌∷◌, ◌++◌, arith, Bool-cases, length,
}
use project_night.Prelude.Within.{Within}
use project_night.Wire.{Bytes, Decoded, header, unexpected, decode_header}
use project_night.Pool.{Buffer, release}
use project_night.Frame
use project_night.Frame.{memcpy, build_keepalive_frame}
use project_night.Session.{no_read}
use project_night.NetworkClient.{
  Client, Task, send_frame, close_connection, handle_disconnect, do_write, write_front,
  enqueue_frame, header_completed, write_completed, write_popped, timer_completed, run_task,
  run_posted, poll_packet,
}

-- The packets that were polled, and those that wait.
abbrev pub kept : Client → List Bytes
kept c = c.polled ++ c.receive_queue

-- Every body that was read was kept, in order, or counted, or thrown away when the shutdown began.
pub record Accounts (c : Client) (bodies : List Bytes) : Type 0 where
  pub in_order : Within (kept c) bodies
  pub missed : ℕ
  pub thrown : ℕ
  pub all_counted : length bodies ≡ length (kept c) + missed + thrown
  pub dropped : c.dropped_packets ≡ missed % 2 ^ 64
  pub one_at_most : thrown ≤ 1
  pub at_the_end : c.shutting_down ≡ false → thrown ≡ 0

-- A step that touches none of this, and ends no shutdown.
abbrev pub Same : Client → Client → Type 0
Same c d =
    (kept d ≡ kept c)
    × (d.dropped_packets ≡ c.dropped_packets)
    × (d.shutting_down ≡ false → c.shutting_down ≡ false)

pub Same-Accounts :
    (c d : Client) (bodies : List Bytes) → Same c d → Accounts c bodies → Accounts d bodies
Same-Accounts c d bodies (k, n, up) v = record {
  in_order = subst (λ l. Within l bodies) (sym k) v.in_order;
  missed = v.missed;
  thrown = v.thrown;
  all_counted = v.all_counted ∙ ap (λ (l : List Bytes). length l + v.missed + v.thrown) (sym k);
  dropped = n ∙ v.dropped;
  one_at_most = v.one_at_most;
  at_the_end = λ h. v.at_the_end (up h);
}

pub handle_disconnect-Same : (c : Client) → Same c (handle_disconnect c)
unfolding handle_disconnect
handle_disconnect-Same c = ground arith

do_write-Same : (c : Client) → Same c (do_write c)
unfolding do_write
do_write-Same c = go c.write_queue
  where
    go : (frames : List Buffer) → Same c (write_front c frames)
    go [] = (refl, refl, λ h. h)
    go (f ∷ fs) = (refl, refl, λ h. h)

enqueue_frame-Same : (c : Client) (frame : Buffer) → Same c (enqueue_frame c frame)
unfolding enqueue_frame Frame.enqueue_frame handle_disconnect
enqueue_frame-Same c frame =
    ground (arith, do_write-Same (record c { write_queue = c.write_queue ++ frame ∷ [] }))

pub header_completed-Same :
    (c : Client) (ok : Bool) (bytes : Bytes) (now : ℕ) → Same c (header_completed c ok bytes now)
unfolding header_completed
header_completed-Same c ok bytes now =
    let closed = handle_disconnect-Same (record c { reading = no_read }) in
    elim (Bool-cases (not ok || c.shutting_down)) [
      | inl ends ↦ rw ends closed
      | inr goes ↦ go goes (decode_header bytes) refl
    ]
  where
    go :
        (not ok || c.shutting_down) ≡ false
        → (d : Decoded) → decode_header bytes ≡ d
        → Same c (header_completed c ok bytes now)
    go goes (unexpected error) e =
        ground (arith, handle_disconnect-Same (record c { reading = no_read }))
    go goes (header h) e = ground arith

pub write_completed-Same : (c : Client) (ok : Bool) → Same c (write_completed c ok)
unfolding write_completed handle_disconnect
write_completed-Same c ok = go c.write_queue
  where
    go : (frames : List Buffer) → Same c (write_popped c ok frames)
    go [] = (refl, refl, λ h. h)
    go (front ∷ rest) = ground (
      arith,
      do_write-Same
          (record c { pool = release c.pool front; write_queue = rest; writes = c.writes - 1 }),
    )

pub timer_completed-Same : (c : Client) (ok : Bool) (now : ℕ) → Same c (timer_completed c ok now)
unfolding timer_completed handle_disconnect
timer_completed-Same c ok now =
    let (frame, pool) = build_keepalive_frame c.pool in
    ground (arith, enqueue_frame-Same (record c { timer = false; pool = pool }) frame)

run_task-Same : (c : Client) (task : Task) → Same c (run_task c task)
unfolding run_task
run_task-Same c (send_frame frame) = ground (arith, enqueue_frame-Same c frame)
run_task-Same c close_connection = (refl, refl, λ h. h)

pub run_posted-Same : (c : Client) → Same c (run_posted c)
unfolding run_posted
run_posted-Same c = go c.posted refl
  where
    go : (tasks : List Task) → c.posted ≡ tasks → Same c (run_posted c)
    go [] e = ground arith
    go (task ∷ rest) e = ground (arith, run_task-Same (record c { posted = rest }) task)

pub poll_packet-Same : (c : Client) → Same c (poll_packet c).1
unfolding poll_packet
poll_packet-Same c = go c.receive_queue refl
  where
    go : (packets : List Bytes) → c.receive_queue ≡ packets → Same c (poll_packet c).1
    go [] e = ground arith
    go (packet ∷ rest) e =
        (ground (arith, append_assoc c.polled (packet ∷ []) rest), ground arith, λ h. ground arith)
