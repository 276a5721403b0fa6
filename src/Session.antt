-- ===== src/Session.antt =====
-- NightNetwork/src/Session.cpp and Session.h: one connection of the server, on its strand. Each of
-- the handlers that the strand runs, one at a time, is a function on the state.
--
-- Asio is outside: what an operation starts is a field that says what is pending (`reading`,
-- `writes`, `timer`), and the completion handler takes what Asio hands over. `ok` is an absent error
-- code. A `now` is in nanoseconds. The two callbacks are recorded: `received` is what was passed to
-- `on_receive_`, `closes` counts the calls of `on_close_`, and `wire` is what was given to
-- `async_write`, in order. `pool` is the pool of the thread that runs the handler.
pub mod Step
pub mod Sound
pub mod Invariant
pub mod Stream
pub mod Fifo
use project_night.Prelude.{
  ℕ, ◌+◌, ◌-◌, ◌*◌, ◌^◌, Bool, true, false, not, List, [], ◌∷◌, ◌++◌, length, is_empty, leb, ltb,
  ◌||◌, Option, none, some, if◌then◌else◌,
}
use project_night.Wire.{
  Bytes, header_size, max_payload_size, heartbeat_timeout, Header, is_keepalive, Decoded, header,
  unexpected, decode_header,
}
use project_night.Pool.{Buffer, BufferPool, acquire, release}
use project_night.Frame.{
  memcpy, build_data_frame, build_keepalive_frame, Enqueued, full, queued, queued_and_start,
  enqueue_frame,
}

abbrev max_pending_write_frames : ℕ
max_pending_write_frames = 1024

-- The read that is pending: none, a header, or a body of a size.
pub data Reading : Type 0 where
  no_read read_header : Reading
  read_body : (size : ℕ) → Reading

pub record Session : Type 0 where
  pub pool : BufferPool
  pub reading : Reading
  pub write_queue : List Buffer
  pub writing : Bool
  pub closed : Bool
  pub last_activity : ℕ
  pub writes : ℕ
  pub timer : Bool
  pub received : List Bytes
  pub closes : ℕ
  pub wire : List Bytes

-- The constructor, at a time.
abbrev pub session : BufferPool → ℕ → Session
session pool now = record {
  pool = pool;
  reading = no_read;
  write_queue = [];
  writing = false;
  closed = false;
  last_activity = now;
  writes = 0;
  timer = false;
  received = [];
  closes = 0;
  wire = [];
}

-- `cancel` makes a pending timer complete, with an error if it has not expired by then: `timer` stays.
unfoldable pub handle_close : Session → Session
handle_close s = if s.closed then s else record s { closed = true; closes = s.closes + 1 }

abbrev do_read_header : Session → Session
do_read_header s = record s { reading = read_header }

abbrev do_read_body : Session → ℕ → Session
do_read_body s size = record s { reading = read_body size }

-- `do_write` on the frames of its queue.
abbrev pub write_front : Session → List Buffer → Session
write_front s [] = record s { writing = false }
write_front s (front ∷ rest) = record s {
  writing = true;
  writes = s.writes + 1;
  wire = s.wire ++ front.bytes ∷ [];
}

unfoldable pub do_write : Session → Session
do_write s = write_front s s.write_queue

abbrev pub release_frame : Session → Buffer → Session
release_frame s frame = record s { pool = release s.pool frame }

unfoldable pub enqueue_write : Session → Buffer → Session
unfolding handle_close do_write
enqueue_write s frame =
    if s.closed
    then release_frame s frame
    else elim (enqueue_frame s.write_queue s.writing frame max_pending_write_frames) [
      | full ↦ handle_close (release_frame s frame)
      | queued frames ↦ record s { write_queue = frames }
      | queued_and_start frames ↦ do_write (record s { write_queue = frames })
    ]

-- The completion handler of `do_read_header`.
unfoldable pub header_completed : Session → Bool → Bytes → ℕ → Session
unfolding handle_close is_keepalive
header_completed s ok bytes now =
    let done = record s { reading = no_read } in
    if not ok then handle_close done else elim (decode_header bytes) [
      | unexpected error ↦ handle_close done
      | header h ↦
          let active = record done { last_activity = now } in
          if is_keepalive h then do_read_header active else do_read_body active h.payload_size
    ]

-- The completion handler of `do_read_body`, for the bytes in `body_buf_`.
unfoldable pub body_completed : Session → Bool → Bytes → Session
unfolding handle_close
body_completed s ok body =
    let done = record s { reading = no_read } in
    if not ok
    then handle_close done
    else let (copy, pool) = acquire s.pool (length body) in
      do_read_header (record done {
        pool = pool;
        received = s.received ++ memcpy copy.bytes 0 body (length body) ∷ [];
      })

-- The completion handler of `do_write`, on the frames of its queue; `front()` of an empty queue is
-- undefined, and is left out here because a write never completes then (`Invariant`).
abbrev pub write_popped : Session → Bool → List Buffer → Session
write_popped s ok [] = s
write_popped s ok (front ∷ rest) =
    let popped = record s {
      pool = release s.pool front;
      write_queue = rest;
      writes = s.writes - 1;
    } in
    if not ok then handle_close popped else do_write popped

unfoldable pub write_completed : Session → Bool → Session
unfolding handle_close do_write
write_completed s ok = write_popped s ok s.write_queue

abbrev start_heartbeat : Session → Session
start_heartbeat s = record s { timer = true }

-- `send_keepalive`: the frame comes out of the pool.
abbrev pub send_keepalive : Session → Session
send_keepalive s =
    let (frame, pool) = build_keepalive_frame s.pool in
    enqueue_write (record s { pool = pool }) frame

-- The completion handler of `start_heartbeat`; `ok` is false when the timer was cancelled.
unfoldable pub timer_completed : Session → Bool → ℕ → Session
unfolding handle_close enqueue_write
timer_completed s ok now =
    let done = record s { timer = false } in
    if not ok
    then done
    else if leb (heartbeat_timeout * 10 ^ 9) (now - s.last_activity)
    then handle_close done
    else start_heartbeat (send_keepalive done)

unfoldable pub start : Session → Session
start s = start_heartbeat (do_read_header s)

-- `send`, over the pool of the thread that calls it: the frame whose `enqueue_write` is posted to the
-- strand, if any.
unfoldable pub send : BufferPool → Bytes → Option Buffer × BufferPool
unfolding build_data_frame
send pool payload =
    if is_empty payload || ltb max_payload_size (length payload)
    then (none, pool)
    else (let (frame, pool') = build_data_frame pool payload in
        if is_empty frame.bytes then (none, pool') else (some frame, pool'))
