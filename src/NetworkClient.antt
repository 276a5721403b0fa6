-- ===== src/NetworkClient.antt =====
-- NightNetwork/src/Client.cpp: the transport's client, its I/O thread and the thread of the game.
--
-- As for a session, what Asio is asked for is a field that says what is pending (`reading`,
-- `writes`, `timer`), and the completion handlers take what Asio hands over; `ok` is an absent
-- error code. `posted` are the tasks posted to the I/O thread, in order. `stopped` says that `io` was
-- stopped. Three fields only record: `arrived` the bodies that were read and not thrown away at
-- the end, `polled` what `poll_packet` has returned, and `wire` what was given to `async_write`.
pub mod Step
pub mod Sound
pub mod Invariant
pub mod Heartbeat
pub mod Sized
pub mod Accounts
pub mod Receiving
pub mod Stream
pub mod Fifo
pub mod Shutdown
pub mod Calm
pub mod Stopped
pub mod Failing
use project_night.Prelude.{
  attempt, ◌⊎◌, inl, inr, ℕ, ◌+◌, ◌-◌, ◌*◌, ◌%◌, ◌^◌, Bool, true, false, not, ◌||◌, List, [], ◌∷◌,
  ◌++◌, Option, none, some, length, is_empty, ltb, leb, if◌then◌else◌,
}
use project_night.Prelude.Text.{utf8}
use project_night.Wire.{
  Bytes, max_payload_size, heartbeat_timeout, Header, is_keepalive, Decoded, header, unexpected,
  decode_header,
}
use project_night.Pool.{Buffer, BufferPool, acquire, release}
use project_night.Frame
use project_night.Frame.{
  memcpy, build_data_frame, build_keepalive_frame, Enqueued, full, queued, queued_and_start,
}
use project_night.Session.{Reading, no_read, read_header, read_body}

abbrev max_pending_write_frames : ℕ
max_pending_write_frames = 1024

abbrev receive_capacity : ℕ
receive_capacity = 4096

-- What is posted to the I/O thread: a frame to send, and the end of the connection.
pub data Task : Type 0 where
  send_frame : (frame : Buffer) → Task
  close_connection : Task

pub record Client : Type 0 where
  pub pool : BufferPool
  pub socket_open : Bool
  pub connected : Bool
  pub shutting_down : Bool
  pub stopped : Bool
  pub reading : Reading
  pub receive_queue : List Bytes
  pub dropped_packets : ℕ
  pub write_queue : List Buffer
  pub writing : Bool
  pub writes : ℕ
  pub timer : Bool
  pub last_activity : ℕ
  pub posted : List Task
  pub arrived : List Bytes
  pub polled : List Bytes
  pub wire : List Bytes

-- `Impl()` at a time.
abbrev pub impl : BufferPool → ℕ → Client
impl pool now = record {
  pool = pool;
  socket_open = false;
  connected = false;
  shutting_down = false;
  stopped = false;
  reading = no_read;
  receive_queue = [];
  dropped_packets = 0;
  write_queue = [];
  writing = false;
  writes = 0;
  timer = false;
  last_activity = now;
  posted = [];
  arrived = [];
  polled = [];
  wire = [];
}

-- What the three calls of `connect` answer: the message of an error code, or none.
pub record Connecting : Type 0 where
  pub resolve : Option Bytes
  pub connect : Option Bytes
  pub set_no_delay : Option Bytes

unfoldable pub resolve_failed : Bytes
unfolding utf8
resolve_failed = utf8 "[에러] 주소 해석 실패: "

unfoldable pub connect_failed : Bytes
unfolding utf8
connect_failed = utf8 "[에러] 서버 연결 실패: "

unfoldable pub no_delay_failed : Bytes
unfolding utf8
no_delay_failed = utf8 "[에러] TCP_NODELAY 설정 실패: "

unfoldable pub connect : Client → Connecting → Bytes ⊎ Client
connect c calls = attempt calls.resolve resolve_failed (
    attempt calls.connect connect_failed (
      attempt calls.set_no_delay no_delay_failed
        (inr (record c { socket_open = true; connected = true }))))

abbrev pub do_read_header : Client → Client
do_read_header c = record c { reading = read_header }

abbrev do_read_body : Client → ℕ → Client
do_read_body c size = record c { reading = read_body size }

abbrev pub start_heartbeat : Client → Client
start_heartbeat c = record c { timer = true }

unfoldable pub start_io : Client → Client
start_io c = start_heartbeat (do_read_header c)

-- `Client::create` with the constructor, which starts the I/O thread.
unfoldable pub create : BufferPool → ℕ → Connecting → Bytes ⊎ Client
unfolding connect start_io
create pool now calls = elim (connect (impl pool now) calls) [
  | inl error ↦ inl error
  | inr c ↦ inr (start_io c)
]

-- The pending operations of a closed socket and of a cancelled timer complete with an error.
abbrev pub close_socket : Client → Client
close_socket c = record c { socket_open = false }

unfoldable pub handle_disconnect : Client → Client
handle_disconnect c = if c.connected then close_socket (record c { connected = false }) else c

-- `do_write` on the frames of its queue.
abbrev pub write_front : Client → List Buffer → Client
write_front c [] = record c { writing = false }
write_front c (front ∷ rest) = record c {
  writing = true;
  writes = c.writes + 1;
  wire = c.wire ++ front.bytes ∷ [];
}

unfoldable pub do_write : Client → Client
do_write c = write_front c c.write_queue

abbrev pub release_frame : Client → Buffer → Client
release_frame c frame = record c { pool = release c.pool frame }

unfoldable pub enqueue_frame : Client → Buffer → Client
unfolding handle_disconnect do_write
enqueue_frame c frame =
    if c.shutting_down || not c.connected
    then release_frame c frame
    else elim (Frame.enqueue_frame c.write_queue c.writing frame max_pending_write_frames) [
      | full ↦ handle_disconnect (release_frame c frame)
      | queued frames ↦ record c { write_queue = frames }
      | queued_and_start frames ↦ do_write (record c { write_queue = frames })
    ]

-- The completion handler of `do_read_header`.
unfoldable pub header_completed : Client → Bool → Bytes → ℕ → Client
unfolding handle_disconnect is_keepalive
header_completed c ok bytes now =
    let done = record c { reading = no_read } in
    if not ok || c.shutting_down then handle_disconnect done else elim (decode_header bytes) [
      | unexpected error ↦ handle_disconnect done
      | header h ↦
          let active = record done { last_activity = now } in
          if is_keepalive h then do_read_header active else do_read_body active h.payload_size
    ]

-- `receive_queue.push` and what follows it.
unfoldable pub push_packet : Client → Bytes → Client
push_packet c packet =
    let seen = record c { arrived = c.arrived ++ packet ∷ [] } in
    if ltb (length c.receive_queue) receive_capacity
    then record seen { receive_queue = c.receive_queue ++ packet ∷ [] }
    else record seen { dropped_packets = (c.dropped_packets + 1) % 2 ^ 64 }

-- `shutdown` up to the wait for the posted task; the I/O thread runs.
unfoldable pub begin_shutdown : Client → Client
begin_shutdown c =
    if c.shutting_down
    then c
    else record c { shutting_down = true; posted = c.posted ++ close_connection ∷ [] }

-- The completion handler of `do_read_body`, for the bytes in `body_buf`; `meanwhile` says that the
-- other thread began to shut down between the two tests of the flag.
unfoldable pub body_completed : Client → Bool → Bytes → Bool → Client
unfolding handle_disconnect push_packet begin_shutdown
body_completed c ok body meanwhile =
    let done = record c { reading = no_read } in
    if not ok || c.shutting_down
    then handle_disconnect done
    else let (copy, pool) = acquire c.pool (length body) in
      let packet = memcpy copy.bytes 0 body (length body) in
      let copied = record done { pool = pool } in
      if meanwhile then begin_shutdown copied else do_read_header (push_packet copied packet)

-- The completion handler of `do_write`, on the frames of its queue; `front()` of an empty queue is
-- undefined, and is left out here because a write never completes then (`Invariant`).
abbrev pub write_popped : Client → Bool → List Buffer → Client
write_popped c ok [] = c
write_popped c ok (front ∷ rest) =
    let popped = record c {
      pool = release c.pool front;
      write_queue = rest;
      writes = c.writes - 1;
    } in
    if not ok || c.shutting_down then handle_disconnect popped else do_write popped

unfoldable pub write_completed : Client → Bool → Client
unfolding handle_disconnect do_write
write_completed c ok = write_popped c ok c.write_queue

abbrev pub send_keepalive : Client → Client
send_keepalive c =
    let (frame, pool) = build_keepalive_frame c.pool in
    enqueue_frame (record c { pool = pool }) frame

-- The completion handler of `start_heartbeat`; `ok` is false when the timer was cancelled.
unfoldable pub timer_completed : Client → Bool → ℕ → Client
unfolding handle_disconnect enqueue_frame
timer_completed c ok now =
    let done = record c { timer = false } in
    if not ok
    then done
    else if leb (heartbeat_timeout * 10 ^ 9) (now - c.last_activity)
    then handle_disconnect done
    else start_heartbeat (send_keepalive done)

-- `send`, over the pool of the game's thread.
unfoldable pub send : Client → BufferPool → Bytes → Client × BufferPool
unfolding build_data_frame
send c pool payload =
    if is_empty payload || ltb max_payload_size (length payload)
    then (c, pool)
    else if not c.connected
    then (c, pool)
    else if c.shutting_down
    then (c, pool)
    else (let (frame, pool') = build_data_frame pool payload in
        if is_empty frame.bytes
        then (c, pool')
        else (record c { posted = c.posted ++ send_frame frame ∷ [] }, pool'))

-- A task of the I/O thread.
unfoldable pub run_task : Client → Task → Client
unfolding enqueue_frame
run_task c (send_frame frame) =
    if c.shutting_down then release_frame c frame else enqueue_frame c frame
run_task c close_connection = close_socket (record c { connected = false })

-- The posted task at the front.
unfoldable pub run_posted : Client → Client
unfolding run_task
run_posted c = elim c.posted [ [] ↦ c | (task ∷ rest) ↦ run_task (record c { posted = rest }) task ]

unfoldable pub poll_packet : Client → Option Bytes × Client
poll_packet c = elim c.receive_queue [
  | [] ↦ (none, c)
  | (packet ∷ rest) ↦
      (some packet, record c { receive_queue = rest; polled = c.polled ++ packet ∷ [] })
]

-- The rest of `shutdown`, from the wait on.
abbrev pub end_shutdown : Client → Client
end_shutdown c = record c { stopped = true }
