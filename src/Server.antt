-- ===== src/Server.antt =====
-- NightNetwork/src/Server.cpp: accepting connections, the packets that its sessions hand over, and the
-- queue that the game thread polls.
--
-- `listening` says that the acceptor is open, `accepting` that an accept is pending, and `stopped` that
-- `io` was stopped. `objects` are the sessions that were made, by id: one that is erased from the map `sessions_` lives on
-- as long as its handlers do. `sessions` are the keys of that map. `polled` records what `poll_packet`
-- has returned, in order. `posted` are the tasks posted to
-- the server's strand, in order, and `to_sessions` records what those posted to the sessions' strands.
pub mod Step
pub mod Starting
pub mod History
pub mod Tasks
pub mod Order
pub mod Sending
pub mod Posting
pub mod Shutdown
use project_night.Prelude.{
  attempt, ◌⊎◌, inl, inr, ℕ, ◌+◌, ◌%◌, ◌^◌, Bool, true, false, not, ◌&&◌, ◌||◌, List, [], ◌∷◌, ◌++◌,
  Option, none, some, length, is_empty, drop, ltb, if◌then◌else◌,
}
use project_night.Prelude.Map
use project_night.Prelude.Map.{Map}
use project_night.Prelude.Set
use project_night.Prelude.Text.{utf8}
use project_night.Wire.{Bytes}
use project_night.Wire.{max_payload_size}
use project_night.Pool.{Buffer, BufferPool, release}
use project_night.Frame.{clone_frame, build_data_frame}
use project_night.Session.{Session, session, start}
use project_night.Network
use project_night.Network.{Packet, PacketType, connect, data_packet}

abbrev packet_capacity : ℕ
packet_capacity = 8192

-- What is posted to the server's strand.
pub data Task : Type 0 where
  erase_session : (session_id : ℕ) → Task
  send_frame : (session_id : ℕ) (frame : Buffer) → Task
  broadcast_frame : (frame_template : Buffer) → Task
  close_session : (session_id : ℕ) → Task
  close_all : Task

-- What is posted to a session's strand: `enqueue_raw_frame` and `close`.
pub data Post : Type 0 where
  raw_frame : (frame : Buffer) → Post
  close : Post

pub record Server : Type 0 where
  pub next_id : ℕ
  pub sessions : List ℕ
  pub objects : Map Session
  pub packet_queue : List Packet
  pub dropped_packets : ℕ
  pub shutting_down : Bool
  pub posted : List Task
  pub to_sessions : List (ℕ × Post)
  pub polled : List Packet
  pub listening : Bool
  pub accepting : Bool
  pub stopped : Bool

-- `Impl()`.
abbrev pub server : Server
server = record {
  next_id = 1;
  sessions = [];
  objects = [];
  packet_queue = [];
  dropped_packets = 0;
  shutting_down = false;
  posted = [];
  to_sessions = [];
  polled = [];
  listening = false;
  accepting = false;
  stopped = false;
}

-- What the four calls of `listen` answer: the message of an error code, or none.
pub record Listening : Type 0 where
  pub open_socket : Option Bytes
  pub set_option : Option Bytes
  pub bind : Option Bytes
  pub listen : Option Bytes

unfoldable pub open_failed : Bytes
unfolding utf8
open_failed = utf8 "[에러] 소켓 열기 실패: "

unfoldable pub option_failed : Bytes
unfolding utf8
option_failed = utf8 "[에러] 옵션 설정 실패: "

unfoldable pub bind_failed : Bytes
unfolding utf8
bind_failed = utf8 "[에러] 바인드 실패: "

unfoldable pub listen_failed : Bytes
unfolding utf8
listen_failed = utf8 "[에러] 리슨 실패: "

unfoldable pub listen : Server → Listening → Bytes ⊎ Server
listen v calls = attempt calls.open_socket open_failed (
    attempt calls.set_option option_failed (
      attempt calls.bind bind_failed
        (attempt calls.listen listen_failed (inr (record v { listening = true })))))

abbrev pub do_accept : Server → Server
do_accept v = record v { accepting = true }

-- `Server::create` with the constructor, which starts the threads.
unfoldable pub create : Listening → Bytes ⊎ Server
unfolding listen
create calls = elim (listen server calls) [ inl error ↦ inl error | inr v ↦ inr (do_accept v) ]

-- `push_packet`, with its answer.
unfoldable pub push_packet : Server → Packet → Bool × Server
push_packet v packet =
    if v.shutting_down
    then (false, v)
    else if ltb (length v.packet_queue) packet_capacity
    then (true, record v { packet_queue = v.packet_queue ++ packet ∷ [] })
    else (false, record v { dropped_packets = (v.dropped_packets + 1) % 2 ^ 64 })

-- `if (push_packet(…))` of the completion handler: the session is kept and started.
abbrev pub keep_session : ℕ → Session → Bool × Server → Server
keep_session id fresh (true, v) = record v {
  sessions = Set.insert id v.sessions;
  objects = Map.try_emplace id (start fresh) v.objects;
}
keep_session id fresh (false, v) = v

-- A connection that was accepted, on a thread with a pool, at a time.
unfoldable pub take_connection : Server → Bool → BufferPool → ℕ → Server
unfolding push_packet start
take_connection v ok pool now =
    if ok && not v.shutting_down
    then keep_session v.next_id (session pool now) (
        push_packet (record v { next_id = (v.next_id + 1) % 2 ^ 32 })
          (record { type = connect; session_id = v.next_id; payload = [] }))
    else v

-- The completion handler of `do_accept`; `ok` is an absent error code.
unfoldable pub accept_completed : Server → Bool → BufferPool → ℕ → Server
unfolding take_connection
accept_completed v ok pool now =
    let w = take_connection (record v { accepting = false }) ok pool now in
    if w.shutting_down then w else do_accept w

-- The callback for received payloads, for each of them.
unfoldable pub receive_all : Server → ℕ → List Bytes → Server
unfolding push_packet
receive_all v id [] = v
receive_all v id (payload ∷ rest) =
    receive_all
      (push_packet v (record { type = data_packet; session_id = id; payload = payload })).1 id rest

-- The callback for a closed session.
unfoldable pub session_closed : Server → ℕ → Server
unfolding push_packet
session_closed v id =
    let w =
      (push_packet v (record { type = Network.disconnect; session_id = id; payload = [] })).1 in
    record w { posted = w.posted ++ erase_session id ∷ [] }

-- A handler of a session ran, from `s` to `t`, with the callbacks that it made.
unfoldable pub session_ran : Server → ℕ → Session → Session → Server
unfolding receive_all session_closed
session_ran v id s t =
    let kept = record v { objects = Map.modify id (λ _. t) v.objects } in
    let heard = receive_all kept id (drop (length s.received) t.received) in
    if ltb s.closes t.closes then session_closed heard id else heard

-- `enqueue_raw_frame` and `close` on a session that is in the map.
abbrev pub post_to : Server → ℕ → Post → Server
post_to v id post = record v { to_sessions = v.to_sessions ++ (id, post) ∷ [] }

-- The loop of `broadcast` over the sessions.
unfoldable pub broadcast_to : Server → BufferPool → Buffer → List ℕ → Server × BufferPool
unfolding clone_frame
broadcast_to v pool frame_template [] = (v, pool)
broadcast_to v pool frame_template (id ∷ ids) =
    let (frame, pool') = clone_frame pool frame_template.bytes in
    broadcast_to (post_to v id (raw_frame frame)) pool' frame_template ids

-- The loop of `shutdown` over the sessions, after the acceptor was closed.
unfoldable pub close_each : Server → List ℕ → Server
close_each v [] = v
close_each v (id ∷ ids) = close_each (post_to v id close) ids

-- A task of the strand, on a thread with a pool.
unfoldable pub run_task : Server → BufferPool → Task → Server × BufferPool
unfolding broadcast_to close_each release
run_task v pool (erase_session id) = (record v { sessions = Set.erase id v.sessions }, pool)
run_task v pool (send_frame id frame) =
    if v.shutting_down
    then (v, release pool frame)
    else if Set.contains id v.sessions
    then (post_to v id (raw_frame frame), pool)
    else (v, release pool frame)
run_task v pool (broadcast_frame frame_template) =
    if v.shutting_down
    then (v, release pool frame_template)
    else (let (w, pool') = broadcast_to v pool frame_template v.sessions in
        (w, release pool' frame_template))
run_task v pool (close_session id) =
    if not v.shutting_down && Set.contains id v.sessions
    then (post_to v id close, pool)
    else (v, pool)
run_task v pool close_all = (close_each (record v { listening = false }) v.sessions, pool)

-- The posted task at the front.
unfoldable pub run_posted : Server → BufferPool → Server × BufferPool
unfolding run_task
run_posted v pool = elim v.posted [
  | [] ↦ (v, pool)
  | (task ∷ rest) ↦ run_task (record v { posted = rest }) pool task
]

abbrev pub post_task : Server → Task → Server
post_task v task = record v { posted = v.posted ++ task ∷ [] }

-- What `send` and `broadcast` share: the guards and the frame, over the game thread's pool.
abbrev pub post_data : Server → BufferPool → Bytes → (Buffer → Task) → Server × BufferPool
post_data v pool payload task =
    if is_empty payload || ltb max_payload_size (length payload)
    then (v, pool)
    else if v.shutting_down
    then (v, pool)
    else (let (frame, pool') = build_data_frame pool payload in
        if is_empty frame.bytes then (v, pool') else (post_task v (task frame), pool'))

unfoldable pub send : Server → BufferPool → ℕ → Bytes → Server × BufferPool
unfolding build_data_frame
send v pool session_id payload = post_data v pool payload (send_frame session_id)

unfoldable pub broadcast : Server → BufferPool → Bytes → Server × BufferPool
unfolding build_data_frame
broadcast v pool payload = post_data v pool payload broadcast_frame

unfoldable pub disconnect : Server → ℕ → Server
disconnect v session_id = if v.shutting_down then v else post_task v (close_session session_id)

unfoldable pub poll_packet : Server → Option Packet × Server
poll_packet v = elim v.packet_queue [
  | [] ↦ (none, v)
  | (packet ∷ rest) ↦
      (some packet, record v { packet_queue = rest; polled = v.polled ++ packet ∷ [] })
]

-- `shutdown` up to the wait for the posted task.
unfoldable pub begin_shutdown : Server → Server
begin_shutdown v =
    if v.shutting_down then v else post_task (record v { shutting_down = true }) close_all

-- The rest of `shutdown`, from the wait on.
abbrev pub end_shutdown : Server → Server
end_shutdown v = record v { stopped = true }
