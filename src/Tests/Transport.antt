-- ===== src/Tests/Transport.antt =====
-- The transport's theorems at small inputs.
use project_night.Prelude.{
  take, ◌%◌, ◌^◌, ◌≡◌, false, ◌+◌, ◌<◌, ◌≤◌, ◌⊎◌, refl, arith, [], ◌∷◌, true, ◌↔◌, none, inr,
  length, drop, replicate,
}
use project_night.Wire.{Bytes, header, write_header, decode_header}
use project_night.Wire.Decode.{IsFrameKind, IsHeader, built, header_bytes, decode_header_iff}
use project_night.Wire.Roundtrip.{decode_header-write_header}
use project_night.Pool.{BufferPool, block_size, no_buffer, acquire}
use project_night.Pool.Laws.{IsValid, acquire_lem}
use project_night.Frame.{build_data_frame, enqueue_frame}
use project_night.Frame.Laws.{build_data_frame_lem}
use project_night.Session.{Session, session, start, enqueue_write, write_completed, handle_close}
use project_night.Session.Step.{Steps, frame_posted, close_posted, written, none_left, then_step}
use project_night.Session.Invariant.{start-IsSound}
use project_night.Session.Sound.{IsSound}
use project_night.Reader.{sent_data, sent_keepalive}
use project_night.Session.Stream.{Delivered, read_stream-Delivered}
use project_night.Prelude.Map
use project_night.Server.{
  Server, server, push_packet, take_connection, accept_completed, session_ran, poll_packet, create,
  listen, Listening,
}
use project_night.Server.Starting as S
use project_night.Server.Step.{ServerSteps, accepted, ran, task_ran, taken, no_more, one_more}
use project_night.Server.History.{AreOrdered}
use project_night.Server.Order.{poll_packet-AreOrdered}
use project_night.Prelude.Within.{Within}
use project_night.Session.Fifo.{line}
use project_night.Session.Fifo.Runs.{offered_in, start-Within}
use project_night.Server.Shutdown.{IsOver, closes, begin_shutdown-IsOver}
use project_night.Server.{
  close_all, run_task, begin_shutdown, raw_frame, run_posted, send, broadcast,
}
use project_night.Server.Sending.{frame_of, to_each, sends_reach_sessions}
use project_night.Prelude.{if◌then◌else◌, ◌++◌}
use project_night.Prelude.Set
use project_night.Tests.{hello}

-- A pool with one block in it.
abbrev pub pool : BufferPool
pool = record { max_size_per_thread = 64; pool = record { bytes = []; capacity = block_size } ∷ [] }

pub pool-IsValid : IsValid pool
pool-IsValid = record { free = ((refl, refl), tt); bounded = omega arith }

acquire_lem_example :
    ((10 ≤ block_size)
      × ((acquire pool 10).0 ≡ record { bytes = replicate 10 0; capacity = block_size }))
    ⊎ ((block_size < 10) × (acquire pool 10 ≡ (no_buffer, pool)))
acquire_lem_example = acquire_lem pool 10 pool-IsValid

build_data_frame_lem_example :
    let frame = (build_data_frame pool hello).0.bytes in
    let n = length hello % 2 ^ 32 in
    ((0 < length hello)
      × (n ≤ 2048)
      × (length frame ≡ 8 + n)
      × (drop 8 frame ≡ take n hello)
      × (0 < n → decode_header frame ≡ header (built 0 n)))
    ⊎ (((length hello ≡ 0) ⊎ (2048 < n)) × (frame ≡ []))
build_data_frame_lem_example = build_data_frame_lem pool hello pool-IsValid

abbrev eight : Bytes
eight = replicate 8 0

decode_header-write_header_example :
    (decode_header (write_header eight 0 5) ≡ header (built 0 5))
    ↔ (IsFrameKind 0 5 × (built 0 5 ≡ built 0 5))
decode_header-write_header_example =
    decode_header-write_header eight 0 5 (built 0 5) (omega arith) (omega arith) (omega arith)

decode_header_iff_example :
    (decode_header (header_bytes 0 5) ≡ header (built 0 5))
    ↔ IsHeader (header_bytes 0 5) (built 0 5)
decode_header_iff_example =
    decode_header_iff (header_bytes 0 5) (built 0 5) (omega arith) (ground arith)

abbrev started : Session
started = start (session pool 0)

read_stream-Delivered_example :
    Delivered (λ i. i) 4 started (sent_data pool hello ∷ sent_keepalive pool ∷ [])
unfolding start
read_stream-Delivered_example =
    read_stream-Delivered (λ i. i) 4 started (sent_data pool hello ∷ sent_keepalive pool ∷ []) refl
      pool-IsValid ((pool-IsValid, omega arith, omega arith), (pool-IsValid, tt)) (omega arith)

-- One frame was posted, and its write is pending.
abbrev busy : Session
busy = enqueue_write started (record { bytes = 1 ∷ 2 ∷ []; capacity = block_size })

one_write : Steps started (write_completed busy true)
unfolding start enqueue_write enqueue_frame
one_write =
    then_step started busy (write_completed busy true)
      (then_step started started busy (none_left started)
        (frame_posted started (record { bytes = 1 ∷ 2 ∷ []; capacity = block_size })))
      (written busy true (omega arith))

start-IsSound_example : IsSound (write_completed busy true)
start-IsSound_example = start-IsSound pool 0 (write_completed busy true) pool-IsValid one_write

-- A port that can be opened; one connection came and went, and its first packet was polled.
abbrev pub free_port : Listening
free_port = record { open_socket = none; set_option = none; bind = none; listen = none }

abbrev serving : Server
serving = S.started

pub was_made : create free_port ≡ inr serving
unfolding create listen S.started
was_made = refl

abbrev came : Server
came = accept_completed serving true pool 0

abbrev went : Server
went = session_ran came 1 started (handle_close started)

one_connection : ServerSteps serving (poll_packet went).1
unfolding S.started start take_connection accept_completed push_packet Map.try_emplace Map.find
    Map.append
one_connection =
    one_more serving went (poll_packet went).1
      (one_more serving came went
        (one_more serving serving came (no_more serving)
          (accepted serving true pool 0 refl refl (omega arith)))
        (ran came 1 started (handle_close started) refl refl (close_posted started)))
      (taken went)

poll_packet-AreOrdered_example :
    AreOrdered (λ _. false) (poll_packet went).1.polled
    × (length (poll_packet went).1.packet_queue ≤ 8192)
poll_packet-AreOrdered_example =
    poll_packet-AreOrdered free_port serving (poll_packet went).1 was_made one_connection

start-Within_example :
    Within
      (line (write_completed busy true))
      (offered_in started (write_completed busy true) one_write)
start-Within_example = start-Within pool 0 (write_completed busy true) pool-IsValid one_write

-- Two sessions are connected.
abbrev two : Server
two = record server { sessions = 1 ∷ 2 ∷ [] }

sends_reach_sessions_example :
    ((run_posted (send two pool 2 hello).0 pool).0 ≡ (
      if Set.contains 2 two.sessions
      then record two { to_sessions = two.to_sessions ++ (2, raw_frame (frame_of hello)) ∷ [] }
      else two))
    × ((run_posted (broadcast two pool hello).0 pool).0
        ≡ record two { to_sessions = two.to_sessions ++ to_each (frame_of hello) two.sessions })
sends_reach_sessions_example =
    sends_reach_sessions hello (omega arith) (omega arith) two pool pool 2 pool-IsValid pool-IsValid
      refl refl

-- The shutdown begins with two sessions, and its task is run.
abbrev ended : Server
ended = (run_posted (begin_shutdown two) pool).0

two_run : (begin_shutdown two).stopped ≡ false
unfolding begin_shutdown
two_run = refl

begin_shutdown-IsOver_example :
    IsOver (begin_shutdown two) ended
    × ((run_task ended pool close_all).0 ≡ record ended {
      listening = false;
      to_sessions = ended.to_sessions ++ closes ended.sessions;
    })
begin_shutdown-IsOver_example = begin_shutdown-IsOver two ended pool (
    one_more (begin_shutdown two) (begin_shutdown two) ended (no_more (begin_shutdown two))
      (task_ran (begin_shutdown two) pool two_run pool-IsValid))
