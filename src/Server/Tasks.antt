-- ===== src/Server/Tasks.antt =====
-- What the tasks and the sending functions of NightNetwork/src/Server.cpp leave of the packets: all.
use project_night.Prelude.{
  if◌then◌else◌, is_empty, ℕ, Bool, true, false, not, ◌&&◌, ◌||◌, List, [], ◌∷◌, ◌++◌, length, ltb,
}
use project_night.Prelude.Set
use project_night.Wire.{Bytes}
use project_night.Pool.{Buffer, BufferPool}
use project_night.Frame.{clone_frame, build_data_frame}
use project_night.Server.{
  Task, Post, erase_session, send_frame, broadcast_frame, close_session, close_all, raw_frame,
  close, post_to, broadcast_to, close_each, run_task, run_posted, post_task, post_data, send,
  broadcast, disconnect, begin_shutdown, Server,
}
use project_night.Server.History.{IsOrderly, with_fields-IsOrderly, with_flags-IsOrderly}

post_to-IsOrderly :
    (v : Server) (id : ℕ) (post : Post) → IsOrderly v → IsOrderly (post_to v id post)
post_to-IsOrderly v id post i =
    with_fields-IsOrderly v v.sessions v.posted (v.to_sessions ++ (id, post) ∷ []) v.dropped_packets
      v.shutting_down i

broadcast_to-IsOrderly :
    (v : Server) (pool : BufferPool) (frame_template : Buffer) (ids : List ℕ)
    → IsOrderly v
    → IsOrderly (broadcast_to v pool frame_template ids).0
unfolding broadcast_to
broadcast_to-IsOrderly v pool frame_template [] i = i
broadcast_to-IsOrderly v pool frame_template (id ∷ ids) i =
    let (frame, pool') = clone_frame pool frame_template.bytes in
    broadcast_to-IsOrderly (post_to v id (raw_frame frame)) pool' frame_template ids
      (post_to-IsOrderly v id (raw_frame frame) i)

close_each-IsOrderly : (v : Server) (ids : List ℕ) → IsOrderly v → IsOrderly (close_each v ids)
unfolding close_each
close_each-IsOrderly v [] i = i
close_each-IsOrderly v (id ∷ ids) i =
    close_each-IsOrderly (post_to v id close) ids (post_to-IsOrderly v id close i)

-- Both ways of a test.
either-IsOrderly :
    (b : Bool) (x y : Server × BufferPool)
    → IsOrderly x.0
    → IsOrderly y.0
    → IsOrderly (if b then x else y).0
either-IsOrderly true x y i k = i
either-IsOrderly false x y i k = k

run_task-IsOrderly :
    (v : Server) (pool : BufferPool) (task : Task)
    → IsOrderly v
    → IsOrderly (run_task v pool task).0
unfolding run_task
run_task-IsOrderly v pool (erase_session id) i =
    with_fields-IsOrderly v (Set.erase id v.sessions) v.posted v.to_sessions v.dropped_packets
      v.shutting_down i
run_task-IsOrderly v pool (send_frame id frame) i = either-IsOrderly v.shutting_down _ _ i (
    either-IsOrderly (Set.contains id v.sessions) _ _ (post_to-IsOrderly v id (raw_frame frame) i)
      i)
run_task-IsOrderly v pool (broadcast_frame frame_template) i =
    either-IsOrderly v.shutting_down _ _ i
      (broadcast_to-IsOrderly v pool frame_template v.sessions i)
run_task-IsOrderly v pool (close_session id) i =
    either-IsOrderly (not v.shutting_down && Set.contains id v.sessions) _ _
      (post_to-IsOrderly v id close i) i
run_task-IsOrderly v pool close_all i =
    close_each-IsOrderly (record v { listening = false }) v.sessions
      (with_flags-IsOrderly v false v.accepting v.stopped i)

pub run_posted-IsOrderly :
    (v : Server) (pool : BufferPool) → IsOrderly v → IsOrderly (run_posted v pool).0
unfolding run_posted
run_posted-IsOrderly v pool i = go v.posted i
  where
    go :
        (tasks : List Task)
        → IsOrderly (record v { posted = tasks })
        → IsOrderly (run_posted (record v { posted = tasks }) pool).0
    go [] i = i
    go (task ∷ rest) i =
        run_task-IsOrderly (record v { posted = rest }) pool task
          (with_fields-IsOrderly (record v { posted = task ∷ rest }) v.sessions rest v.to_sessions
            v.dropped_packets v.shutting_down i)

post_task-IsOrderly : (v : Server) (task : Task) → IsOrderly v → IsOrderly (post_task v task)
post_task-IsOrderly v task i =
    with_fields-IsOrderly v v.sessions (v.posted ++ task ∷ []) v.to_sessions v.dropped_packets
      v.shutting_down i

post_data-IsOrderly :
    (v : Server) (pool : BufferPool) (payload : Bytes) (task : Buffer → Task)
    → IsOrderly v
    → IsOrderly (post_data v pool payload task).0
post_data-IsOrderly v pool payload task i =
    let (frame, pool') = build_data_frame pool payload in
    either-IsOrderly (is_empty payload || ltb 2048 (length payload)) _ _ i (
      either-IsOrderly v.shutting_down _ _ i
        (either-IsOrderly (is_empty frame.bytes) _ _ i (post_task-IsOrderly v (task frame) i)))

pub send-IsOrderly :
    (v : Server) (pool : BufferPool) (session_id : ℕ) (payload : Bytes)
    → IsOrderly v
    → IsOrderly (send v pool session_id payload).0
unfolding send
send-IsOrderly v pool session_id payload i =
    post_data-IsOrderly v pool payload (send_frame session_id) i

pub broadcast-IsOrderly :
    (v : Server) (pool : BufferPool) (payload : Bytes)
    → IsOrderly v
    → IsOrderly (broadcast v pool payload).0
unfolding broadcast
broadcast-IsOrderly v pool payload i = post_data-IsOrderly v pool payload broadcast_frame i

pub disconnect-IsOrderly :
    (v : Server) (session_id : ℕ) → IsOrderly v → IsOrderly (disconnect v session_id)
unfolding disconnect
disconnect-IsOrderly v session_id i =
    elim v.shutting_down
      as (λ b. IsOrderly (if b then v else post_task v (close_session session_id))) [
        | true ↦ i
        | false ↦ post_task-IsOrderly v (close_session session_id) i
      ]

pub begin_shutdown-IsOrderly : (v : Server) → IsOrderly v → IsOrderly (begin_shutdown v)
unfolding begin_shutdown
begin_shutdown-IsOrderly v i =
    elim v.shutting_down
      as (λ b.
        IsOrderly (if b then v else post_task (record v { shutting_down = true }) close_all)) [
          | true ↦ i
          | false ↦
              with_fields-IsOrderly v v.sessions (v.posted ++ close_all ∷ []) v.to_sessions
                v.dropped_packets true i
        ]
