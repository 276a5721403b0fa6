-- ===== src/Server/Shutdown.antt =====
-- What the shutdown of NightNetwork/src/Server.cpp ends for good.
use mathlib.Core.List.{append-nil, append_assoc, map-append}
use project_night.Prelude.{
  ℕ, ◌≡◌, refl, sym, ◌∙◌, ap, subst, Bool, true, false, List, [], ◌∷◌, ◌++◌, map, arith, Bool-cases,
  drop, length, ltb, inl, inr,
}
use project_night.Prelude.Set
use project_night.Prelude.Map
use project_night.Wire.{Bytes}
use project_night.Pool.{Buffer, BufferPool}
use project_night.Session.{Session}
use project_night.Network
use project_night.Network.{Packet, data_packet}
use project_night.Server.{
  Server, Task, Post, erase_session, send_frame, broadcast_frame, close_session, close_all, close,
  take_connection, accept_completed, push_packet, receive_all, session_closed, session_ran, post_to,
  close_each, run_task, run_posted, post_data, send, broadcast, disconnect, poll_packet,
  begin_shutdown,
}
use project_night.Server.Step.{
  ServerStep, ServerSteps, accepted, ran, task_ran, sent, sent_to_all, disconnected, taken,
  shutdown_begun, shutdown_ended, no_more, one_more,
}
use project_night.Server.History.{history}

-- One close for each of the sessions.
abbrev pub closes : List ℕ → List (ℕ × Post)
closes = map (λ id. (id, close))

-- Between two states of a shutdown: no connection was taken, no packet was added or lost, and the
-- sessions were told of nothing but their end.
pub record IsOver (v w : Server) : Type 0 where
  pub down : w.shutting_down ≡ true
  pub next_id : w.next_id ≡ v.next_id
  pub history_lem : history w ≡ history v
  pub dropped : w.dropped_packets ≡ v.dropped_packets
  pub closed : List ℕ
  pub told : w.to_sessions ≡ v.to_sessions ++ closes closed

module _ (v w : Server) (same : w.to_sessions ≡ v.to_sessions) where
  -- A step that tells no session anything.
  silent :
      w.shutting_down ≡ true
      → w.next_id ≡ v.next_id
      → history w ≡ history v
      → w.dropped_packets ≡ v.dropped_packets
      → IsOver v w
  silent down next_id history_lem dropped = record {
    down = down;
    next_id = next_id;
    history_lem = history_lem;
    dropped = dropped;
    closed = [];
    told = same ∙ sym (append-nil v.to_sessions);
  }

unchanged : (v w : Server) → v.shutting_down ≡ true → w ≡ v → IsOver v w
unchanged v w down e = subst (IsOver v) (sym e) (silent v v refl down refl refl refl)

IsOver-trans : (u v w : Server) → IsOver u v → IsOver v w → IsOver u w
IsOver-trans u v w a b = record {
  down = b.down;
  next_id = b.next_id ∙ a.next_id;
  history_lem = b.history_lem ∙ a.history_lem;
  dropped = b.dropped ∙ a.dropped;
  closed = a.closed ++ b.closed;
  told =
      b.told
      ∙ ap (λ (l : List (ℕ × Post)). l ++ closes b.closed) a.told
      ∙ append_assoc u.to_sessions (closes a.closed) (closes b.closed)
      ∙ ap (◌++◌ u.to_sessions) (sym (map-append (λ (id : ℕ). (id, close)) a.closed b.closed));
}

close_each-told :
    (v : Server) (ids : List ℕ)
    → close_each v ids ≡ record v { to_sessions = v.to_sessions ++ closes ids }
unfolding close_each
close_each-told v [] =
    ap (λ (l : List (ℕ × Post)). record v { to_sessions = l }) (sym (append-nil v.to_sessions))
close_each-told v (id ∷ ids) =
    close_each-told (post_to v id close) ids
    ∙ ap (λ (l : List (ℕ × Post)). record v { to_sessions = l })
        (append_assoc v.to_sessions ((id, close) ∷ []) (closes ids))

push_packet-over :
    (v : Server) (packet : Packet) → v.shutting_down ≡ true → (push_packet v packet).1 ≡ v
unfolding push_packet
push_packet-over v packet down = ground arith

receive_all-over :
    (v : Server) (id : ℕ) (payloads : List Bytes)
    → v.shutting_down ≡ true
    → receive_all v id payloads ≡ v
unfolding receive_all
receive_all-over v id [] down = refl
receive_all-over v id (payload ∷ rest) down =
    ap (λ (w : Server). receive_all w id rest)
      (push_packet-over v (record { type = data_packet; session_id = id; payload = payload }) down)
    ∙ receive_all-over v id rest down

session_ran-IsOver :
    (v : Server) (id : ℕ) (s t : Session) → v.shutting_down ≡ true → IsOver v (session_ran v id s t)
unfolding session_ran session_closed
session_ran-IsOver v id s t down =
    let kept = record v { objects = Map.modify id (λ _. t) v.objects } in
    let payloads = drop (length s.received) t.received in
    let heard = receive_all-over kept id payloads down in
    let end =
      push_packet-over kept (record { type = Network.disconnect; session_id = id; payload = [] })
        down in
    elim (Bool-cases (ltb s.closes t.closes)) [
      | inl ended ↦
          rw (ended, heard, end)
            (silent v (record kept { posted = v.posted ++ erase_session id ∷ [] }) refl down refl
              refl refl)
      | inr lives ↦ rw (lives, heard) (silent v kept refl down refl refl refl)
    ]

accept_completed-over :
    (v : Server) (ok : Bool) (pool : BufferPool) (now : ℕ)
    → v.shutting_down ≡ true
    → accept_completed v ok pool now ≡ record v { accepting = false }
unfolding accept_completed take_connection
accept_completed-over v ok pool now down = ground arith

run_task-IsOver :
    (v : Server) (pool : BufferPool) (task : Task)
    → v.shutting_down ≡ true
    → IsOver v (run_task v pool task).0
unfolding run_task
run_task-IsOver v pool (erase_session id) down =
    silent v (record v { sessions = Set.erase id v.sessions }) refl down refl refl refl
run_task-IsOver v pool (send_frame id frame) down = unchanged v _ down (ground arith)
run_task-IsOver v pool (broadcast_frame frame) down = unchanged v _ down (ground arith)
run_task-IsOver v pool (close_session id) down = unchanged v _ down (ground arith)
run_task-IsOver v pool close_all down =
    rw (close_each-told (record v { listening = false }) v.sessions) (record {
      down = down;
      next_id = refl;
      history_lem = refl;
      dropped = refl;
      closed = v.sessions;
      told = refl;
    })

run_posted-IsOver :
    (v : Server) (pool : BufferPool) → v.shutting_down ≡ true → IsOver v (run_posted v pool).0
unfolding run_posted
run_posted-IsOver v pool down = go v.posted refl
  where
    go : (tasks : List Task) → v.posted ≡ tasks → IsOver v (run_posted v pool).0
    go [] e = unchanged v _ down (ground arith)
    go (task ∷ rest) e =
        let left = record v { posted = rest } in
        let same : (run_posted v pool).0 ≡ (run_task left pool task).0 = ground arith in
        subst (IsOver v) (sym same) (
          IsOver-trans v left (run_task left pool task).0 (silent v left refl down refl refl refl)
            (run_task-IsOver left pool task down))

post_data-over :
    (v : Server) (pool : BufferPool) (payload : Bytes) (task : Buffer → Task)
    → v.shutting_down ≡ true
    → (post_data v pool payload task).0 ≡ v
post_data-over v pool payload task down = ground arith

poll_packet-IsOver : (v : Server) → v.shutting_down ≡ true → IsOver v (poll_packet v).1
unfolding poll_packet
poll_packet-IsOver v down = go v.packet_queue refl
  where
    go : (packets : List Packet) → v.packet_queue ≡ packets → IsOver v (poll_packet v).1
    go [] e = unchanged v _ down (ground arith)
    go (packet ∷ rest) e =
        silent v (poll_packet v).1 (ground arith) (ground arith) (ground arith)
          (ground (arith, append_assoc v.polled (packet ∷ []) rest)) (ground arith)

begin_shutdown-over : (v : Server) → v.shutting_down ≡ true → begin_shutdown v ≡ v
unfolding begin_shutdown
begin_shutdown-over v down = ground arith

Step-IsOver : (v w : Server) → ServerStep v w → v.shutting_down ≡ true → IsOver v w
unfolding send broadcast disconnect
Step-IsOver _ _ (accepted v ok pool now runs pending small) down =
    subst (IsOver v) (sym (accept_completed-over v ok pool now down))
      (silent v (record v { accepting = false }) refl down refl refl refl)
Step-IsOver _ _ (ran v id s t runs found step) down = session_ran-IsOver v id s t down
Step-IsOver _ _ (task_ran v pool runs valid) down = run_posted-IsOver v pool down
Step-IsOver _ _ (sent v pool session_id payload valid) down =
    unchanged v _ down (post_data-over v pool payload (send_frame session_id) down)
Step-IsOver _ _ (sent_to_all v pool payload valid) down =
    unchanged v _ down (post_data-over v pool payload broadcast_frame down)
Step-IsOver _ _ (disconnected v session_id) down = unchanged v _ down (ground arith)
Step-IsOver _ _ (taken v) down = poll_packet-IsOver v down
Step-IsOver _ _ (shutdown_begun v) down = unchanged v _ down (begin_shutdown-over v down)
Step-IsOver _ _ (shutdown_ended v is_down closed) down =
    silent v (record v { stopped = true }) refl down refl refl refl

Steps-IsOver : (v w : Server) → ServerSteps v w → v.shutting_down ≡ true → IsOver v w
Steps-IsOver _ _ (no_more v) down = unchanged v v down refl
Steps-IsOver _ _ (one_more v w x run last) down =
    let before = Steps-IsOver v w run down in
    IsOver-trans v w x before (Step-IsOver w x last before.down)

begun_down : (v : Server) → (begin_shutdown v).shutting_down ≡ true
unfolding begin_shutdown
begun_down v = ground arith

-- From the moment the shutdown begins, whatever happens then: no connection is taken, no packet is
-- added, dropped or lost before it is polled, and the sessions are told of nothing but their end;
-- and the task that the shutdown posts tells each session of the map, in turn.
pub begin_shutdown-IsOver :
    (v w : Server) (pool : BufferPool)
    → ServerSteps (begin_shutdown v) w
    → IsOver (begin_shutdown v) w
      × ((run_task w pool close_all).0
          ≡ record w { listening = false; to_sessions = w.to_sessions ++ closes w.sessions })
unfolding run_task
begin_shutdown-IsOver v w pool run = (
  Steps-IsOver (begin_shutdown v) w run (begun_down v),
  close_each-told (record w { listening = false }) w.sessions,
)
