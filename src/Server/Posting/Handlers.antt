-- ===== src/Server/Posting/Handlers.antt =====
-- The handlers and the sending functions of NightNetwork/src/Server.cpp, by what they post to a session.
use mathlib.Core.List.{append-nil, append_assoc, map-append}
use project_night.Prelude.{
  ℕ, ◌+◌, ◌%◌, ◌^◌, ◌<◌, ◌≤◌, ◌≡◌, refl, sym, ◌∙◌, ap, subst, ◌⊎◌, Bool, true, false, not, ◌&&◌,
  ◌||◌, List, [], ◌∷◌, ◌++◌, arith, Bool-cases, drop, length, is_empty, ltb, if◌then◌else◌, inl,
  inr,
}
use project_night.Prelude.Map
use project_night.Prelude.Set.{IsUnique, insert-IsUnique}
use project_night.Prelude.Within.{Within, Within-last, Within-all, Within-append}
use project_night.Wire.{Bytes}
use project_night.Pool.{Buffer, BufferPool}
use project_night.Pool.Laws.{IsValid}
use project_night.Session.{Session, session}
use project_night.Network
use project_night.Network.{Packet, data_packet, connect}
use project_night.Server.{
  Server, Task, erase_session, post_data, post_task, push_packet, receive_all, session_closed,
  session_ran, take_connection, accept_completed, keep_session,
}
use project_night.Server.Sending.{frame_of, post_data_lem}
use project_night.Server.Posting.{
  raw_frames, task_frames, Fit-append, task_frames-append, IsPosting, kept-IsPosting,
}

pub fields_kept :
    (id : ℕ) (v w : Server) (given : List Bytes)
    → w.to_sessions ≡ v.to_sessions
    → w.posted ≡ v.posted
    → w.sessions ≡ v.sessions
    → IsPosting id v given
    → IsPosting id w given
fields_kept id v w given e f g t =
    kept-IsPosting id v w given (ap (raw_frames id) e) (ap (task_frames id) f)
      (subst IsUnique (sym g) t.unique) t

-- A task without a frame for the session.
pub quiet_task :
    (id : ℕ) (v : Server) (task : Task) (given : List Bytes)
    → task_frames id (task ∷ []) ≡ []
    → IsPosting id v given
    → IsPosting id (post_task v task) given
quiet_task id v task given e t =
    kept-IsPosting id v (post_task v task) given refl
      (task_frames-append id v.posted (task ∷ [])
        ∙ ap (◌++◌ (task_frames id v.posted)) e
        ∙ append-nil (task_frames id v.posted))
      t.unique t

-- And one with the frame of a payload.
pub frame_task :
    (id : ℕ) (v : Server) (task : Task) (payload : Bytes) (given : List Bytes)
    → task_frames id (task ∷ []) ≡ frame_of payload ∷ []
    → 0 < length payload
    → length payload ≤ 2048
    → IsPosting id v given
    → IsPosting id (post_task v task) (given ++ payload ∷ [])
frame_task id v task payload given e some_bytes fits t = record {
  posted = t.posted;
  posted_lem = t.posted_lem;
  posted_fit = t.posted_fit;
  waiting = t.waiting ++ payload ∷ [];
  waiting_lem =
      task_frames-append id v.posted (task ∷ [])
      ∙ ap (◌++◌ (task_frames id v.posted)) e
      ∙ ap (λ (l : List Buffer). l ++ frame_of payload ∷ []) t.waiting_lem
      ∙ sym (map-append frame_of t.waiting (payload ∷ []));
  waiting_fit = Fit-append t.waiting (payload ∷ []) t.waiting_fit (some_bytes, fits, tt);
  order =
      subst (λ l. Within l (given ++ payload ∷ [])) (append_assoc t.posted t.waiting (payload ∷ []))
        (Within-append (t.posted ++ t.waiting) given (payload ∷ []) (payload ∷ []) t.order
          (Within-all (payload ∷ [])));
  unique = t.unique;
}

-- A payload that was given to no avail.
pub refused :
    (id : ℕ) (v : Server) (payload : Bytes) (given : List Bytes)
    → IsPosting id v given
    → IsPosting id v (given ++ payload ∷ [])
refused id v payload given t = record {
  posted = t.posted;
  posted_lem = t.posted_lem;
  posted_fit = t.posted_fit;
  waiting = t.waiting;
  waiting_lem = t.waiting_lem;
  waiting_fit = t.waiting_fit;
  order = Within-last (t.posted ++ t.waiting) given payload t.order;
  unique = t.unique;
}

-- Nothing happens, or the frame of the payload is posted in a task.
pub post_data-cases :
    (v : Server) (pool : BufferPool) (payload : Bytes) (task : Buffer → Task)
    → IsValid pool
    → ((post_data v pool payload task).0 ≡ v)
      ⊎ ((0 < length payload)
          × (length payload ≤ 2048)
          × ((post_data v pool payload task).0 ≡ post_task v (task (frame_of payload))))
post_data-cases v pool payload task valid =
    elim (Bool-cases (is_empty payload || ltb 2048 (length payload))) [
      | inl out ↦ inl (ground arith)
      | inr fits ↦ elim (Bool-cases v.shutting_down) [
        | inl down ↦ inl (ground arith)
        | inr up ↦
            let some_bytes : 0 < length payload = filled payload (ground arith) in
            let small : length payload ≤ 2048 = ground arith in
            inr (some_bytes, small, post_data_lem payload some_bytes small v pool task valid up)
      ]
    ]
  where
    filled : (payload : Bytes) → is_empty payload ≡ false → 0 < length payload
    filled [] e = cc
    filled (b ∷ bs) e = omega arith

push_packet-fields :
    (v : Server) (packet : Packet)
    → ((push_packet v packet).1.to_sessions ≡ v.to_sessions)
      × ((push_packet v packet).1.posted ≡ v.posted)
      × ((push_packet v packet).1.sessions ≡ v.sessions)
unfolding push_packet
push_packet-fields v packet = (ground arith, ground arith, ground arith)

push_packet-IsPosting :
    (id : ℕ) (v : Server) (packet : Packet) (given : List Bytes)
    → IsPosting id v given
    → IsPosting id (push_packet v packet).1 given
push_packet-IsPosting id v packet given t =
    let f = push_packet-fields v packet in
    fields_kept id v (push_packet v packet).1 given f.0 f.1 f.2 t

receive_all-IsPosting :
    (id : ℕ) (v : Server) (j : ℕ) (payloads given : List Bytes)
    → IsPosting id v given
    → IsPosting id (receive_all v j payloads) given
unfolding receive_all
receive_all-IsPosting id v j [] given t = t
receive_all-IsPosting id v j (payload ∷ rest) given t =
    let packet : Packet = record { type = data_packet; session_id = j; payload = payload } in
    receive_all-IsPosting id (push_packet v packet).1 j rest given
      (push_packet-IsPosting id v packet given t)

pub session_ran-IsPosting :
    (id : ℕ) (v : Server) (j : ℕ) (s u : Session) (given : List Bytes)
    → IsPosting id v given
    → IsPosting id (session_ran v j s u) given
unfolding session_ran session_closed
session_ran-IsPosting id v j s u given t =
    let kept = record v { objects = Map.modify j (λ _. u) v.objects } in
    let payloads = drop (length s.received) u.received in
    let heard = receive_all kept j payloads in
    let packet : Packet = record { type = Network.disconnect; session_id = j; payload = [] } in
    let still =
      receive_all-IsPosting id kept j payloads given
        (fields_kept id v kept given refl refl refl t) in
    elim (Bool-cases (ltb s.closes u.closes)) [
      | inl ended ↦ rw ended (
          quiet_task id (push_packet heard packet).1 (erase_session j) given refl
            (push_packet-IsPosting id heard packet given still))
      | inr lives ↦ rw lives still
    ]

keep_session-IsPosting :
    (id j : ℕ) (fresh : Session) (pushed : Bool × Server) (given : List Bytes)
    → IsPosting id pushed.1 given
    → IsPosting id (keep_session j fresh pushed) given
keep_session-IsPosting id j fresh (true, v) given t =
    kept-IsPosting id v (keep_session j fresh (true, v)) given refl refl
      (insert-IsUnique j v.sessions t.unique) t
keep_session-IsPosting id j fresh (false, v) given t = t

take_connection-IsPosting :
    (id : ℕ) (v : Server) (ok : Bool) (pool : BufferPool) (now : ℕ) (given : List Bytes)
    → IsPosting id v given
    → IsPosting id (take_connection v ok pool now) given
unfolding take_connection
take_connection-IsPosting id v ok pool now given t =
    let counted = record v { next_id = (v.next_id + 1) % 2 ^ 32 } in
    let packet : Packet = record { type = connect; session_id = v.next_id; payload = [] } in
    elim (Bool-cases (ok && not v.shutting_down)) [
      | inr off ↦ rw off t
      | inl live ↦ rw live (
          keep_session-IsPosting id v.next_id (session pool now) (push_packet counted packet) given
            (push_packet-IsPosting id counted packet given
              (fields_kept id v counted given refl refl refl t)))
    ]

pub accept-IsPosting :
    (id : ℕ) (v : Server) (ok : Bool) (pool : BufferPool) (now : ℕ) (given : List Bytes)
    → IsPosting id v given
    → IsPosting id (accept_completed v ok pool now) given
unfolding accept_completed
accept-IsPosting id v ok pool now given t =
    let done = record v { accepting = false } in
    let w = take_connection done ok pool now in
    let taken =
      take_connection-IsPosting id done ok pool now given
        (fields_kept id v done given refl refl refl t) in
    elim w.shutting_down
      as (λ b. IsPosting id (if b then w else record w { accepting = true }) given) [
        | true ↦ taken
        | false ↦ fields_kept id w (record w { accepting = true }) given refl refl refl taken
      ]
