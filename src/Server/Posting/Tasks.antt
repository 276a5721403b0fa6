-- ===== src/Server/Posting/Tasks.antt =====
-- The tasks of NightNetwork/src/Server.cpp, by what they post to a session.
use mathlib.Core.List.{append-nil}
use project_night.Prelude.{
  ℕ, ◌≡◌, refl, sym, ◌∙◌, ap, subst, ◌⊎◌, false, not, ◌&&◌, List, [], ◌∷◌, ◌++◌, map, arith,
  Bool-cases, ◌==◌, inl, inr,
}
use project_night.Prelude.Set
use project_night.Prelude.Set.{IsUnique, insert-IsUnique, erase-IsUnique}
use project_night.Wire.{Bytes}
use project_night.Pool.{Buffer, BufferPool}
use project_night.Pool.Laws.{IsValid}
use project_night.Server.{
  Server, Task, Post, erase_session, send_frame, broadcast_frame, close_session, close_all,
  raw_frame, close, post_to, close_each, broadcast_to, run_task, run_posted,
}
use project_night.Server.Sending.{frame_of, to_each, broadcast_to_lem}
use project_night.Server.Posting.{
  raw_frames, task_frames, raw_frames-append, raw_frames-to_each, raw_frames-close_each, IsPosting,
  kept-IsPosting,
}
use project_night.Server.Posting.Front.{
  front, next-IsPosting, raw_frames-raw_frame, raw_frames-other,
}

-- The posted task in front is `task`; `v` is the state without it.
module _ (id : ℕ) (v : Server) (task : Task) (rest : List Task) (given : List Bytes)
    (t : IsPosting id (record v { posted = task ∷ rest }) given) where
  ran_broadcast :
      (pool : BufferPool) (frame : Buffer)
      → task ≡ broadcast_frame frame
      → IsValid pool
      → IsPosting id (run_task (record v { posted = rest }) pool (broadcast_frame frame)).0 given
  unfolding run_task
  ran_broadcast pool frame e valid =
      let w = record v { posted = rest } in
      let f =
        front t.waiting frame (task_frames id rest)
          (ap (λ (k : Task). task_frames id (k ∷ rest)) (sym e) ∙ t.waiting_lem) t.waiting_fit in
      elim (Bool-cases v.shutting_down) [
        | inl down ↦
            subst (λ s. IsPosting id s given) (ground arith)
              (next-IsPosting id (record v { posted = task ∷ rest }) w given frame
                (task_frames id rest) t f refl t.unique (inl refl))
        | inr up ↦
            let told : (broadcast_to w pool frame v.sessions).0
                ≡ record w { to_sessions = v.to_sessions ++ to_each frame v.sessions } =
              subst
                (λ b.
                  (broadcast_to w pool b v.sessions).0
                  ≡ record w { to_sessions = v.to_sessions ++ to_each b v.sessions })
                (sym f.same)
                (broadcast_to_lem f.payload f.some_bytes f.fits w pool v.sessions valid) in
            let goal : (run_task w pool (broadcast_frame frame)).0
                ≡ record w { to_sessions = v.to_sessions ++ to_each frame v.sessions } =
              ground (arith, told) in
            subst (λ s. IsPosting id s given) (sym goal)
              (next-IsPosting id (record v { posted = task ∷ rest })
                (record w { to_sessions = v.to_sessions ++ to_each frame v.sessions }) given frame
                (task_frames id rest) t f refl t.unique (once frame))
      ]
    where
      once :
          (frame : Buffer)
          → (raw_frames id (v.to_sessions ++ to_each frame v.sessions)
              ≡ raw_frames id v.to_sessions)
            ⊎ (raw_frames id (v.to_sessions ++ to_each frame v.sessions)
                ≡ raw_frames id v.to_sessions ++ frame ∷ [])
      once frame =
          let split = raw_frames-append id v.to_sessions (to_each frame v.sessions) in
          let each = raw_frames-to_each id frame v.sessions t.unique in
          elim (Bool-cases (Set.contains id v.sessions)) [
            | inl here ↦
                inr (split ∙ ap (◌++◌ (raw_frames id v.to_sessions)) (ground (arith, each)))
            | inr away ↦ inl (
                split
                ∙ ap (◌++◌ (raw_frames id v.to_sessions)) (ground (arith, each))
                ∙ append-nil (raw_frames id v.to_sessions))
          ]

  ran_send :
      (pool : BufferPool) (j : ℕ) (frame : Buffer)
      → task ≡ send_frame j frame
      → IsPosting id (run_task (record v { posted = rest }) pool (send_frame j frame)).0 given
  unfolding run_task
  ran_send pool j frame e =
      let full = record v { posted = task ∷ rest } in
      let w = record v { posted = rest } in
      let told = record w { to_sessions = v.to_sessions ++ (j, raw_frame frame) ∷ [] } in
      let tasks : task_frames id (send_frame j frame ∷ rest) ≡ map frame_of t.waiting =
        ap (λ (k : Task). task_frames id (k ∷ rest)) (sym e) ∙ t.waiting_lem in
      elim (Bool-cases (j == id)) [
        | inl mine ↦
            let this : j ≡ id = ground arith in
            let f =
              front t.waiting frame (task_frames id rest) (ground (arith, tasks)) t.waiting_fit in
            let drops : IsPosting id w given =
              next-IsPosting id full w given frame (task_frames id rest) t f refl t.unique
                (inl refl) in
            let posts : IsPosting id told given =
              next-IsPosting id full told given frame (task_frames id rest) t f refl t.unique (
                inr (
                  ap (λ (k : ℕ). raw_frames id (v.to_sessions ++ (k, raw_frame frame) ∷ [])) this
                  ∙ raw_frames-raw_frame id v.to_sessions frame)) in
            either pool j frame drops posts
        | inr other ↦
            let less : task_frames id rest ≡ task_frames id (task ∷ rest) =
              ground (arith, ap (λ (k : Task). task_frames id (k ∷ rest)) e) in
            either pool j frame (kept-IsPosting id full w given refl less t.unique t) (
              kept-IsPosting id full told given (raw_frames-other id j v.to_sessions frame other)
                less t.unique t)
      ]
    where
      either :
          (pool : BufferPool) (j : ℕ) (frame : Buffer)
          → IsPosting id (record v { posted = rest }) given
          → IsPosting id
              (record v { posted = rest; to_sessions = v.to_sessions ++ (j, raw_frame frame) ∷ [] })
              given
          → IsPosting id (run_task (record v { posted = rest }) pool (send_frame j frame)).0 given
      either pool j frame drops posts = elim (Bool-cases v.shutting_down) [
        | inl down ↦ subst (λ s. IsPosting id s given) (ground arith) drops
        | inr up ↦ elim (Bool-cases (Set.contains j v.sessions)) [
          | inl there ↦ subst (λ s. IsPosting id s given) (ground arith) posts
          | inr gone ↦ subst (λ s. IsPosting id s given) (ground arith) drops
        ]
      ]

raw_frames-close :
    (id j : ℕ) (posts : List (ℕ × Post))
    → raw_frames id (posts ++ (j, close) ∷ []) ≡ raw_frames id posts
raw_frames-close id j posts =
    raw_frames-append id posts ((j, close) ∷ []) ∙ append-nil (raw_frames id posts)

close_each-fields :
    (v : Server) (ids : List ℕ)
    → ((close_each v ids).posted ≡ v.posted) × ((close_each v ids).sessions ≡ v.sessions)
unfolding close_each
close_each-fields v [] = (refl, refl)
close_each-fields v (j ∷ ids) = close_each-fields (post_to v j close) ids

run_task-IsPosting :
    (id : ℕ) (v : Server) (task : Task) (rest : List Task) (given : List Bytes) (pool : BufferPool)
    → IsPosting id (record v { posted = task ∷ rest }) given
    → IsValid pool
    → IsPosting id (run_task (record v { posted = rest }) pool task).0 given
unfolding run_task
run_task-IsPosting id v (erase_session j) rest given pool t valid =
    kept-IsPosting id (record v { posted = erase_session j ∷ rest })
      (record v { posted = rest; sessions = Set.erase j v.sessions }) given refl refl
      (erase-IsUnique j v.sessions t.unique) t
run_task-IsPosting id v (send_frame j frame) rest given pool t valid =
    ran_send id v (send_frame j frame) rest given t pool j frame refl
run_task-IsPosting id v (broadcast_frame frame) rest given pool t valid =
    ran_broadcast id v (broadcast_frame frame) rest given t pool frame refl valid
run_task-IsPosting id v (close_session j) rest given pool t valid =
    let full = record v { posted = close_session j ∷ rest } in
    let w = record v { posted = rest } in
    elim (Bool-cases (not v.shutting_down && Set.contains j v.sessions)) [
      | inl told ↦ rw told (
          kept-IsPosting id full (post_to w j close) given (raw_frames-close id j v.to_sessions)
            refl t.unique t)
      | inr quiet ↦ rw quiet (kept-IsPosting id full w given refl refl t.unique t)
    ]
run_task-IsPosting id v close_all rest given pool t valid =
    let full = record v { posted = close_all ∷ rest } in
    let w = record v { posted = rest; listening = false } in
    let same = close_each-fields w v.sessions in
    kept-IsPosting id full (close_each w v.sessions) given (raw_frames-close_each id w v.sessions)
      (ap (λ (l : List Task). task_frames id l) same.0) (subst IsUnique (sym same.1) t.unique) t

pub run_posted-IsPosting :
    (id : ℕ) (v : Server) (given : List Bytes) (pool : BufferPool)
    → IsValid pool
    → IsPosting id v given
    → IsPosting id (run_posted v pool).0 given
unfolding run_posted
run_posted-IsPosting id v given pool valid t = go v.posted t
  where
    go :
        (tasks : List Task)
        → IsPosting id (record v { posted = tasks }) given
        → IsPosting id (run_posted (record v { posted = tasks }) pool).0 given
    go [] t = t
    go (task ∷ rest) t = run_task-IsPosting id v task rest given pool t valid
