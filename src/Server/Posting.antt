-- ===== src/Server/Posting.antt =====
-- Which payloads NightNetwork/src/Server.cpp posts to one of its sessions, over whole runs.
pub mod Front
pub mod Tasks
pub mod Handlers
pub mod Runs
use mathlib.Core.List.{append-nil, append_assoc, map-append}
use project_night.Prelude.{
  ℕ, ◌+◌, ◌%◌, ◌^◌, ◌<◌, ◌≤◌, ◌≡◌, refl, sym, ◌∙◌, ap, subst, ◌⊎◌, Bool, true, false, not, ◌&&◌,
  ◌||◌, List, [], ◌∷◌, ◌++◌, map, arith, Bool-cases, drop, length, is_empty, ltb, ◌==◌,
  if◌then◌else◌, inl, inr,
}
use project_night.Prelude.Set
use project_night.Prelude.Set.{IsUnique}
use project_night.Prelude.Within.{
  Within, nothing, Within-last, Within-less, Within-all, Within-append,
}
use project_night.Wire.{Bytes}
use project_night.Pool.{Buffer, BufferPool}
use project_night.Pool.Laws.{IsValid}
use project_night.Session.{Session}
use project_night.Server.{
  Server, Task, Post, erase_session, send_frame, broadcast_frame, close_session, close_all,
  raw_frame, close, post_to, close_each, broadcast_to, run_task, run_posted, post_data, post_task,
}
use project_night.Server.Sending.{frame_of, to_each, broadcast_to_lem, post_data_lem}

-- The frames among what was posted to a session, and those that tasks may post to it.
abbrev pub raw_frames : ℕ → List (ℕ × Post) → List Buffer
raw_frames id [] = []
raw_frames id ((j, raw_frame frame) ∷ rest) =
    if j == id then frame ∷ raw_frames id rest else raw_frames id rest
raw_frames id ((j, close) ∷ rest) = raw_frames id rest

abbrev pub task_frames : ℕ → List Task → List Buffer
task_frames id [] = []
task_frames id (erase_session j ∷ rest) = task_frames id rest
task_frames id (send_frame j frame ∷ rest) =
    if j == id then frame ∷ task_frames id rest else task_frames id rest
task_frames id (broadcast_frame frame ∷ rest) = frame ∷ task_frames id rest
task_frames id (close_session j ∷ rest) = task_frames id rest
task_frames id (close_all ∷ rest) = task_frames id rest

-- Payloads that a frame takes.
abbrev pub Fit : List Bytes → Type 0
Fit [] = Unit
Fit (payload ∷ rest) = (0 < length payload) × (length payload ≤ 2048) × Fit rest

pub Fit-append : (ps qs : List Bytes) → Fit ps → Fit qs → Fit (ps ++ qs)
Fit-append [] qs f g = g
Fit-append (p ∷ ps) qs f g = (f.0, f.1, Fit-append ps qs f.2 g)

pub raw_frames-append :
    (id : ℕ) (xs ys : List (ℕ × Post))
    → raw_frames id (xs ++ ys) ≡ raw_frames id xs ++ raw_frames id ys
raw_frames-append id [] ys = refl
raw_frames-append id ((j, raw_frame frame) ∷ xs) ys = ground (arith, raw_frames-append id xs ys)
raw_frames-append id ((j, close) ∷ xs) ys = raw_frames-append id xs ys

pub task_frames-append :
    (id : ℕ) (xs ys : List Task)
    → task_frames id (xs ++ ys) ≡ task_frames id xs ++ task_frames id ys
task_frames-append id [] ys = refl
task_frames-append id (erase_session j ∷ xs) ys = task_frames-append id xs ys
task_frames-append id (send_frame j frame ∷ xs) ys = ground (arith, task_frames-append id xs ys)
task_frames-append id (broadcast_frame frame ∷ xs) ys = ap (◌∷◌ frame) (task_frames-append id xs ys)
task_frames-append id (close_session j ∷ xs) ys = task_frames-append id xs ys
task_frames-append id (close_all ∷ xs) ys = task_frames-append id xs ys

-- A broadcast posts to a session once at most.
pub raw_frames-to_each :
    (id : ℕ) (frame : Buffer) (ids : List ℕ)
    → IsUnique ids
    → raw_frames id (to_each frame ids) ≡ (if Set.contains id ids then frame ∷ [] else [])
unfolding Set.contains
raw_frames-to_each id frame [] u = refl
raw_frames-to_each id frame (j ∷ ids) u = ground (arith, raw_frames-to_each id frame ids u.1)

pub raw_frames-close_each :
    (id : ℕ) (v : Server) (ids : List ℕ)
    → raw_frames id (close_each v ids).to_sessions ≡ raw_frames id v.to_sessions
unfolding close_each
raw_frames-close_each id v [] = refl
raw_frames-close_each id v (j ∷ ids) =
    raw_frames-close_each id (post_to v j close) ids
    ∙ raw_frames-append id v.to_sessions ((j, close) ∷ [])
    ∙ append-nil (raw_frames id v.to_sessions)

-- What a session gets: the payloads whose frames were posted to it, and those whose tasks wait, in
-- the order in which they were given.
pub record IsPosting (id : ℕ) (v : Server) (given : List Bytes) : Type 0 where
  pub posted : List Bytes
  pub posted_lem : raw_frames id v.to_sessions ≡ map frame_of posted
  pub posted_fit : Fit posted
  pub waiting : List Bytes
  pub waiting_lem : task_frames id v.posted ≡ map frame_of waiting
  pub waiting_fit : Fit waiting
  pub order : Within (posted ++ waiting) given
  pub unique : IsUnique v.sessions

pub kept-IsPosting :
    (id : ℕ) (v w : Server) (given : List Bytes)
    → raw_frames id w.to_sessions ≡ raw_frames id v.to_sessions
    → task_frames id w.posted ≡ task_frames id v.posted
    → IsUnique w.sessions
    → IsPosting id v given
    → IsPosting id w given
kept-IsPosting id v w given e f u t = record {
  posted = t.posted;
  posted_lem = e ∙ t.posted_lem;
  posted_fit = t.posted_fit;
  waiting = t.waiting;
  waiting_lem = f ∙ t.waiting_lem;
  waiting_fit = t.waiting_fit;
  order = t.order;
  unique = u;
}
