-- ===== src/Server/Posting/Runs.antt =====
-- What the runs of NightNetwork/src/Server.cpp post to a session, against the payloads they are given.
use mathlib.Core.List.{append-nil, append_assoc}
use project_night.Prelude.{
  ℕ, ◌≡◌, refl, sym, subst, true, List, [], ◌∷◌, ◌++◌, arith, Bool-cases, ◌==◌, if◌then◌else◌, inl,
  inr,
}
use project_night.Prelude.Within.{nothing}
use project_night.Wire.{Bytes}
use project_night.Pool.{BufferPool}
use project_night.Pool.Laws.{IsValid}
use project_night.Server.{
  Server, send_frame, broadcast_frame, close_session, close_all, send, broadcast, disconnect,
  poll_packet, begin_shutdown, create, Listening,
}
use project_night.Server.Sending.{frame_of}
use project_night.Server.Posting.{IsPosting}
use project_night.Server.Step.{
  ServerStep, ServerSteps, accepted, ran, task_ran, sent, sent_to_all, disconnected, taken,
  shutdown_begun, shutdown_ended, no_more, one_more,
}
use project_night.Server.Starting.{started, create-started}
use project_night.Server.Posting.Tasks.{run_posted-IsPosting}
use project_night.Server.Posting.Handlers.{
  fields_kept, quiet_task, frame_task, refused, post_data-cases, session_ran-IsPosting,
  accept-IsPosting,
}

-- The payloads that a run is given for a session: sent to it, or broadcast.
abbrev given_in_step : ℕ → (v w : Server) → ServerStep v w → List Bytes
given_in_step id _ _ (accepted v ok pool now runs pending small) = []
given_in_step id _ _ (ran v j s t runs found step) = []
given_in_step id _ _ (task_ran v pool runs valid) = []
given_in_step id _ _ (sent v pool session_id payload valid) =
    if session_id == id then payload ∷ [] else []
given_in_step id _ _ (sent_to_all v pool payload valid) = payload ∷ []
given_in_step id _ _ (disconnected v session_id) = []
given_in_step id _ _ (taken v) = []
given_in_step id _ _ (shutdown_begun v) = []
given_in_step id _ _ (shutdown_ended v down closed) = []

abbrev pub given_in : ℕ → (v w : Server) → ServerSteps v w → List Bytes
given_in id _ _ (no_more v) = []
given_in id _ _ (one_more v w x run last) = given_in id v w run ++ given_in_step id w x last

sent-IsPosting :
    (id : ℕ) (v : Server) (pool : BufferPool) (j : ℕ) (payload : Bytes) (given : List Bytes)
    → IsValid pool
    → IsPosting id v given
    → IsPosting id (send v pool j payload).0 (given ++ (if j == id then payload ∷ [] else []))
unfolding send
sent-IsPosting id v pool j payload given valid t = elim (Bool-cases (j == id)) [
  | inl mine ↦ rw mine (elim (post_data-cases v pool payload (send_frame j) valid) [
    | inl same ↦
        subst (λ s. IsPosting id s (given ++ payload ∷ [])) (sym same)
          (refused id v payload given t)
    | inr (some_bytes, fits, posts) ↦
        subst (λ s. IsPosting id s (given ++ payload ∷ [])) (sym posts)
          (frame_task id v (send_frame j (frame_of payload)) payload given (ground arith) some_bytes
            fits t)
  ])
  | inr other ↦
      rw (other, append-nil given)
        (elim (post_data-cases v pool payload (send_frame j) valid) [
          | inl same ↦ subst (λ s. IsPosting id s given) (sym same) t
          | inr (some_bytes, fits, posts) ↦
              subst (λ s. IsPosting id s given) (sym posts)
                (quiet_task id v (send_frame j (frame_of payload)) given (ground arith) t)
        ])
]

sent_to_all-IsPosting :
    (id : ℕ) (v : Server) (pool : BufferPool) (payload : Bytes) (given : List Bytes)
    → IsValid pool
    → IsPosting id v given
    → IsPosting id (broadcast v pool payload).0 (given ++ payload ∷ [])
unfolding broadcast
sent_to_all-IsPosting id v pool payload given valid t =
    elim (post_data-cases v pool payload broadcast_frame valid) [
      | inl same ↦
          subst (λ s. IsPosting id s (given ++ payload ∷ [])) (sym same)
            (refused id v payload given t)
      | inr (some_bytes, fits, posts) ↦
          subst (λ s. IsPosting id s (given ++ payload ∷ [])) (sym posts)
            (frame_task id v (broadcast_frame (frame_of payload)) payload given refl some_bytes fits
              t)
    ]

disconnected-IsPosting :
    (id : ℕ) (v : Server) (j : ℕ) (given : List Bytes)
    → IsPosting id v given
    → IsPosting id (disconnect v j) given
unfolding disconnect
disconnected-IsPosting id v j given t = elim (Bool-cases v.shutting_down) [
  | inl down ↦ subst (λ s. IsPosting id s given) (ground arith) t
  | inr up ↦
      subst (λ s. IsPosting id s given) (ground arith)
        (quiet_task id v (close_session j) given refl t)
]

poll_packet-IsPosting :
    (id : ℕ) (v : Server) (given : List Bytes)
    → IsPosting id v given
    → IsPosting id (poll_packet v).1 given
unfolding poll_packet
poll_packet-IsPosting id v given t =
    fields_kept id v (poll_packet v).1 given (ground arith) (ground arith) (ground arith) t

begin_shutdown-IsPosting :
    (id : ℕ) (v : Server) (given : List Bytes)
    → IsPosting id v given
    → IsPosting id (begin_shutdown v) given
unfolding begin_shutdown
begin_shutdown-IsPosting id v given t = elim (Bool-cases v.shutting_down) [
  | inl down ↦ subst (λ s. IsPosting id s given) (ground arith) t
  | inr up ↦
      let w = record v { shutting_down = true } in
      subst (λ s. IsPosting id s given) (ground arith)
        (quiet_task id w close_all given refl (fields_kept id v w given refl refl refl t))
]

-- A step that is given nothing.
by_nothing :
    (id : ℕ) (v : Server) (given : List Bytes) → IsPosting id v given → IsPosting id v (given ++ [])
by_nothing id v given t = subst (IsPosting id v) (sym (append-nil given)) t

Step-IsPosting :
    (id : ℕ) (v w : Server) (step : ServerStep v w) (given : List Bytes)
    → IsPosting id v given
    → IsPosting id w (given ++ given_in_step id v w step)
Step-IsPosting id _ w (accepted v ok pool now runs pending small) given t =
    by_nothing id w given (accept-IsPosting id v ok pool now given t)
Step-IsPosting id _ w (ran v j s u runs found step) given t =
    by_nothing id w given (session_ran-IsPosting id v j s u given t)
Step-IsPosting id _ w (task_ran v pool runs valid) given t =
    by_nothing id w given (run_posted-IsPosting id v given pool valid t)
Step-IsPosting id _ _ (sent v pool j payload valid) given t =
    sent-IsPosting id v pool j payload given valid t
Step-IsPosting id _ _ (sent_to_all v pool payload valid) given t =
    sent_to_all-IsPosting id v pool payload given valid t
Step-IsPosting id _ w (disconnected v j) given t =
    by_nothing id w given (disconnected-IsPosting id v j given t)
Step-IsPosting id _ w (taken v) given t = by_nothing id w given (poll_packet-IsPosting id v given t)
Step-IsPosting id _ w (shutdown_begun v) given t =
    by_nothing id w given (begin_shutdown-IsPosting id v given t)
Step-IsPosting id _ w (shutdown_ended v down closed) given t =
    by_nothing id w given (fields_kept id v w given refl refl refl t)

Steps-IsPosting :
    (id : ℕ) (v w : Server) (run : ServerSteps v w) (given : List Bytes)
    → IsPosting id v given
    → IsPosting id w (given ++ given_in id v w run)
Steps-IsPosting id _ w (no_more v) given t = by_nothing id w given t
Steps-IsPosting id _ _ (one_more v w x run last) given t =
    subst (IsPosting id x) (append_assoc given (given_in id v w run) (given_in_step id w x last)) (
      Step-IsPosting id w x last (given ++ given_in id v w run)
        (Steps-IsPosting id v w run given t))

started-IsPosting : (id : ℕ) → IsPosting id started []
unfolding started
started-IsPosting id = record {
  posted = [];
  posted_lem = refl;
  posted_fit = tt;
  waiting = [];
  waiting_lem = refl;
  waiting_fit = tt;
  order = nothing;
  unique = tt;
}

-- In every run of a server that `create` gave.
pub create-IsPosting :
    (id : ℕ) (calls : Listening) (v w : Server)
    → create calls ≡ inr v
    → (run : ServerSteps v w) → IsPosting id w (given_in id v w run)
create-IsPosting id calls v w made run =
    Steps-IsPosting id v w run []
      (subst (λ s. IsPosting id s []) (sym (create-started calls v made)) (started-IsPosting id))
