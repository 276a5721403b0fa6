-- ===== src/Logic/Effect/Handlers/Login.antt =====
-- `HandleLoginRequest` of NightServer/GameLogicSystem.cpp.
use project_night.Prelude.{
  ℕ, ◌≡◌, refl, inl, inr, true, false, [], none, some, arith, ◌∙◌, Bool-cases, Option-cases,
  is_empty, length, ltb,
}
use project_night.Wire.{Bytes}
use project_night.Rooms.{find_session, set_logged_in, is_display_name_taken}
use project_night.Rooms.Lookup.{find_session-set_logged_in}
use project_night.Rooms.Consistency.Run.{run}
use project_night.Message.{ErrorCode, no_error, invalid_name, duplicate_name}
use project_night.Logic.{ServerEvent, login_request, Env, GameLogic, queue_login_response}
use project_night.Logic.Handlers.{handle, handle_login_request}
use project_night.Logic.Sends.{Sends-nothing, queue_login_response-Sends}
use project_night.Logic.Effect.{Handled, Concerned, accepts_login, calls}
use project_night.Logic.Effect.Handlers.{Handled_by_sending}

module _ (env : Env) (g : GameLogic) where
  pub login-Handled :
      (k request_id : ℕ) (name : Bytes) → Handled env g (login_request k request_id name)
  unfolding handle handle_login_request run
  login-Handled k request_id name = elim (Option-cases (find_session g.rooms k)) [
    | inl gone ↦ Handled_by_sending env g g e (ground arith) (ground arith) (Sends-nothing Q g)
    | inr (s, found) ↦ elim (Bool-cases (is_empty name)) [
      | inl blank ↦ refused invalid_name (ground arith) (ground arith)
      | inr named ↦ elim (Bool-cases (ltb 32 (length name))) [
        | inl long ↦ refused invalid_name (ground arith) (ground arith)
        | inr fits ↦ elim (Bool-cases (is_display_name_taken g.rooms name k)) [
          | inl taken ↦ refused duplicate_name (ground arith) (ground arith)
          | inr fresh ↦
              let rooms = set_logged_in g.rooms k name in
              let now = find_session-set_logged_in g.rooms k k name in
              let accepted : accepts_login g.rooms k name ≡ true = ground arith in
              let g1 = record g { rooms = rooms } in
              let sends =
                queue_login_response-Sends Q env g1 k (inl refl) request_id true no_error
                  (find_session rooms k) in
              record {
                next =
                    queue_login_response env g1 k request_id true no_error (find_session rooms k);
                handled = ground (arith, now);
                rooms = sends.rooms ∙ rw accepted refl;
                mails = record { new = sends.new; sent = sends.sent; to = sends.to };
              }
        ]
      ]
    ]
  ]
    where
      e : ServerEvent
      e = login_request k request_id name

      Q : ℕ → Type 0
      Q = Concerned g.rooms (login_request k request_id name)

      refused :
          (code : ErrorCode)
          → handle env g e ≡ some (queue_login_response env g k request_id false code none)
          → calls g.rooms e ≡ []
          → Handled env g e
      refused code done quiet =
          Handled_by_sending env g _ e done quiet
            (queue_login_response-Sends Q env g k (inl refl) request_id false code none)
