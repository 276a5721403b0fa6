-- ===== src/Logic/Login.antt =====
-- `HandleLoginRequest` of NightServer/GameLogicSystem.cpp: which of its answers a session gets.
use project_night.Prelude.{
  ℕ, ◌≡◌, ◌≤◌, ◌<◌, ◌⊎◌, refl, inl, inr, true, false, [], ◌∷◌, ◌++◌, Option, none, some, arith,
  Bool, Bool-cases, is_empty, length, ltb,
}
use project_night.Wire.{Bytes}
use project_night.Rooms.{SessionState, find_session, set_logged_in, is_display_name_taken, log_in}
use project_night.Rooms.Lookup.{find_session-set_logged_in}
use project_night.Rooms.Consistency.{IsConsistent}
use project_night.Rooms.Names.{Taken, is_display_name_taken_iff}
use project_night.Message.{
  ErrorCode, UserInfo, login_response, no_error, invalid_name, duplicate_name, c_str,
  create_user_info_direct,
}
use project_night.Logic.{login_request, Env, GameLogic, queue_login_response}
use project_night.Logic.Handlers.{handle, handle_login_request}
use project_night.Logic.Chat.{Fits}
use project_night.Logic.Leave.{post, bytes, queue-Fits}

length_of_empty : (name : Bytes) → is_empty name ≡ true → length name ≡ 0
length_of_empty [] e = refl
length_of_empty (c ∷ name) e = cc

length_of_named : (name : Bytes) → is_empty name ≡ false → 0 < length name
length_of_named [] e = cc
length_of_named (c ∷ name) e = omega arith

-- The answer as bytes.
abbrev pub login_answer : Env → ℕ → Bool → ErrorCode → Option UserInfo → Bytes
login_answer env request_id success error_code user =
    bytes env request_id
      (login_response (some (record { success = success; error_code = error_code; user = user })))

-- The user of a session that logs in, with the name up to its first zero byte.
abbrev pub new_user : Bytes → SessionState → UserInfo
new_user name s = record { user_id = s.user_id; display_name = some (c_str name) }

module _ (env : Env) (k request_id : ℕ) (name : Bytes) where
  -- Only an answer was queued.
  abbrev pub Refuses : GameLogic → ErrorCode → Type 0
  Refuses g code =
      handle env g (login_request k request_id name)
      ≡ some (record g {
        outgoing =
            g.outgoing
            ++ record { session_id = k; payload = login_answer env request_id false code none }
              ∷ [];
      })

  module _ (s : SessionState) where
    -- The session has the name and is logged in, and its answer was queued.
    abbrev pub Accepts : GameLogic → Type 0
    Accepts g =
        handle env g (login_request k request_id name)
        ≡ some (record g {
          rooms = set_logged_in g.rooms k name;
          outgoing =
              g.outgoing
              ++ record {
                session_id = k;
                payload = login_answer env request_id true no_error (some (new_user name s));
              }
                ∷ [];
        })

    module _ (g : GameLogic)
        (fits_refused : (code : ErrorCode) → Fits (login_answer env request_id false code none))
        (fits_accepted : Fits
          (login_answer env request_id true no_error (some (new_user name s)))) where
      refused_lem :
          (code : ErrorCode)
          → queue_login_response env g k request_id false code none ≡ record g {
            outgoing = g.outgoing ++ post (login_answer env request_id false code none) (k ∷ []);
          }
      unfolding queue_login_response
      refused_lem code = queue-Fits env g k request_id _ (fits_refused code)

      accepted_lem :
          (h : GameLogic)
          → queue_login_response env h k request_id true no_error (some (log_in name s))
            ≡ record h {
              outgoing =
                  h.outgoing
                  ++ post
                      (login_answer env request_id true no_error (some (new_user name s)))
                      (k ∷ []);
            }
      unfolding queue_login_response create_user_info_direct
      accepted_lem h = queue-Fits env h k request_id _ fits_accepted

      -- A login request of a known session is answered to that session only. A name that is empty or
      -- longer than 32 bytes is refused as invalid; any other name that another logged-in session has
      -- is refused as a duplicate; and with any other name the session is logged in, and told its
      -- user id and its name up to the first zero byte. The answers must be ones that `QueueMessage`
      -- takes.
      pub login_answered :
          IsConsistent g.rooms
          → find_session g.rooms k ≡ some s
          → (((length name ≡ 0) ⊎ (32 < length name)) × Refuses g invalid_name)
            ⊎ (((0 < length name) × (length name ≤ 32))
                × ((Taken g.rooms.sessions name k × Refuses g duplicate_name)
                    ⊎ ((¬ Taken g.rooms.sessions name k) × Accepts g)))
      unfolding handle handle_login_request
      login_answered c found = elim (Bool-cases (is_empty name)) [
        | inl blank ↦
            inl (inl (length_of_empty name blank), ground (arith, refused_lem invalid_name))
        | inr named ↦ elim (Bool-cases (ltb 32 (length name))) [
          | inl long ↦ inl (inr (ground arith), ground (arith, refused_lem invalid_name))
          | inr short ↦ elim (Bool-cases (is_display_name_taken g.rooms name k)) [
            | inl taken ↦ inr (
              (length_of_named name named, ground arith),
              inl (
                (is_display_name_taken_iff g.rooms name k c.distinct).0 taken,
                ground (arith, refused_lem duplicate_name),
              ),
            )
            | inr fresh ↦ inr (
              (length_of_named name named, ground arith),
              inr (
                λ t. ground (arith, (is_display_name_taken_iff g.rooms name k c.distinct).1 t),
                ground (
                  arith,
                  find_session-set_logged_in g.rooms k k name,
                  accepted_lem (record g { rooms = set_logged_in g.rooms k name }),
                ),
              ),
            )
          ]
        ]
      ]
