-- ===== src/Logic/Disconnect.antt =====
-- `HandleDisconnectRequest` of NightServer/GameLogicSystem.cpp.
use project_night.Prelude.{ℕ, ◌≡◌, refl, ◌≢◌, true, List, [], ◌∷◌, ◌++◌, some}
use project_night.Wire.{Bytes}
use project_night.Rooms.{SessionState, find_session, get_room_members, remove_session}
use project_night.Rooms.Consistency.{IsConsistent}
use project_night.Rooms.Members.{ids, Recipients, get_room_members-Recipients}
use project_night.Message.{disconnect_response, no_error}
use project_night.Logic.{disconnect_request, Env, GameLogic, queue_disconnect_response}
use project_night.Logic.Handlers.{handle, handle_disconnect_request}
use project_night.Logic.Chat.{Fits}
use project_night.Logic.Leave.{post, bytes, queue-Fits, left_bytes, told}

-- The answer to a session that wants to go.
abbrev pub disconnect_answer : Env → ℕ → Bytes
disconnect_answer env request_id =
    bytes env request_id
      (disconnect_response (some (record { success = true; error_code = no_error })))

module _ (env : Env) (g : GameLogic) (k request_id : ℕ)
    (fits_answer : Fits (disconnect_answer env request_id)) where
  abbrev answered : GameLogic
  answered = record g { outgoing = g.outgoing ++ post (disconnect_answer env request_id) (k ∷ []) }

  answered_lem : queue_disconnect_response env g k request_id true no_error ≡ answered
  unfolding queue_disconnect_response
  answered_lem = queue-Fits env g k request_id _ fits_answer

  -- A disconnect request of a logged-in session in a room queues the answer to it first, then one
  -- notice of who left for every other session in that room and for nobody else; the session is
  -- removed from its room and from the table, and its connection is marked to be closed; and
  -- nothing else changes. Both payloads must be ones that `QueueMessage` takes.
  pub disconnect_delivered :
      (s : SessionState)
      → IsConsistent g.rooms
      → find_session g.rooms k ≡ some s
      → s.logged_in ≡ true
      → s.room_id ≢ 0
      → Fits (left_bytes env s)
      → (members : List ℕ) × Recipients g.rooms s.room_id (some k) members
        × (handle env g (disconnect_request k request_id)
            ≡ some (record g {
              rooms = remove_session g.rooms k;
              outgoing =
                  (g.outgoing
                    ++ record { session_id = k; payload = disconnect_answer env request_id } ∷ [])
                  ++ post (left_bytes env s) members;
              pending_disconnects = g.pending_disconnects ++ k ∷ [];
            }))
  unfolding handle handle_disconnect_request
  disconnect_delivered s c found on n fits = (
    ids (get_room_members g.rooms s.room_id (some k)),
    get_room_members-Recipients g.rooms s.room_id (some k) c n,
    rw (answered_lem, found, told env answered k s c found on n fits) refl,
  )
