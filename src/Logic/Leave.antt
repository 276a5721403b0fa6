-- ===== src/Logic/Leave.antt =====
-- Leaving a room in NightServer/GameLogicSystem.cpp: by request, and with a connection that is gone.
use mathlib.Core.List.{append-nil, append_assoc}
use project_night.Prelude.{ℕ, ◌≡◌, sym, ◌∙◌, ap, ◌≢◌, true, List, [], ◌∷◌, ◌++◌, some, arith}
use project_night.Wire.{Bytes}
use project_night.Rooms.{
  SessionState, find_session, get_room_members, remove_session, remove_session_from_current_room,
}
use project_night.Rooms.Consistency.{IsConsistent}
use project_night.Rooms.Members.{ids, Recipients, get_room_members-Recipients}
use project_night.Message.{
  MessagePayload, leave_room_response, user_left_event, system_message_event, build_message, c_str,
  no_error, create_user_info_direct, create_system_message_event_direct,
}
use project_night.Logic.{
  leave_room_request, session_disconnected, Env, GameLogic, OutgoingMessage, queue,
  queue_user_left_event, queue_leave_room_response, queue_system_message,
}
use project_night.Logic.Handlers.{
  handle, handle_leave_room_request, handle_session_disconnected, notify_room_leave,
  queue_left_events, left_the_room,
}
use project_night.Logic.Chat.{Fits, queue_message-Fits}

-- One payload for each of the recipients.
abbrev pub post : Bytes → List ℕ → List OutgoingMessage
post payload [] = []
post payload (j ∷ js) = record { session_id = j; payload = payload } ∷ post payload js

abbrev pub bytes : Env → ℕ → MessagePayload → Bytes
bytes env request_id payload =
    env.codec.encode (record { request_id = request_id; payload = payload })

pub queue-Fits :
    (env : Env) (g : GameLogic) (k request_id : ℕ) (payload : MessagePayload)
    → Fits (bytes env request_id payload)
    → queue env g k request_id payload
      ≡ record g { outgoing = g.outgoing ++ post (bytes env request_id payload) (k ∷ []) }
unfolding queue build_message
queue-Fits env g k request_id payload fits =
    queue_message-Fits g k (bytes env request_id payload) fits

-- What the others in a room are told: who left which room.
abbrev pub left_bytes : Env → SessionState → Bytes
left_bytes env s = bytes env 0 (
    user_left_event (
      some (record {
        room_id = s.room_id;
        user = some (record { user_id = s.user_id; display_name = some (c_str s.display_name) });
      })))

module _ (env : Env) (s : SessionState) (fits : Fits (left_bytes env s)) where
  queue_left_events_lem :
      (g : GameLogic) (members : List SessionState)
      → queue_left_events env g s members
        ≡ record g { outgoing = g.outgoing ++ post (left_bytes env s) (ids members) }
  unfolding queue_left_events queue_user_left_event create_user_info_direct
  queue_left_events_lem g [] =
      ap (λ (o : List OutgoingMessage). record g { outgoing = o }) (sym (append-nil g.outgoing))
  queue_left_events_lem g (m ∷ rest) =
      let first = post (left_bytes env s) (m.session_id ∷ []) in
      let others = post (left_bytes env s) (ids rest) in
      ap (λ (h : GameLogic). queue_left_events env h s rest)
        (queue-Fits env g m.session_id 0 _ fits)
      ∙ queue_left_events_lem (record g { outgoing = g.outgoing ++ first }) rest
      ∙ ap (λ (o : List OutgoingMessage). record g { outgoing = o })
          (append_assoc g.outgoing first others)

  notify_room_leave_lem :
      (g : GameLogic)
      → s.logged_in ≡ true
      → s.room_id ≢ 0
      → notify_room_leave env g s ≡ record g {
        outgoing =
            g.outgoing
            ++ post
                (left_bytes env s)
                (ids (get_room_members g.rooms s.room_id (some s.session_id)));
      }
  unfolding notify_room_leave
  notify_room_leave_lem g on n =
      ground
        (arith, queue_left_events_lem g (get_room_members g.rooms s.room_id (some s.session_id)))

-- The answer to a leaving session, and the note after it.
abbrev pub leave_answer : Env → ℕ → Bytes
leave_answer env request_id =
    bytes env request_id
      (leave_room_response (some (record { success = true; error_code = no_error })))

abbrev pub leave_note : Env → ℕ → Bytes
unfolding left_the_room
leave_note env r =
    bytes env 0
      (system_message_event (some (record { room_id = r; content = some (c_str left_the_room) })))

module _ (env : Env) (g : GameLogic) (k : ℕ) (s : SessionState) (c : IsConsistent g.rooms)
    (found : find_session g.rooms k ≡ some s) (on : s.logged_in ≡ true) (n : s.room_id ≢ 0)
    (fits : Fits (left_bytes env s)) where
  abbrev others : List ℕ
  others = ids (get_room_members g.rooms s.room_id (some k))

  pub told :
      notify_room_leave env g s
      ≡ record g { outgoing = g.outgoing ++ post (left_bytes env s) others }
  told =
      notify_room_leave_lem env s fits g on n
      ∙ ap
          (λ (i : ℕ). record g {
            outgoing =
                g.outgoing
                ++ post (left_bytes env s) (ids (get_room_members g.rooms s.room_id (some i)));
          })
          (c.keyed k s found).0

  others-Recipients : Recipients g.rooms s.room_id (some k) others
  others-Recipients = get_room_members-Recipients g.rooms s.room_id (some k) c n

  -- When the connection of a logged-in session in a room is gone, every other session in that room
  -- is queued one notice of who left, and nobody else one; the session is removed from its
  -- room and from the table; and nothing else changes. The notice must be one that `QueueMessage`
  -- takes.
  pub disconnected_delivered :
      (members : List ℕ) × Recipients g.rooms s.room_id (some k) members
      × (handle env g (session_disconnected k)
          ≡ some (record g {
            rooms = remove_session g.rooms k;
            outgoing = g.outgoing ++ post (left_bytes env s) members;
          }))
  unfolding handle handle_session_disconnected
  disconnected_delivered = (others, others-Recipients, ground (arith, told))

  answered :
      (request_id r : ℕ) (h : GameLogic)
      → Fits (leave_answer env request_id)
      → Fits (leave_note env r)
      → queue_system_message env
          (queue_leave_room_response env h k request_id true no_error)
          k
          r
          left_the_room
        ≡ record h {
          outgoing =
              h.outgoing
              ++ record { session_id = k; payload = leave_answer env request_id }
                ∷ record { session_id = k; payload = leave_note env r }
                ∷ [];
        }
  unfolding queue_system_message queue_leave_room_response create_system_message_event_direct
      left_the_room
  answered request_id r h fits_answer fits_note =
      ap (λ (i : GameLogic). queue_system_message env i k r left_the_room)
        (queue-Fits env h k request_id _ fits_answer)
      ∙ queue-Fits env
          (record h { outgoing = h.outgoing ++ post (leave_answer env request_id) (k ∷ []) }) k 0 _
          fits_note
      ∙ ap (λ (o : List OutgoingMessage). record h { outgoing = o })
          (append_assoc h.outgoing (post (leave_answer env request_id) (k ∷ []))
            (post (leave_note env r) (k ∷ [])))

  -- A leave request of a logged-in session in a room queues one notice for every other session in
  -- that room and for nobody else, then the answer and a note for the session itself; it takes the
  -- session out of the room; and nothing else changes. The payloads must be ones that
  -- `QueueMessage` takes.
  pub leave_delivered :
      (request_id : ℕ)
      → Fits (leave_answer env request_id)
      → Fits (leave_note env s.room_id)
      → (members : List ℕ) × Recipients g.rooms s.room_id (some k) members
        × (handle env g (leave_room_request k request_id)
            ≡ some (record g {
              rooms = remove_session_from_current_room g.rooms k;
              outgoing =
                  (g.outgoing ++ post (left_bytes env s) members)
                  ++ record { session_id = k; payload = leave_answer env request_id }
                    ∷ record { session_id = k; payload = leave_note env s.room_id }
                    ∷ [];
            }))
  unfolding handle handle_leave_room_request
  leave_delivered request_id fits_answer fits_note =
      let left = record (notify_room_leave env g s) {
        rooms = remove_session_from_current_room (notify_room_leave env g s).rooms k;
      } in
      (
        others,
        others-Recipients,
        ground (arith, told, answered request_id s.room_id left fits_answer fits_note),
      )
