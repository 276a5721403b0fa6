-- ===== src/Logic/Handlers.antt =====
-- The handlers of NightServer/GameLogicSystem.cpp, and `Update` over them. `none` is the dereference
-- of a null pointer. The console lines are left out, the reads that they make are not.
use project_night.Prelude.{
  ℕ, true, false, not, ◌||◌, List, [], ◌∷◌, ◌++◌, Option, none, some, length, is_empty, ltb, ◌==◌,
  if◌then◌else◌,
}
use project_night.Prelude.Text.{utf8}
use project_night.Wire.{Bytes}
use project_night.Rooms.{
  SessionState, RoomState, no_room_id, find_session, find_room, add_session, remove_session,
  remove_session_from_current_room, move_session_to_room, set_logged_in, is_display_name_taken,
  get_room_members,
}
use project_night.Message.{
  no_error, invalid_name, duplicate_name, room_not_found, not_in_room, already_in_room,
}
use project_night.Logic.{
  ServerEvent, session_connected, session_disconnected, invalid_packet, login_request,
  room_list_request, join_room_request, chat_send_request, leave_room_request, disconnect_request,
  Env, GameLogic, max_display_name_bytes, max_chat_message_bytes, queue_login_response,
  queue_room_list_response, queue_join_room_response, queue_leave_room_response,
  queue_disconnect_response, queue_chat_broadcast, queue_user_joined_event, queue_user_left_event,
  queue_system_message,
}

infixl 5 ◌>>=◌
abbrev pub ◌>>=◌ {ℓ κ} : {A : Type ℓ} {B : Type κ} → Option A → (A → Option B) → Option B
none >>= f = none
some a >>= f = f a

unfoldable pub join_a_room_first : Bytes
unfolding utf8
join_a_room_first = utf8 "채팅을 보내기 전에 먼저 방에 입장해야 합니다."

unfoldable pub empty_message : Bytes
unfolding utf8
empty_message = utf8 "빈 메시지는 전송할 수 없습니다."

unfoldable pub message_too_long : Bytes
unfolding utf8
message_too_long = utf8 "메시지가 너무 깁니다."

unfoldable pub entered_the_room : Bytes
unfolding utf8
entered_the_room = utf8 " 방에 입장했습니다."

unfoldable pub left_the_room : Bytes
unfolding utf8
left_the_room = utf8 "방에서 퇴장했습니다."

module _ (env : Env) where
  -- The loop of `NotifyRoomLeave`.
  unfoldable pub queue_left_events : GameLogic → SessionState → List SessionState → GameLogic
  queue_left_events g session [] = g
  queue_left_events g session (member ∷ rest) =
      queue_left_events (queue_user_left_event env g member.session_id session.room_id session)
        session rest

  unfoldable pub notify_room_leave : GameLogic → SessionState → GameLogic
  unfolding queue_left_events
  notify_room_leave g session =
      if session.room_id == no_room_id || not session.logged_in
      then g
      else queue_left_events g session
          (get_room_members g.rooms session.room_id (some session.session_id))

  unfoldable pub handle_session_connected : GameLogic → ℕ → Option GameLogic
  handle_session_connected g session_id = some (record g { rooms = add_session g.rooms session_id })

  -- `if (session) NotifyRoomLeave(*session);`
  abbrev pub notify_if_found : GameLogic → Option SessionState → GameLogic
  notify_if_found g none = g
  notify_if_found g (some session) = notify_room_leave g session

  unfoldable pub handle_session_disconnected : GameLogic → ℕ → Option GameLogic
  unfolding notify_room_leave
  handle_session_disconnected g session_id =
      let g' = notify_if_found g (find_session g.rooms session_id) in
      some (record g' { rooms = remove_session g'.rooms session_id })

  unfoldable pub handle_invalid_packet : GameLogic → ℕ → Bytes → Option GameLogic
  handle_invalid_packet g session_id message =
      some (queue_system_message env g session_id 0 message)

  -- The last part of `HandleLoginRequest`; its console line reads `session->display_name`.
  abbrev pub accept_login : GameLogic → ℕ → ℕ → Bytes → Option GameLogic
  accept_login g session_id request_id display_name =
      let rooms = set_logged_in g.rooms session_id display_name in
      let session = find_session rooms session_id in
      let g' =
        queue_login_response env (record g { rooms = rooms }) session_id request_id true no_error
          session in
      session >>= λ _. some g'

  unfoldable pub handle_login_request : GameLogic → ℕ → ℕ → Bytes → Option GameLogic
  handle_login_request g session_id request_id display_name =
      elim (find_session g.rooms session_id) [
        | none ↦ some g
        | some _ ↦
            if is_empty display_name
            then some (queue_login_response env g session_id request_id false invalid_name none)
            else if ltb max_display_name_bytes (length display_name)
            then some (queue_login_response env g session_id request_id false invalid_name none)
            else if is_display_name_taken g.rooms display_name session_id
            then some (queue_login_response env g session_id request_id false duplicate_name none)
            else accept_login g session_id request_id display_name
      ]

  unfoldable pub handle_room_list_request : GameLogic → ℕ → ℕ → Option GameLogic
  handle_room_list_request g session_id request_id =
      some (queue_room_list_response env g session_id request_id)

  -- The loop over the members that a joining session finds; `session` is the pointer, read in it.
  unfoldable pub announce :
      GameLogic → ℕ → Option SessionState → RoomState → List SessionState → Option GameLogic
  announce g session_id session room [] = some g
  announce g session_id session room (other_session ∷ rest) =
      let skip = announce g session_id session room rest in
      let go = λ (joined : SessionState).
        announce
          (queue_user_joined_event env
            (queue_user_joined_event env g other_session.session_id room.room_id joined) session_id
            room.room_id other_session)
          session_id session room rest in
      if not other_session.logged_in then skip else session >>= go

  -- From the second lookup on: the session is in no room, and `rooms` is the room system.
  abbrev pub enter : GameLogic → ℕ → ℕ → ℕ → Option GameLogic
  enter g session_id request_id room_id =
      let existing_members = get_room_members g.rooms room_id none in
      let rooms = move_session_to_room g.rooms session_id room_id in
      let session = find_session rooms session_id in
      let room = find_room rooms room_id in
      let g1 =
        queue_join_room_response env (record g { rooms = rooms }) session_id request_id true
          no_error room in
      room >>= λ r.
      announce (queue_system_message env g1 session_id r.room_id (r.room_name ++ entered_the_room))
        session_id session r existing_members

  -- `if (session->room_id != no_room_id)` of `HandleJoinRoomRequest`.
  abbrev pub leave_old_room : GameLogic → SessionState → ℕ → GameLogic
  leave_old_room g session session_id =
      if session.room_id == no_room_id
      then g
      else let g' = notify_room_leave g session in
        record g' { rooms = remove_session_from_current_room g'.rooms session_id }

  -- `HandleJoinRoomRequest` with both lookups made.
  abbrev pub join : GameLogic → ℕ → ℕ → ℕ → SessionState → Option RoomState → Option GameLogic
  join g session_id request_id room_id session none =
      if not session.logged_in
      then some (queue_join_room_response env g session_id request_id false invalid_name none)
      else some (queue_join_room_response env g session_id request_id false room_not_found none)
  join g session_id request_id room_id session (some room) =
      if not session.logged_in
      then some (queue_join_room_response env g session_id request_id false invalid_name none)
      else if session.room_id == room_id
      then some
          (queue_join_room_response env g session_id request_id false already_in_room (some room))
      else enter (leave_old_room g session session_id) session_id request_id room_id

  unfoldable pub handle_join_room_request : GameLogic → ℕ → ℕ → ℕ → Option GameLogic
  unfolding notify_room_leave announce
  handle_join_room_request g session_id request_id room_id =
      elim (find_session g.rooms session_id) [
        | none ↦ some g
        | some session ↦ join g session_id request_id room_id session (find_room g.rooms room_id)
      ]

  -- The loop of `HandleChatSendRequest`.
  unfoldable pub broadcast : GameLogic → SessionState → Bytes → List SessionState → GameLogic
  broadcast g session content [] = g
  broadcast g session content (member ∷ rest) =
      broadcast (queue_chat_broadcast env g member.session_id session.room_id session content)
        session content rest

  unfoldable pub handle_chat_send_request : GameLogic → ℕ → ℕ → Bytes → Option GameLogic
  unfolding broadcast
  handle_chat_send_request g session_id request_id content =
      elim (find_session g.rooms session_id) [
        | none ↦ some g
        | some session ↦
            if not session.logged_in
            then some g
            else if session.room_id == no_room_id
            then some (queue_system_message env g session_id 0 join_a_room_first)
            else if is_empty content
            then some (queue_system_message env g session_id session.room_id empty_message)
            else if ltb max_chat_message_bytes (length content)
            then some (queue_system_message env g session_id session.room_id message_too_long)
            else some (broadcast g session content (get_room_members g.rooms session.room_id none))
      ]

  unfoldable pub handle_leave_room_request : GameLogic → ℕ → ℕ → Option GameLogic
  unfolding notify_room_leave
  handle_leave_room_request g session_id request_id = elim (find_session g.rooms session_id) [
    | none ↦ some g
    | some session ↦
        if session.room_id == no_room_id
        then some (queue_leave_room_response env g session_id request_id false not_in_room)
        else let g' = notify_room_leave g session in
          let left = record g' { rooms = remove_session_from_current_room g'.rooms session_id } in
          some (
            queue_system_message env
              (queue_leave_room_response env left session_id request_id true no_error) session_id
              session.room_id left_the_room)
  ]

  unfoldable pub handle_disconnect_request : GameLogic → ℕ → ℕ → Option GameLogic
  unfolding notify_room_leave
  handle_disconnect_request g session_id request_id =
      let g1 = queue_disconnect_response env g session_id request_id true no_error in
      let g2 = notify_if_found g1 (find_session g1.rooms session_id) in
      some (record g2 {
        rooms = remove_session g2.rooms session_id;
        pending_disconnects = g2.pending_disconnects ++ session_id ∷ [];
      })

  unfoldable pub handle : GameLogic → ServerEvent → Option GameLogic
  handle g (session_connected session_id) = handle_session_connected g session_id
  handle g (session_disconnected session_id) = handle_session_disconnected g session_id
  handle g (invalid_packet session_id message) = handle_invalid_packet g session_id message
  handle g (login_request session_id request_id display_name) =
      handle_login_request g session_id request_id display_name
  handle g (room_list_request session_id request_id) =
      handle_room_list_request g session_id request_id
  handle g (join_room_request session_id request_id room_id) =
      handle_join_room_request g session_id request_id room_id
  handle g (chat_send_request session_id request_id content) =
      handle_chat_send_request g session_id request_id content
  handle g (leave_room_request session_id request_id) =
      handle_leave_room_request g session_id request_id
  handle g (disconnect_request session_id request_id) =
      handle_disconnect_request g session_id request_id

  unfoldable pub update : GameLogic → List ServerEvent → Option GameLogic
  unfolding handle
  update g [] = some g
  update g (event ∷ events) = handle g event >>= λ g'. update g' events
