-- ===== src/Logic.antt =====
-- NightServer/GameLogicSystem.h, the state and the `Queue…` functions of GameLogicSystem.cpp, and the
-- events of ServerTypes.h.
pub mod Handlers
pub mod Sends
pub mod Effect
pub mod Names
pub mod Chat
pub mod Leave
pub mod Login
pub mod Disconnect
pub mod Inside
pub mod Join
use project_night.Prelude.{
  ℕ, ◌+◌, ◌%◌, ◌^◌, Bool, true, false, ◌&&◌, ◌||◌, List, [], ◌∷◌, ◌++◌, Option, none, some, length,
  is_empty, ltb, if◌then◌else◌,
}
use project_night.Prelude.Map.{Map}
use project_night.Wire.{Bytes}
use project_night.Rooms.{SessionState, RoomState, RoomSystem}
use project_night.Message.{
  ErrorCode, UserInfo, RoomInfo, MessagePayload, login_response, room_list_response,
  join_room_response, leave_room_response, disconnect_response, chat_broadcast, user_joined_event,
  user_left_event, system_message_event, Codec, build_message, create_user_info_direct,
  create_room_info_direct, create_chat_broadcast_direct, create_system_message_event_direct,
}

-- std::variant of the event structs.
pub data ServerEvent : Type 0 where
  session_connected session_disconnected : (session_id : ℕ) → ServerEvent
  invalid_packet : (session_id : ℕ) (message : Bytes) → ServerEvent
  login_request : (session_id request_id : ℕ) (display_name : Bytes) → ServerEvent
  room_list_request : (session_id request_id : ℕ) → ServerEvent
  join_room_request : (session_id request_id room_id : ℕ) → ServerEvent
  chat_send_request : (session_id request_id : ℕ) (content : Bytes) → ServerEvent
  leave_room_request disconnect_request : (session_id request_id : ℕ) → ServerEvent

pub record OutgoingMessage : Type 0 where
  pub session_id : ℕ
  pub payload : Bytes

-- What the program takes from outside: FlatBuffers, and the wall clock, whose i-th reading counts
-- `clock i` milliseconds.
pub record Env : Type 0 where
  pub codec : Codec
  pub clock : ℕ → ℕ

-- `CurrentTimestampMs` at the i-th reading, on 64 bits.
abbrev pub current_timestamp_ms : Env → ℕ → ℕ
current_timestamp_ms env i = env.clock i % 2 ^ 64

-- `clock_reads` counts the readings so far.
pub record GameLogic : Type 0 where
  pub rooms : RoomSystem
  pub outgoing : List OutgoingMessage
  pub pending_disconnects : List ℕ
  pub clock_reads : ℕ

abbrev pub max_display_name_bytes : ℕ
max_display_name_bytes = 32

abbrev pub max_chat_message_bytes : ℕ
max_chat_message_bytes = 512

abbrev max_protocol_payload_bytes : ℕ
max_protocol_payload_bytes = 2048

unfoldable pub take_outgoing_messages : GameLogic → List OutgoingMessage × GameLogic
take_outgoing_messages g = (g.outgoing, record g { outgoing = [] })

unfoldable pub take_pending_disconnects : GameLogic → List ℕ × GameLogic
take_pending_disconnects g = (g.pending_disconnects, record g { pending_disconnects = [] })

unfoldable pub queue_message : GameLogic → ℕ → Bytes → GameLogic
queue_message g session_id payload =
    if is_empty payload || ltb max_protocol_payload_bytes (length payload) then g else record g {
      outgoing = g.outgoing ++ record { session_id = session_id; payload = payload } ∷ [];
    }

abbrev build_user_info : SessionState → UserInfo
build_user_info session = create_user_info_direct session.user_id session.display_name

abbrev build_room_info : RoomState → RoomInfo
build_room_info room =
    create_room_info_direct room.room_id room.room_name (length room.members % 2 ^ 32)

-- A table that is built only on success, from a pointer that is not null.
abbrev on_success {ℓ κ} : {A : Type ℓ} {B : Type κ} → Bool → (A → B) → Option A → Option B
on_success true f (some a) = some (f a)
on_success true f none = none
on_success false f o = none

abbrev pub room_infos : Map RoomState → List RoomInfo
room_infos [] = []
room_infos ((room_id, room) ∷ rest) = build_room_info room ∷ room_infos rest

module _ (env : Env) where
  -- `QueueMessage` of a `BuildMessage`, as each of the functions below calls it.
  unfoldable pub queue : GameLogic → ℕ → ℕ → MessagePayload → GameLogic
  unfolding queue_message
  queue g session_id request_id payload =
      queue_message g session_id (build_message env.codec request_id payload)

  unfoldable pub queue_login_response :
      GameLogic → ℕ → ℕ → Bool → ErrorCode → Option SessionState → GameLogic
  queue_login_response g session_id request_id success error_code session =
      queue g session_id request_id (
        login_response (
          some (record {
            success = success;
            error_code = error_code;
            user = on_success success build_user_info session;
          })))

  unfoldable pub queue_room_list_response : GameLogic → ℕ → ℕ → GameLogic
  queue_room_list_response g session_id request_id =
      queue g session_id request_id
        (room_list_response (some (record { rooms = some (room_infos g.rooms.rooms) })))

  unfoldable pub queue_join_room_response :
      GameLogic → ℕ → ℕ → Bool → ErrorCode → Option RoomState → GameLogic
  queue_join_room_response g session_id request_id success error_code room =
      queue g session_id request_id (
        join_room_response (
          some (record {
            success = success;
            error_code = error_code;
            room = on_success success build_room_info room;
          })))

  unfoldable pub queue_leave_room_response : GameLogic → ℕ → ℕ → Bool → ErrorCode → GameLogic
  queue_leave_room_response g session_id request_id success error_code =
      queue g session_id request_id
        (leave_room_response (some (record { success = success; error_code = error_code })))

  unfoldable pub queue_disconnect_response : GameLogic → ℕ → ℕ → Bool → ErrorCode → GameLogic
  queue_disconnect_response g session_id request_id success error_code =
      queue g session_id request_id
        (disconnect_response (some (record { success = success; error_code = error_code })))

  -- Reads the clock once.
  unfoldable pub queue_chat_broadcast : GameLogic → ℕ → ℕ → SessionState → Bytes → GameLogic
  queue_chat_broadcast g session_id room_id sender content =
      queue (record g { clock_reads = g.clock_reads + 1 }) session_id 0
        (chat_broadcast (
          some (
            create_chat_broadcast_direct room_id sender.user_id sender.display_name content
              (current_timestamp_ms env g.clock_reads))))

  unfoldable pub queue_user_joined_event : GameLogic → ℕ → ℕ → SessionState → GameLogic
  queue_user_joined_event g session_id room_id joined_user = queue g session_id 0 (
      user_joined_event
        (some (record { room_id = room_id; user = some (build_user_info joined_user) })))

  unfoldable pub queue_user_left_event : GameLogic → ℕ → ℕ → SessionState → GameLogic
  queue_user_left_event g session_id room_id left_user = queue g session_id 0 (
      user_left_event
        (some (record { room_id = room_id; user = some (build_user_info left_user) })))

  unfoldable pub queue_system_message : GameLogic → ℕ → ℕ → Bytes → GameLogic
  queue_system_message g session_id room_id content =
      queue g session_id 0
        (system_message_event (some (create_system_message_event_direct room_id content)))
