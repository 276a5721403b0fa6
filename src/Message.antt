-- ===== src/Message.antt =====
-- NightCommon/NightProtocol/messages_generated.h (from schema/messages.fbs) and ProtocolUtil.h: the
-- messages as values. A table is a record of what its accessors return; a string or table that is
-- absent is `none`. How a message becomes bytes is FlatBuffers' part: see `Codec`.
use project_night.Prelude.{ℕ, Bool, List, [], ◌∷◌, Option, none, some, ◌==◌, if◌then◌else◌}
use project_night.Prelude.Text.{utf8}
use project_night.Wire.{Bytes}

-- A `uint16_t` that the enum does not name is `other`.
pub data ErrorCode : Type 0 where
  no_error invalid_name duplicate_name room_not_found room_full : ErrorCode
  not_in_room invalid_message already_in_room internal_error : ErrorCode
  other : ℕ → ErrorCode

-- `EnumNameErrorCode`, and `ToErrorString` around it. The enum's NONE is `no_error` here.
unfoldable pub to_error_string : ErrorCode → Bytes
unfolding utf8
to_error_string no_error = utf8 "NONE"
to_error_string invalid_name = utf8 "INVALID_NAME"
to_error_string duplicate_name = utf8 "DUPLICATE_NAME"
to_error_string room_not_found = utf8 "ROOM_NOT_FOUND"
to_error_string room_full = utf8 "ROOM_FULL"
to_error_string not_in_room = utf8 "NOT_IN_ROOM"
to_error_string invalid_message = utf8 "INVALID_MESSAGE"
to_error_string already_in_room = utf8 "ALREADY_IN_ROOM"
to_error_string internal_error = utf8 "INTERNAL_ERROR"
to_error_string (other n) = []

pub record UserInfo : Type 0 where
  pub user_id : ℕ
  pub display_name : Option Bytes

pub record RoomInfo : Type 0 where
  pub room_id : ℕ
  pub room_name : Option Bytes
  pub user_count : ℕ

pub record LoginRequest : Type 0 where
  pub display_name : Option Bytes

pub record LoginResponse : Type 0 where
  pub success : Bool
  pub error_code : ErrorCode
  pub user : Option UserInfo

pub record RoomListResponse : Type 0 where
  pub rooms : Option (List RoomInfo)

pub record JoinRoomRequest : Type 0 where
  pub room_id : ℕ

pub record JoinRoomResponse : Type 0 where
  pub success : Bool
  pub error_code : ErrorCode
  pub room : Option RoomInfo

pub record ChatSendRequest : Type 0 where
  pub content : Option Bytes

pub record ChatBroadcast : Type 0 where
  pub room_id : ℕ
  pub sender_id : ℕ
  pub sender_name : Option Bytes
  pub content : Option Bytes
  pub timestamp : ℕ

pub record LeaveRoomResponse : Type 0 where
  pub success : Bool
  pub error_code : ErrorCode

pub record DisconnectResponse : Type 0 where
  pub success : Bool
  pub error_code : ErrorCode

pub record UserJoinedEvent : Type 0 where
  pub room_id : ℕ
  pub user : Option UserInfo

pub record UserLeftEvent : Type 0 where
  pub room_id : ℕ
  pub user : Option UserInfo

pub record SystemMessageEvent : Type 0 where
  pub room_id : ℕ
  pub content : Option Bytes

-- The union: its type tag, with what `payload_as_…` of that type returns. A message may carry a tag
-- and no object. The tables with no fields are `Unit`; a tag past the last is `unknown`.
pub data MessagePayload : Type 0 where
  no_payload : MessagePayload
  login_request : Option LoginRequest → MessagePayload
  login_response : Option LoginResponse → MessagePayload
  room_list_request : Option (Unit {0}) → MessagePayload
  room_list_response : Option RoomListResponse → MessagePayload
  join_room_request : Option JoinRoomRequest → MessagePayload
  join_room_response : Option JoinRoomResponse → MessagePayload
  chat_send_request : Option ChatSendRequest → MessagePayload
  chat_broadcast : Option ChatBroadcast → MessagePayload
  leave_room_request : Option (Unit {0}) → MessagePayload
  leave_room_response : Option LeaveRoomResponse → MessagePayload
  disconnect_request : Option (Unit {0}) → MessagePayload
  disconnect_response : Option DisconnectResponse → MessagePayload
  user_joined_event : Option UserJoinedEvent → MessagePayload
  user_left_event : Option UserLeftEvent → MessagePayload
  system_message_event : Option SystemMessageEvent → MessagePayload
  unknown : ℕ → MessagePayload

pub record Message : Type 0 where
  pub request_id : ℕ
  pub payload : MessagePayload

-- What FlatBuffers does for the program. `encode` is `FinishMessageBuffer` with `GetBufferPointer`
-- and `GetSize`; `decode` is `VerifyMessageBuffer` followed by `GetRoot`, `none` where the bytes do
-- not pass the verifier.
pub record Codec : Type 0 where
  pub encode : Message → Bytes
  pub decode : Bytes → Option Message

-- `std::string::c_str()` read by `CreateString(const char*)`: up to the first zero byte.
unfoldable pub c_str : Bytes → Bytes
c_str [] = []
c_str (b ∷ bs) = if b == 0 then [] else b ∷ c_str bs

-- `ToUtf8(const flatbuffers::String*)`.
unfoldable pub to_utf8 : Option Bytes → Bytes
to_utf8 none = []
to_utf8 (some value) = value

-- `Create…Direct`: text arguments are C strings.
unfoldable pub create_user_info_direct : ℕ → Bytes → UserInfo
unfolding c_str
create_user_info_direct user_id display_name = record {
  user_id = user_id;
  display_name = some (c_str display_name);
}

unfoldable pub create_room_info_direct : ℕ → Bytes → ℕ → RoomInfo
unfolding c_str
create_room_info_direct room_id room_name user_count = record {
  room_id = room_id;
  room_name = some (c_str room_name);
  user_count = user_count;
}

unfoldable pub create_chat_broadcast_direct : ℕ → ℕ → Bytes → Bytes → ℕ → ChatBroadcast
unfolding c_str
create_chat_broadcast_direct room_id sender_id sender_name content timestamp = record {
  room_id = room_id;
  sender_id = sender_id;
  sender_name = some (c_str sender_name);
  content = some (c_str content);
  timestamp = timestamp;
}

unfoldable pub create_system_message_event_direct : ℕ → Bytes → SystemMessageEvent
unfolding c_str
create_system_message_event_direct room_id content = record {
  room_id = room_id;
  content = some (c_str content);
}

-- `BuildMessage`.
unfoldable pub build_message : Codec → ℕ → MessagePayload → Bytes
build_message codec request_id payload =
    codec.encode (record { request_id = request_id; payload = payload })
