-- ===== src/Client.antt =====
-- NightClient/ChatProtocolClient.cpp and its header: the chat client below its windows.
use project_night.Prelude.{
  ◌⊎◌, inl, inr, ℕ, ◌+◌, ◌%◌, ◌^◌, Bool, true, false, List, [], ◌∷◌, ◌++◌, Option, none, some,
  is_empty, if◌then◌else◌,
}
use project_night.Prelude.Text.{utf8}
use project_night.Wire.{Bytes}
use project_night.Message.{
  RoomInfo, LoginResponse, MessagePayload, Codec, build_message, to_utf8, to_error_string,
  login_request, login_response, room_list_request, room_list_response, join_room_request,
  join_room_response, chat_send_request, chat_broadcast, user_joined_event, user_left_event,
  system_message_event,
}

pub record ChatRoomInfo : Type 0 where
  pub room_id : ℕ
  pub room_name : Bytes
  pub user_count : ℕ

pub data ChatProtocolEvent : Type 0 where
  chat_login_succeeded : (display_name : Bytes) → ChatProtocolEvent
  chat_login_failed : (error_message : Bytes) → ChatProtocolEvent
  chat_room_list : (rooms : List ChatRoomInfo) → ChatProtocolEvent
  chat_join_room_succeeded : (room : ChatRoomInfo) → ChatProtocolEvent
  chat_join_room_failed : (error_message : Bytes) → ChatProtocolEvent
  chat_message_received : (room_id : ℕ) (sender_name content : Bytes) → ChatProtocolEvent
  chat_user_joined : (room_id : ℕ) (display_name : Bytes) → ChatProtocolEvent
  chat_user_left : (room_id : ℕ) (display_name : Bytes) → ChatProtocolEvent
  chat_system_message : (room_id : ℕ) (content : Bytes) → ChatProtocolEvent
  chat_protocol_error : (message : Bytes) → ChatProtocolEvent

-- The transport's client as this class sees it: whether it is connected, the buffers given to its
-- `send`, and the packets that `poll_packet` is to return.
pub record Transport : Type 0 where
  pub connected : Bool
  pub sent : List Bytes
  pub packets : List Bytes

pub record ChatProtocolClient : Type 0 where
  pub client : Option Transport
  pub next_request_id : ℕ

-- `Connect`, for what `Client::create` returned: an error, which is passed on, or a client.
unfoldable pub connect : ChatProtocolClient → Bytes ⊎ Transport → Option Bytes × ChatProtocolClient
connect c (inl error) = (some error, c)
connect c (inr created) = (none, record { client = some created; next_request_id = 1 })

unfoldable pub disconnect : ChatProtocolClient → ChatProtocolClient
disconnect c = record c { client = none }

unfoldable pub is_connected : ChatProtocolClient → Bool
is_connected c = elim c.client [ none ↦ false | some client ↦ client.connected ]

-- `next_request_id_++` on 32 bits.
abbrev pub next_request_id : ChatProtocolClient → ℕ × ChatProtocolClient
next_request_id c =
    (c.next_request_id, record c { next_request_id = (c.next_request_id + 1) % 2 ^ 32 })

abbrev send_buffer : ChatProtocolClient → Bytes → ChatProtocolClient
send_buffer c buffer = elim c.client [
  | none ↦ c
  | some client ↦
      if is_empty buffer
      then c
      else record c { client = some (record client { sent = client.sent ++ buffer ∷ [] }) }
]

-- What the four `Send…` functions share: a payload under the next request id.
abbrev pub send_request : Codec → ChatProtocolClient → MessagePayload → ChatProtocolClient
send_request codec c payload = elim c.client [
  | none ↦ c
  | some client ↦
      let (request_id, counted) = next_request_id c in
      send_buffer counted (build_message codec request_id payload)
]

unfoldable pub send_login_request : Codec → ChatProtocolClient → Bytes → ChatProtocolClient
send_login_request codec c display_name =
    send_request codec c (login_request (some (record { display_name = some display_name })))

unfoldable pub send_room_list_request : Codec → ChatProtocolClient → ChatProtocolClient
send_room_list_request codec c = send_request codec c (room_list_request (some tt))

unfoldable pub send_join_room_request : Codec → ChatProtocolClient → ℕ → ChatProtocolClient
send_join_room_request codec c room_id =
    send_request codec c (join_room_request (some (record { room_id = room_id })))

unfoldable pub send_chat_request : Codec → ChatProtocolClient → Bytes → ChatProtocolClient
send_chat_request codec c text =
    send_request codec c (chat_send_request (some (record { content = some text })))

unfoldable pub to_chat_room_info : RoomInfo → ChatRoomInfo
unfolding to_utf8
to_chat_room_info room = record {
  room_id = room.room_id;
  room_name = to_utf8 room.room_name;
  user_count = room.user_count;
}

-- The loop over the rooms of a list.
abbrev pub to_chat_room_infos : List RoomInfo → List ChatRoomInfo
to_chat_room_infos [] = []
to_chat_room_infos (room ∷ rooms) = to_chat_room_info room ∷ to_chat_room_infos rooms

-- The branches of `DecodePacket` that have several ends.
abbrev decode_login : LoginResponse → ChatProtocolEvent
decode_login response =
    if response.success
    then elim response.user [
      | none ↦ chat_login_succeeded []
      | some user ↦ chat_login_succeeded (to_utf8 user.display_name)
    ]
    else chat_login_failed (to_error_string response.error_code)

abbrev decode_room_list : Option (List RoomInfo) → ChatProtocolEvent
decode_room_list none = chat_room_list []
decode_room_list (some rooms) = chat_room_list (to_chat_room_infos rooms)

abbrev decode_join : Bool → Option RoomInfo → Bytes → ChatProtocolEvent
decode_join true (some room) error_message = chat_join_room_succeeded (to_chat_room_info room)
decode_join true none error_message = chat_join_room_failed error_message
decode_join false room error_message = chat_join_room_failed error_message

-- The switch of `DecodePacket`.
abbrev pub decode_payload : MessagePayload → List ChatProtocolEvent
decode_payload (login_response (some response)) = decode_login response ∷ []
decode_payload (room_list_response (some response)) = decode_room_list response.rooms ∷ []
decode_payload (join_room_response (some response)) =
    decode_join response.success response.room (to_error_string response.error_code) ∷ []
decode_payload (chat_broadcast (some broadcast)) =
    chat_message_received broadcast.room_id (to_utf8 broadcast.sender_name)
      (to_utf8 broadcast.content)
    ∷ []
decode_payload (user_joined_event (some event)) = elim event.user [
  | none ↦ []
  | some user ↦ chat_user_joined event.room_id (to_utf8 user.display_name) ∷ []
]
decode_payload (user_left_event (some event)) = elim event.user [
  | none ↦ []
  | some user ↦ chat_user_left event.room_id (to_utf8 user.display_name) ∷ []
]
decode_payload (system_message_event (some event)) =
    chat_system_message event.room_id (to_utf8 event.content) ∷ []
decode_payload other = []

unfoldable pub not_the_schema : Bytes
unfolding utf8
not_the_schema = utf8 "Received data does not match the Message schema."

unfoldable pub decode_packet : Codec → Bytes → List ChatProtocolEvent
unfolding to_utf8 to_error_string to_chat_room_info
decode_packet codec packet = if is_empty packet then [] else elim (codec.decode packet) [
  | none ↦ chat_protocol_error not_the_schema ∷ []
  | some message ↦ decode_payload message.payload
]

-- The loop of `PollEvents`.
abbrev poll_packets : Codec → List Bytes → List ChatProtocolEvent
poll_packets codec [] = []
poll_packets codec (packet ∷ packets) = decode_packet codec packet ++ poll_packets codec packets

unfoldable pub poll_events :
    Codec → ChatProtocolClient → List ChatProtocolEvent × ChatProtocolClient
unfolding decode_packet
poll_events codec c = elim c.client [
  | none ↦ ([], c)
  | some client ↦ (
    poll_packets codec client.packets,
    record c { client = some (record client { packets = [] }) },
  )
]

-- What the window shows before it is connected.
unfoldable pub create_mock_events : List ChatProtocolEvent
unfolding utf8
create_mock_events =
    chat_room_list (
      record { room_id = 1001; room_name = utf8 "Lobby"; user_count = 12 }
      ∷ record { room_id = 1002; room_name = utf8 "Dev"; user_count = 5 }
      ∷ record { room_id = 1003; room_name = utf8 "Chat"; user_count = 8 }
      ∷ [])
    ∷ chat_system_message 1001 (utf8 "Schema-based chat UI skeleton is ready.")
    ∷ []
