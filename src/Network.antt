-- ===== src/Network.antt =====
-- NightServer/NetworkSystem.cpp: packets of the transport become events of the game logic, and what
-- the game logic queued goes to the transport. With it the tick of NightServer/NightServer.cpp, and
-- the packets of NightNetwork/include/NightNetwork/Packet.h.
pub mod Laws
use project_night.Prelude.{ℕ, List, [], ◌∷◌, ◌++◌, map, Option, none, some}
use project_night.Prelude.Text.{utf8}
use project_night.Wire.{Bytes}
use project_night.Message
use project_night.Message.{MessagePayload, Message, to_utf8}
use project_night.Logic.{
  ServerEvent, session_connected, session_disconnected, invalid_packet, login_request,
  room_list_request, join_room_request, chat_send_request, leave_room_request, disconnect_request,
  OutgoingMessage, Env, GameLogic, take_outgoing_messages, take_pending_disconnects,
}
use project_night.Logic.Handlers.{update, ◌>>=◌}

pub data PacketType : Type 0 where
  connect data_packet disconnect : PacketType

-- `payload` is the field `data`.
pub record Packet : Type 0 where
  pub type : PacketType
  pub session_id : ℕ
  pub payload : Bytes

unfoldable pub not_the_schema : Bytes
unfolding utf8
not_the_schema = utf8 "수신 데이터가 Message 스키마와 일치하지 않습니다."

unfoldable pub not_a_request : Bytes
unfolding utf8
not_a_request = utf8 "서버가 처리하지 않는 payload 타입입니다."

-- The switch of `DecodeProtocolPacket`. A tag with no object behind it makes no event where the
-- handler reads the object.
abbrev pub decode_payload : ℕ → ℕ → MessagePayload → List ServerEvent
decode_payload session_id request_id (Message.login_request none) = []
decode_payload session_id request_id (Message.login_request (some request)) =
    login_request session_id request_id (to_utf8 request.display_name) ∷ []
decode_payload session_id request_id (Message.room_list_request request) =
    room_list_request session_id request_id ∷ []
decode_payload session_id request_id (Message.join_room_request none) = []
decode_payload session_id request_id (Message.join_room_request (some request)) =
    join_room_request session_id request_id request.room_id ∷ []
decode_payload session_id request_id (Message.chat_send_request none) = []
decode_payload session_id request_id (Message.chat_send_request (some request)) =
    chat_send_request session_id request_id (to_utf8 request.content) ∷ []
decode_payload session_id request_id (Message.leave_room_request request) =
    leave_room_request session_id request_id ∷ []
decode_payload session_id request_id (Message.disconnect_request request) =
    disconnect_request session_id request_id ∷ []
decode_payload session_id request_id other = invalid_packet session_id not_a_request ∷ []

-- The events that one call appends. `GetRoot` of verified bytes is not null.
abbrev pub decode_protocol_packet : Message.Codec → ℕ → Bytes → List ServerEvent
decode_protocol_packet codec session_id payload = elim (codec.decode payload) [
  | none ↦ invalid_packet session_id not_the_schema ∷ []
  | some message ↦ decode_payload session_id message.request_id message.payload
]

abbrev pub receive_packet : Message.Codec → Packet → List ServerEvent
receive_packet codec packet = elim packet.type [
  | connect ↦ session_connected packet.session_id ∷ []
  | disconnect ↦ session_disconnected packet.session_id ∷ []
  | data_packet ↦ decode_protocol_packet codec packet.session_id packet.payload
]

-- `Receive`, for the packets that `poll_packet` returns until it returns none.
unfoldable pub receive : Message.Codec → List Packet → List ServerEvent
receive codec [] = []
receive codec (packet ∷ packets) = receive_packet codec packet ++ receive codec packets

-- The calls on the transport's server.
pub data ServerCall : Type 0 where
  send : (session_id : ℕ) (payload : Bytes) → ServerCall
  disconnect_session : (session_id : ℕ) → ServerCall

unfoldable pub flush : List OutgoingMessage → List ℕ → List ServerCall
flush outgoing_messages pending_disconnects =
    map (λ m. send m.session_id m.payload) outgoing_messages
    ++ map disconnect_session pending_disconnects

-- The body of the loop of `main`: what it calls on the transport, and the game logic after it.
unfoldable pub tick : Env → GameLogic → List Packet → Option (List ServerCall × GameLogic)
unfolding receive update flush take_outgoing_messages take_pending_disconnects
tick env g packets = update env g (receive env.codec packets) >>= λ updated.
    let (outgoing_messages, taken) = take_outgoing_messages updated in
    let (pending_disconnects, emptied) = take_pending_disconnects taken in
    some (flush outgoing_messages pending_disconnects, emptied)

-- The loop of `main`, for the packets of each tick.
unfoldable pub serve : Env → GameLogic → List (List Packet) → Option (List ServerCall × GameLogic)
unfolding tick
serve env g [] = some ([], g)
serve env g (packets ∷ ticks) = tick env g packets >>= λ first.
    serve env first.1 ticks >>= λ later. some (first.0 ++ later.0, later.1)
