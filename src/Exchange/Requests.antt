-- ===== src/Exchange/Requests.antt =====
-- Requests, from `ChatProtocolClient::Send…` (NightClient/ChatProtocolClient.cpp) to the events of
-- NightServer/NetworkSystem.cpp.
use project_night.Prelude.{ℕ, ◌+◌, ◌%◌, ◌^◌, ◌≡◌, refl, [], ◌∷◌, ◌++◌, some, arith}
use project_night.Wire.{Bytes}
use project_night.Message
use project_night.Message.{MessagePayload, Codec, build_message, to_utf8}
use project_night.Logic.{
  ServerEvent, login_request, room_list_request, join_room_request, chat_send_request,
}
use project_night.Network.{decode_protocol_packet, decode_payload}
use project_night.Client.{
  ChatProtocolClient, Transport, send_request, send_login_request, send_room_list_request,
  send_join_room_request, send_chat_request,
}
use project_night.Exchange.{Carries}

-- From `c` to `c'` one buffer was sent, in which the server reads one event of the session.
pub record Asked (codec : Codec) (c c' : ChatProtocolClient) (t : Transport) (k : ℕ)
    (event : ServerEvent) : Type 0 where
  pub buffer : Bytes
  pub sent : c'.client ≡ some (record t { sent = t.sent ++ buffer ∷ [] })
  pub read : decode_protocol_packet codec k buffer ≡ event ∷ []
  pub numbered : c'.next_request_id ≡ (c.next_request_id + 1) % 2 ^ 32

module _ (codec : Codec) (c : ChatProtocolClient) (t : Transport) (k : ℕ) where
  send_request-Asked :
      (payload : MessagePayload) (event : ServerEvent)
      → c.client ≡ some t
      → Carries codec c.next_request_id payload
      → decode_payload k c.next_request_id payload ≡ event ∷ []
      → Asked codec c (send_request codec c payload) t k event
  unfolding build_message
  send_request-Asked payload event live carried one = record {
    buffer = codec.encode (record { request_id = c.next_request_id; payload = payload });
    sent = ground arith;
    read = ground arith;
    numbered = ground arith;
  }

  -- A client that holds a connection sends, for a login, a room list, a join or a chat request, one
  -- buffer, in which the server reads just that request, under the session's id, the client's next
  -- request id, and the text byte for byte; the next request id goes up by one on 32 bits.
  -- The encoded message must not be empty and must read back.
  pub requests_arrive :
      (name text : Bytes) (room_id : ℕ)
      → c.client ≡ some t
      → Carries codec c.next_request_id
          (Message.login_request (some (record { display_name = some name })))
      → Carries codec c.next_request_id (Message.room_list_request (some tt))
      → Carries codec c.next_request_id
          (Message.join_room_request (some (record { room_id = room_id })))
      → Carries codec c.next_request_id
          (Message.chat_send_request (some (record { content = some text })))
      → Asked codec c (send_login_request codec c name) t k (login_request k c.next_request_id name)
        × Asked codec c (send_room_list_request codec c) t k (room_list_request k c.next_request_id)
        × Asked codec c
            (send_join_room_request codec c room_id)
            t
            k
            (join_room_request k c.next_request_id room_id)
        × Asked codec c
            (send_chat_request codec c text)
            t
            k
            (chat_send_request k c.next_request_id text)
  unfolding send_login_request send_room_list_request send_join_room_request send_chat_request
      to_utf8
  requests_arrive name text room_id live login list join chat = (
    send_request-Asked _ _ live login refl,
    send_request-Asked _ _ live list refl,
    send_request-Asked _ _ live join refl,
    send_request-Asked _ _ live chat refl,
  )
