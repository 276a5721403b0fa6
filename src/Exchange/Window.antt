-- ===== src/Exchange/Window.antt =====
-- From the handlers of NightServer/GameLogicSystem.cpp to the window of NightClient/ChatClientFrame.cpp.
use project_night.Prelude.{
  ℕ, ◌%◌, ◌^◌, ◌<◌, ◌≤◌, ◌≢◌, ◌≡◌, refl, ◌∙◌, ap, true, false, List, [], ◌∷◌, ◌++◌, map, none, some,
  arith, is_empty, length, All, All-mono, if◌then◌else◌,
}
use project_night.Prelude.Text.{utf8}
use project_night.Prelude.Map.{Map}
use project_night.Wire.{Bytes}
use project_night.Message.{
  Codec, MessagePayload, room_list_response, to_utf8, c_str, create_room_info_direct,
}
use project_night.Rooms.{SessionState, RoomState, find_session}
use project_night.Rooms.Consistency.{IsConsistent}
use project_night.Rooms.Members.{Recipients}
use project_night.Logic.{
  Env, GameLogic, OutgoingMessage, room_list_request, chat_send_request, queue_room_list_response,
  room_infos,
}
use project_night.Logic.Handlers.{handle, handle_room_list_request}
use project_night.Logic.Chat.{Fits, chat_bytes}
use project_night.Logic.Leave.{bytes, queue-Fits}
use project_night.Client.{
  ChatRoomInfo, ChatProtocolEvent, Transport, is_connected, poll_events, decode_packet,
  chat_room_list, chat_message_received, to_chat_room_info, to_chat_room_infos,
}
use project_night.Window.{
  Wx, ChatClientFrame, decimal, append_line, add_user, remove_user, apply_room_list,
  process_protocol_event, process_events,
}
use project_night.Window.Handlers.{on_poll_timer}
use project_night.Window.Requests.{apply_rooms_lem}
use project_night.Exchange.{Carries}
use project_night.Exchange.Answers.{Shows, chat_payload, chat-Spread, decode_packet_lem}

-- The answer to a request for the list of rooms.
abbrev pub room_list_answer : GameLogic → MessagePayload
room_list_answer g = room_list_response (some (record { rooms = some (room_infos g.rooms.rooms) }))

module _ (wx : Wx) where
  -- Showing an event leaves the connection alone.
  process-client :
      (f : ChatClientFrame) (event : ChatProtocolEvent)
      → (process_protocol_event wx f event).protocol_client ≡ f.protocol_client
  unfolding process_protocol_event append_line add_user remove_user apply_room_list
  process-client f (chat_room_list rooms) =
      ap (λ (g : ChatClientFrame). g.protocol_client)
        (apply_rooms_lem wx (record f { rooms = []; room_list = []; selected = none }) rooms)
  process-client f event = ground arith

  module _ (codec : Codec) (f : ChatClientFrame) (t : Transport) (packet : Bytes)
      (live : f.protocol_client.client ≡ some t) (on : t.connected ≡ true)
      (one : t.packets ≡ packet ∷ []) where
    -- The window with its packet taken.
    abbrev pub taken : ChatClientFrame
    taken = record f {
      protocol_client = record f.protocol_client { client = some (record t { packets = [] }) };
    }

    -- With one packet there, a tick shows the one event that it decodes to.
    pub tick_lem :
        (event : ChatProtocolEvent)
        → decode_packet codec packet ≡ event ∷ []
        → on_poll_timer wx codec f false ≡ process_protocol_event wx taken event
    unfolding on_poll_timer is_connected poll_events process_events
    tick_lem event decoded = let kept = process-client taken event in ground (arith, decoded, kept)

  -- The window with a connection on which this packet waits, after buffers that it sent.
  abbrev pub receives : ChatClientFrame → List Bytes → Bytes → ChatClientFrame
  receives f sent packet = record f {
    protocol_client = record f.protocol_client {
      client = some (record { connected = true; sent = sent; packets = packet ∷ [] });
    };
  }

  -- The window with a line more in its log.
  abbrev pub with_line : ChatClientFrame → List Bytes → Bytes → ChatClientFrame
  with_line f sent line = record f {
    protocol_client = record f.protocol_client {
      client = some (record { connected = true; sent = sent; packets = [] });
    };
    chat_log = if is_empty f.chat_log then line else (f.chat_log ++ 10 ∷ []) ++ line;
  }

  abbrev pub chat_line : SessionState → Bytes → Bytes
  chat_line s content =
      utf8 "[" ++ wx.from_utf8 (c_str s.display_name) ++ utf8 "] " ++ wx.from_utf8 (c_str content)

  module _ (env : Env) (s : SessionState) (content : Bytes) (f : ChatClientFrame)
      (sent : List Bytes) where
    -- The window on which the message waits shows the sender and the content at its next tick.
    abbrev pub ShowsLine : OutgoingMessage → Type 0
    ShowsLine m =
        on_poll_timer wx env.codec (receives f sent m.payload) false
        ≡ with_line f sent (chat_line s content)

    Shows-ShowsLine : (m : OutgoingMessage) → Shows env s content m → ShowsLine m
    unfolding process_protocol_event append_line
    Shows-ShowsLine m shows =
        tick_lem env.codec (receives f sent m.payload)
          (record { connected = true; sent = sent; packets = m.payload ∷ [] }) m.payload refl refl
          refl (chat_message_received s.room_id (c_str s.display_name) (c_str content)) shows

    -- A chat message was spread from `g`, and is shown.
    pub record Displayed (g : GameLogic) (k request_id : ℕ) : Type 0 where
      pub next : GameLogic
      pub handled : handle env g (chat_send_request k request_id content) ≡ some next
      pub new : List OutgoingMessage
      pub sent_lem : next.outgoing ≡ g.outgoing ++ new
      pub recipients : Recipients g.rooms s.room_id none (map (λ m. m.session_id) new)
      pub lines : All ShowsLine new

    -- A chat message of 1 to 512 bytes from a logged-in session in a room is queued once for each
    -- session in that room and for no other; and the window of any client on which one copy waits
    -- alone shows, at its next tick, one line more, with the sender's name and the content up to
    -- their first zero bytes, and nothing else in it changes. The encoded broadcast must be one
    -- that `QueueMessage` takes and that reads back, at every time of 64 bits.
    pub spread_shown :
        (g : GameLogic) (k request_id : ℕ)
        → ((time : ℕ) → time < 2 ^ 64 → Fits (chat_bytes env s content time))
        → ((time : ℕ) → time < 2 ^ 64 → Carries env.codec 0 (chat_payload env s content time))
        → IsConsistent g.rooms
        → find_session g.rooms k ≡ some s
        → s.logged_in ≡ true
        → s.room_id ≢ 0
        → is_empty content ≡ false
        → length content ≤ 512
        → Displayed g k request_id
    spread_shown g k request_id fits carried c found on n some_text short =
        let spread =
          chat-Spread env s content g k request_id fits carried c found on n some_text short in
        record {
          next = spread.next;
          handled = spread.handled;
          new = spread.new;
          sent_lem = spread.sent;
          recipients = spread.recipients;
          lines = All-mono (Shows env s content) ShowsLine spread.new Shows-ShowsLine spread.shown;
        }

  -- The row of a room of the server.
  abbrev pub server_row : ℕ × RoomState → Bytes × Bytes
  server_row (room_id, room) =
      (wx.from_utf8 (c_str room.room_name), decimal (length room.members % 2 ^ 32))

  room_infos-rows :
      (rooms : Map RoomState)
      → map
          (λ (room : ChatRoomInfo). (wx.from_utf8 room.room_name, decimal room.user_count))
          (to_chat_room_infos (room_infos rooms))
        ≡ map server_row rooms
  unfolding to_chat_room_info to_utf8 create_room_info_direct
  room_infos-rows [] = refl
  room_infos-rows ((room_id, room) ∷ rooms) =
      ap (◌∷◌ (server_row (room_id, room))) (room_infos-rows rooms)

  module _ (env : Env) (g : GameLogic) (f : ChatClientFrame) (sent : List Bytes)
      (k request_id : ℕ) where
    -- A request for the list of rooms is answered by one message to that session and changes nothing
    -- else; and a window on which the answer waits shows, at its next tick, one row for each of the
    -- server's rooms, in the server's order: its name, and the number of its members on 32
    -- bits. The encoded answer must be one that `QueueMessage` takes and that reads back.
    pub room_list_shown :
        Fits (bytes env request_id (room_list_answer g))
        → Carries env.codec request_id (room_list_answer g)
        → (handle env g (room_list_request k request_id)
            ≡ some (record g {
              outgoing =
                  g.outgoing
                  ++ record { session_id = k; payload = bytes env request_id (room_list_answer g) }
                    ∷ [];
            }))
          × ((on_poll_timer wx env.codec
                (receives f sent (bytes env request_id (room_list_answer g)))
                false).room_list
              ≡ map server_row g.rooms.rooms)
    unfolding handle handle_room_list_request queue_room_list_response process_protocol_event
        apply_room_list
    room_list_shown fits carried =
        let packet = bytes env request_id (room_list_answer g) in
        let infos = to_chat_room_infos (room_infos g.rooms.rooms) in
        let t : Transport = record { connected = true; sent = sent; packets = packet ∷ [] } in
        let w = taken env.codec (receives f sent packet) t packet refl refl refl in
        (
          ap some (queue-Fits env g k request_id (room_list_answer g) fits),
          ap (λ (h : ChatClientFrame). h.room_list)
                (tick_lem env.codec (receives f sent packet) t packet refl refl refl
                  (chat_room_list infos)
                  (decode_packet_lem env.codec request_id (room_list_answer g) carried))
              ∙ ap (λ (h : ChatClientFrame). h.room_list)
                  (apply_rooms_lem wx (record w { rooms = []; room_list = []; selected = none })
                    infos)
              ∙ room_infos-rows g.rooms.rooms,
        )
