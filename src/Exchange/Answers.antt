-- ===== src/Exchange/Answers.antt =====
-- Answers and events, from the `Queue…` functions of NightServer/GameLogicSystem.cpp to `DecodePacket`
-- of NightClient/ChatProtocolClient.cpp.
use project_night.Prelude.{
  ℕ, ◌+◌, ◌^◌, ◌<◌, ◌≤◌, ◌≡◌, ◌≢◌, refl, sym, ap, subst, true, false, List, [], ◌∷◌, ◌++◌, map,
  none, some, arith, is_empty, length, All,
}
use project_night.Wire.{Bytes}
use project_night.Message.{MessagePayload, Codec, to_utf8, c_str, chat_broadcast}
use project_night.Rooms.{SessionState, find_session}
use project_night.Rooms.Consistency.{IsConsistent}
use project_night.Rooms.Members.{Recipients}
use project_night.Logic.{current_timestamp_ms, Env, GameLogic, OutgoingMessage, chat_send_request}
use project_night.Logic.Handlers.{handle}
use project_night.Logic.Chat.{Fits, chat_bytes, chat_messages, chat_delivered}
use project_night.Client.{chat_message_received, decode_packet, decode_payload}
use project_night.Exchange.{Carries}

-- What the client makes of a message that reads back.
pub decode_packet_lem :
    (codec : Codec) (request_id : ℕ) (body : MessagePayload)
    → Carries codec request_id body
    → decode_packet codec (codec.encode (record { request_id = request_id; payload = body }))
      ≡ decode_payload body
unfolding decode_packet
decode_packet_lem codec request_id body carried = ground (arith, carried.0, carried.1)

module _ (env : Env) (s : SessionState) (content : Bytes) where
  -- The broadcast with a time in it.
  abbrev pub chat_payload : ℕ → MessagePayload
  chat_payload time = chat_broadcast (
      some (record {
        room_id = s.room_id;
        sender_id = s.user_id;
        sender_name = some (c_str s.display_name);
        content = some (c_str content);
        timestamp = time;
      }))

  -- What every recipient's client shows.
  abbrev pub Shows : OutgoingMessage → Type 0
  Shows m =
      decode_packet env.codec m.payload
      ≡ chat_message_received s.room_id (c_str s.display_name) (c_str content) ∷ []

  chat_messages-Shows :
      (reads : ℕ) (members : List ℕ)
      → ((time : ℕ) → time < 2 ^ 64 → Carries env.codec 0 (chat_payload time))
      → All Shows (chat_messages env s content reads members)
  unfolding decode_packet to_utf8
  chat_messages-Shows reads [] carried = tt
  chat_messages-Shows reads (j ∷ js) carried = (
    decode_packet_lem env.codec 0 (chat_payload (current_timestamp_ms env reads))
        (carried (current_timestamp_ms env reads) (omega arith)),
    chat_messages-Shows (reads + 1) js carried,
  )

  addressed :
      (reads : ℕ) (members : List ℕ)
      → map (λ (m : OutgoingMessage). m.session_id) (chat_messages env s content reads members)
        ≡ members
  addressed reads [] = refl
  addressed reads (j ∷ js) = ap (◌∷◌ j) (addressed (reads + 1) js)

  -- A chat message was spread from `g`.
  pub record Spread (g : GameLogic) (k request_id : ℕ) : Type 0 where
    pub next : GameLogic
    pub handled : handle env g (chat_send_request k request_id content) ≡ some next
    pub new : List OutgoingMessage
    pub sent : next.outgoing ≡ g.outgoing ++ new
    pub recipients : Recipients g.rooms s.room_id none (map (λ m. m.session_id) new)
    pub shown : All Shows new

  -- A chat message of 1 to 512 bytes from a logged-in session in a room is queued once for each
  -- session in that room and for no other, and each recipient's client makes of it one
  -- event: the room, the sender's name and the content, both up to their first zero byte. The encoded
  -- broadcast must be one that `QueueMessage` takes and that reads back, at every time of 64 bits.
  pub chat-Spread :
      (g : GameLogic) (k request_id : ℕ)
      → ((time : ℕ) → time < 2 ^ 64 → Fits (chat_bytes env s content time))
      → ((time : ℕ) → time < 2 ^ 64 → Carries env.codec 0 (chat_payload time))
      → IsConsistent g.rooms
      → find_session g.rooms k ≡ some s
      → s.logged_in ≡ true
      → s.room_id ≢ 0
      → is_empty content ≡ false
      → length content ≤ 512
      → Spread g k request_id
  chat-Spread g k request_id fits carried c found on n some_text short =
      let (members, recipients, handled) =
        chat_delivered env s content fits g k request_id c found on n some_text short in
      record {
        next = _;
        handled = handled;
        new = chat_messages env s content g.clock_reads members;
        sent = refl;
        recipients =
            subst (Recipients g.rooms s.room_id none) (sym (addressed g.clock_reads members))
              recipients;
        shown = chat_messages-Shows g.clock_reads members carried;
      }
