-- ===== src/Logic/Chat.antt =====
-- `HandleChatSendRequest` of NightServer/GameLogicSystem.cpp: who receives a chat message.
use mathlib.Core.List.{append-nil, append_assoc}
use project_night.Prelude.{
  ℕ, ◌+◌, ◌^◌, ◌<◌, ◌≤◌, ◌≡◌, sym, ◌∙◌, ap, ◌≢◌, true, false, List, [], ◌∷◌, ◌++◌, none, some,
  arith, is_empty, length, length-map,
}
use project_night.Wire.{Bytes}
use project_night.Rooms.{SessionState, find_session, get_room_members}
use project_night.Rooms.Consistency.{IsConsistent}
use project_night.Rooms.Members.{ids, Recipients, get_room_members-Recipients}
use project_night.Message.{chat_broadcast, build_message, c_str, create_chat_broadcast_direct}
use project_night.Logic.{
  chat_send_request, Env, GameLogic, current_timestamp_ms, OutgoingMessage, queue_message, queue,
  queue_chat_broadcast,
}
use project_night.Logic.Handlers.{handle, handle_chat_send_request, broadcast}

-- What `QueueMessage` does not drop.
abbrev pub Fits : Bytes → Type 0
Fits payload = (is_empty payload ≡ false) × (length payload ≤ 2048)

pub queue_message-Fits :
    (g : GameLogic) (k : ℕ) (payload : Bytes)
    → Fits payload
    → queue_message g k payload
      ≡ record g { outgoing = g.outgoing ++ record { session_id = k; payload = payload } ∷ [] }
unfolding queue_message
queue_message-Fits g k payload fits = ground arith

-- The bytes of a chat message at a time: text goes up to its first zero byte.
abbrev pub chat_bytes : Env → SessionState → Bytes → ℕ → Bytes
chat_bytes env s content time = env.codec.encode (record {
  request_id = 0;
  payload = chat_broadcast (
      some (record {
        room_id = s.room_id;
        sender_id = s.user_id;
        sender_name = some (c_str s.display_name);
        content = some (c_str content);
        timestamp = time;
      }));
})

-- One message for each recipient, each with a clock reading of its own.
abbrev pub chat_messages : Env → SessionState → Bytes → ℕ → List ℕ → List OutgoingMessage
chat_messages env s content reads [] = []
chat_messages env s content reads (j ∷ js) =
    record { session_id = j; payload = chat_bytes env s content (current_timestamp_ms env reads) }
    ∷ chat_messages env s content (reads + 1) js

pub later :
    (g : GameLogic) (new new' : List OutgoingMessage) (reads reads' : ℕ)
    → new ≡ new'
    → reads ≡ reads'
    → record g { outgoing = new; clock_reads = reads }
      ≡ record g { outgoing = new'; clock_reads = reads' }
later g new new' reads reads' e f = cc

module _ (env : Env) (s : SessionState) (content : Bytes)
    (fits : (time : ℕ) → time < 2 ^ 64 → Fits (chat_bytes env s content time)) where
  queue_chat_broadcast_lem :
      (g : GameLogic) (j : ℕ)
      → queue_chat_broadcast env g j s.room_id s content ≡ record g {
        outgoing = g.outgoing ++ chat_messages env s content g.clock_reads (j ∷ []);
        clock_reads = g.clock_reads + 1;
      }
  unfolding queue_chat_broadcast queue build_message create_chat_broadcast_direct
  queue_chat_broadcast_lem g j =
      queue_message-Fits (record g { clock_reads = g.clock_reads + 1 }) j
        (chat_bytes env s content (current_timestamp_ms env g.clock_reads))
        (fits (current_timestamp_ms env g.clock_reads) (omega arith))

  broadcast_lem :
      (g : GameLogic) (members : List SessionState)
      → broadcast env g s content members ≡ record g {
        outgoing = g.outgoing ++ chat_messages env s content g.clock_reads (ids members);
        clock_reads = g.clock_reads + length members;
      }
  unfolding broadcast
  broadcast_lem g [] =
      later g _ _ g.clock_reads (g.clock_reads + 0) (sym (append-nil g.outgoing)) (omega arith)
  broadcast_lem g (m ∷ rest) =
      let first = chat_messages env s content g.clock_reads (m.session_id ∷ []) in
      let others = chat_messages env s content (g.clock_reads + 1) (ids rest) in
      let g1 = record g { outgoing = g.outgoing ++ first; clock_reads = g.clock_reads + 1 } in
      ap (λ (h : GameLogic). broadcast env h s content rest)
        (queue_chat_broadcast_lem g m.session_id)
      ∙ broadcast_lem g1 rest
      ∙ later g ((g.outgoing ++ first) ++ others) (g.outgoing ++ (first ++ others)) _ _
          (append_assoc g.outgoing first others) (omega arith)

  -- A chat message of 1 to 512 bytes from a logged-in session in a room, where the encoded
  -- broadcast is one that `QueueMessage` takes at every time of 64 bits, is queued once for each session
  -- in that room, the sender's own included, and for no other, each copy with its own reading of
  -- the clock; and nothing else changes.
  pub chat_delivered :
      (g : GameLogic) (k request_id : ℕ)
      → IsConsistent g.rooms
      → find_session g.rooms k ≡ some s
      → s.logged_in ≡ true
      → s.room_id ≢ 0
      → is_empty content ≡ false
      → length content ≤ 512
      → (members : List ℕ) × Recipients g.rooms s.room_id none members
        × (handle env g (chat_send_request k request_id content)
            ≡ some (record g {
              outgoing = g.outgoing ++ chat_messages env s content g.clock_reads members;
              clock_reads = g.clock_reads + length members;
            }))
  unfolding handle handle_chat_send_request
  chat_delivered g k request_id c found on n some_text short =
      let members = get_room_members g.rooms s.room_id none in
      (
        ids members,
        get_room_members-Recipients g.rooms s.room_id none c n,
        ground (arith, broadcast_lem g members, length-map members (λ m. m.session_id)),
      )
