-- ===== src/Network/Laws.antt =====
-- The server as a whole (NightServer/NightServer.cpp over NightServer/NetworkSystem.cpp).
use project_night.Prelude.{
  ℕ, ◌≡◌, refl, inl, inr, List, [], ◌∷◌, ◌++◌, none, some, arith, All, Option-cases,
}
use project_night.Message
use project_night.Message.{MessagePayload}
use project_night.Logic.{
  Env, GameLogic, ServerEvent, take_outgoing_messages, take_pending_disconnects,
}
use project_night.Logic.Effect.{subject}
use project_night.Logic.Effect.Events.{update-Updated}
use project_night.Rooms.Consistency.{IsConsistent}
use project_night.Network.{
  Packet, connect, disconnect, data_packet, decode_payload, receive_packet, receive, flush,
  ServerCall, tick, serve,
}

decode_payload-subject :
    (k request_id : ℕ) (payload : MessagePayload)
    → All (λ (e : ServerEvent). subject e ≡ k) (decode_payload k request_id payload)
decode_payload-subject k request_id Message.no_payload = (refl, tt)
decode_payload-subject k request_id (Message.login_request none) = tt
decode_payload-subject k request_id (Message.login_request (some request)) = (refl, tt)
decode_payload-subject k request_id (Message.login_response o) = (refl, tt)
decode_payload-subject k request_id (Message.room_list_request o) = (refl, tt)
decode_payload-subject k request_id (Message.room_list_response o) = (refl, tt)
decode_payload-subject k request_id (Message.join_room_request none) = tt
decode_payload-subject k request_id (Message.join_room_request (some request)) = (refl, tt)
decode_payload-subject k request_id (Message.join_room_response o) = (refl, tt)
decode_payload-subject k request_id (Message.chat_send_request none) = tt
decode_payload-subject k request_id (Message.chat_send_request (some request)) = (refl, tt)
decode_payload-subject k request_id (Message.chat_broadcast o) = (refl, tt)
decode_payload-subject k request_id (Message.leave_room_request o) = (refl, tt)
decode_payload-subject k request_id (Message.leave_room_response o) = (refl, tt)
decode_payload-subject k request_id (Message.disconnect_request o) = (refl, tt)
decode_payload-subject k request_id (Message.disconnect_response o) = (refl, tt)
decode_payload-subject k request_id (Message.user_joined_event o) = (refl, tt)
decode_payload-subject k request_id (Message.user_left_event o) = (refl, tt)
decode_payload-subject k request_id (Message.system_message_event o) = (refl, tt)
decode_payload-subject k request_id (Message.unknown n) = (refl, tt)

-- Whatever bytes a packet carries, the events made of it are about the session that the
-- transport received it from: no content acts for another session.
pub receive_packet-subject :
    (codec : Message.Codec) (packet : Packet)
    → All (λ (e : ServerEvent). subject e ≡ packet.session_id) (receive_packet codec packet)
receive_packet-subject codec packet =
    elim packet.type
      as (λ t.
        All (λ (e : ServerEvent). subject e ≡ packet.session_id)
          (receive_packet codec (record packet { type = t }))) [
            | connect ↦ (refl, tt)
            | disconnect ↦ (refl, tt)
            | data_packet ↦ elim (Option-cases (codec.decode packet.payload)) [
              | inl broken ↦ rw (broken, All) (refl, tt)
              | inr (message, ok) ↦
                  rw (ok, All)
                    (decode_payload-subject packet.session_id message.request_id message.payload)
            ]
          ]

-- What a number of ticks leaves.
pub record Served (env : Env) (g : GameLogic) (ticks : List (List Packet)) : Type 0 where
  pub calls : List ServerCall
  pub next : GameLogic
  pub served : serve env g ticks ≡ some (calls, next)
  pub consistent : IsConsistent next.rooms

module _ (env : Env) where
  tick_lem :
      (g : GameLogic) (packets : List Packet)
      → IsConsistent g.rooms
      → (calls : List ServerCall) × (h : GameLogic) × (tick env g packets ≡ some (calls, h))
        × IsConsistent h.rooms
  unfolding tick take_outgoing_messages take_pending_disconnects
  tick_lem g packets c =
      let all = update-Updated env g (receive env.codec packets) c in
      (
        flush all.next.outgoing all.next.pending_disconnects,
        record all.next { outgoing = []; pending_disconnects = [] },
        rw (all.updated, tick) refl,
        all.consistent,
      )

  -- The loop of `main` never dereferences a null pointer: from a consistent room system it runs
  -- through any number of ticks, with any packets of any content in them, and leaves the room
  -- system consistent.
  pub serve-Served :
      (g : GameLogic) (ticks : List (List Packet)) → IsConsistent g.rooms → Served env g ticks
  unfolding serve
  serve-Served g [] c = record { calls = []; next = g; served = refl; consistent = c }
  serve-Served g (packets ∷ ticks) c =
      let (calls, h, one, kept) = tick_lem g packets c in
      let rest = serve-Served h ticks kept in
      record {
        calls = calls ++ rest.calls;
        next = rest.next;
        served = ground (arith, one, rest.served);
        consistent = rest.consistent;
      }
