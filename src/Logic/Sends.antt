-- ===== src/Logic/Sends.antt =====
-- The `Queue…` functions and the notifying loops of NightServer/GameLogicSystem.cpp only append to the
-- outgoing messages, for recipients that the caller can name.
use mathlib.Core.List.{append-nil, append_assoc}
use project_night.Prelude.{
  ℕ, ◌+◌, ◌≡◌, refl, sym, ap, ◌∙◌, inl, inr, Bool, ◌||◌, List, [], ◌∷◌, ◌++◌, Option, some, arith,
  All, All-append, Bool-cases, length, is_empty, ltb,
}
use project_night.Wire.{Bytes}
use project_night.Rooms.{SessionState, RoomState}
use project_night.Message.{ErrorCode, MessagePayload, build_message}
use project_night.Logic.{
  Env, GameLogic, OutgoingMessage, queue_message, queue, queue_login_response,
  queue_room_list_response, queue_join_room_response, queue_leave_room_response,
  queue_disconnect_response, queue_chat_broadcast, queue_user_joined_event, queue_user_left_event,
  queue_system_message,
}
use project_night.Logic.Handlers.{queue_left_events, broadcast, announce}

-- From `g` to `h` messages were appended, all of them to sessions of `Q`, and the room
-- system and the pending disconnects are as they were.
pub record Sends (Q : ℕ → Type 0) (g h : GameLogic) : Type 0 where
  pub rooms : h.rooms ≡ g.rooms
  pub pending : h.pending_disconnects ≡ g.pending_disconnects
  pub new : List OutgoingMessage
  pub sent : h.outgoing ≡ g.outgoing ++ new
  pub to : All (λ m. Q m.session_id) new

module _ (Q : ℕ → Type 0) where
  pub Sends-nothing : (g : GameLogic) → Sends Q g g
  Sends-nothing g = record {
    rooms = refl;
    pending = refl;
    new = [];
    sent = sym (append-nil g.outgoing);
    to = tt;
  }

  pub Sends-then : (g h i : GameLogic) → Sends Q g h → Sends Q h i → Sends Q g i
  Sends-then g h i a b = record {
    rooms = b.rooms ∙ a.rooms;
    pending = b.pending ∙ a.pending;
    new = a.new ++ b.new;
    sent =
        b.sent
        ∙ ap (λ (l : List OutgoingMessage). l ++ b.new) a.sent
        ∙ append_assoc g.outgoing a.new b.new;
    to = All-append (λ m. Q m.session_id) a.new b.new a.to b.to;
  }

  queue_message-Sends :
      (g : GameLogic) (k : ℕ) (payload : Bytes) → Q k → Sends Q g (queue_message g k payload)
  unfolding queue_message
  queue_message-Sends g k payload q =
      elim (Bool-cases (is_empty payload || ltb 2048 (length payload))) [
        | inl dropped ↦ rw dropped (Sends-nothing g)
        | inr kept ↦ rw kept (record {
          rooms = refl;
          pending = refl;
          new = record { session_id = k; payload = payload } ∷ [];
          sent = refl;
          to = (q, tt);
        })
      ]

  module _ (env : Env) (g : GameLogic) (k : ℕ) (q : Q k) where
    queue-Sends :
        (request_id : ℕ) (payload : MessagePayload) → Sends Q g (queue env g k request_id payload)
    unfolding queue
    queue-Sends request_id payload =
        queue_message-Sends g k (build_message env.codec request_id payload) q

    pub queue_login_response-Sends :
        (request_id : ℕ) (success : Bool) (error_code : ErrorCode) (session : Option SessionState)
        → Sends Q g (queue_login_response env g k request_id success error_code session)
    unfolding queue_login_response
    queue_login_response-Sends request_id success error_code session = queue-Sends request_id _

    pub queue_room_list_response-Sends :
        (request_id : ℕ) → Sends Q g (queue_room_list_response env g k request_id)
    unfolding queue_room_list_response
    queue_room_list_response-Sends request_id = queue-Sends request_id _

    pub queue_join_room_response-Sends :
        (request_id : ℕ) (success : Bool) (error_code : ErrorCode) (room : Option RoomState)
        → Sends Q g (queue_join_room_response env g k request_id success error_code room)
    unfolding queue_join_room_response
    queue_join_room_response-Sends request_id success error_code room = queue-Sends request_id _

    pub queue_leave_room_response-Sends :
        (request_id : ℕ) (success : Bool) (error_code : ErrorCode)
        → Sends Q g (queue_leave_room_response env g k request_id success error_code)
    unfolding queue_leave_room_response
    queue_leave_room_response-Sends request_id success error_code = queue-Sends request_id _

    pub queue_disconnect_response-Sends :
        (request_id : ℕ) (success : Bool) (error_code : ErrorCode)
        → Sends Q g (queue_disconnect_response env g k request_id success error_code)
    unfolding queue_disconnect_response
    queue_disconnect_response-Sends request_id success error_code = queue-Sends request_id _

    pub queue_system_message-Sends :
        (room_id : ℕ) (content : Bytes) → Sends Q g (queue_system_message env g k room_id content)
    unfolding queue_system_message
    queue_system_message-Sends room_id content = queue-Sends 0 _

    queue_user_joined_event-Sends :
        (room_id : ℕ) (user : SessionState)
        → Sends Q g (queue_user_joined_event env g k room_id user)
    unfolding queue_user_joined_event
    queue_user_joined_event-Sends room_id user = queue-Sends 0 _

    queue_user_left_event-Sends :
        (room_id : ℕ) (user : SessionState) → Sends Q g (queue_user_left_event env g k room_id user)
    unfolding queue_user_left_event
    queue_user_left_event-Sends room_id user = queue-Sends 0 _

  queue_chat_broadcast-Sends :
      (env : Env) (g : GameLogic) (k : ℕ)
      → Q k
      → (room_id : ℕ) (sender : SessionState) (content : Bytes)
      → Sends Q g (queue_chat_broadcast env g k room_id sender content)
  unfolding queue_chat_broadcast
  queue_chat_broadcast-Sends env g k q room_id sender content =
      let read = queue-Sends env (record g { clock_reads = g.clock_reads + 1 }) k q 0 _ in
      record {
        rooms = read.rooms;
        pending = read.pending;
        new = read.new;
        sent = read.sent;
        to = read.to;
      }

  pub queue_left_events-Sends :
      (env : Env) (g : GameLogic) (session : SessionState) (members : List SessionState)
      → All (λ m. Q m.session_id) members
      → Sends Q g (queue_left_events env g session members)
  unfolding queue_left_events
  queue_left_events-Sends env g session [] q = Sends-nothing g
  queue_left_events-Sends env g session (m ∷ rest) q =
      Sends-then _ _ _ (queue_user_left_event-Sends env g m.session_id q.0 session.room_id session)
        (queue_left_events-Sends env
          (queue_user_left_event env g m.session_id session.room_id session) session rest q.1)

  pub broadcast-Sends :
      (env : Env) (g : GameLogic) (session : SessionState) (content : Bytes)
      (members : List SessionState)
      → All (λ m. Q m.session_id) members
      → Sends Q g (broadcast env g session content members)
  unfolding broadcast
  broadcast-Sends env g session content [] q = Sends-nothing g
  broadcast-Sends env g session content (m ∷ rest) q =
      Sends-then _ _ _
        (queue_chat_broadcast-Sends env g m.session_id q.0 session.room_id session content)
        (broadcast-Sends env
          (queue_chat_broadcast env g m.session_id session.room_id session content) session content
          rest q.1)

  -- With a session to point to, the announcements reach their end.
  pub announce-Sends :
      (env : Env) (g : GameLogic) (k : ℕ) (session : SessionState) (room : RoomState)
      (members : List SessionState)
      → Q k
      → All (λ m. Q m.session_id) members
      → (h : GameLogic) × (announce env g k (some session) room members ≡ some h) × Sends Q g h
  unfolding announce
  announce-Sends env g k session room [] own q = (g, refl, Sends-nothing g)
  announce-Sends env g k session room (m ∷ rest) own q = elim (Bool-cases m.logged_in) [
    | inl on ↦
        let first = queue_user_joined_event env g m.session_id room.room_id session in
        let second = queue_user_joined_event env first k room.room_id m in
        let later = announce-Sends env second k session room rest own q.1 in
        (
          later.0,
          ground (arith, later.1),
          Sends-then _ _ _
              (queue_user_joined_event-Sends env g m.session_id q.0 room.room_id session)
              (Sends-then _ _ _ (queue_user_joined_event-Sends env first k own room.room_id m)
                later.2),
        )
    | inr off ↦
        let later = announce-Sends env g k session room rest own q.1 in
        (later.0, ground (arith, later.1), later.2)
  ]
