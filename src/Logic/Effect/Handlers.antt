-- ===== src/Logic/Effect/Handlers.antt =====
-- Every handler of NightServer/GameLogicSystem.cpp ends, without a null dereference, with the calls on
-- the room system that `calls` lists and messages to sessions that the event concerns.
pub mod Join
pub mod Login
use mathlib.Core.List.{append-nil, append_assoc}
use project_night.Prelude.{
  ℕ, ◌≡◌, refl, ◌≢◌, inl, inr, Bool, true, false, not, ◌&&◌, ◌||◌, List, [], ◌∷◌, ◌++◌, Option,
  none, some, arith, sym, ap, ◌∙◌, All, ◌⊎◌, subst, All-append, All-mono, Bool-cases, Option-cases,
  ◌==◌, is_empty, length, ltb, if◌then◌else◌,
}
use project_night.Prelude.Map
use project_night.Prelude.Map.{map_some}
use project_night.Wire.{Bytes}
use project_night.Rooms.{
  SessionState, RoomSystem, find_session, get_room_members, set_logged_in, add_session,
  remove_session, remove_session_from_current_room, is_display_name_taken, log_in,
}
use project_night.Rooms.Lookup.{room_of, find_session-set_logged_in}
use project_night.Rooms.Consistency.{IsConsistent}
use project_night.Rooms.Consistency.Run.{Call, add, remove, leave, move, login, apply, run}
use project_night.Message.{ErrorCode, no_error, not_in_room, invalid_name, duplicate_name}
use project_night.Logic.{
  OutgoingMessage, ServerEvent, session_connected, session_disconnected, invalid_packet,
  login_request, room_list_request, join_room_request, chat_send_request, leave_room_request,
  disconnect_request, Env, GameLogic, queue_login_response, queue_leave_room_response,
  queue_system_message, queue_disconnect_response,
}
use project_night.Logic.Handlers.{
  handle, handle_session_connected, handle_session_disconnected, handle_invalid_packet,
  handle_login_request, handle_room_list_request, handle_chat_send_request,
  handle_leave_room_request, handle_disconnect_request, accept_login, notify_if_found,
  notify_room_leave, left_the_room, join_a_room_first, empty_message, message_too_long, broadcast,
}
use project_night.Logic.Sends.{
  Sends, Sends-nothing, Sends-then, queue_login_response-Sends, queue_room_list_response-Sends,
  queue_leave_room_response-Sends, queue_disconnect_response-Sends, queue_system_message-Sends,
  broadcast-Sends,
}
use project_night.Logic.Effect.{Handled, Mails, Concerned, accepts_login, Together, calls, subject}
use project_night.Logic.Effect.Leaving.{
  members-Together, notify_room_leave-Sends, notify_if_found-Sends,
}

-- An event that makes no call and sends.
pub Handled_by_sending :
    (env : Env) (g h : GameLogic) (e : ServerEvent)
    → handle env g e ≡ some h
    → calls g.rooms e ≡ []
    → Sends (Concerned g.rooms e) g h
    → Handled env g e
unfolding run
Handled_by_sending env g h e done quiet s = record {
  next = h;
  handled = done;
  rooms = s.rooms ∙ ap (run g.rooms) (sym quiet);
  mails = record { new = s.new; sent = s.sent; to = s.to };
}

pub Mails-of : {Q : ℕ → Type 0} {g h : GameLogic} → Sends Q g h → Mails Q g h
Mails-of s = record { new = s.new; sent = s.sent; to = s.to }

-- What is sent after the room system has changed is sent after what was sent before.
Mails-after :
    {Q : ℕ → Type 0} {g h i : GameLogic} {rs : RoomSystem}
    → Mails Q g h
    → Sends Q (record h { rooms = rs }) i
    → Mails Q g i
Mails-after {Q} {g} a b = record {
  new = a.new ++ b.new;
  sent =
      b.sent
      ∙ ap (λ (l : List OutgoingMessage). l ++ b.new) a.sent
      ∙ append_assoc g.outgoing a.new b.new;
  to = All-append (λ m. Q m.session_id) a.new b.new a.to b.to;
}

pub leave_idle :
    (rs : RoomSystem) (k : ℕ)
    → (room_of rs k ≡ none) ⊎ (room_of rs k ≡ some 0)
    → remove_session_from_current_room rs k ≡ rs
unfolding remove_session_from_current_room
leave_idle rs k h = ground arith

module _ (env : Env) (g : GameLogic) where
  pub connected-Handled : (k : ℕ) → Handled env g (session_connected k)
  unfolding handle handle_session_connected run
  connected-Handled k = record {
    next = record g { rooms = add_session g.rooms k };
    handled = refl;
    rooms = refl;
    mails = record { new = []; sent = sym (append-nil g.outgoing); to = tt };
  }

  pub invalid-Handled : (k : ℕ) (message : Bytes) → Handled env g (invalid_packet k message)
  unfolding handle handle_invalid_packet
  invalid-Handled k message =
      Handled_by_sending env g _ (invalid_packet k message) refl refl
        (queue_system_message-Sends _ env g k (inl refl) 0 message)

  pub room_list-Handled : (k request_id : ℕ) → Handled env g (room_list_request k request_id)
  unfolding handle handle_room_list_request
  room_list-Handled k request_id =
      Handled_by_sending env g _ (room_list_request k request_id) refl refl
        (queue_room_list_response-Sends _ env g k (inl refl) request_id)

module _ (env : Env) (g : GameLogic) (c : IsConsistent g.rooms) where
  pub disconnected-Handled : (k : ℕ) → Handled env g (session_disconnected k)
  unfolding handle handle_session_disconnected run
  disconnected-Handled k =
      let s =
        notify_if_found-Sends env g c k (Concerned g.rooms (session_disconnected k))
          (find_session g.rooms k) refl (λ j t. inr (inl t)) in
      record {
        next = _;
        handled = refl;
        rooms = ap (λ (rs : RoomSystem). remove_session rs k) s.rooms;
        mails = record { new = s.new; sent = s.sent; to = s.to };
      }

  pub disconnect-Handled : (k request_id : ℕ) → Handled env g (disconnect_request k request_id)
  unfolding handle handle_disconnect_request run
  disconnect-Handled k request_id =
      let Q = Concerned g.rooms (disconnect_request k request_id) in
      let g1 = queue_disconnect_response env g k request_id true no_error in
      let first = queue_disconnect_response-Sends Q env g k (inl refl) request_id true no_error in
      let second =
        notify_if_found-Sends env g1 (subst IsConsistent (sym first.rooms) c) k Q
          (find_session g1.rooms k) refl
          (λ j t. inr (inl (subst (λ rs. Together rs k j) first.rooms t))) in
      let both =
        Sends-then Q g g1 (notify_if_found env g1 (find_session g1.rooms k)) first second in
      record {
        next = _;
        handled = refl;
        rooms = ap (λ (rs : RoomSystem). remove_session rs k) both.rooms;
        mails = record { new = both.new; sent = both.sent; to = both.to };
      }

  pub leave-Handled : (k request_id : ℕ) → Handled env g (leave_room_request k request_id)
  unfolding handle handle_leave_room_request run
  leave-Handled k request_id = elim (Option-cases (find_session g.rooms k)) [
    | inl gone ↦ record {
      next = g;
      handled = ground arith;
      rooms = sym (leave_idle g.rooms k (inl (rw gone refl)));
      mails = record { new = []; sent = sym (append-nil g.outgoing); to = tt };
    }
    | inr (s, found) ↦ elim (Bool-cases (s.room_id == 0)) [
      | inl out ↦
          let sends =
            queue_leave_room_response-Sends Q env g k (inl refl) request_id false not_in_room in
          record {
            next = queue_leave_room_response env g k request_id false not_in_room;
            handled = ground arith;
            rooms = sends.rooms ∙ sym (leave_idle g.rooms k (inr (ground arith)));
            mails = record { new = sends.new; sent = sends.sent; to = sends.to };
          }
      | inr within ↦
          let g1 = notify_room_leave env g s in
          let told = notify_room_leave-Sends env g c k Q s found (λ j t. inr (inl t)) in
          let g2 = record g1 { rooms = remove_session_from_current_room g1.rooms k } in
          let g3 = queue_leave_room_response env g2 k request_id true no_error in
          let response =
            queue_leave_room_response-Sends Q env g2 k (inl refl) request_id true no_error in
          let note = queue_system_message-Sends Q env g3 k (inl refl) s.room_id left_the_room in
          record {
            next = queue_system_message env g3 k s.room_id left_the_room;
            handled = ground arith;
            rooms =
                note.rooms
                ∙ response.rooms
                ∙ ap (λ (rs : RoomSystem). remove_session_from_current_room rs k) told.rooms;
            mails = Mails-after (Mails-of told) (Sends-then Q g2 g3 _ response note);
          }
    ]
  ]
    where
      Q : ℕ → Type 0
      Q = Concerned g.rooms (leave_room_request k request_id)

  pub chat-Handled :
      (k request_id : ℕ) (content : Bytes) → Handled env g (chat_send_request k request_id content)
  unfolding handle handle_chat_send_request
  chat-Handled k request_id content = elim (Option-cases (find_session g.rooms k)) [
    | inl gone ↦ Handled_by_sending env g g e (ground arith) refl (Sends-nothing Q g)
    | inr (s, found) ↦ elim (Bool-cases s.logged_in) [
      | inr off ↦ Handled_by_sending env g g e (ground arith) refl (Sends-nothing Q g)
      | inl on ↦ elim (Bool-cases (s.room_id == 0)) [
        | inl out ↦
            Handled_by_sending env g _ e (ground arith) refl
              (queue_system_message-Sends Q env g k (inl refl) 0 join_a_room_first)
        | inr within ↦ elim (Bool-cases (is_empty content)) [
          | inl blank ↦
              Handled_by_sending env g _ e (ground arith) refl
                (queue_system_message-Sends Q env g k (inl refl) s.room_id empty_message)
          | inr text ↦ elim (Bool-cases (ltb 512 (length content))) [
            | inl long ↦
                Handled_by_sending env g _ e (ground arith) refl
                  (queue_system_message-Sends Q env g k (inl refl) s.room_id message_too_long)
            | inr fits ↦ Handled_by_sending env g _ e (ground arith) refl (
                broadcast-Sends Q env g s content (get_room_members g.rooms s.room_id none) (
                  All-mono _ _ (get_room_members g.rooms s.room_id none) (λ m t. inr (inl t))
                    (members-Together g.rooms c k s none found (ground arith))))
          ]
        ]
      ]
    ]
  ]
    where
      e : ServerEvent
      e = chat_send_request k request_id content

      Q : ℕ → Type 0
      Q = Concerned g.rooms (chat_send_request k request_id content)
