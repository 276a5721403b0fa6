-- ===== src/Logic/Effect/Events.antt =====
-- `handle` of NightServer/GameLogicSystem.cpp on every event, and `Update` on a list of them.
use project_night.Prelude.{◌≡◌, refl, sym, ◌∙◌, subst, List, [], ◌∷◌, ◌++◌, some, arith}
use mathlib.Core.List.{append-nil, append_assoc}
use project_night.Prelude.{ap}
use project_night.Rooms.Consistency.{IsConsistent}
use project_night.Rooms.Consistency.Run.{run-IsConsistent}
use project_night.Logic.{
  ServerEvent, session_connected, session_disconnected, invalid_packet, login_request,
  room_list_request, join_room_request, chat_send_request, leave_room_request, disconnect_request,
  Env, GameLogic, OutgoingMessage,
}
use project_night.Logic.Handlers.{update}
use project_night.Logic.Effect.{Handled, calls}
use project_night.Logic.Effect.Handlers.{
  connected-Handled, disconnected-Handled, invalid-Handled, room_list-Handled, chat-Handled,
  leave-Handled, disconnect-Handled,
}
use project_night.Logic.Effect.Handlers.Join.{join-Handled}
use project_night.Logic.Effect.Handlers.Login.{login-Handled}

module _ (env : Env) where
  -- From a consistent room system every event is handled without a null dereference; the room
  -- system changes by the calls that `calls` lists for the event and by nothing else; and the
  -- messages queued before stay in front of the new ones, which all go to the event's own session,
  -- to sessions that shared its room before the event, or to sessions in the room that it asks to
  -- join.
  pub handle-Handled : (g : GameLogic) (e : ServerEvent) → IsConsistent g.rooms → Handled env g e
  handle-Handled g (session_connected k) c = connected-Handled env g k
  handle-Handled g (session_disconnected k) c = disconnected-Handled env g c k
  handle-Handled g (invalid_packet k message) c = invalid-Handled env g k message
  handle-Handled g (login_request k request_id name) c = login-Handled env g k request_id name
  handle-Handled g (room_list_request k request_id) c = room_list-Handled env g k request_id
  handle-Handled g (join_room_request k request_id r) c = join-Handled env g c k request_id r
  handle-Handled g (chat_send_request k request_id content) c =
      chat-Handled env g c k request_id content
  handle-Handled g (leave_room_request k request_id) c = leave-Handled env g c k request_id
  handle-Handled g (disconnect_request k request_id) c = disconnect-Handled env g c k request_id

  -- Events were handled to the end, and messages were only added.
  pub record Updated (g : GameLogic) (events : List ServerEvent) : Type 0 where
    pub next : GameLogic
    pub updated : update env g events ≡ some next
    pub consistent : IsConsistent next.rooms
    pub new : List OutgoingMessage
    pub sent : next.outgoing ≡ g.outgoing ++ new

  -- From a consistent room system `Update` handles any list of events to the end, without a
  -- null dereference, leaves the room system consistent, and only appends to the outgoing
  -- messages.
  pub update-Updated :
      (g : GameLogic) (events : List ServerEvent) → IsConsistent g.rooms → Updated g events
  unfolding update
  update-Updated g [] c = record {
    next = g;
    updated = refl;
    consistent = c;
    new = [];
    sent = sym (append-nil g.outgoing);
  }
  update-Updated g (e ∷ events) c =
      let one = handle-Handled g e c in
      let rest =
        update-Updated one.next events
          (subst IsConsistent (sym one.rooms) (run-IsConsistent g.rooms (calls g.rooms e) c)) in
      record {
        next = rest.next;
        updated = ground (arith, one.handled, rest.updated);
        consistent = rest.consistent;
        new = one.mails.new ++ rest.new;
        sent =
            rest.sent
            ∙ ap (λ (l : List OutgoingMessage). l ++ rest.new) one.mails.sent
            ∙ append_assoc g.outgoing one.mails.new rest.new;
      }
