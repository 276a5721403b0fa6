-- ===== src/Logic/Join.antt =====
-- Joining a room in NightServer/GameLogicSystem.cpp: who is told what.
pub mod Delivery
use mathlib.Core.List.{append-nil, append_assoc}
use project_night.Prelude.{
  ℕ, ◌+◌, ◌%◌, ◌^◌, ◌≤◌, ◌≡◌, refl, sym, ◌∙◌, ap, subst, ◌≢◌, ◌↔◌, ◌⊎◌, inl, inr, Bool, true, false,
  not, List, [], ◌∷◌, ◌++◌, Option, none, some, arith, ◌==◌, if◌then◌else◌, Bool-cases,
  Option-cases, All, All-mono, length,
}
use project_night.Prelude.Map
use project_night.Prelude.Map.{map_some}
use project_night.Prelude.Set
use project_night.Wire.{Bytes}
use project_night.Rooms.{
  SessionState, RoomState, RoomSystem, find_session, find_room, get_room_members,
  move_session_to_room, remove_session_from_current_room, set_room, drop_member, insert_member,
}
use project_night.Rooms.Lookup.{
  room_of, has_room, find_session-move, find_session-leave, has_room-leave, has_room-move,
}
use project_night.Rooms.Consistency.{IsConsistent}
use project_night.Rooms.Consistency.Steps.{leave-IsConsistent, move_session-IsConsistent}
use project_night.Rooms.Members.{
  ids, AreIn, Recipients, get_room_members_lem, get_room_members-Recipients,
}
use project_night.Message.{
  user_joined_event, join_room_response, system_message_event, c_str, no_error,
  create_user_info_direct, create_room_info_direct, create_system_message_event_direct,
}
use project_night.Logic.{
  Env, GameLogic, OutgoingMessage, join_room_request, queue_user_joined_event,
  queue_join_room_response, queue_system_message,
}
use project_night.Logic.Handlers.{handle, announce, enter, leave_old_room, entered_the_room}
use project_night.Logic.Chat.{Fits}
use project_night.Logic.Leave.{post, bytes, queue-Fits, left_bytes, told}
use project_night.Logic.Effect.Handlers.{leave_idle}
use project_night.Logic.Inside.{IsAdmitted}

-- What is said of a session that is in a room.
abbrev pub joined_bytes : Env → ℕ → SessionState → Bytes
joined_bytes env r u = bytes env 0 (
    user_joined_event (
      some (record {
        room_id = r;
        user = some (record { user_id = u.user_id; display_name = some (c_str u.display_name) });
      })))

-- Each member hears of the session that joins, and that session of each member.
abbrev pub greetings : Env → ℕ → ℕ → SessionState → List SessionState → List OutgoingMessage
greetings env r k s [] = []
greetings env r k s (m ∷ rest) =
    record { session_id = m.session_id; payload = joined_bytes env r s }
    ∷ record { session_id = k; payload = joined_bytes env r m }
    ∷ greetings env r k s rest

module _ (env : Env) (r k : ℕ) (s : SessionState) where
  queue_user_joined_event_lem :
      (g : GameLogic) (j : ℕ) (u : SessionState)
      → Fits (joined_bytes env r u)
      → queue_user_joined_event env g j r u
        ≡ record g { outgoing = g.outgoing ++ post (joined_bytes env r u) (j ∷ []) }
  unfolding queue_user_joined_event create_user_info_direct
  queue_user_joined_event_lem g j u fits = queue-Fits env g j 0 _ fits

  next_member :
      (g : GameLogic) (room : RoomState) (m : SessionState) (rest : List SessionState)
      → room.room_id ≡ r
      → m.logged_in ≡ true
      → announce env g k (some s) room (m ∷ rest)
        ≡ announce env
            (queue_user_joined_event env (queue_user_joined_event env g m.session_id r s) k r m)
            k
            (some s)
            room
            rest
  unfolding announce
  next_member g room m rest named on = ground arith

  announce_lem :
      (g : GameLogic) (room : RoomState) (members : List SessionState)
      → room.room_id ≡ r
      → All (λ m. m.logged_in ≡ true) members
      → Fits (joined_bytes env r s)
      → All (λ m. Fits (joined_bytes env r m)) members
      → announce env g k (some s) room members
        ≡ some (record g { outgoing = g.outgoing ++ greetings env r k s members })
  unfolding announce
  announce_lem g room [] named on own fits =
      ap (λ (o : List OutgoingMessage). some (record g { outgoing = o }))
        (sym (append-nil g.outgoing))
  announce_lem g room (m ∷ rest) named on own fits =
      let first = post (joined_bytes env r s) (m.session_id ∷ []) in
      let second = post (joined_bytes env r m) (k ∷ []) in
      let g1 = record g { outgoing = g.outgoing ++ first } in
      let g2 = record g { outgoing = (g.outgoing ++ first) ++ second } in
      let others = greetings env r k s rest in
      next_member g room m rest named on.0
      ∙ ap
          (λ (h : GameLogic).
            announce env (queue_user_joined_event env h k r m) k (some s) room rest)
          (queue_user_joined_event_lem g m.session_id s own)
      ∙ ap (λ (h : GameLogic). announce env h k (some s) room rest)
          (queue_user_joined_event_lem g1 k m fits.0)
      ∙ announce_lem g2 room rest named on.1 own fits.1
      ∙ ap (λ (o : List OutgoingMessage). some (record g { outgoing = o }))
          (append_assoc (g.outgoing ++ first) second others
            ∙ append_assoc g.outgoing first (second ++ others))

-- What the others in the room that is left are told; nothing for a session that is in none.
abbrev pub parting : Env → GameLogic → ℕ → SessionState → List OutgoingMessage
parting env g k s =
    if s.room_id == 0
    then []
    else post (left_bytes env s) (ids (get_room_members g.rooms s.room_id (some k)))

module _ (env : Env) (g : GameLogic) (c : IsConsistent g.rooms) (k : ℕ) (s : SessionState)
    (found : find_session g.rooms k ≡ some s) (on : s.logged_in ≡ true)
    (fits : Fits (left_bytes env s)) where
  pub leave_old_room_lem : leave_old_room env g s k ≡ record g {
    rooms = remove_session_from_current_room g.rooms k;
    outgoing = g.outgoing ++ parting env g k s;
  }
  leave_old_room_lem = elim (Bool-cases (s.room_id == 0)) [
    | inl out ↦
        let idle = leave_idle g.rooms k (inr (ground arith)) in
        ground (arith, idle, append-nil g.outgoing)
    | inr within ↦ ground (arith, told env g k s c found on (ground arith) fits)
  ]

-- The answer to a session that joins, with the number of members that the room then has, and the
-- note after it.
abbrev pub join_answer : Env → ℕ → ℕ → Bytes → ℕ → Bytes
join_answer env request_id r name count = bytes env request_id (
    join_room_response (
      some (record {
        success = true;
        error_code = no_error;
        room =
            some
              (record { room_id = r; room_name = some (c_str name); user_count = count % 2 ^ 32 });
      })))

abbrev pub join_note : Env → ℕ → Bytes → Bytes
unfolding entered_the_room
join_note env r name = bytes env 0 (
    system_message_event
      (some (record { room_id = r; content = some (c_str (name ++ entered_the_room)) })))

module _ (env : Env) (k request_id : ℕ) (room : RoomState)
    (fits_answer : Fits
      (join_answer env request_id room.room_id room.room_name (length room.members)))
    (fits_note : Fits (join_note env room.room_id room.room_name)) where
  join_answered :
      (h : GameLogic)
      → queue_system_message env
          (queue_join_room_response env h k request_id true no_error (some room))
          k
          room.room_id
          (room.room_name ++ entered_the_room)
        ≡ record h {
          outgoing =
              h.outgoing
              ++ record {
                session_id = k;
                payload =
                    join_answer env request_id room.room_id room.room_name (length room.members);
              }
                ∷ record { session_id = k; payload = join_note env room.room_id room.room_name }
                ∷ [];
        }
  unfolding queue_system_message queue_join_room_response create_system_message_event_direct
      create_room_info_direct entered_the_room
  join_answered h =
      let answer =
        post (join_answer env request_id room.room_id room.room_name (length room.members))
          (k ∷ []) in
      let note = post (join_note env room.room_id room.room_name) (k ∷ []) in
      ap
        (λ (i : GameLogic).
          queue_system_message env i k room.room_id (room.room_name ++ entered_the_room))
        (queue-Fits env h k request_id _ fits_answer)
      ∙ queue-Fits env (record h { outgoing = h.outgoing ++ answer }) k 0 _ fits_note
      ∙ ap (λ (o : List OutgoingMessage). record h { outgoing = o })
          (append_assoc h.outgoing answer note)

  -- The second half of a join, for a session that is in no room.
  pub enter_delivered :
      (g : GameLogic) (s : SessionState)
      → find_room (move_session_to_room g.rooms k room.room_id) room.room_id ≡ some room
      → find_session (move_session_to_room g.rooms k room.room_id) k ≡ some s
      → let members = get_room_members g.rooms room.room_id none in
        All (λ m. m.logged_in ≡ true) members
        → Fits (joined_bytes env room.room_id s)
        → All (λ m. Fits (joined_bytes env room.room_id m)) members
        → enter env g k request_id room.room_id
          ≡ some (record g {
            rooms = move_session_to_room g.rooms k room.room_id;
            outgoing =
                (g.outgoing
                  ++ record {
                    session_id = k;
                    payload =
                        join_answer env request_id room.room_id room.room_name
                          (length room.members);
                  }
                    ∷ record { session_id = k; payload = join_note env room.room_id room.room_name }
                    ∷ [])
                ++ greetings env room.room_id k s members;
          })
  enter_delivered g s there now on own fits =
      let members = get_room_members g.rooms room.room_id none in
      let h = record g { rooms = move_session_to_room g.rooms k room.room_id } in
      let answers =
        (record {
          session_id = k;
          payload = join_answer env request_id room.room_id room.room_name (length room.members);
        }
          ∷ record { session_id = k; payload = join_note env room.room_id room.room_name }
          ∷ []) in
      let h2 = record h { outgoing = h.outgoing ++ answers } in
      entering g s there now
      ∙ ap (λ (i : GameLogic). announce env i k (some s) room members) (join_answered h)
      ∙ announce_lem env room.room_id k s h2 room members refl on own fits
    where
      entering :
          (g : GameLogic) (s : SessionState)
          → find_room (move_session_to_room g.rooms k room.room_id) room.room_id ≡ some room
          → find_session (move_session_to_room g.rooms k room.room_id) k ≡ some s
          → enter env g k request_id room.room_id
            ≡ announce env
                (queue_system_message env
                  (queue_join_room_response env
                    (record g { rooms = move_session_to_room g.rooms k room.room_id })
                    k
                    request_id
                    true
                    no_error
                    (some room))
                  k
                  room.room_id
                  (room.room_name ++ entered_the_room))
                k
                (some s)
                room
                (get_room_members g.rooms room.room_id none)
      entering g s there now = ground arith
