-- ===== src/Logic/Join/Delivery.antt =====
-- A whole join of NightServer/GameLogicSystem.cpp, from one room to another.
use project_night.Prelude.{
  ℕ, suc, ◌≡◌, refl, sym, ◌∙◌, ap, ◌≢◌, true, List, [], ◌∷◌, ◌++◌, none, some, arith, All, All-mono,
  length, length-map,
}
use project_night.Rooms.{
  SessionState, RoomState, RoomSystem, find_session, find_room, get_room_members,
  move_session_to_room, remove_session_from_current_room, set_room,
}
use project_night.Rooms.Lookup.{find_session-move, find_session-leave}
use project_night.Rooms.Consistency.{IsConsistent}
use project_night.Rooms.Consistency.Steps.{leave-IsConsistent}
use project_night.Rooms.Members.{
  ids, without, member_list, Recipients, get_room_members_lem, get_room_members-Recipients,
}
use project_night.Logic.{Env, GameLogic, join_room_request}
use project_night.Logic.Handlers.{handle, enter, leave_old_room}
use project_night.Logic.Chat.{Fits}
use project_night.Logic.Leave.{left_bytes}
use project_night.Logic.Inside.{IsAdmitted}
use project_night.Logic.Handlers.{handle_join_room_request}
use project_night.Logic.Join.{
  joined_bytes, greetings, parting, join_answer, join_note, leave_old_room_lem, enter_delivered,
}
use project_night.Rooms.Transfer.{room_stays, session_left, room_entered, leave-room_of}

-- A join was carried out. `members` are those that were in the room before.
pub record Joined (env : Env) (g : GameLogic) (k request_id r : ℕ) (s : SessionState)
    (room : RoomState) : Type 0 where
  pub members : List SessionState
  pub states : All (λ m. find_session g.rooms m.session_id ≡ some m) members
  pub recipients : Recipients g.rooms r none (ids members)
  pub handled :
      handle env g (join_room_request k request_id r)
      ≡ some (record g {
        rooms = move_session_to_room (remove_session_from_current_room g.rooms k) k r;
        outgoing =
            ((g.outgoing ++ parting env g k s)
              ++ record {
                session_id = k;
                payload = join_answer env request_id r room.room_name (suc (length members));
              }
                ∷ record { session_id = k; payload = join_note env r room.room_name }
                ∷ [])
            ++ greetings env r k (set_room r s) members;
      })

without-none : (ks : List ℕ) → without none ks ≡ ks
without-none [] = refl
without-none (j ∷ js) = ap (◌∷◌ j) (without-none js)

module _ (env : Env) (g : GameLogic) (c : IsConsistent g.rooms) (k : ℕ) (s : SessionState)
    (room : RoomState) (found : find_session g.rooms k ≡ some s)
    (there : find_room g.rooms room.room_id ≡ some room)
    (elsewhere : s.room_id ≢ room.room_id) where
  abbrev left : RoomSystem
  left = remove_session_from_current_room g.rooms k

  abbrev present : List SessionState
  present = get_room_members left room.room_id none

  left-IsConsistent : IsConsistent left
  left-IsConsistent = leave-IsConsistent g.rooms k c

  real_room : room.room_id ≢ 0
  real_room = (c.rooms_keyed room.room_id room there).1

  -- Who is found in the room stands in the table as before.
  untouched :
      (m : SessionState)
      → (find_session left m.session_id ≡ some m) × (m.room_id ≡ room.room_id)
      → find_session g.rooms m.session_id ≡ some m
  untouched m h = ground (arith, find_session-leave g.rooms k m.session_id, real_room)

  present-AreIn :
      All (λ m. (find_session left m.session_id ≡ some m) × (m.room_id ≡ room.room_id)) present
  present-AreIn = (get_room_members_lem left room.room_id none left-IsConsistent).1

  states : All (λ m. find_session g.rooms m.session_id ≡ some m) present
  states = All-mono _ _ present untouched present-AreIn

  present-length : length present ≡ length room.members
  present-length =
      sym (length-map present (λ m. m.session_id))
      ∙ ap (λ (js : List ℕ). length js)
          ((get_room_members_lem left room.room_id none left-IsConsistent).0
            ∙ without-none (member_list (find_room left room.room_id))
            ∙ ap member_list (room_stays g.rooms c k room.room_id s room found there elsewhere))

  present-Recipients : Recipients g.rooms room.room_id none (ids present)
  present-Recipients =
      let before = get_room_members-Recipients left room.room_id none left-IsConsistent real_room in
      let same = leave-room_of g.rooms c k room.room_id s room found there elsewhere in
      record {
        once = before.once;
        just = λ j. (
          λ h. ((same j).0 ((before.just j).0 h).0, refl),
          λ h. (before.just j).1 ((same j).1 h.0, refl),
        );
      }

  starts :
      (request_id : ℕ)
      → s.logged_in ≡ true
      → handle env g (join_room_request k request_id room.room_id)
        ≡ enter env (leave_old_room env g s k) k request_id room.room_id
  unfolding handle handle_join_room_request
  starts request_id on = ground arith

  abbrev whole : ℕ → ℕ → GameLogic
  whole request_id count = record g {
    rooms = move_session_to_room (remove_session_from_current_room g.rooms k) k room.room_id;
    outgoing =
        ((g.outgoing ++ parting env g k s)
          ++ record {
            session_id = k;
            payload = join_answer env request_id room.room_id room.room_name count;
          }
            ∷ record { session_id = k; payload = join_note env room.room_id room.room_name }
            ∷ [])
        ++ greetings env room.room_id k (set_room room.room_id s) present;
  }

  -- A logged-in session that asks for a room that exists and is not its own joins it: the others in
  -- the room that it leaves are told, if it was in one; it is answered with the room and the number
  -- of members that it then has, and sent a note; then each session that was in the room, and
  -- nobody else, hears of it, and it of each of them; and the session is moved. The payloads must be
  -- ones that `QueueMessage` takes, for this session and those in the room, and whoever is in a
  -- room must be logged in.
  pub join_delivered :
      (request_id : ℕ)
      → IsAdmitted g
      → s.logged_in ≡ true
      → Fits (left_bytes env s)
      → Fits (join_answer env request_id room.room_id room.room_name (suc (length room.members)))
      → Fits (join_note env room.room_id room.room_name)
      → Fits (joined_bytes env room.room_id (set_room room.room_id s))
      → ((j : ℕ) (m : SessionState)
          → find_session g.rooms j ≡ some m
          → m.room_id ≡ room.room_id
          → Fits (joined_bytes env room.room_id m))
      → Joined env g k request_id room.room_id s room
  join_delivered request_id admitted on fits_left fits_answer fits_note fits_own fits_others =
      let after = record room { members = k ∷ room.members } in
      let g1 = record g { rooms = left; outgoing = g.outgoing ++ parting env g k s } in
      let entered : find_room (move_session_to_room left k room.room_id) room.room_id ≡ some after =
        room_entered g.rooms c k room.room_id s room found there elsewhere in
      let now : find_session (move_session_to_room left k room.room_id) k
          ≡ some (set_room room.room_id s) =
        ground (
          arith,
          find_session-move left k k room.room_id,
          room_stays g.rooms c k room.room_id s room found there elsewhere,
          session_left g.rooms c k room.room_id s room found there elsewhere,
        ) in
      let all_on : All (λ m. m.logged_in ≡ true) present =
        All-mono _ _ present
          (λ m h. admitted m.session_id m (untouched m h) (ground (arith, real_room)))
          present-AreIn in
      let all_fit : All (λ m. Fits (joined_bytes env room.room_id m)) present =
        All-mono _ _ present (λ m h. fits_others m.session_id m (untouched m h) h.1)
          present-AreIn in
      record {
        members = present;
        states = states;
        recipients = present-Recipients;
        handled =
            starts request_id on
            ∙ ap (λ (h : GameLogic). enter env h k request_id room.room_id)
                (leave_old_room_lem env g c k s found on fits_left)
            ∙ enter_delivered env k request_id after fits_answer fits_note g1
                (set_room room.room_id s) entered now all_on fits_own all_fit
            ∙ ap (λ (n : ℕ). some (whole request_id (suc n))) (sym present-length);
      }
