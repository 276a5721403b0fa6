-- ===== src/Logic/Effect/Handlers/Join.antt =====
-- `HandleJoinRoomRequest` of NightServer/GameLogicSystem.cpp.
use mathlib.Core.List.{append_assoc}
use project_night.Prelude.{
  All-append, ℕ, ◌≡◌, refl, inl, inr, true, false, List, [], ◌∷◌, ◌++◌, Option, none, some, arith,
  sym, ap, ◌∙◌, All, All-mono, Bool-cases, Option-cases, ◌==◌, subst, ◌⊎◌,
}
use project_night.Rooms.{
  SessionState, RoomState, RoomSystem, find_session, find_room, get_room_members,
  move_session_to_room, remove_session_from_current_room, set_room,
}
use project_night.Rooms.Lookup.{
  room_of, has_room, find_session-move, find_session-leave, has_room-leave, has_room-move,
}
use project_night.Rooms.Consistency.{IsConsistent}
use project_night.Rooms.Consistency.Steps.{leave-IsConsistent}
use project_night.Rooms.Consistency.Run.{leave, move, run}
use project_night.Message.{ErrorCode, no_error, invalid_name, room_not_found, already_in_room}
use project_night.Logic.{
  OutgoingMessage, join_room_request, Env, GameLogic, queue_join_room_response,
  queue_system_message,
}
use project_night.Logic.Handlers.{
  handle, handle_join_room_request, enter, leave_old_room, announce, notify_room_leave,
  entered_the_room,
}
use project_night.Logic.Sends.{
  Sends-nothing, Sends-then, queue_join_room_response-Sends, queue_system_message-Sends,
  announce-Sends,
}
use project_night.Logic.Effect.{Handled, Mails, Concerned, calls}
use project_night.Logic.Effect.Leaving.{members-room_of, notify_room_leave-Sends}
use project_night.Logic.Effect.Handlers.{Handled_by_sending, Mails-of, leave_idle}

-- The second half of a join runs to its end.
pub record Entered (env : Env) (Q : ℕ → Type 0) (g : GameLogic) (k request_id r : ℕ) : Type 0 where
  pub next : GameLogic
  pub entered : enter env g k request_id r ≡ some next
  pub rooms : next.rooms ≡ move_session_to_room g.rooms k r
  pub mails : Mails Q g next

exists_room :
    (rs : RoomSystem) (r : ℕ)
    → has_room rs r ≡ true
    → (room : RoomState) × (find_room rs r ≡ some room)
exists_room rs r h = ground arith

module _ (env : Env) (Q : ℕ → Type 0) where
  enter_lem :
      (g : GameLogic) (k request_id r : ℕ) (room : RoomState) (s : SessionState)
      → let rooms = move_session_to_room g.rooms k r in
        find_room rooms r ≡ some room
        → find_session rooms k ≡ some s
        → (h : GameLogic)
        → announce env
            (queue_system_message env
              (queue_join_room_response env
                (record g { rooms = rooms })
                k
                request_id
                true
                no_error
                (find_room rooms r))
              k
              room.room_id
              (room.room_name ++ entered_the_room))
            k
            (some s)
            room
            (get_room_members g.rooms r none)
          ≡ some h
        → enter env g k request_id r ≡ some h
  enter_lem g k request_id r room s there now h ends = ground arith

  enter-Entered :
      (g : GameLogic) (k request_id r : ℕ) (s : SessionState)
      → find_session g.rooms k ≡ some s
      → has_room g.rooms r ≡ true
      → Q k
      → All (λ m. Q m.session_id) (get_room_members g.rooms r none)
      → Entered env Q g k request_id r
  enter-Entered g k request_id r s found open_room own others =
      let members = get_room_members g.rooms r none in
      let rooms = move_session_to_room g.rooms k r in
      let (room, there) = exists_room rooms r (has_room-move g.rooms k r r ∙ open_room) in
      let now : find_session rooms k ≡ some (set_room r s) =
        ground (arith, find_session-move g.rooms k k r) in
      let g0 = record g { rooms = rooms } in
      let g1 = queue_join_room_response env g0 k request_id true no_error (find_room rooms r) in
      let g2 = queue_system_message env g1 k room.room_id (room.room_name ++ entered_the_room) in
      let s1 =
        queue_join_room_response-Sends Q env g0 k own request_id true no_error
          (find_room rooms r) in
      let s2 =
        queue_system_message-Sends Q env g1 k own room.room_id
          (room.room_name ++ entered_the_room) in
      let (h, ends, s3) = announce-Sends Q env g2 k (set_room r s) room members own others in
      let all = Sends-then Q g0 g1 h s1 (Sends-then Q g1 g2 h s2 s3) in
      record {
        next = h;
        entered = enter_lem g k request_id r room (set_room r s) there now h ends;
        rooms = all.rooms;
        mails = record { new = all.new; sent = all.sent; to = all.to };
      }

module _ (env : Env) (g : GameLogic) (c : IsConsistent g.rooms) (k request_id r : ℕ) where
  abbrev Q : ℕ → Type 0
  Q = Concerned g.rooms (join_room_request k request_id r)

  refused :
      (code : ErrorCode) (room : Option RoomState)
      → handle env g (join_room_request k request_id r)
        ≡ some (queue_join_room_response env g k request_id false code room)
      → calls g.rooms (join_room_request k request_id r) ≡ []
      → Handled env g (join_room_request k request_id r)
  refused code room done quiet =
      Handled_by_sending env g _ (join_room_request k request_id r) done quiet
        (queue_join_room_response-Sends Q env g k (inl refl) request_id false code room)

  -- The session as it stands before the second half: out of its old room, which was told.
  record Left (s : SessionState) : Type 0 where
    rooms_left : (leave_old_room env g s k).rooms ≡ remove_session_from_current_room g.rooms k
    mails_left : Mails Q g (leave_old_room env g s k)

  stayed : (s : SessionState) → (s.room_id == 0) ≡ true → leave_old_room env g s k ≡ g
  stayed s out = ground arith

  moved_out :
      (s : SessionState)
      → (s.room_id == 0) ≡ false
      → leave_old_room env g s k ≡ record (notify_room_leave env g s) {
        rooms = remove_session_from_current_room (notify_room_leave env g s).rooms k;
      }
  moved_out s within = ground arith

  leave_old_room-Left : (s : SessionState) → find_session g.rooms k ≡ some s → Left s
  leave_old_room-Left s found = elim (Bool-cases (s.room_id == 0)) [
    | inl out ↦ record {
      rooms_left =
          ap (λ (h : GameLogic). h.rooms) (stayed s out)
          ∙ sym (leave_idle g.rooms k (inr (ground arith)));
      mails_left = subst (λ h. Mails Q g h) (sym (stayed s out)) (Mails-of (Sends-nothing Q g));
    }
    | inr within ↦
        let told = notify_room_leave-Sends env g c k Q s found (λ j t. inr (inl t)) in
        record {
          rooms_left =
              ap (λ (h : GameLogic). h.rooms) (moved_out s within)
              ∙ ap (λ (rs : RoomSystem). remove_session_from_current_room rs k) told.rooms;
          mails_left =
              subst (λ h. Mails Q g h) (sym (moved_out s within))
                (record { new = told.new; sent = told.sent; to = told.to });
        }
  ]

  -- Who is found in the room was there before the session left its own, or is the session.
  found_there :
      (j : ℕ)
      → room_of (remove_session_from_current_room g.rooms k) j ≡ some r
      → (r ≡ 0) ⊎ (room_of g.rooms j ≡ some r)
  found_there j h = ground (arith, find_session-leave g.rooms k j)

  pub accepted :
      (s : SessionState) (room : RoomState)
      → find_session g.rooms k ≡ some s
      → find_room g.rooms r ≡ some room
      → s.logged_in ≡ true
      → (s.room_id == r) ≡ false
      → (handle env g (join_room_request k request_id r)
          ≡ enter env (leave_old_room env g s k) k request_id r)
        × (calls g.rooms (join_room_request k request_id r) ≡ leave k ∷ move k r ∷ [])
  unfolding handle handle_join_room_request
  accepted s room found there on elsewhere = (ground arith, ground arith)

  join_accepted :
      (s : SessionState) (room : RoomState)
      → find_session g.rooms k ≡ some s
      → find_room g.rooms r ≡ some room
      → s.logged_in ≡ true
      → (s.room_id == r) ≡ false
      → Handled env g (join_room_request k request_id r)
  unfolding run
  join_accepted s room found there on elsewhere =
      let left = leave_old_room-Left s found in
      let g' = leave_old_room env g s k in
      let rs = remove_session_from_current_room g.rooms k in
      let back = sym left.rooms_left in
      let now : find_session rs k ≡ some (set_room 0 s) =
        ground (arith, find_session-leave g.rooms k k) in
      let others : All (λ m. Q m.session_id) (get_room_members rs r none) =
        All-mono _ _ (get_room_members rs r none)
          (λ m h. awaits m.session_id (found_there m.session_id h))
          (members-room_of rs (leave-IsConsistent g.rooms k c) r none) in
      let second =
        enter-Entered env Q g' k request_id r (set_room 0 s)
          (subst (λ (x : RoomSystem). find_session x k ≡ some (set_room 0 s)) back now)
          (subst (λ (x : RoomSystem). has_room x r ≡ true) back
            (has_room-leave g.rooms k r ∙ ground arith))
          (inl refl)
          (subst (λ (x : RoomSystem). All (λ m. Q m.session_id) (get_room_members x r none)) back
            others) in
      let (first, wanted) = accepted s room found there on elsewhere in
      record {
        next = second.next;
        handled = first ∙ second.entered;
        rooms =
            second.rooms
            ∙ ap (λ (x : RoomSystem). move_session_to_room x k r) left.rooms_left
            ∙ ap (run g.rooms) (sym wanted);
        mails = record {
          new = left.mails_left.new ++ second.mails.new;
          sent =
              second.mails.sent
              ∙ ap (λ (l : List OutgoingMessage). l ++ second.mails.new) left.mails_left.sent
              ∙ append_assoc g.outgoing left.mails_left.new second.mails.new;
          to =
              All-append (λ m. Q m.session_id) left.mails_left.new second.mails.new
                left.mails_left.to second.mails.to;
        };
      }
    where
      awaits : (j : ℕ) → (r ≡ 0) ⊎ (room_of g.rooms j ≡ some r) → Q j
      awaits j (inl zero) = absurd ((c.rooms_keyed r room there).1 zero)
      awaits j (inr here) = inr (inr here)

  pub join-Handled : Handled env g (join_room_request k request_id r)
  unfolding handle handle_join_room_request
  join-Handled = elim (Option-cases (find_session g.rooms k)) [
    | inl gone ↦
        Handled_by_sending env g g (join_room_request k request_id r) (ground arith) (ground arith)
          (Sends-nothing Q g)
    | inr (s, found) ↦ elim (Option-cases (find_room g.rooms r)) [
      | inl missing ↦ elim (Bool-cases s.logged_in) [
        | inl on ↦ refused room_not_found none (ground arith) (ground arith)
        | inr off ↦ refused invalid_name none (ground arith) (ground arith)
      ]
      | inr (room, there) ↦ elim (Bool-cases s.logged_in) [
        | inr off ↦ refused invalid_name none (ground arith) (ground arith)
        | inl on ↦ elim (Bool-cases (s.room_id == r)) [
          | inl inside ↦ refused already_in_room (some room) (ground arith) (ground arith)
          | inr elsewhere ↦ join_accepted s room found there on elsewhere
        ]
      ]
    ]
  ]
