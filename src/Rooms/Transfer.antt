-- ===== src/Rooms/Transfer.antt =====
-- A session that leaves one room and enters another (NightServer/RoomSystem.cpp): what becomes of the
-- room that it enters.
use project_night.Prelude.{ℕ, ◌≡◌, ◌≢◌, ◌↔◌, inl, inr, false, ◌∷◌, some, arith, Bool-cases}
use project_night.Prelude.Map
use project_night.Prelude.Map.{map_some}
use project_night.Prelude.Set
use project_night.Rooms.{
  SessionState, RoomState, RoomSystem, find_session, find_room, move_session_to_room,
  remove_session_from_current_room, set_room, drop_member, insert_member,
}
use project_night.Rooms.Lookup.{room_of, find_session-leave}
use project_night.Rooms.Consistency.{IsConsistent}

module _ (rs : RoomSystem) (c : IsConsistent rs) (k r : ℕ) (s : SessionState) (room : RoomState)
    (found : find_session rs k ≡ some s) (there : find_room rs r ≡ some room)
    (elsewhere : s.room_id ≢ r) where
  pub room_stays : find_room (remove_session_from_current_room rs k) r ≡ some room
  unfolding remove_session_from_current_room
  room_stays = ground (arith, Map.find-modify s.room_id r (drop_member k) rs.rooms)

  pub session_left : find_session (remove_session_from_current_room rs k) k ≡ some (set_room 0 s)
  session_left = ground (arith, find_session-leave rs k k)

  -- After the move the room has one member more.
  pub room_entered :
      find_room (move_session_to_room (remove_session_from_current_room rs k) k r) r
      ≡ some (record room { members = k ∷ room.members })
  unfolding move_session_to_room Set.insert Set.contains
  room_entered = ground (
    arith,
    room_stays,
    session_left,
    Map.find-modify r r (insert_member k) (remove_session_from_current_room rs k).rooms,
    new_member,
  )
    where
      new_member : Set.contains k room.members ≡ false
      new_member = elim (Bool-cases (Set.contains k room.members)) [
        | inr out ↦ out
        | inl within ↦ absurd (ground (arith, c.located r k))
      ]

  -- Nobody that is found there has left it or come to it.
  pub leave-room_of :
      (j : ℕ)
      → (room_of (remove_session_from_current_room rs k) j ≡ some r) ↔ (room_of rs j ≡ some r)
  leave-room_of j = ground (arith, find_session-leave rs k j, (c.rooms_keyed r room there).1)
