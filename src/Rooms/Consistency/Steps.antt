-- ===== src/Rooms/Consistency/Steps.antt =====
-- Each operation of NightServer/RoomSystem.cpp keeps its two tables in agreement.
use project_night.Prelude.{
  ℕ, ◌≡◌, ◌⊎◌, inl, inr, true, not, ◌&&◌, none, some, arith, ◌==◌, Option-cases, Bool-cases,
}
use project_night.Prelude.Map
use project_night.Prelude.Map.{Map, map_some}
use project_night.Wire.{Bytes}
use project_night.Rooms.{
  RoomSystem, find_session, find_room, new_session, set_room, log_in, enter_room, add_session,
  remove_session_from_current_room, remove_session, move_session_to_room, set_logged_in,
}
use project_night.Rooms.Lookup.{
  room_of, is_member, has_room, find_session-add_session, find_session-leave,
  find_session-enter_room, find_session-set_logged_in, is_member-leave, is_member-enter_room,
  has_room-leave,
}
use project_night.Rooms.Consistency.{
  AreRooms, IsConsistent, drop-AreRooms, insert-AreRooms, keyed_before, set_logged_in-rooms,
  is_member-ne-zero,
}

set_logged_in-IsDistinct :
    (rs : RoomSystem) (k : ℕ) (name : Bytes)
    → Map.IsDistinct rs.sessions
    → Map.IsDistinct (set_logged_in rs k name).sessions
unfolding set_logged_in
set_logged_in-IsDistinct rs k name d =
    ground (arith, Map.modify-IsDistinct k (log_in name) rs.sessions d)

leave-IsDistinct :
    (rs : RoomSystem) (k : ℕ)
    → Map.IsDistinct rs.sessions
    → Map.IsDistinct (remove_session_from_current_room rs k).sessions
unfolding remove_session_from_current_room
leave-IsDistinct rs k d = ground (arith, Map.modify-IsDistinct k (set_room 0) rs.sessions d)

pub add_session-IsConsistent :
    (rs : RoomSystem) (k : ℕ) → IsConsistent rs → IsConsistent (add_session rs k)
unfolding add_session
add_session-IsConsistent rs k c = record {
  located = λ r j h. ground (arith, c.located r j, find_session-add_session rs k j);
  present = λ r j n h. ground (arith, c.present r j, find_session-add_session rs k j);
  keyed = λ j s h. ground (arith, c.keyed j s, find_session-add_session rs k j);
  rooms_keyed = c.rooms_keyed;
  distinct = Map.try_emplace-IsDistinct k (new_session k) rs.sessions c.distinct;
}

pub set_logged_in-IsConsistent :
    (rs : RoomSystem) (k : ℕ) (name : Bytes)
    → IsConsistent rs
    → IsConsistent (set_logged_in rs k name)
set_logged_in-IsConsistent rs k name c = record {
  located =
      λ r j h. ground (arith, c.located r j, same r j, find_session-set_logged_in rs k j name);
  present =
      λ r j n h. ground (arith, c.present r j, same r j, find_session-set_logged_in rs k j name);
  keyed = λ j s h. ground (arith, keyed_before rs j c, find_session-set_logged_in rs k j name);
  rooms_keyed = rw (set_logged_in-rooms rs k name) c.rooms_keyed;
  distinct = set_logged_in-IsDistinct rs k name c.distinct;
}
  where
    same : (r j : ℕ) → is_member (set_logged_in rs k name) r j ≡ is_member rs r j
    same r j = rw (set_logged_in-rooms rs k name)

leave-AreRooms :
    (rs : RoomSystem) (k : ℕ)
    → AreRooms rs.rooms
    → AreRooms (remove_session_from_current_room rs k).rooms
unfolding remove_session_from_current_room
leave-AreRooms rs k all = elim (Option-cases (find_session rs k)) [
  | inl e ↦ rw (e, remove_session_from_current_room) all
  | inr (s, e) ↦ elim (Bool-cases (s.room_id == 0)) [
    | inl out ↦ rw (e, remove_session_from_current_room, out) all
    | inr within ↦ elim (Option-cases (find_room rs s.room_id)) [
      | inl gone ↦ rw (e, remove_session_from_current_room, within, gone) all
      | inr (room, found) ↦
          rw (e, remove_session_from_current_room, within, found)
            (drop-AreRooms s.room_id k rs.rooms all)
    ]
  ]
]

pub leave-IsConsistent :
    (rs : RoomSystem) (k : ℕ)
    → IsConsistent rs
    → IsConsistent (remove_session_from_current_room rs k)
leave-IsConsistent rs k c = record {
  located = λ r j h.
      ground (
        arith,
        c.located r j,
        c.rooms_keyed r,
        is_member-leave rs k r j,
        find_session-leave rs k j,
      );
  present =
      λ r j n h. ground (arith, c.present r j, is_member-leave rs k r j, find_session-leave rs k j);
  keyed = λ j s h. ground (arith, keyed_before rs j c, find_session-leave rs k j);
  rooms_keyed = leave-AreRooms rs k c.rooms_keyed;
  distinct = leave-IsDistinct rs k c.distinct;
}

-- A session in no room can be forgotten.
erase-IsConsistent :
    (rs : RoomSystem) (k : ℕ)
    → IsConsistent rs
    → (room_of rs k ≡ none) ⊎ (room_of rs k ≡ some 0)
    → IsConsistent (record rs { sessions = Map.erase k rs.sessions })
erase-IsConsistent rs k c out = record {
  located = λ r j h. ground (
    arith,
    c.located r j,
    is_member-ne-zero rs r j c.rooms_keyed h,
    Map.find-erase k j rs.sessions,
  );
  present = λ r j n h. ground (arith, c.present r j, Map.find-erase k j rs.sessions);
  keyed = λ j s h. ground (arith, keyed_before rs j c, Map.find-erase k j rs.sessions);
  rooms_keyed = c.rooms_keyed;
  distinct = Map.erase-IsDistinct k rs.sessions c.distinct;
}

pub remove_session-IsConsistent :
    (rs : RoomSystem) (k : ℕ) → IsConsistent rs → IsConsistent (remove_session rs k)
unfolding remove_session
remove_session-IsConsistent rs k c =
    erase-IsConsistent (remove_session_from_current_room rs k) k (leave-IsConsistent rs k c)
      (ground (arith, find_session-leave rs k k))

-- A session that is in no room, or in this one, can enter it.
enter_room-IsConsistent :
    (rs : RoomSystem) (k r : ℕ)
    → IsConsistent rs
    → has_room rs r ≡ true
    → (room_of rs k ≡ some 0) ⊎ (room_of rs k ≡ some r)
    → IsConsistent (enter_room rs k r)
enter_room-IsConsistent rs k r c there before = record {
  located = λ q j h. ground (
    arith,
    c.located q j,
    is_member-ne-zero rs q j c.rooms_keyed,
    is_member-enter_room rs k r j q,
    find_session-enter_room rs k j r,
  );
  present = λ q j n h.
      ground
        (arith, c.present q j, is_member-enter_room rs k r j q, find_session-enter_room rs k j r);
  keyed = λ j s h. ground (arith, keyed_before rs j c, find_session-enter_room rs k j r);
  rooms_keyed = insert-AreRooms r k rs.rooms c.rooms_keyed;
  distinct = Map.modify-IsDistinct k (set_room r) rs.sessions c.distinct;
}

pub move_session-IsConsistent :
    (rs : RoomSystem) (k r : ℕ) → IsConsistent rs → IsConsistent (move_session_to_room rs k r)
unfolding move_session_to_room
move_session-IsConsistent rs k r c = elim (Option-cases (find_session rs k)) [
  | inl e ↦ rw (e, move_session_to_room) c
  | inr (s, e) ↦ elim (Option-cases (find_room rs r)) [
    | inl gone ↦ rw (e, move_session_to_room, gone) c
    | inr (room, found) ↦
        rw (e, move_session_to_room, found)
          (elim (Bool-cases (not (s.room_id == 0) && not (s.room_id == r))) [
            | inl elsewhere ↦ rw elsewhere (
                enter_room-IsConsistent (remove_session_from_current_room rs k) k r
                  (leave-IsConsistent rs k c) (ground (arith, has_room-leave rs k r))
                  (ground (arith, find_session-leave rs k k)))
            | inr near ↦ rw near (enter_room-IsConsistent rs k r c (ground arith) (ground arith))
          ])
  ]
]
