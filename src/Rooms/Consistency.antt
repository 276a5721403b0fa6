-- ===== src/Rooms/Consistency.antt =====
-- What it means that the two tables of NightServer/RoomSystem.cpp agree.
pub mod Steps
pub mod Run
use project_night.Prelude.{
  ℕ, ◌≡◌, refl, sym, ◌∙◌, ap, ◌≢◌, ◌⊎◌, inl, inr, Bool, true, false, List, [], ◌∷◌, Option, none,
  some, arith, ◌==◌, if◌then◌else◌, Option-cases, Bool-cases,
}
use project_night.Prelude.Map
use project_night.Prelude.Map.{Map, map_some}
use project_night.Prelude.Set
use project_night.Wire.{Bytes}
use project_night.Rooms.{
  SessionState, RoomState, RoomSystem, room_system, find_session, find_room, new_session, set_room,
  log_in, enter_room, drop_member, insert_member, add_session, remove_session_from_current_room,
  remove_session, move_session_to_room, set_logged_in,
}
use project_night.Rooms.Lookup.{
  room_of, is_member, has_room, find_session-add_session, find_session-leave,
  find_session-remove_session, find_session-enter_room, find_session-move,
  find_session-set_logged_in, is_member-leave, is_member-enter_room,
}

-- A room stands under its own id, which is not 0, and lists no session twice.
abbrev pub AreRooms : Map RoomState → Type 0
AreRooms rooms =
    (r : ℕ) (room : RoomState)
    → Map.find r rooms ≡ some room
    → (room.room_id ≡ r) × (r ≢ 0) × Set.IsUnique room.members

pub record IsConsistent (rs : RoomSystem) : Type 0 where
  -- Whoever is in a room's member set has that room as its own,
  pub located : (r j : ℕ) → is_member rs r j ≡ true → room_of rs j ≡ some r
  -- and whoever has a room is in its member set.
  pub present : (r j : ℕ) → r ≢ 0 → room_of rs j ≡ some r → is_member rs r j ≡ true
  pub keyed :
      (j : ℕ) (s : SessionState) → find_session rs j ≡ some s → (s.session_id ≡ j) × (s.user_id ≡ j)
  pub rooms_keyed : AreRooms rs.rooms
  pub distinct : Map.IsDistinct rs.sessions

modify-AreRooms :
    (q : ℕ) (f : RoomState → RoomState) (rooms : Map RoomState)
    → ((room : RoomState)
        → Set.IsUnique room.members
        → ((f room).room_id ≡ room.room_id) × Set.IsUnique (f room).members)
    → AreRooms rooms
    → AreRooms (Map.modify q f rooms)
modify-AreRooms q f rooms keep all r room e = elim (Option-cases (Map.find r rooms)) [
  | inl missing ↦ ground (arith, Map.find-modify q r f rooms)
  | inr (old, found) ↦
      ground (arith, Map.find-modify q r f rooms, all r old found, keep old (all r old found).2)
]

pub drop-AreRooms :
    (q k : ℕ) (rooms : Map RoomState)
    → AreRooms rooms
    → AreRooms (Map.modify q (drop_member k) rooms)
drop-AreRooms q k rooms all =
    modify-AreRooms q (drop_member k) rooms (λ room u. (refl, Set.erase-IsUnique k room.members u))
      all

pub insert-AreRooms :
    (q k : ℕ) (rooms : Map RoomState)
    → AreRooms rooms
    → AreRooms (Map.modify q (insert_member k) rooms)
insert-AreRooms q k rooms all =
    modify-AreRooms q (insert_member k) rooms
      (λ room u. (refl, Set.insert-IsUnique k room.members u)) all

-- The case of `keyed` that a table gives at one key.
pub keyed_before :
    (rs : RoomSystem) (j : ℕ)
    → IsConsistent rs
    → (find_session rs j ≡ none)
      ⊎ ((s : SessionState) × (find_session rs j ≡ some s) × (s.session_id ≡ j) × (s.user_id ≡ j))
keyed_before rs j c = elim (Option-cases (find_session rs j)) [
  | inl e ↦ inl e
  | inr (s, e) ↦ inr (s, e, (c.keyed j s e).0, (c.keyed j s e).1)
]

pub set_logged_in-rooms :
    (rs : RoomSystem) (k : ℕ) (name : Bytes) → (set_logged_in rs k name).rooms ≡ rs.rooms
unfolding set_logged_in
set_logged_in-rooms rs k name = ground arith

-- A room with a member is not room 0.
pub is_member-ne-zero :
    (rs : RoomSystem) (r j : ℕ) → AreRooms rs.rooms → is_member rs r j ≡ true → r ≢ 0
is_member-ne-zero rs r j all h = elim (Option-cases (find_room rs r)) [
  | inl missing ↦ ground arith
  | inr (room, found) ↦ (all r room found).1
]
