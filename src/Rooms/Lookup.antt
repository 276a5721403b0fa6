-- ===== src/Rooms/Lookup.antt =====
-- What the finders of NightServer/RoomSystem.cpp return after each operation, as equations over any
-- key: a specification of the session table that forgets how it is stored.
use project_night.Prelude.{
  ℕ, ◌≡◌, refl, Bool, true, false, not, ◌&&◌, Option, none, some, inl, inr, arith, ◌==◌,
  if◌then◌else◌, Option-cases,
}
use project_night.Prelude.Map
use project_night.Prelude.Map.{Map, map_some}
use project_night.Prelude.Set
use project_night.Wire.{Bytes}
use project_night.Rooms.{
  RoomState, RoomSystem, find_session, find_room, new_session, set_room, log_in, enter_room,
  drop_member, insert_member, add_session, remove_session_from_current_room, remove_session,
  move_session_to_room, set_logged_in,
}

-- The room in which a session is, 0 for none.
abbrev pub room_of : RoomSystem → ℕ → Option ℕ
room_of rs session_id = map_some (λ s. s.room_id) (find_session rs session_id)

abbrev members_have : ℕ → Option RoomState → Bool
members_have session_id none = false
members_have session_id (some room) = Set.contains session_id room.members

-- Whether a room's member set has a session.
abbrev pub is_member : RoomSystem → ℕ → ℕ → Bool
is_member rs room_id session_id = members_have session_id (find_room rs room_id)

abbrev exists : Option RoomState → Bool
exists none = false
exists (some room) = true

abbrev pub has_room : RoomSystem → ℕ → Bool
has_room rs room_id = exists (find_room rs room_id)

module _ (rooms : Map RoomState) (q r k j : ℕ) where
  members-drop :
      members_have j (Map.find r (Map.modify q (drop_member k) rooms))
      ≡ (if q == r && k == j then false else members_have j (Map.find r rooms))
  members-drop = elim (Option-cases (Map.find r rooms)) [
    | inl e ↦ ground (arith, Map.find-modify q r (drop_member k) rooms)
    | inr (room, e) ↦
        ground
          (arith, Map.find-modify q r (drop_member k) rooms, Set.contains-erase k j room.members)
  ]

  members-insert : members_have j (Map.find r (Map.modify q (insert_member k) rooms)) ≡ (
      if exists (Map.find r rooms) && q == r && k == j
      then true
      else members_have j (Map.find r rooms))
  members-insert = elim (Option-cases (Map.find r rooms)) [
    | inl e ↦ ground (arith, Map.find-modify q r (insert_member k) rooms)
    | inr (room, e) ↦
        ground
          (arith, Map.find-modify q r (insert_member k) rooms, Set.contains-insert k j room.members)
  ]

module _ (rs : RoomSystem) (k j : ℕ) where
  pub find_session-add_session : find_session (add_session rs k) j ≡ elim (find_session rs j) [
    | none ↦ if k == j then some (new_session k) else none
    | some s ↦ some s
  ]
  unfolding add_session Map.try_emplace
  find_session-add_session = ground (arith, Map.find-append k j (new_session k) rs.sessions)

  pub find_session-leave :
      find_session (remove_session_from_current_room rs k) j
      ≡ (if k == j then map_some (set_room 0) (find_session rs j) else find_session rs j)
  unfolding remove_session_from_current_room
  find_session-leave = ground (arith, Map.find-modify k j (set_room 0) rs.sessions)

  pub find_session-remove_session :
      find_session (remove_session rs k) j ≡ (if k == j then none else find_session rs j)
  unfolding remove_session
  find_session-remove_session = ground (
    arith,
    Map.find-erase k j (remove_session_from_current_room rs k).sessions,
    find_session-leave,
  )

  pub find_session-set_logged_in :
      (name : Bytes)
      → find_session (set_logged_in rs k name) j
        ≡ (if k == j then map_some (log_in name) (find_session rs j) else find_session rs j)
  unfolding set_logged_in
  find_session-set_logged_in name = ground (arith, Map.find-modify k j (log_in name) rs.sessions)

  pub find_session-enter_room :
      (r : ℕ)
      → find_session (enter_room rs k r) j
        ≡ (if k == j then map_some (set_room r) (find_session rs j) else find_session rs j)
  find_session-enter_room r = Map.find-modify k j (set_room r) rs.sessions

  -- Moving works only into a room that exists, and replaces whatever room the session was in.
  pub find_session-move :
      (r : ℕ)
      → find_session (move_session_to_room rs k r) j ≡ (
          if has_room rs r && k == j
          then map_some (set_room r) (find_session rs j)
          else find_session rs j)
  unfolding move_session_to_room
  find_session-move r = elim (Option-cases (find_session rs k)) [
    | inl e ↦ rw (e, move_session_to_room) (ground arith)
    | inr (s, e) ↦ elim (Option-cases (find_room rs r)) [
      | inl e' ↦ rw (e, move_session_to_room, e') (ground arith)
      | inr (room, e') ↦
          rw (e, move_session_to_room, e')
            (ground (
              arith,
              Map.find-modify k j (set_room r) rs.sessions,
              Map.find-modify k j (set_room r) (remove_session_from_current_room rs k).sessions,
              find_session-leave,
            ))
    ]
  ]

module _ (rs : RoomSystem) (k r j : ℕ) where
  pub is_member-leave :
      is_member (remove_session_from_current_room rs k) r j ≡ elim (find_session rs k) [
        | none ↦ is_member rs r j
        | some s ↦
            if not (s.room_id == 0) && s.room_id == r && k == j then false else is_member rs r j
      ]
  unfolding remove_session_from_current_room
  is_member-leave = elim (Option-cases (find_session rs k)) [
    | inl e ↦ ground arith
    | inr (s, e) ↦ ground (arith, members-drop rs.rooms s.room_id r k j)
  ]

  pub is_member-enter_room :
      (q : ℕ)
      → is_member (enter_room rs k r) q j
        ≡ (if has_room rs r && r == q && k == j then true else is_member rs q j)
  is_member-enter_room q = ground (arith, members-insert rs.rooms r q k j)

-- No operation makes or removes a room.
exists-modify :
    (rooms : Map RoomState) (q r : ℕ) (f : RoomState → RoomState)
    → exists (Map.find r (Map.modify q f rooms)) ≡ exists (Map.find r rooms)
exists-modify rooms q r f = ground (arith, Map.find-modify q r f rooms)

module _ (rs : RoomSystem) (k r : ℕ) where
  pub has_room-leave : has_room (remove_session_from_current_room rs k) r ≡ has_room rs r
  unfolding remove_session_from_current_room
  has_room-leave = elim (Option-cases (find_session rs k)) [
    | inl e ↦ ground arith
    | inr (s, e) ↦ ground (arith, exists-modify rs.rooms s.room_id r (drop_member k))
  ]

  pub has_room-move : (q : ℕ) → has_room (move_session_to_room rs k q) r ≡ has_room rs r
  unfolding move_session_to_room
  has_room-move q = elim (Option-cases (find_session rs k)) [
    | inl e ↦ rw (e, move_session_to_room) refl
    | inr (s, e) ↦ elim (Option-cases (find_room rs q)) [
      | inl e' ↦ rw (e, move_session_to_room, e') refl
      | inr (room, e') ↦
          rw (e, move_session_to_room, e')
            (ground (
              arith,
              exists-modify rs.rooms q r (insert_member k),
              exists-modify (remove_session_from_current_room rs k).rooms q r (insert_member k),
              has_room-leave,
            ))
    ]
  ]
