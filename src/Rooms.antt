-- ===== src/Rooms.antt =====
-- NightServer/RoomSystem.h, RoomSystem.cpp, and the state structs of ServerTypes.h: who is connected,
-- and who is in which room. The two unordered maps are association lists; a write through a pointer
-- that a `Find` returned is a `modify` at its key.
pub mod Lookup
pub mod Consistency
pub mod Names
pub mod Transfer
pub mod Members
use project_night.Prelude.{
  ℕ, Bool, true, false, not, ◌&&◌, List, [], ◌∷◌, ◌++◌, Option, none, some, ◌==◌, if◌then◌else◌,
  same_bytes,
}
use project_night.Prelude.Map
use project_night.Prelude.Map.{Map}
use project_night.Prelude.Set
use project_night.Prelude.Text.{utf8}
use project_night.Wire.{Bytes}

abbrev pub no_room_id : ℕ
no_room_id = 0

pub record SessionState : Type 0 where
  pub session_id : ℕ
  pub user_id : ℕ
  pub display_name : Bytes
  pub room_id : ℕ
  pub logged_in : Bool

pub record RoomState : Type 0 where
  pub room_id : ℕ
  pub room_name : Bytes
  pub members : List ℕ

pub record RoomSystem : Type 0 where
  pub sessions : Map SessionState
  pub rooms : Map RoomState

empty_room : ℕ → Bytes → RoomState
empty_room id name = record { room_id = id; room_name = name; members = [] }

-- The constructor.
unfoldable pub room_system : RoomSystem
unfolding empty_room Map.try_emplace utf8
room_system = record {
  sessions = [];
  rooms = Map.try_emplace 1003 (empty_room 1003 (utf8 "Chat")) (
      Map.try_emplace 1002 (empty_room 1002 (utf8 "Dev"))
        (Map.try_emplace 1001 (empty_room 1001 (utf8 "Lobby")) []));
}

abbrev pub find_session : RoomSystem → ℕ → Option SessionState
find_session rs session_id = Map.find session_id rs.sessions

abbrev pub find_room : RoomSystem → ℕ → Option RoomState
find_room rs room_id = Map.find room_id rs.rooms

abbrev pub new_session : ℕ → SessionState
new_session session_id = record {
  session_id = session_id;
  user_id = session_id;
  display_name = [];
  room_id = no_room_id;
  logged_in = false;
}

unfoldable pub add_session : RoomSystem → ℕ → RoomSystem
add_session rs session_id = record rs {
  sessions = Map.try_emplace session_id (new_session session_id) rs.sessions;
}

abbrev pub drop_member : ℕ → RoomState → RoomState
drop_member session_id room = record room { members = Set.erase session_id room.members }

abbrev pub insert_member : ℕ → RoomState → RoomState
insert_member session_id room = record room { members = Set.insert session_id room.members }

abbrev pub set_room : ℕ → SessionState → SessionState
set_room room_id session = record session { room_id = room_id }

unfoldable pub remove_session_from_current_room : RoomSystem → ℕ → RoomSystem
remove_session_from_current_room rs session_id = elim (find_session rs session_id) [
  | none ↦ rs
  | some session ↦ if session.room_id == no_room_id then rs else record {
    sessions = Map.modify session_id (set_room no_room_id) rs.sessions;
    rooms = elim (find_room rs session.room_id) [
      | none ↦ rs.rooms
      | some _ ↦ Map.modify session.room_id (drop_member session_id) rs.rooms
    ];
  }
]

unfoldable pub remove_session : RoomSystem → ℕ → RoomSystem
unfolding remove_session_from_current_room
remove_session rs session_id =
    let rs' = remove_session_from_current_room rs session_id in
    record rs' { sessions = Map.erase session_id rs'.sessions }

-- The last two statements of `MoveSessionToRoom`.
abbrev pub enter_room : RoomSystem → ℕ → ℕ → RoomSystem
enter_room rs session_id room_id = record {
  sessions = Map.modify session_id (set_room room_id) rs.sessions;
  rooms = Map.modify room_id (insert_member session_id) rs.rooms;
}

unfoldable pub move_session_to_room : RoomSystem → ℕ → ℕ → RoomSystem
unfolding remove_session_from_current_room
move_session_to_room rs session_id room_id = elim (find_session rs session_id) [
  | none ↦ rs
  | some session ↦ elim (find_room rs room_id) [
    | none ↦ rs
    | some _ ↦
        enter_room
          (if not (session.room_id == no_room_id) && not (session.room_id == room_id)
            then remove_session_from_current_room rs session_id
            else rs)
          session_id room_id
  ]
]

abbrev pub log_in : Bytes → SessionState → SessionState
log_in display_name session = record session { logged_in = true; display_name = display_name }

unfoldable pub set_logged_in : RoomSystem → ℕ → Bytes → RoomSystem
set_logged_in rs session_id display_name = elim (find_session rs session_id) [
  | none ↦ rs
  | some _ ↦ record rs { sessions = Map.modify session_id (log_in display_name) rs.sessions }
]

-- The loop of `IsDisplayNameTaken`.
unfoldable pub taken_in : Map SessionState → Bytes → ℕ → Bool
taken_in [] display_name except_session_id = false
taken_in ((session_id, session) ∷ rest) display_name except_session_id =
    let later = taken_in rest display_name except_session_id in
    if session_id == except_session_id
    then later
    else if session.logged_in && same_bytes session.display_name display_name
    then true
    else later

unfoldable pub is_display_name_taken : RoomSystem → Bytes → ℕ → Bool
unfolding taken_in
is_display_name_taken rs display_name except_session_id =
    taken_in rs.sessions display_name except_session_id

abbrev pub is_excluded : Option ℕ → ℕ → Bool
is_excluded none member = false
is_excluded (some exclude) member = exclude == member

-- The loop of `GetRoomMembers`.
unfoldable pub collect : RoomSystem → Option ℕ → List ℕ → List SessionState
collect rs exclude [] = []
collect rs exclude (member_session_id ∷ rest) =
    let later = collect rs exclude rest in
    if is_excluded exclude member_session_id
    then later
    else elim (find_session rs member_session_id) [ none ↦ later | some member ↦ member ∷ later ]

unfoldable pub get_room_members : RoomSystem → ℕ → Option ℕ → List SessionState
unfolding collect
get_room_members rs room_id exclude_session_id = elim (find_room rs room_id) [
  | none ↦ []
  | some room ↦ collect rs exclude_session_id room.members
]
