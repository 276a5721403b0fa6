-- ===== src/Rooms/Consistency/Run.antt =====
-- NightServer/RoomSystem.cpp against a directory: one function from session ids to sessions, with no
-- member sets. Any sequence of public calls that write leaves the two tables in the state of the
-- directory, and a room's members are the sessions that the directory places in it.
use project_night.Prelude.{
  ℕ, ◌≡◌, refl, ◌∙◌, ap, ◌≢◌, Bool, false, ◌&&◌, ◌||◌, List, [], ◌∷◌, Option, none, some, arith,
  ◌==◌, if◌then◌else◌, fun_ext,
}
use project_night.Prelude.Map
use project_night.Prelude.Map.{map_some}
use project_night.Prelude.Set
use project_night.Wire.{Bytes}
use project_night.Rooms.{
  SessionState, RoomSystem, room_system, find_session, new_session, set_room, log_in, add_session,
  remove_session_from_current_room, remove_session, move_session_to_room, set_logged_in,
}
use project_night.Rooms.Lookup.{
  is_member, has_room, find_session-add_session, find_session-leave, find_session-remove_session,
  find_session-move, find_session-set_logged_in, has_room-leave, has_room-move,
}
use project_night.Rooms.Consistency.{IsConsistent, set_logged_in-rooms}
use project_night.Rooms.Consistency.Steps.{
  add_session-IsConsistent, leave-IsConsistent, remove_session-IsConsistent,
  move_session-IsConsistent, set_logged_in-IsConsistent,
}

-- The public calls that write.
pub data Call : Type 0 where
  add remove leave : ℕ → Call
  move : ℕ → ℕ → Call
  login : ℕ → Bytes → Call

unfoldable pub apply : RoomSystem → Call → RoomSystem
apply rs (add k) = add_session rs k
apply rs (remove k) = remove_session rs k
apply rs (leave k) = remove_session_from_current_room rs k
apply rs (move k r) = move_session_to_room rs k r
apply rs (login k name) = set_logged_in rs k name

unfoldable pub run : RoomSystem → List Call → RoomSystem
unfolding apply
run rs [] = rs
run rs (c ∷ cs) = run (apply rs c) cs

abbrev pub Directory : Type 0
Directory = ℕ → Option SessionState

-- One call on the directory, where `open_rooms` says which rooms there are.
abbrev pub direct : (ℕ → Bool) → Directory → Call → Directory
direct open_rooms d (add k) j = elim (d j) [
  | none ↦ if k == j then some (new_session k) else none
  | some s ↦ some s
]
direct open_rooms d (remove k) j = if k == j then none else d j
direct open_rooms d (leave k) j = if k == j then map_some (set_room 0) (d j) else d j
direct open_rooms d (move k r) j =
    if open_rooms r && k == j then map_some (set_room r) (d j) else d j
direct open_rooms d (login k name) j = if k == j then map_some (log_in name) (d j) else d j

abbrev pub direct_run : (ℕ → Bool) → Directory → List Call → Directory
direct_run open_rooms d [] = d
direct_run open_rooms d (c ∷ cs) = direct_run open_rooms (direct open_rooms d c) cs

apply-direct :
    (rs : RoomSystem) (c : Call) (j : ℕ)
    → find_session (apply rs c) j ≡ direct (has_room rs) (find_session rs) c j
unfolding apply
apply-direct rs (add k) j = find_session-add_session rs k j
apply-direct rs (remove k) j = find_session-remove_session rs k j
apply-direct rs (leave k) j = find_session-leave rs k j
apply-direct rs (move k r) j = find_session-move rs k j r
apply-direct rs (login k name) j = find_session-set_logged_in rs k j name

apply-has_room : (rs : RoomSystem) (c : Call) (r : ℕ) → has_room (apply rs c) r ≡ has_room rs r
unfolding apply add_session remove_session
apply-has_room rs (add k) r = refl
apply-has_room rs (remove k) r = has_room-leave rs k r
apply-has_room rs (leave k) r = has_room-leave rs k r
apply-has_room rs (move k q) r = has_room-move rs k r q
apply-has_room rs (login k name) r = rw (set_logged_in-rooms rs k name) refl

pub run-direct :
    (rs : RoomSystem) (cs : List Call)
    → find_session (run rs cs) ≡ direct_run (has_room rs) (find_session rs) cs
unfolding run
run-direct rs [] = refl
run-direct rs (c ∷ cs) =
    let rs' = apply rs c in
    run-direct rs' cs
    ∙ ap (λ (rooms : ℕ → Bool). direct_run rooms (find_session rs') cs)
        (fun_ext (apply-has_room rs c))
    ∙ ap (λ (d : Directory). direct_run (has_room rs) d cs) (fun_ext (apply-direct rs c))

apply-IsConsistent : (rs : RoomSystem) (c : Call) → IsConsistent rs → IsConsistent (apply rs c)
unfolding apply
apply-IsConsistent rs (add k) v = add_session-IsConsistent rs k v
apply-IsConsistent rs (remove k) v = remove_session-IsConsistent rs k v
apply-IsConsistent rs (leave k) v = leave-IsConsistent rs k v
apply-IsConsistent rs (move k r) v = move_session-IsConsistent rs k r v
apply-IsConsistent rs (login k name) v = set_logged_in-IsConsistent rs k name v

-- Any sequence of calls keeps the tables in agreement.
pub run-IsConsistent :
    (rs : RoomSystem) (cs : List Call) → IsConsistent rs → IsConsistent (run rs cs)
unfolding run
run-IsConsistent rs [] v = v
run-IsConsistent rs (c ∷ cs) v = run-IsConsistent (apply rs c) cs (apply-IsConsistent rs c v)

pub room_system-IsConsistent : IsConsistent room_system
unfolding room_system Map.find Set.contains
room_system-IsConsistent = record {
  located = λ r j h. ground arith;
  present = λ r j n h. ground arith;
  keyed = λ j s h. ground arith;
  rooms_keyed = λ r room h. ground arith;
  distinct = tt;
}

-- The rooms that the constructor makes.
abbrev pub opened : ℕ → Bool
opened r = r == 1001 || (r == 1002 || r == 1003)

abbrev pub places : Option SessionState → ℕ → Bool
places none r = false
places (some s) r = s.room_id == r

has_room-opened : (r : ℕ) → has_room room_system r ≡ opened r
unfolding room_system Map.find
has_room-opened r = ground arith

no_sessions : find_session room_system ≡ (λ _. none)
unfolding room_system Map.find
no_sessions = refl

is_member-places :
    (rs : RoomSystem) (r j : ℕ)
    → IsConsistent rs
    → r ≢ 0
    → is_member rs r j ≡ places (find_session rs j) r
is_member-places rs r j c n = ground (arith, c.located r j, c.present r j n)

-- From the constructor's state, any sequence of calls makes `FindSession` answer as the directory
-- does, and puts into each room's member set just the sessions that the directory places there.
pub run-refines :
    (cs : List Call) (r j : ℕ)
    → r ≢ 0
    → (find_session (run room_system cs) j ≡ direct_run opened (λ _. none) cs j)
      × (is_member (run room_system cs) r j ≡ places (direct_run opened (λ _. none) cs j) r)
run-refines cs r j n = (
  same,
  is_member-places _ r j (run-IsConsistent room_system cs room_system-IsConsistent) n
      ∙ ap (λ (o : Option SessionState). places o r) same,
)
  where
    start :
        direct_run (has_room room_system) (find_session room_system) cs
        ≡ direct_run opened (λ _. none) cs
    start =
        ap (λ (rooms : ℕ → Bool). direct_run rooms (find_session room_system) cs)
          (fun_ext has_room-opened)
        ∙ ap (λ (d : Directory). direct_run opened d cs) no_sessions

    same : find_session (run room_system cs) j ≡ direct_run opened (λ _. none) cs j
    same = ap (λ (d : Directory). d j) (run-direct room_system cs ∙ start)
