-- ===== src/Rooms/Members.antt =====
-- `GetRoomMembers` of NightServer/RoomSystem.cpp under agreeing tables.
use project_night.Prelude.{
  ℕ, ◌≡◌, refl, ◌≢◌, inl, inr, true, false, List, [], ◌∷◌, map, Option, none, some, arith,
  if◌then◌else◌, All, Option-cases, ◌&&◌, not, ◌↔◌, subst, sym,
}
use project_night.Prelude.Set
use project_night.Rooms.{
  SessionState, RoomState, RoomSystem, find_session, find_room, is_excluded, collect,
  get_room_members,
}
use project_night.Rooms.Lookup.{room_of, is_member}
use project_night.Rooms.Consistency.{IsConsistent}

abbrev pub ids : List SessionState → List ℕ
ids = map (λ s. s.session_id)

-- The member set of a room, in its order of iteration; none where there is no such room.
abbrev pub member_list : Option RoomState → List ℕ
member_list none = []
member_list (some room) = room.members

-- A list of ids without the excluded one.
abbrev pub without : Option ℕ → List ℕ → List ℕ
without ex [] = []
without ex (k ∷ ks) = if is_excluded ex k then without ex ks else k ∷ without ex ks

-- Each is the session that the table has under its own id, and is in the room.
abbrev pub AreIn : RoomSystem → ℕ → List SessionState → Type 0
AreIn rs r = All (λ s. (find_session rs s.session_id ≡ some s) × (s.room_id ≡ r))

-- The ids of a list are in the room.
abbrev Belong : RoomSystem → ℕ → List ℕ → Type 0
Belong rs r = All (λ k. room_of rs k ≡ some r)

collect_lem :
    (rs : RoomSystem) (r : ℕ) (ex : Option ℕ) (ks : List ℕ)
    → IsConsistent rs
    → Belong rs r ks
    → (ids (collect rs ex ks) ≡ without ex ks) × AreIn rs r (collect rs ex ks)
unfolding collect
collect_lem rs r ex [] c b = (refl, tt)
collect_lem rs r ex (k ∷ ks) c b = elim (Option-cases (find_session rs k)) [
  | inl missing ↦ ground arith
  | inr (s, found) ↦
      let later = collect_lem rs r ex ks c b.1 in let own = c.keyed k s found in ground arith
]

Belong-of :
    (rs : RoomSystem) (r : ℕ) (ks : List ℕ)
    → ((j : ℕ) → Set.contains j ks ≡ true → room_of rs j ≡ some r)
    → Belong rs r ks
unfolding Set.contains
Belong-of rs r [] h = tt
Belong-of rs r (k ∷ ks) h = (h k (ground arith), Belong-of rs r ks (λ j e. h j (ground arith)))

-- Under agreeing tables `GetRoomMembers` returns the states of all members of the room but the
-- excluded one, each once, in the order of the member set: none is skipped for want of a session.
pub get_room_members_lem :
    (rs : RoomSystem) (r : ℕ) (ex : Option ℕ)
    → IsConsistent rs
    → (ids (get_room_members rs r ex) ≡ without ex (member_list (find_room rs r)))
      × AreIn rs r (get_room_members rs r ex)
unfolding get_room_members
get_room_members_lem rs r ex c = elim (Option-cases (find_room rs r)) [
  | inl missing ↦ rw (missing, get_room_members) (refl, tt)
  | inr (room, found) ↦
      rw (found, get_room_members)
        (collect_lem rs r ex room.members c
          (Belong-of rs r room.members (λ j e. c.located r j (ground arith))))
]

contains-without :
    (ex : Option ℕ) (j : ℕ) (ks : List ℕ)
    → Set.contains j (without ex ks) ≡ (Set.contains j ks && not (is_excluded ex j))
unfolding Set.contains
contains-without none j [] = refl
contains-without (some x) j [] = ground arith
contains-without none j (k ∷ ks) = ground (arith, contains-without none j ks)
contains-without (some x) j (k ∷ ks) = ground (arith, contains-without (some x) j ks)

without-IsUnique : (ex : Option ℕ) (ks : List ℕ) → Set.IsUnique ks → Set.IsUnique (without ex ks)
without-IsUnique ex [] u = tt
without-IsUnique ex (k ∷ ks) u =
    ground (arith, without-IsUnique ex ks u.1, contains-without ex k ks)

member_list-IsUnique :
    (rs : RoomSystem) (r : ℕ) → IsConsistent rs → Set.IsUnique (member_list (find_room rs r))
member_list-IsUnique rs r c = elim (Option-cases (find_room rs r)) [
  | inl missing ↦ rw missing tt
  | inr (room, found) ↦ rw found (c.rooms_keyed r room found).2
]

contains-member_list :
    (rs : RoomSystem) (r j : ℕ) → Set.contains j (member_list (find_room rs r)) ≡ is_member rs r j
unfolding Set.contains
contains-member_list rs r j = ground arith

-- The sessions of a room but the excluded one, each once.
pub record Recipients (rs : RoomSystem) (r : ℕ) (ex : Option ℕ) (members : List ℕ) : Type 0 where
  pub once : Set.IsUnique members
  pub just :
      (j : ℕ)
      → (Set.contains j members ≡ true) ↔ ((room_of rs j ≡ some r) × (is_excluded ex j ≡ false))

-- Under agreeing tables `GetRoomMembers` of a room other than 0 returns each session that is in the
-- room, but the excluded one, once, and no other.
pub get_room_members-Recipients :
    (rs : RoomSystem) (r : ℕ) (ex : Option ℕ)
    → IsConsistent rs
    → r ≢ 0
    → Recipients rs r ex (ids (get_room_members rs r ex))
get_room_members-Recipients rs r ex c n =
    subst (Recipients rs r ex) (sym (get_room_members_lem rs r ex c).0) (record {
      once = without-IsUnique ex _ (member_list-IsUnique rs r c);
      just = λ j. (
        λ h. ground (
          arith,
          contains-without ex j (member_list (find_room rs r)),
          contains-member_list rs r j,
          c.located r j,
        ),
        λ h. ground (
          arith,
          contains-without ex j (member_list (find_room rs r)),
          contains-member_list rs r j,
          c.present r j n h.0,
        ),
      );
    })
