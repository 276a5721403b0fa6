-- ===== src/Logic/Effect/Leaving.antt =====
-- The notification of a room that a session leaves (`NotifyRoomLeave` of
-- NightServer/GameLogicSystem.cpp) goes to sessions of that room.
use project_night.Prelude.{
  ℕ, ◌≡◌, ◌≢◌, inl, inr, not, ◌||◌, Option, none, some, arith, ap, ◌∙◌, All, All-mono, Bool-cases,
  ◌==◌,
}
use project_night.Rooms.{SessionState, RoomSystem, find_session, get_room_members}
use project_night.Rooms.Lookup.{room_of}
use project_night.Rooms.Consistency.{IsConsistent}
use project_night.Rooms.Members.{get_room_members_lem}
use project_night.Logic.{Env, GameLogic}
use project_night.Logic.Handlers.{notify_room_leave, notify_if_found}
use project_night.Logic.Sends.{Sends, Sends-nothing, queue_left_events-Sends}
use project_night.Logic.Effect.{Together}

room_of_found :
    (rs : RoomSystem) (k : ℕ) (s : SessionState)
    → find_session rs k ≡ some s
    → room_of rs k ≡ some s.room_id
room_of_found rs k s e = ground arith

module _ (rs : RoomSystem) (c : IsConsistent rs) where
  -- The members of a room have it as theirs.
  pub members-room_of :
      (r : ℕ) (ex : Option ℕ)
      → All (λ m. room_of rs m.session_id ≡ some r) (get_room_members rs r ex)
  members-room_of r ex =
      All-mono _ _ (get_room_members rs r ex)
        (λ m h. room_of_found rs m.session_id m h.0 ∙ ap some h.1)
        (get_room_members_lem rs r ex c).1

  pub members-Together :
      (k : ℕ) (s : SessionState) (ex : Option ℕ)
      → find_session rs k ≡ some s
      → s.room_id ≢ 0
      → All (λ m. Together rs k m.session_id) (get_room_members rs s.room_id ex)
  members-Together k s ex e n =
      All-mono _ _ (get_room_members rs s.room_id ex)
        (λ m h. (s.room_id, n, room_of_found rs k s e, h)) (members-room_of s.room_id ex)

module _ (env : Env) (g : GameLogic) (c : IsConsistent g.rooms) (k : ℕ) (Q : ℕ → Type 0) where
  pub notify_room_leave-Sends :
      (s : SessionState)
      → find_session g.rooms k ≡ some s
      → ((j : ℕ) → Together g.rooms k j → Q j)
      → Sends Q g (notify_room_leave env g s)
  unfolding notify_room_leave
  notify_room_leave-Sends s e q = elim (Bool-cases (s.room_id == 0 || not s.logged_in)) [
    | inl quiet ↦ rw quiet (Sends-nothing Q g)
    | inr loud ↦ rw loud (
        queue_left_events-Sends Q env g s _ (
          All-mono _ _ (get_room_members g.rooms s.room_id (some s.session_id))
            (λ m t. q m.session_id t)
            (members-Together g.rooms c k s (some s.session_id) e (ground arith))))
  ]

  pub notify_if_found-Sends :
      (o : Option SessionState)
      → find_session g.rooms k ≡ o
      → ((j : ℕ) → Together g.rooms k j → Q j)
      → Sends Q g (notify_if_found env g o)
  notify_if_found-Sends none e q = Sends-nothing Q g
  notify_if_found-Sends (some s) e q = notify_room_leave-Sends s e q
