-- ===== src/Logic/Inside.antt =====
-- Only logged-in sessions are in rooms (NightServer/GameLogicSystem.cpp admits no other).
use project_night.Prelude.{
  ℕ, ◌≡◌, refl, sym, ◌∙◌, ap, ◌≢◌, subst, inl, inr, Bool, true, List, [], ◌∷◌, some, arith, ◌==◌,
  Bool-cases, Option-cases,
}
use project_night.Rooms.{SessionState, RoomSystem, find_session}
use project_night.Rooms.Lookup.{has_room}
use project_night.Rooms.Consistency.{IsConsistent}
use project_night.Rooms.Consistency.Run.{
  add, remove, leave, move, login, run-IsConsistent, run-direct, Directory, direct, direct_run,
}
use project_night.Logic.{
  ServerEvent, session_connected, session_disconnected, invalid_packet, login_request,
  room_list_request, join_room_request, chat_send_request, leave_room_request, disconnect_request,
  Env, GameLogic,
}
use project_night.Logic.Handlers.{update}
use project_night.Logic.Effect.{accepts_login, accepts_join, calls}
use project_night.Logic.Effect.Events.{handle-Handled}

-- Whoever is in a room is logged in.
abbrev AreAdmitted : Directory → Type 0
AreAdmitted d = (j : ℕ) (s : SessionState) → d j ≡ some s → s.room_id ≢ 0 → s.logged_in ≡ true

-- Calls that are not moves, and a leave with a move of a logged-in session.
module _ (rooms : ℕ → Bool) (d : Directory) (u : AreAdmitted d) where
  add-AreAdmitted : (k : ℕ) → AreAdmitted (direct rooms d (add k))
  add-AreAdmitted k j s e n = ground (arith, u j s)

  remove-AreAdmitted : (k : ℕ) → AreAdmitted (direct rooms d (remove k))
  remove-AreAdmitted k j s e n = ground (arith, u j s)

  leave-AreAdmitted : (k : ℕ) → AreAdmitted (direct rooms d (leave k))
  leave-AreAdmitted k j s e n = ground (arith, u j s)

  login-AreAdmitted : (k : ℕ) (name : List ℕ) → AreAdmitted (direct rooms d (login k name))
  login-AreAdmitted k name j s e n = ground (arith, u j s)

  join-AreAdmitted :
      (k r : ℕ) (s : SessionState)
      → d k ≡ some s
      → s.logged_in ≡ true
      → AreAdmitted (direct_run rooms d (leave k ∷ move k r ∷ []))
  join-AreAdmitted k r s found on j t e n = elim (Bool-cases (k == j)) [
    | inl same ↦ ground arith
    | inr other ↦ ground (arith, u j t)
  ]

abbrev pub IsAdmitted : GameLogic → Type 0
IsAdmitted g = AreAdmitted (find_session g.rooms)

calls-AreAdmitted :
    (rs : RoomSystem) (e : ServerEvent)
    → AreAdmitted (find_session rs)
    → AreAdmitted (direct_run (has_room rs) (find_session rs) (calls rs e))
calls-AreAdmitted rs (session_connected k) u = add-AreAdmitted (has_room rs) _ u k
calls-AreAdmitted rs (session_disconnected k) u = remove-AreAdmitted (has_room rs) _ u k
calls-AreAdmitted rs (invalid_packet k message) u = u
calls-AreAdmitted rs (login_request k request_id name) u =
    elim (Bool-cases (accepts_login rs k name)) [
      | inl granted ↦ rw granted (login-AreAdmitted (has_room rs) (find_session rs) u k name)
      | inr refused ↦ rw refused u
    ]
calls-AreAdmitted rs (room_list_request k request_id) u = u
calls-AreAdmitted rs (join_room_request k request_id r) u =
    elim (Bool-cases (accepts_join rs k r)) [
      | inl granted ↦ elim (Option-cases (find_session rs k)) [
        | inl missing ↦ absurd (ground arith)
        | inr (s, found) ↦
            rw granted
              (join-AreAdmitted (has_room rs) (find_session rs) u k r s found (ground arith))
      ]
      | inr refused ↦ rw refused u
    ]
calls-AreAdmitted rs (chat_send_request k request_id content) u = u
calls-AreAdmitted rs (leave_room_request k request_id) u = leave-AreAdmitted (has_room rs) _ u k
calls-AreAdmitted rs (disconnect_request k request_id) u = remove-AreAdmitted (has_room rs) _ u k

module _ (env : Env) where
  handle-IsAdmitted :
      (g : GameLogic) (e : ServerEvent) (c : IsConsistent g.rooms)
      → IsAdmitted g
      → IsAdmitted (handle-Handled env g e c).next
  handle-IsAdmitted g e c u =
      subst AreAdmitted
        (sym (
          ap (λ (rs : RoomSystem). find_session rs) (handle-Handled env g e c).rooms
          ∙ run-direct g.rooms (calls g.rooms e)))
        (calls-AreAdmitted g.rooms e u)

  -- From a consistent room system in which whoever is in a room is logged in, `Update` handles any
  -- list of events to the end, and again whoever is in a room is logged in.
  pub update-IsAdmitted :
      (g : GameLogic) (events : List ServerEvent)
      → IsConsistent g.rooms
      → IsAdmitted g
      → (h : GameLogic) × (update env g events ≡ some h) × IsAdmitted h
  unfolding update
  update-IsAdmitted g [] c u = (g, refl, u)
  update-IsAdmitted g (e ∷ events) c u =
      let one = handle-Handled env g e c in
      let rest =
        update-IsAdmitted one.next events
          (subst IsConsistent (sym one.rooms) (run-IsConsistent g.rooms (calls g.rooms e) c))
          (handle-IsAdmitted g e c u) in
      (rest.0, ground (arith, one.handled, rest.1), rest.2)
