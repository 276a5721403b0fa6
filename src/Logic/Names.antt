-- ===== src/Logic/Names.antt =====
-- Logins of NightServer/GameLogicSystem.cpp: what is accepted, and that display names stay unique.
use project_night.Prelude.{
  ℕ, ◌≡◌, refl, sym, ◌∙◌, inl, inr, ◌⊎◌, subst, Bool, true, List, [], ◌∷◌, some, arith, ◌==◌,
  Bool-cases, Option-cases, ap,
}
use project_night.Wire.{Bytes}
use project_night.Rooms.{SessionState, RoomSystem, find_session, is_display_name_taken}
use project_night.Rooms.Lookup.{has_room}
use project_night.Rooms.Names.{is_display_name_taken_iff}
use project_night.Rooms.Consistency.{IsConsistent}
use project_night.Rooms.Consistency.Run.{
  Call, add, remove, leave, move, login, run-IsConsistent, run-direct, Directory, direct,
  direct_run,
}
use project_night.Logic.{
  ServerEvent, session_connected, session_disconnected, invalid_packet, login_request,
  room_list_request, join_room_request, chat_send_request, leave_room_request, disconnect_request,
  Env, GameLogic,
}
use project_night.Logic.Handlers.{update}
use project_night.Logic.Effect.{accepts_login, accepts_join, calls}
use project_night.Logic.Effect.Events.{handle-Handled}

-- No two logged-in sessions have one display name.
abbrev pub AreUnique : Directory → Type 0
AreUnique d =
    (j k : ℕ) (s t : SessionState)
    → d j ≡ some s
    → d k ≡ some t
    → s.logged_in ≡ true
    → t.logged_in ≡ true
    → s.display_name ≡ t.display_name
    → j ≡ k

-- Nobody but `k` is logged in under the name.
abbrev IsFresh : Directory → ℕ → Bytes → Type 0
IsFresh d k name =
    (j : ℕ) (s : SessionState) → d j ≡ some s → s.logged_in ≡ true → s.display_name ≡ name → j ≡ k

-- What a call is to bring about for names to stay unique.
abbrev Fresh : Directory → Call → Type 0
Fresh d (login k name) = IsFresh d k name
Fresh d _ = Unit

-- What a session has of a name after a call that is not its login, it had before.
named_before :
    (open_rooms : ℕ → Bool) (d : Directory) (c : Call) (j : ℕ) (s : SessionState)
    → direct open_rooms d c j ≡ some s
    → s.logged_in ≡ true
    → ((o : SessionState) × (d j ≡ some o)
        × (o.logged_in ≡ true)
        × (o.display_name ≡ s.display_name))
      ⊎ ((name : Bytes) × (c ≡ login j name) × (s.display_name ≡ name))
named_before open_rooms d (add k) j s e on = ground arith
named_before open_rooms d (remove k) j s e on = ground arith
named_before open_rooms d (leave k) j s e on = ground arith
named_before open_rooms d (move k r) j s e on = ground arith
named_before open_rooms d (login k name) j s e on = ground arith

direct-AreUnique :
    (open_rooms : ℕ → Bool) (d : Directory) (c : Call)
    → AreUnique d
    → Fresh d c
    → AreUnique (direct open_rooms d c)
direct-AreUnique open_rooms d c u fresh j k s t es et on on' same =
    elim (named_before open_rooms d c j s es on) [
      | inl (o, eo, oo, eq) ↦ elim (named_before open_rooms d c k t et on') [
        | inl (p, ep, op, np) ↦ u j k o p eo ep oo op (eq ∙ same ∙ sym np)
        | inr (name, call, named) ↦ subst (Fresh d) call fresh j o eo oo (eq ∙ same ∙ named)
      ]
      | inr (name, call, named) ↦ elim (named_before open_rooms d c k t et on') [
        | inl (p, ep, op, np) ↦ sym (subst (Fresh d) call fresh k p ep op (np ∙ sym same ∙ named))
        | inr (name', call', named') ↦ one_login j k name name' (sym call ∙ call')
      ]
    ]
  where
    one_login : (a b : ℕ) (n m : Bytes) → login a n ≡ login b m → a ≡ b
    one_login a b n m e = cc

module _ (rs : RoomSystem) (c : IsConsistent rs) where
  accepts_login-IsFresh :
      (k : ℕ) (name : Bytes) → accepts_login rs k name ≡ true → IsFresh (find_session rs) k name
  accepts_login-IsFresh k name a j s found on same = elim (Bool-cases (j == k)) [
    | inl e ↦ ground arith
    | inr ne ↦ absurd (
        not_taken (
          (is_display_name_taken_iff rs name k c.distinct).1 (j, s, found, ground arith, on, same)))
  ]
    where
      not_taken : ¬ (is_display_name_taken rs name k ≡ true)
      not_taken h = elim (Option-cases (find_session rs k)) [
        | inl missing ↦ ground arith
        | inr (t, there) ↦ ground arith
      ]

  -- The calls of an event keep names unique.
  calls-AreUnique :
      (e : ServerEvent)
      → AreUnique (find_session rs)
      → AreUnique (direct_run (has_room rs) (find_session rs) (calls rs e))
  calls-AreUnique (session_connected k) u =
      direct-AreUnique (has_room rs) (find_session rs) (add k) u tt
  calls-AreUnique (session_disconnected k) u =
      direct-AreUnique (has_room rs) (find_session rs) (remove k) u tt
  calls-AreUnique (invalid_packet k message) u = u
  calls-AreUnique (login_request k request_id name) u =
      elim (Bool-cases (accepts_login rs k name)) [
        | inl granted ↦ rw granted (
            direct-AreUnique (has_room rs) (find_session rs) (login k name) u
              (accepts_login-IsFresh k name granted))
        | inr refused ↦ rw refused u
      ]
  calls-AreUnique (room_list_request k request_id) u = u
  calls-AreUnique (join_room_request k request_id r) u = elim (Bool-cases (accepts_join rs k r)) [
    | inl granted ↦ rw granted (
        direct-AreUnique (has_room rs) (direct (has_room rs) (find_session rs) (leave k)) (move k r)
          (direct-AreUnique (has_room rs) (find_session rs) (leave k) u tt) tt)
    | inr refused ↦ rw refused u
  ]
  calls-AreUnique (chat_send_request k request_id content) u = u
  calls-AreUnique (leave_room_request k request_id) u =
      direct-AreUnique (has_room rs) (find_session rs) (leave k) u tt
  calls-AreUnique (disconnect_request k request_id) u =
      direct-AreUnique (has_room rs) (find_session rs) (remove k) u tt

module _ (env : Env) where
  handle-AreUnique :
      (g : GameLogic) (e : ServerEvent) (c : IsConsistent g.rooms)
      → AreUnique (find_session g.rooms)
      → AreUnique (find_session (handle-Handled env g e c).next.rooms)
  handle-AreUnique g e c u =
      subst AreUnique
        (sym (
          ap (λ (rs : RoomSystem). find_session rs) (handle-Handled env g e c).rooms
          ∙ run-direct g.rooms (calls g.rooms e)))
        (calls-AreUnique g.rooms c e u)

  -- From a consistent room system in which no two logged-in sessions have one display name,
  -- `Update` handles any list of events to the end, and in the room system that it leaves no two
  -- logged-in sessions have one display name.
  pub update-AreUnique :
      (g : GameLogic) (events : List ServerEvent)
      → IsConsistent g.rooms
      → AreUnique (find_session g.rooms)
      → (h : GameLogic) × (update env g events ≡ some h) × AreUnique (find_session h.rooms)
  unfolding update
  update-AreUnique g [] c u = (g, refl, u)
  update-AreUnique g (e ∷ events) c u =
      let one = handle-Handled env g e c in
      let rest =
        update-AreUnique one.next events
          (subst IsConsistent (sym one.rooms) (run-IsConsistent g.rooms (calls g.rooms e) c))
          (handle-AreUnique g e c u) in
      (rest.0, ground (arith, one.handled, rest.1), rest.2)
