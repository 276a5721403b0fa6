-- ===== src/Rooms/Names.antt =====
-- `IsDisplayNameTaken` of NightServer/RoomSystem.cpp, and the uniqueness of display names.
use project_night.Prelude.{
  ℕ, ◌≡◌, ◌≢◌, ◌↔◌, inl, inr, true, ◌&&◌, [], ◌∷◌, some, arith, ◌==◌, Bool-cases, same_bytes,
  same_bytes→eq, same_bytes_refl,
}
use project_night.Prelude.Map
use project_night.Prelude.Map.{Map}
use project_night.Wire.{Bytes}
use project_night.Rooms.{SessionState, RoomSystem, taken_in, is_display_name_taken}

-- A logged-in session of the table, other than `except`, has the name.
abbrev pub Taken : Map SessionState → Bytes → ℕ → Type 0
Taken sessions name except =
    (j : ℕ) × (s : SessionState) × (Map.find j sessions ≡ some s)
    × (j ≢ except)
    × (s.logged_in ≡ true)
    × (s.display_name ≡ name)

taken_in_sound :
    (m : Map SessionState) (name : Bytes) (except : ℕ)
    → Map.IsDistinct m
    → taken_in m name except ≡ true
    → Taken m name except
unfolding taken_in Map.find
taken_in_sound [] name except d h = cc
taken_in_sound ((k, s) ∷ m) name except d h = elim (Bool-cases (k == except)) [
  | inl same ↦ later (taken_in_sound m name except d.1 (ground arith))
  | inr other ↦ elim (Bool-cases (s.logged_in && same_bytes s.display_name name)) [
    | inl hit ↦ (
      k,
      s,
      ground arith,
      ground arith,
      ground arith,
      same_bytes→eq s.display_name name (ground arith),
    )
    | inr miss ↦ later (taken_in_sound m name except d.1 (ground arith))
  ]
]
  where
    later : Taken m name except → Taken ((k, s) ∷ m) name except
    later (j, t, found, ne, on, eq) = (j, t, ground (arith, d.0), ne, on, eq)

taken_in_complete :
    (m : Map SessionState) (name : Bytes) (except j : ℕ) (s : SessionState)
    → Map.find j m ≡ some s
    → j ≢ except
    → s.logged_in ≡ true
    → s.display_name ≡ name
    → taken_in m name except ≡ true
unfolding taken_in Map.find
taken_in_complete [] name except j s found ne on eq = ground arith
taken_in_complete ((k, t) ∷ m) name except j s found ne on eq =
    ground (arith, taken_in_complete m name except j s, same_bytes_refl name)

-- With one entry for a key, the loop answers `true` just when another logged-in session has the name.
pub is_display_name_taken_iff :
    (rs : RoomSystem) (name : Bytes) (except : ℕ)
    → Map.IsDistinct rs.sessions
    → (is_display_name_taken rs name except ≡ true) ↔ Taken rs.sessions name except
unfolding is_display_name_taken
is_display_name_taken_iff rs name except d = (
  taken_in_sound rs.sessions name except d,
  λ t. taken_in_complete rs.sessions name except t.0 t.1 t.2 t.3 t.4 t.5,
)
