-- ===== src/Prelude/Map.antt =====
-- std::unordered_map<uint32_t, V> as an association list with at most one entry for a key. The
-- order of iteration, which the standard leaves open, is that of the list.
use Prim.Native.Nat.{ℕ}
use mathlib.Core.Path.{◌≡◌, refl}
use mathlib.Core.List.{List, [], ◌∷◌}
use mathlib.Core.Option.{Option, none, some}
use native.Mathlib.Omega.{arith}
use project_night.Prelude.Tests.{◌==◌, if◌then◌else◌}

abbrev pub Map {ℓ} : Type ℓ → Type ℓ
Map V = List (ℕ × V)

module _ {ℓ} {V : Type ℓ} where
  -- `find(key)`, `none` for `end()`.
  unfoldable pub find : ℕ → Map V → Option V
  find k [] = none
  find k ((j, v) ∷ m) = if j == k then some v else find k m

  -- A new entry, which stands last in the iteration.
  unfoldable pub append : ℕ → V → Map V → Map V
  append k v [] = (k, v) ∷ []
  append k v ((j, w) ∷ m) = (j, w) ∷ append k v m

  -- `try_emplace(key, value)` and `emplace(key, value)`: an old entry stays.
  unfoldable pub try_emplace : ℕ → V → Map V → Map V
  unfolding append find
  try_emplace k v m = elim (find k m) [ none ↦ append k v m | some _ ↦ m ]

  -- `erase(key)`.
  unfoldable pub erase : ℕ → Map V → Map V
  erase k [] = []
  erase k ((j, v) ∷ m) = let rest = erase k m in if j == k then rest else (j, v) ∷ rest

  -- A write through the pointer that `find(key)` returned.
  unfoldable pub modify : ℕ → (V → V) → Map V → Map V
  modify k f [] = []
  modify k f ((j, v) ∷ m) = (if j == k then (j, f v) else (j, v)) ∷ modify k f m

  abbrev pub map_some {κ} : {W : Type κ} → (V → W) → Option V → Option W
  map_some f none = none
  map_some f (some v) = some (f v)

  pub find-erase : (k j : ℕ) (m : Map V) → find j (erase k m) ≡ (if k == j then none else find j m)
  unfolding find erase
  find-erase k j [] = ground arith
  find-erase k j ((i, v) ∷ m) = ground (arith, find-erase k j m)

  pub find-append :
      (k j : ℕ) (v : V) (m : Map V)
      → find k m ≡ none
      → find j (append k v m) ≡ (if k == j then some v else find j m)
  unfolding find append
  find-append k j v [] h = refl
  find-append k j v ((i, w) ∷ m) h = ground (arith, find-append k j v m)

  pub find-modify :
      (k j : ℕ) (f : V → V) (m : Map V)
      → find j (modify k f m) ≡ (if k == j then map_some f (find j m) else find j m)
  unfolding find modify
  find-modify k j f [] = ground arith
  find-modify k j f ((i, v) ∷ m) = ground (arith, find-modify k j f m)

-- No key stands twice.
abbrev pub IsDistinct {ℓ} : {V : Type ℓ} → Map V → Type ℓ
IsDistinct [] = Unit
IsDistinct ((k, v) ∷ m) = (find k m ≡ none) × IsDistinct m

module _ {ℓ} {V : Type ℓ} where
  append-IsDistinct :
      (k : ℕ) (v : V) (m : Map V) → find k m ≡ none → IsDistinct m → IsDistinct (append k v m)
  unfolding find append
  append-IsDistinct k v [] h d = (refl, tt)
  append-IsDistinct k v ((j, w) ∷ m) h d =
      ground (arith, append-IsDistinct k v m, find-append k j v m)

  pub erase-IsDistinct : (k : ℕ) (m : Map V) → IsDistinct m → IsDistinct (erase k m)
  unfolding erase
  erase-IsDistinct k [] d = tt
  erase-IsDistinct k ((j, w) ∷ m) d = ground (arith, erase-IsDistinct k m d.1, find-erase k j m)

  pub modify-IsDistinct : (k : ℕ) (f : V → V) (m : Map V) → IsDistinct m → IsDistinct (modify k f m)
  unfolding modify
  modify-IsDistinct k f [] d = tt
  modify-IsDistinct k f ((j, w) ∷ m) d =
      ground (arith, modify-IsDistinct k f m d.1, find-modify k j f m)

  pub try_emplace-IsDistinct :
      (k : ℕ) (v : V) (m : Map V) → IsDistinct m → IsDistinct (try_emplace k v m)
  unfolding try_emplace
  try_emplace-IsDistinct k v m d = ground (arith, append-IsDistinct k v m)
