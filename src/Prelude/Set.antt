-- ===== src/Prelude/Set.antt =====
-- std::unordered_set<uint32_t> as a list of numbers, each at most once.
use Prim.Native.Nat.{ℕ}
use mathlib.Core.Path.{◌≡◌}
use mathlib.Core.Bool.{Bool, false, ◌||◌}
use mathlib.Core.List.{List, [], ◌∷◌}
use native.Mathlib.Omega.{arith}
use project_night.Prelude.Tests.{◌==◌, if◌then◌else◌}

unfoldable pub contains : ℕ → List ℕ → Bool
contains k [] = false
contains k (x ∷ xs) = x == k || contains k xs

-- `insert(key)`.
unfoldable pub insert : ℕ → List ℕ → List ℕ
unfolding contains
insert k xs = if contains k xs then xs else k ∷ xs

-- `erase(key)`.
unfoldable pub erase : ℕ → List ℕ → List ℕ
erase k [] = []
erase k (x ∷ xs) = let rest = erase k xs in if x == k then rest else x ∷ rest

-- No number stands twice.
abbrev pub IsUnique : List ℕ → Type 0
IsUnique [] = Unit
IsUnique (x ∷ xs) = (contains x xs ≡ false) × IsUnique xs

contains_eq : (k j : ℕ) (xs : List ℕ) → k ≡ j → contains k xs ≡ contains j xs
contains_eq k j xs e = cc

pub contains-insert : (k j : ℕ) (xs : List ℕ) → contains j (insert k xs) ≡ (k == j || contains j xs)
unfolding contains insert
contains-insert k j xs = ground (arith, contains_eq k j xs)

pub contains-erase :
    (k j : ℕ) (xs : List ℕ) → contains j (erase k xs) ≡ (if k == j then false else contains j xs)
unfolding contains erase
contains-erase k j [] = ground arith
contains-erase k j (x ∷ xs) = ground (arith, contains-erase k j xs)

pub insert-IsUnique : (k : ℕ) (xs : List ℕ) → IsUnique xs → IsUnique (insert k xs)
unfolding insert
insert-IsUnique k xs h = ground arith

pub erase-IsUnique : (k : ℕ) (xs : List ℕ) → IsUnique xs → IsUnique (erase k xs)
unfolding erase
erase-IsUnique k [] h = tt
erase-IsUnique k (x ∷ xs) h = ground (arith, erase-IsUnique k xs h.1, contains-erase k x xs)
