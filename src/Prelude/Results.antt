-- ===== src/Prelude/Results.antt =====
-- Results with an error: a value on the right, or a message on the left.
use mathlib.Core.Logic.{◌⊎◌, inl}
use mathlib.Core.Option.{Option, none, some}
use mathlib.Core.List.{List, ◌++◌}
use Prim.Native.Nat.{ℕ}

-- A call after which an error ends a chain of calls, its message behind a prefix.
abbrev pub attempt {ℓ} : {A : Type ℓ} → Option (List ℕ) → List ℕ → List ℕ ⊎ A → List ℕ ⊎ A
attempt none prefix rest = rest
attempt (some message) prefix rest = inl (prefix ++ message)
