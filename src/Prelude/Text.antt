-- ===== src/Prelude/Text.antt =====
-- The bytes of a text literal: its characters in UTF-8.
use Prim.Native.Nat.{ℕ, ◌+◌, ◌/◌, ◌%◌}
use Prim.Native.Char.{code}
use Prim.Native.String.{String}
use mathlib.Core.List.{List, [], ◌∷◌, ◌++◌}
use project_night.Prelude.Tests.{ltb, if◌then◌else◌}

continuation : ℕ → ℕ
continuation n = 0x80 + n % 64

encode_char : ℕ → List ℕ
unfolding continuation
encode_char c =
    if ltb c 0x80
    then c ∷ []
    else if ltb c 0x800
    then (0xC0 + c / 64) ∷ continuation c ∷ []
    else if ltb c 0x10000
    then (0xE0 + c / 4096) ∷ continuation (c / 64) ∷ continuation c ∷ []
    else (0xF0 + c / 262144) ∷ continuation (c / 4096) ∷ continuation (c / 64) ∷ continuation c ∷ []

unfoldable pub utf8 : String → List ℕ
unfolding encode_char
utf8 String.[] = []
utf8 (String.◌∷◌ c s) = encode_char (code c) ++ utf8 s
