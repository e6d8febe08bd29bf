-- ===== src/Prelude/Split.antt =====
-- `s.split(c)` for a separator of one character, and `c.join(parts)`.
use Prim.Native.Nat.{ℕ}
use Prim.Native.Char.{Char, code}
use Prim.Native.String.{String}
use mathlib.Core.List.{List, [], ◌∷◌}
use pullbox_direct_providers.Prelude.Tests.{nat_beq, if◌then◌else◌}

unfoldable pub extend_first : Char → List String → List String
extend_first c [] = String.◌∷◌ c String.[] ∷ []
extend_first c (part ∷ parts) = String.◌∷◌ c part ∷ parts

unfoldable pub split : ℕ → String → List String
unfolding extend_first
split sep String.[] = String.[] ∷ []
split sep (String.◌∷◌ c s) =
    if nat_beq (code c) sep then String.[] ∷ split sep s else extend_first c (split sep s)

-- parts[1], of parts that have one
unfoldable pub second : List String → String
second (a ∷ b ∷ parts) = b
second _ = String.[]
