-- ===== src/Base/Text.antt =====
-- String.prototype.localeCompare, as the sorts of time slots use it: on texts of the form `HH:MM`
-- the collation order is the order of the code points.
use Prim.Native.Nat.{ℕ}
use Prim.Native.Char.{code}
use Prim.Native.String.{String}
use mathlib.Core.Bool.{Bool, true, false}
use mathlib.Core.List.{List, [], ◌∷◌}
use ga_scheduler_v.Base.Tests.{ltb, if◌then◌else◌, nat_beq}

abbrev codes : String → List ℕ
codes String.[] = []
codes (String.◌∷◌ c s) = code c ∷ codes s

abbrev lex_le : List ℕ → List ℕ → Bool
lex_le [] ys = true
lex_le (x ∷ xs) [] = false
lex_le (x ∷ xs) (y ∷ ys) = let rest = lex_le xs ys in if nat_beq x y then rest else ltb x y

-- `a.localeCompare(b) <= 0`
unfoldable pub locale_le : String → String → Bool
locale_le a b = lex_le (codes a) (codes b)
