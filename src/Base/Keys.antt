-- ===== src/Base/Keys.antt =====
-- Lists whose elements have pairwise different keys.

use Prim.Native.Nat.{ℕ}
use mathlib.Core.Logic.{◌≢◌}
use mathlib.Core.List.{List, [], ◌∷◌, ◌++◌}
use ga_scheduler_v.Base.Lists.{All, All-append}

-- `x` has none of the keys of the list.
abbrev pub Apart {ℓ} : {A : Type ℓ} → (A → ℕ) → A → List A → Type 0
Apart key x = All (λ y. key x ≢ key y)

abbrev pub Distinct {ℓ} : {A : Type ℓ} → (A → ℕ) → List A → Type 0
Distinct key [] = Unit
Distinct key (x ∷ xs) = Apart key x xs × Distinct key xs

module _ {ℓ} {A : Type ℓ} (key : A → ℕ) where
  pub Distinct-append :
      (xs ys : List A)
      → Distinct key xs
      → Distinct key ys
      → All (λ x. Apart key x ys) xs
      → Distinct key (xs ++ ys)
  Distinct-append [] ys hx hy h = hy
  Distinct-append (x ∷ xs) ys hx hy h =
      (All-append (λ y. key x ≢ key y) xs ys hx.0 h.0, Distinct-append xs ys hx.1 hy h.1)
