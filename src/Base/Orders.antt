-- ===== src/Base/Orders.antt =====
-- Array.prototype.sort with a comparator, which is a stable sort.
use Prim.Native.Nat.{suc}
use mathlib.Core.Path.{◌≡◌, refl}
use mathlib.Core.Logic.{◌↔◌, ◌⊎◌, inl, inr}
use mathlib.Core.Bool.{Bool}
use mathlib.Core.List.{List, [], ◌∷◌, Memᴰ}
use native.Mathlib.Omega.{arith}
use ga_scheduler_v.Base.Tests.{if◌then◌else◌, Bool-cases}
use ga_scheduler_v.Base.Lists.{length, Memᴰ-cons}

module _ {ℓ} {A : Type ℓ} (le : A → A → Bool) where
  abbrev pub insert_sorted : A → List A → List A
  insert_sorted x [] = x ∷ []
  insert_sorted x (y ∷ ys) = if le x y then x ∷ y ∷ ys else y ∷ insert_sorted x ys

  abbrev pub sort : List A → List A
  sort [] = []
  sort (x ∷ xs) = insert_sorted x (sort xs)

  pub Memᴰ-insert_sorted :
      (x : A) (ys : List A) (a : A) → Memᴰ a (insert_sorted x ys) ↔ ((a ≡ x) ⊎ Memᴰ a ys)
  Memᴰ-insert_sorted x [] a = Memᴰ-cons a x []
  Memᴰ-insert_sorted x (y ∷ ys) a = elim (Bool-cases (le x y)) [
    | inl first ↦ rw first (Memᴰ-cons a x (y ∷ ys))
    | inr later ↦ rw later (
        ground
          (arith, Memᴰ-insert_sorted x ys a, Memᴰ-cons a y (insert_sorted x ys), Memᴰ-cons a y ys))
  ]

  pub Memᴰ-sort : (xs : List A) (a : A) → Memᴰ a (sort xs) ↔ Memᴰ a xs
  Memᴰ-sort [] a = (λ m. m, λ m. m)
  Memᴰ-sort (x ∷ xs) a =
      ground (arith, Memᴰ-insert_sorted x (sort xs) a, Memᴰ-sort xs a, Memᴰ-cons a x xs)

  length-insert_sorted : (x : A) (ys : List A) → length (insert_sorted x ys) ≡ suc (length ys)
  length-insert_sorted x [] = refl
  length-insert_sorted x (y ∷ ys) = ground (arith, length-insert_sorted x ys)

  pub length-sort : (xs : List A) → length (sort xs) ≡ length xs
  length-sort [] = refl
  length-sort (x ∷ xs) = omega (arith, length-insert_sorted x (sort xs), length-sort xs)
