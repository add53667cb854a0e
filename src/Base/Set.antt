-- ===== src/Base/Set.antt =====
-- The JavaScript `Set`: its elements in insertion order, each once.
use mathlib.Core.Path.{◌≡◌}
use mathlib.Core.Logic.{◌↔◌, ◌⊎◌, inl, inr}
use mathlib.Core.Bool.{Bool, true, false, not}
use mathlib.Core.List.{List, [], ◌∷◌, ◌++◌, Memᴰ}
use mathlib.Core.List.Memᴰ
use native.Mathlib.Omega.{arith}
use ga_scheduler_v.Base.Tests.{Eq, if◌then◌else◌, Bool-cases}
use ga_scheduler_v.Base.Lists.{Memᴰ-cons, Memᴰ-concat}
use ga_scheduler_v.Base.Filters.{includes, includes_iff, filter, Memᴰ-filter}

abbrev pub Set {ℓ} : Type ℓ → Type ℓ
Set A = List A

module _ {ℓ} {A : Type ℓ} ⦃e : Eq A⦄ where
  abbrev pub has : A → Set A → Bool
  has a s = includes s a

  abbrev pub add : A → Set A → Set A
  add a s = if includes s a then s else s ++ a ∷ []

  abbrev pub add_all : Set A → List A → Set A
  add_all s [] = s
  add_all s (x ∷ xs) = add_all (add x s) xs

  -- `new Set(xs)`
  abbrev pub from_list : List A → Set A
  from_list xs = add_all [] xs

  abbrev pub delete : A → Set A → Set A
  delete a s = filter (λ x. not (e.same x a)) s

  pub Memᴰ-add : (x : A) (s : Set A) (a : A) → Memᴰ a (add x s) ↔ (Memᴰ a s ⊎ (a ≡ x))
  Memᴰ-add x s a = elim (Bool-cases (includes s x)) [
    | inl old ↦
        rw old (inl, λ h. elim h [ inl m ↦ m | inr same ↦ rw same ((includes_iff s x).0 old) ])
    | inr new ↦ rw new (Memᴰ-concat a x s)
  ]

  Memᴰ-add_all : (xs : List A) (s : Set A) (a : A) → Memᴰ a (add_all s xs) ↔ (Memᴰ a s ⊎ Memᴰ a xs)
  Memᴰ-add_all [] s a = (inl, λ h. elim h [ inl m ↦ m | inr m ↦ absurd (Memᴰ.not-nil m) ])
  Memᴰ-add_all (x ∷ xs) s a =
      ground (arith, Memᴰ-add_all xs (add x s) a, Memᴰ-add x s a, Memᴰ-cons a x xs)

  pub Memᴰ-from_list : (xs : List A) (a : A) → Memᴰ a (from_list xs) ↔ Memᴰ a xs
  Memᴰ-from_list xs a = (
    λ m. elim ((Memᴰ-add_all xs [] a).0 m) [ inl n ↦ absurd (Memᴰ.not-nil n) | inr n ↦ n ],
    λ m. (Memᴰ-add_all xs [] a).1 (inr m),
  )

  pub has-from_list : (xs : List A) (a : A) → (has a (from_list xs) ≡ true) ↔ Memᴰ a xs
  has-from_list xs a = (
    λ h. (Memᴰ-from_list xs a).0 ((includes_iff (from_list xs) a).0 h),
    λ m. (includes_iff (from_list xs) a).1 ((Memᴰ-from_list xs a).1 m),
  )

  pub Memᴰ-delete :
      (x : A) (s : Set A) (a : A) → Memᴰ a (delete x s) ↔ (Memᴰ a s × (e.same a x ≡ false))
  Memᴰ-delete x s a = (
    λ m. let (n, q) = (Memᴰ-filter (λ y. not (e.same y x)) s a).0 m in (n, ground arith),
    λ (n, q). (Memᴰ-filter (λ y. not (e.same y x)) s a).1 (n, rw q),
  )
