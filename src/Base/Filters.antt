-- ===== src/Base/Filters.antt =====
-- Array methods that take a Boolean predicate: filter, some, every, flatMap, reduce as a sum.
use Prim.Native.Nat.{ℕ, ◌+◌, ◌≤◌, ◌<◌, max}
use mathlib.Core.Path.{◌≡◌, refl}
use mathlib.Core.Logic.{inl, inr, ◌↔◌}
use mathlib.Core.Bool.{Bool, true, false, ◌||◌, ◌&&◌}
use mathlib.Core.List.{List, [], ◌∷◌, cons≢nil, ◌++◌, Memᴰ}
use mathlib.Core.List.Memᴰ
use native.Mathlib.Omega.{arith}
use ga_scheduler_v.Base.Tests.{Eq, if◌then◌else◌, Bool-cases}
use ga_scheduler_v.Base.Lists.{All, length, Memᴰ-cons}

module _ {ℓ} {A : Type ℓ} where
  abbrev pub filter : (A → Bool) → List A → List A
  filter p [] = []
  filter p (x ∷ xs) = if p x then x ∷ filter p xs else filter p xs

  -- Array.prototype.some
  abbrev pub any : (A → Bool) → List A → Bool
  any p [] = false
  any p (x ∷ xs) = p x || any p xs

  -- Array.prototype.every
  abbrev pub all : (A → Bool) → List A → Bool
  all p [] = true
  all p (x ∷ xs) = p x && all p xs

  abbrev pub flat_map {κ} : {B : Type κ} → (A → List B) → List A → List B
  flat_map f [] = []
  flat_map f (x ∷ xs) = f x ++ flat_map f xs

  -- The sum of a number per element, as the `+=` loops and `reduce` compute it.
  abbrev pub sum_by : (A → ℕ) → List A → ℕ
  sum_by f [] = 0
  sum_by f (x ∷ xs) = f x + sum_by f xs

  -- Math.max(...xs.map(f)) where it is applied to numbers that are not negative.
  abbrev pub max_by : (A → ℕ) → List A → ℕ
  max_by f [] = 0
  max_by f (x ∷ xs) = max (f x) (max_by f xs)

module _ {ℓ} {A : Type ℓ} where
  pub Memᴰ-filter :
      (p : A → Bool) (xs : List A) (a : A) → Memᴰ a (filter p xs) ↔ (Memᴰ a xs × (p a ≡ true))
  Memᴰ-filter p [] a = (λ m. absurd (Memᴰ.not-nil m), λ m. absurd (Memᴰ.not-nil m.0))
  Memᴰ-filter p (x ∷ xs) a = elim (Bool-cases (p x)) [
    | inl keep ↦ rw keep (
      λ m. elim (Memᴰ.cases_cons m) [
        | inl e ↦ (Memᴰ.head e, rw e keep)
        | inr t ↦ let (t', q) = (Memᴰ-filter p xs a).0 t in (Memᴰ.tail t', q)
      ],
      λ (m, q). elim (Memᴰ.cases_cons m) [
        | inl e ↦ Memᴰ.head e
        | inr t ↦ Memᴰ.tail ((Memᴰ-filter p xs a).1 (t, q))
      ],
    )
    | inr skip ↦ rw skip (
      λ m. let (t', q) = (Memᴰ-filter p xs a).0 m in (Memᴰ.tail t', q),
      λ (m, q). elim (Memᴰ.cases_cons m) [
        | inl e ↦ let q' : p x ≡ true = rw e at q in cc
        | inr t ↦ (Memᴰ-filter p xs a).1 (t, q)
      ],
    )
  ]

  pub length-filter-le : (p : A → Bool) (xs : List A) → length (filter p xs) ≤ length xs
  length-filter-le p [] = omega arith
  length-filter-le p (x ∷ xs) = ground (arith, length-filter-le p xs)

  -- A list loses something to a filter that refuses one of its elements.
  pub length-filter-lt :
      (p : A → Bool) (xs : List A) (a : A)
      → Memᴰ a xs
      → p a ≡ false
      → length (filter p xs) < length xs
  length-filter-lt p [] a m e = absurd (Memᴰ.not-nil m)
  length-filter-lt p (x ∷ xs) a m e = elim (Memᴰ.cases_cons m) [
    | inl same ↦ let e' : p x ≡ false = rw same at e in rw e' (omega (arith, length-filter-le p xs))
    | inr t ↦ ground (arith, length-filter-lt p xs a t e)
  ]

  pub max_by-get : (size : A → ℕ) (xs : List A) (a : A) → Memᴰ a xs → size a ≤ max_by size xs
  max_by-get size [] a m = absurd (Memᴰ.not-nil m)
  max_by-get size (x ∷ xs) a m = elim (Memᴰ.cases_cons m) [
    | inl same ↦ rw same (omega arith)
    | inr t ↦ omega (arith, max_by-get size xs a t)
  ]

  pub filter-eq-nil :
      (p : A → Bool) (xs : List A) → ((x : A) → Memᴰ x xs → p x ≡ false) → filter p xs ≡ []
  filter-eq-nil p [] h = refl
  filter-eq-nil p (x ∷ xs) h =
      rw (h x (Memᴰ.head refl)) (filter-eq-nil p xs (λ y m. h y (Memᴰ.tail m)))

  pub any_iff :
      (p : A → Bool) (xs : List A) → (any p xs ≡ true) ↔ ((x : A) × Memᴰ x xs × (p x ≡ true))
  any_iff p [] = (λ h. cc, λ h. absurd (Memᴰ.not-nil h.1))
  any_iff p (x ∷ xs) = elim (Bool-cases (p x)) [
    | inl hit ↦ rw hit (λ _. (x, Memᴰ.head refl, hit), λ _. refl)
    | inr miss ↦ rw miss (
      λ h. let (y, m, q) = (any_iff p xs).0 h in (y, Memᴰ.tail m, q),
      λ (y, m, q). elim (Memᴰ.cases_cons m) [
        | inl e ↦ let q' : p x ≡ true = rw e at q in cc
        | inr t ↦ (any_iff p xs).1 (y, t, q)
      ],
    )
  ]

  pub all_get : (p : A → Bool) (xs : List A) → all p xs ≡ true → (x : A) → Memᴰ x xs → p x ≡ true
  all_get p [] h x m = absurd (Memᴰ.not-nil m)
  all_get p (y ∷ xs) h x m = elim (Memᴰ.cases_cons m) [
    | inl e ↦ rw e (ground arith)
    | inr t ↦ all_get p xs (ground arith) x t
  ]

  pub Memᴰ-flat_map {κ} :
      {B : Type κ} (f : A → List B) (xs : List A) (b : B)
      → Memᴰ b (flat_map f xs) ↔ ((a : A) × Memᴰ a xs × Memᴰ b (f a))
  Memᴰ-flat_map f [] b = (λ m. absurd (Memᴰ.not-nil m), λ h. absurd (Memᴰ.not-nil h.1))
  Memᴰ-flat_map f (x ∷ xs) b = (
    λ m. elim (Memᴰ.append_cases (f x) m) [
      | inl h ↦ (x, Memᴰ.head refl, h)
      | inr t ↦ let (a, ma, mb) = (Memᴰ-flat_map f xs b).0 t in (a, Memᴰ.tail ma, mb)
    ],
    λ (a, ma, mb). elim (Memᴰ.cases_cons ma) [
      | inl e ↦ Memᴰ.append_left (flat_map f xs) (rw e at mb)
      | inr t ↦ Memᴰ.append_right (f x) ((Memᴰ-flat_map f xs b).1 (a, t, mb))
    ],
  )

module _ {ℓ} {A : Type ℓ} ⦃e : Eq A⦄ where
  -- Array.prototype.includes
  abbrev pub includes : List A → A → Bool
  includes [] a = false
  includes (x ∷ xs) a = e.same x a || includes xs a

  pub includes_iff : (xs : List A) (a : A) → (includes xs a ≡ true) ↔ Memᴰ a xs
  includes_iff [] a = (λ h. cc, λ m. absurd (Memᴰ.not-nil m))
  includes_iff (x ∷ xs) a = ground (arith, includes_iff xs a, e.same_iff x a, Memᴰ-cons a x xs)

append-eq-nil {ℓ} : {A : Type ℓ} (xs ys : List A) → (xs ++ ys ≡ []) ↔ ((xs ≡ []) × (ys ≡ []))
append-eq-nil [] ys = (λ e. (refl, e), λ h. h.1)
append-eq-nil (x ∷ xs) ys = (λ e. cc, λ h. absurd (cons≢nil h.0))

module _ {ℓ κ} {A : Type ℓ} {B : Type κ} (f : A → List B) (size : A → ℕ) where
  -- If each part is empty exactly when its size is below `d`, then so is the whole.
  pub flat_map-eq-nil :
      (d : ℕ) (xs : List A)
      → 1 ≤ d
      → All (λ x. (f x ≡ []) ↔ (size x < d)) xs
      → (flat_map f xs ≡ []) ↔ (max_by size xs < d)
  flat_map-eq-nil d [] pos h = (λ _. omega arith, λ _. refl)
  flat_map-eq-nil d (x ∷ xs) pos h =
      let rest = flat_map-eq-nil d xs pos h.1 in
      let both = append-eq-nil (f x) (flat_map f xs) in
      (
        λ e. let a = h.0.0 (both.0 e).0 in let b = rest.0 (both.0 e).1 in omega arith,
        λ lt. both.1 (h.0.1 (omega arith), rest.1 (omega arith)),
      )

module _ {ℓ} {A : Type ℓ} (size : A → ℕ) where
  pub max_by-le : (n : ℕ) (xs : List A) → All (λ x. size x ≤ n) xs → max_by size xs ≤ n
  max_by-le n [] h = omega arith
  max_by-le n (x ∷ xs) h = omega (arith, max_by-le n xs h.1)
