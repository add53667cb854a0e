-- ===== src/Base/Lists.antt =====
-- Lists measured and indexed by native numbers, membership, and predicates on all elements.
use Prim.Native.Nat.{ℕ, zero, suc, ◌+◌, ◌-◌, min}
use mathlib.Core.Path.{◌≡◌, refl, ap}
use mathlib.Core.Logic.{◌⊎◌, inl, inr, ◌↔◌, ⊎_elim}
use mathlib.Core.List.{List, [], ◌∷◌, ◌++◌, map, Memᴰ}
use mathlib.Core.List.Memᴰ
use mathlib.Core.Option.{Option, none, some}
use native.Mathlib.Omega.{arith}

module _ {ℓ} {A : Type ℓ} where
  abbrev pub length : List A → ℕ
  length [] = 0
  length (x ∷ xs) = suc (length xs)

  abbrev pub get_elem? : List A → ℕ → Option A
  get_elem? [] i = none
  get_elem? (x ∷ xs) zero = some x
  get_elem? (x ∷ xs) (suc i) = get_elem? xs i

  abbrev pub take : ℕ → List A → List A
  take zero xs = []
  take (suc n) [] = []
  take (suc n) (x ∷ xs) = x ∷ take n xs

  abbrev pub drop : ℕ → List A → List A
  drop zero xs = xs
  drop (suc n) [] = []
  drop (suc n) (x ∷ xs) = drop n xs

  pub length-append : (xs ys : List A) → length (xs ++ ys) ≡ length xs + length ys
  length-append [] ys = omega arith
  length-append (x ∷ xs) ys = omega (arith, length-append xs ys)

  pub length-take : (n : ℕ) (xs : List A) → length (take n xs) ≡ min n (length xs)
  length-take zero xs = omega arith
  length-take (suc n) [] = omega arith
  length-take (suc n) (x ∷ xs) = omega (arith, length-take n xs)

  pub length-drop : (n : ℕ) (xs : List A) → length (drop n xs) ≡ length xs - n
  length-drop zero xs = omega arith
  length-drop (suc n) [] = omega arith
  length-drop (suc n) (x ∷ xs) = omega (arith, length-drop n xs)

  pub List-cases : (xs : List A) → (xs ≡ []) ⊎ ((x : A) × (rest : List A) × (xs ≡ x ∷ rest))
  List-cases [] = inl refl
  List-cases (x ∷ xs) = inr (x, xs, refl)

module _ {ℓ} {A : Type ℓ} where
  pub Memᴰ-cons : (a x : A) (xs : List A) → Memᴰ a (x ∷ xs) ↔ ((a ≡ x) ⊎ Memᴰ a xs)
  Memᴰ-cons a x xs = (Memᴰ.cases_cons, ⊎_elim Memᴰ.head Memᴰ.tail)

  pub Memᴰ-append : (a : A) (xs ys : List A) → Memᴰ a (xs ++ ys) ↔ (Memᴰ a xs ⊎ Memᴰ a ys)
  Memᴰ-append a xs ys = (Memᴰ.append_cases xs, ⊎_elim (Memᴰ.append_left ys) (Memᴰ.append_right xs))

  pub Memᴰ-concat : (a x : A) (xs : List A) → Memᴰ a (xs ++ x ∷ []) ↔ (Memᴰ a xs ⊎ (a ≡ x))
  Memᴰ-concat a x xs = (
    λ m. ⊎_elim inl (λ last. inr (Memᴰ.eq_of_singleton last)) (Memᴰ.append_cases xs m),
    ⊎_elim (Memᴰ.append_left _) (λ e. Memᴰ.append_right xs (Memᴰ.head e)),
  )

  pub Memᴰ-take : (n : ℕ) (xs : List A) {a : A} → Memᴰ a (take n xs) → Memᴰ a xs
  Memᴰ-take zero xs m = absurd (Memᴰ.not-nil m)
  Memᴰ-take (suc n) [] m = absurd (Memᴰ.not-nil m)
  Memᴰ-take (suc n) (x ∷ xs) m = elim (Memᴰ.cases_cons m) [
    | inl e ↦ Memᴰ.head e
    | inr t ↦ Memᴰ.tail (Memᴰ-take n xs t)
  ]

  pub Memᴰ-drop : (n : ℕ) (xs : List A) {a : A} → Memᴰ a (drop n xs) → Memᴰ a xs
  Memᴰ-drop zero xs m = m
  Memᴰ-drop (suc n) [] m = absurd (Memᴰ.not-nil m)
  Memᴰ-drop (suc n) (x ∷ xs) m = Memᴰ.tail (Memᴰ-drop n xs m)

pub map-append {ℓ ℓ'} :
    {A : Type ℓ} {B : Type ℓ'} (f : A → B) (xs ys : List A)
    → map f (xs ++ ys) ≡ map f xs ++ map f ys
map-append f [] ys = refl
map-append f (x ∷ xs) ys = ap (λ zs. f x ∷ zs) (map-append f xs ys)

pub length-map {ℓ κ} :
    {A : Type ℓ} {B : Type κ} (f : A → B) (xs : List A) → length (map f xs) ≡ length xs
length-map f [] = refl
length-map f (x ∷ xs) = ap suc (length-map f xs)

-- `P` of every element, as a tuple.
abbrev pub All {ℓ κ} : {A : Type ℓ} → (A → Type κ) → List A → Type κ
All P [] = Unit
All P (x ∷ xs) = P x × All P xs

module _ {ℓ κ} {A : Type ℓ} (P : A → Type κ) where
  pub All-append : (xs ys : List A) → All P xs → All P ys → All P (xs ++ ys)
  All-append [] ys hx hy = hy
  All-append (x ∷ xs) ys hx hy = (hx.0, All-append xs ys hx.1 hy)

  pub All-tabulate : (xs : List A) → ((x : A) → Memᴰ x xs → P x) → All P xs
  All-tabulate [] h = tt
  All-tabulate (x ∷ xs) h = (h x (Memᴰ.head refl), All-tabulate xs (λ y m. h y (Memᴰ.tail m)))

  pub All_get : (xs : List A) → All P xs → (x : A) → Memᴰ x xs → P x
  All_get [] h x m = absurd (Memᴰ.not-nil m)
  All_get (y ∷ xs) h x m = elim (Memᴰ.cases_cons m) [
    | inl e ↦ rw e h.0
    | inr t ↦ All_get xs h.1 x t
  ]

pub All-map {ℓ κ μ} :
    {A : Type ℓ} {B : Type κ} (P : B → Type μ) (f : A → B) (xs : List A)
    → ((x : A) → Memᴰ x xs → P (f x))
    → All P (map f xs)
All-map P f [] h = tt
All-map P f (x ∷ xs) h = (h x (Memᴰ.head refl), All-map P f xs (λ y m. h y (Memᴰ.tail m)))
