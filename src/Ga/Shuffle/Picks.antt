-- ===== src/Ga/Shuffle/Picks.antt =====
-- ga/chromosome.ts: a shuffle keeps the elements, and the blocks that are picked from it.
use native.Mathlib.Nat.{mod-lt, mod-eq_of_lt}
use ga_scheduler_v.Base.{
  ℕ, zero, suc, ◌+◌, ◌-◌, ◌%◌, ◌≤◌, ◌<◌, ◌≡◌, refl, sym, ap, ◌∙◌, inl, inr, some, Option-cases,
  List, [], ◌∷◌, length, subst, get_elem?, drop, sum_by, nat_beq, Bool-cases, nat_beq_iff, arith,
}
use ga_scheduler_v.Ga.Shuffle.{
  set_elem, swap, shuffle_from, fisher_yates_shuffle, pick_from, pick_distinct_blocks,
}

module _ {ℓ} {A : Type ℓ} where
  pub length-set_elem : (i : ℕ) (v : A) (xs : List A) → length (set_elem i v xs) ≡ length xs
  unfolding set_elem
  length-set_elem i v [] = refl
  length-set_elem zero v (x ∷ xs) = refl
  length-set_elem (suc i) v (x ∷ xs) = ap suc (length-set_elem i v xs)

  get-set_elem_other :
      (i j : ℕ) (v : A) (xs : List A) → ¬ (i ≡ j) → get_elem? (set_elem i v xs) j ≡ get_elem? xs j
  unfolding set_elem
  get-set_elem_other i j v [] h = refl
  get-set_elem_other zero zero v (x ∷ xs) h = absurd (h refl)
  get-set_elem_other zero (suc j) v (x ∷ xs) h = refl
  get-set_elem_other (suc i) zero v (x ∷ xs) h = refl
  get-set_elem_other (suc i) (suc j) v (x ∷ xs) h = get-set_elem_other i j v xs (λ e. h (ap suc e))

  get-set_elem_same :
      (i : ℕ) (v a : A) (xs : List A)
      → get_elem? xs i ≡ some a
      → get_elem? (set_elem i v xs) i ≡ some v
  unfolding set_elem
  get-set_elem_same i v a [] h = cc
  get-set_elem_same zero v a (x ∷ xs) h = refl
  get-set_elem_same (suc i) v a (x ∷ xs) h = get-set_elem_same i v a xs h

  module _ (f : A → ℕ) where
    sum_by-set_elem :
        (i : ℕ) (v a : A) (xs : List A)
        → get_elem? xs i ≡ some a
        → sum_by f (set_elem i v xs) + f a ≡ sum_by f xs + f v
    unfolding set_elem
    sum_by-set_elem i v a [] h = cc
    sum_by-set_elem zero v a (x ∷ xs) h = let e : f x ≡ f a = ap f (cc) in omega arith
    sum_by-set_elem (suc i) v a (x ∷ xs) h = omega (arith, sum_by-set_elem i v a xs h)

    sum_by-swap : (i j : ℕ) (xs : List A) → sum_by f (swap i j xs) ≡ sum_by f xs
    unfolding swap
    sum_by-swap i j xs = elim (Option-cases (get_elem? xs i)) [
      | inl n ↦ rw (swap, n) refl
      | inr (a, hi) ↦ elim (Option-cases (get_elem? xs j)) [
        | inl n ↦ rw (swap, hi, n) refl
        | inr (b, hj) ↦
            let first = sum_by-set_elem i b a xs hi in
            let again : get_elem? (set_elem i b xs) j ≡ some b = elim (Bool-cases (nat_beq i j)) [
              | inl same ↦
                  let e : i ≡ j = (nat_beq_iff i j).0 same in
                  subst (λ k. get_elem? (set_elem i b xs) k ≡ some b) e
                    (get-set_elem_same i b a xs hi)
              | inr other ↦
                  get-set_elem_other i j b xs (λ e. let t = (nat_beq_iff i j).1 e in cc) ∙ hj
            ] in
            let second = sum_by-set_elem j a b (set_elem i b xs) again in
            rw (swap, hi, hj) (omega arith)
      ]
    ]

    sum_by-shuffle_from :
        (draw : ℕ → ℕ) (i : ℕ) (xs : List A) → sum_by f (shuffle_from draw i xs) ≡ sum_by f xs
    unfolding shuffle_from
    sum_by-shuffle_from draw zero xs = refl
    sum_by-shuffle_from draw (suc i) xs =
        sum_by-shuffle_from draw i (swap (suc i) (draw (suc i) % suc (suc i)) xs)
        ∙ sum_by-swap (suc i) (draw (suc i) % suc (suc i)) xs

    -- Whatever is drawn, a shuffled array holds each element as often as the array does: what is
    -- counted of the elements adds up to the same.
    pub fisher_yates_shuffle_keeps :
        (draw : ℕ → ℕ) (xs : List A) → sum_by f (fisher_yates_shuffle draw xs) ≡ sum_by f xs
    unfolding fisher_yates_shuffle
    fisher_yates_shuffle_keeps draw xs = sum_by-shuffle_from draw (length xs - 1) xs

length_sum {ℓ} : {A : Type ℓ} (xs : List A) → sum_by (λ _. 1) xs ≡ length xs
length_sum [] = refl
length_sum (x ∷ xs) = omega (arith, length_sum xs)

length-fisher_yates_shuffle {ℓ} :
    {A : Type ℓ} (draw : ℕ → ℕ) (xs : List A) → length (fisher_yates_shuffle draw xs) ≡ length xs
length-fisher_yates_shuffle draw xs =
    sym (length_sum (fisher_yates_shuffle draw xs))
    ∙ fisher_yates_shuffle_keeps (λ _. 1) draw xs
    ∙ length_sum xs

pub get-below {ℓ} :
    {A : Type ℓ} (i : ℕ) (xs : List A) → i < length xs → (a : A) × (get_elem? xs i ≡ some a)
get-below i [] h = let none_there : ⊥ = omega arith in absurd none_there
get-below zero (x ∷ xs) h = (x, refl)
get-below (suc i) (x ∷ xs) h = get-below i xs (omega arith)

get-drop {ℓ} :
    {A : Type ℓ} (f : A → ℕ) (i : ℕ) (xs : List A)
    → i < length xs
    → (b : A) × (get_elem? xs i ≡ some b)
      × (sum_by f (drop i xs) ≡ f b + sum_by f (drop (suc i) xs))
get-drop f i [] h = let none_there : ⊥ = omega arith in absurd none_there
get-drop f zero (x ∷ xs) h = (x, refl, refl)
get-drop f (suc i) (x ∷ xs) h = get-drop f i xs (omega arith)

module _ (f : List ℕ → ℕ) (shuffled : List (List ℕ)) where
  length-pick_from : (i left : ℕ) → 0 < length shuffled → length (pick_from shuffled i left) ≡ left
  unfolding pick_from
  length-pick_from i zero h = refl
  length-pick_from i (suc left) h =
      let (b, found, _) = get-drop f (i % length shuffled) shuffled (mod-lt i h) in
      rw (pick_from, found) (ap suc (length-pick_from (suc i) left h))

  -- Without a wrap the picks are consecutive elements.
  sum_by-pick_from :
      (i left : ℕ)
      → i + left ≤ length shuffled
      → sum_by f (pick_from shuffled i left) ≤ sum_by f (drop i shuffled)
  unfolding pick_from
  sum_by-pick_from i zero h = omega arith
  sum_by-pick_from i (suc left) h =
      let (b, found, parts) = get-drop f i shuffled (omega arith) in
      let within : i % length shuffled ≡ i = mod-eq_of_lt (omega arith) in
      rw (pick_from, within, found) (omega (arith, sum_by-pick_from (suc i) left (omega arith)))

-- Whatever is drawn, as many blocks are picked as are asked for, if there is any block; and if there
-- are as many blocks, none is picked more often than it is given: what is counted of the picks is
-- at most what is counted of the blocks.
pub pick_distinct_blocks_lem :
    (f : List ℕ → ℕ) (draw : ℕ → ℕ) (blocks : List (List ℕ)) (count : ℕ)
    → (0 < length blocks → length (pick_distinct_blocks draw blocks count) ≡ count)
      × (count ≤ length blocks
          → sum_by f (pick_distinct_blocks draw blocks count) ≤ sum_by f blocks)
unfolding pick_distinct_blocks
pick_distinct_blocks_lem f draw [] count = (λ h. omega arith, λ h. omega arith)
pick_distinct_blocks_lem f draw (block ∷ blocks) count =
    let shuffled = fisher_yates_shuffle draw (block ∷ blocks) in
    let same = length-fisher_yates_shuffle draw (block ∷ blocks) in
    let kept = fisher_yates_shuffle_keeps f draw (block ∷ blocks) in
    (
      λ h. length-pick_from f shuffled 0 count (omega arith),
      λ h. omega (arith, sum_by-pick_from f shuffled 0 count (omega arith)),
    )
