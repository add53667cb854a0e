-- ===== src/Ga/Shuffle.antt =====
-- ga/chromosome.ts, fisherYatesShuffle and pickDistinctBlocks. `Math.floor(Math.random() * (i + 1))`
-- in the round of `i` is a number below `i + 1`: the argument `draw i` reduced by that modulus.
pub mod Picks
pub mod Members
use ga_scheduler_v.Base.{
  ℕ, zero, suc, ◌+◌, ◌-◌, ◌%◌, Option, none, some, List, [], ◌∷◌, length, get_elem?,
}

module _ {ℓ} {A : Type ℓ} where
  -- `result[i] = v`
  unfoldable pub set_elem : ℕ → A → List A → List A
  set_elem i v [] = []
  set_elem zero v (x ∷ xs) = v ∷ xs
  set_elem (suc i) v (x ∷ xs) = x ∷ set_elem i v xs

  -- `[result[i], result[j]] = [result[j]!, result[i]!]`
  unfoldable pub swap : ℕ → ℕ → List A → List A
  unfolding set_elem
  swap i j xs = elim (get_elem? xs i) [
    | none ↦ xs
    | some a ↦ elim (get_elem? xs j) [ none ↦ xs | some b ↦ set_elem j a (set_elem i b xs) ]
  ]

  -- The loop from `i` down to 1.
  unfoldable pub shuffle_from : (ℕ → ℕ) → ℕ → List A → List A
  unfolding swap
  shuffle_from draw zero xs = xs
  shuffle_from draw (suc i) xs = shuffle_from draw i (swap (suc i) (draw (suc i) % suc (suc i)) xs)

  unfoldable pub fisher_yates_shuffle : (ℕ → ℕ) → List A → List A
  unfolding shuffle_from
  fisher_yates_shuffle draw xs = shuffle_from draw (length xs - 1) xs

-- `left` rounds of the loop that pushes `shuffled[i % shuffled.length]`.
unfoldable pub pick_from : List (List ℕ) → ℕ → ℕ → List (List ℕ)
pick_from shuffled i zero = []
pick_from shuffled i (suc left) =
    let rest = pick_from shuffled (suc i) left in
    elim (get_elem? shuffled (i % length shuffled)) [ none ↦ rest | some block ↦ block ∷ rest ]

unfoldable pub pick_distinct_blocks : (ℕ → ℕ) → List (List ℕ) → ℕ → List (List ℕ)
unfolding fisher_yates_shuffle pick_from
pick_distinct_blocks draw [] count = []
pick_distinct_blocks draw (block ∷ blocks) count =
    pick_from (fisher_yates_shuffle draw (block ∷ blocks)) 0 count
