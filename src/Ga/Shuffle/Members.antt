-- ===== src/Ga/Shuffle/Members.antt =====
-- ga/chromosome.ts: what is in a shuffle or among the picked blocks was there before.
use mathlib.Core.List.Memᴰ
use ga_scheduler_v.Base.{
  ℕ, zero, suc, ◌-◌, ◌%◌, ◌≡◌, subst, sym, ◌⊎◌, inl, inr, some, Option-cases, List, [], ◌∷◌, Memᴰ,
  length, get_elem?,
}
use ga_scheduler_v.Ga.Shuffle.{
  set_elem, swap, shuffle_from, fisher_yates_shuffle, pick_from, pick_distinct_blocks,
}

module _ {ℓ} {A : Type ℓ} where
  pub mem_of_get : (xs : List A) (i : ℕ) {a : A} → get_elem? xs i ≡ some a → Memᴰ a xs
  mem_of_get [] i e = cc
  mem_of_get (x ∷ xs) zero e = Memᴰ.head (cc)
  mem_of_get (x ∷ xs) (suc i) e = Memᴰ.tail (mem_of_get xs i e)

  pub set_elem-mem :
      (i : ℕ) (v : A) (xs : List A) {a : A} → Memᴰ a (set_elem i v xs) → (a ≡ v) ⊎ Memᴰ a xs
  unfolding set_elem
  set_elem-mem i v [] m = inr m
  set_elem-mem zero v (x ∷ xs) m = elim (Memᴰ.cases_cons m) [
    | inl e ↦ inl e
    | inr t ↦ inr (Memᴰ.tail t)
  ]
  set_elem-mem (suc i) v (x ∷ xs) m = elim (Memᴰ.cases_cons m) [
    | inl e ↦ inr (Memᴰ.head e)
    | inr t ↦ elim (set_elem-mem i v xs t) [ inl e ↦ inl e | inr t' ↦ inr (Memᴰ.tail t') ]
  ]

  swap-mem : (i j : ℕ) (xs : List A) {a : A} → Memᴰ a (swap i j xs) → Memᴰ a xs
  unfolding swap
  swap-mem i j xs m = elim (Option-cases (get_elem? xs i)) [
    | inl n ↦ rw (swap, n) at m
    | inr (x, hi) ↦ elim (Option-cases (get_elem? xs j)) [
      | inl n ↦ rw (swap, hi, n) at m
      | inr (y, hj) ↦ elim (set_elem-mem j x (set_elem i y xs) (rw (swap, hi, hj) at m)) [
        | inl e ↦ subst (λ k. Memᴰ k xs) (sym e) (mem_of_get xs i hi)
        | inr t ↦ elim (set_elem-mem i y xs t) [
          | inl e ↦ subst (λ k. Memᴰ k xs) (sym e) (mem_of_get xs j hj)
          | inr t' ↦ t'
        ]
      ]
    ]
  ]

  shuffle_from-mem :
      (draw : ℕ → ℕ) (i : ℕ) (xs : List A) {a : A} → Memᴰ a (shuffle_from draw i xs) → Memᴰ a xs
  unfolding shuffle_from
  shuffle_from-mem draw zero xs m = m
  shuffle_from-mem draw (suc i) xs m =
      swap-mem (suc i) (draw (suc i) % suc (suc i)) xs (shuffle_from-mem draw i _ m)

  pub fisher_yates_shuffle-mem :
      (draw : ℕ → ℕ) (xs : List A) {a : A} → Memᴰ a (fisher_yates_shuffle draw xs) → Memᴰ a xs
  unfolding fisher_yates_shuffle
  fisher_yates_shuffle-mem draw xs m = shuffle_from-mem draw (length xs - 1) xs m

pick_from-mem :
    (shuffled : List (List ℕ)) (i left : ℕ) {block : List ℕ}
    → Memᴰ block (pick_from shuffled i left)
    → Memᴰ block shuffled
unfolding pick_from
pick_from-mem shuffled i zero m = absurd (Memᴰ.not-nil m)
pick_from-mem shuffled i (suc left) m =
    elim (Option-cases (get_elem? shuffled (i % length shuffled))) [
      | inl n ↦ pick_from-mem shuffled (suc i) left (rw (pick_from, n) at m)
      | inr (b, found) ↦ elim (Memᴰ.cases_cons (rw (pick_from, found) at m)) [
        | inl e ↦ subst (λ k. Memᴰ k shuffled) (sym e) (mem_of_get shuffled _ found)
        | inr t ↦ pick_from-mem shuffled (suc i) left t
      ]
    ]

pub pick_distinct_blocks-mem :
    (draw : ℕ → ℕ) (blocks : List (List ℕ)) (count : ℕ) {block : List ℕ}
    → Memᴰ block (pick_distinct_blocks draw blocks count)
    → Memᴰ block blocks
unfolding pick_distinct_blocks
pick_distinct_blocks-mem draw [] count m = absurd (Memᴰ.not-nil m)
pick_distinct_blocks-mem draw (b ∷ blocks) count m =
    fisher_yates_shuffle-mem draw (b ∷ blocks)
      (pick_from-mem (fisher_yates_shuffle draw (b ∷ blocks)) 0 count m)
