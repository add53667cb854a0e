-- ===== src/Slots/LongestRun.antt =====
-- The longest run of layer 1 against the blocks that layers 2 and 3 look for.
use native.Mathlib.Nat.{zero-add}
use ga_scheduler_v.Base.{
  ℕ, zero, suc, Bool, true, false, ◌&&◌, ◌+◌, ◌-◌, ◌≤◌, ◌<◌, ◌≡◌, ◌↔◌, refl, List, [], ◌∷◌, map,
  All, All_get, length, max, max_by, max_by-le, flat_map-eq-nil, cons≢nil, ltb→lt, All-tabulate,
  ltb, if◌then◌else◌, Bool-cases, inl, inr, flat_map, length-sort, arith,
}
use ga_scheduler_v.Types.{TimeSlot}
use ga_scheduler_v.Slots.{
  SlotLookup, resolve, group_by_day, starts_no_later, sort_by_start, back_to_back, link, chains,
  windows, slot_ids, day_blocks, find_contiguous_slots, run_loop, best_for_day,
  compute_longest_contiguous_run,
}
use ga_scheduler_v.Slots.Grouping.{Bucket, IsSized, length-resolve-le, group_by_day-IsSized}

-- The chains of a day that is not empty begin with one that holds its first slot.
chains-head :
    (x : TimeSlot) (xs : List TimeSlot)
    → (c : List TimeSlot) × (cs : List (List TimeSlot)) × (chains (x ∷ xs) ≡ (x ∷ c) ∷ cs)
unfolding chains
chains-head x [] = ([], [], refl)
chains-head x (y ∷ ys) =
    let (c, cs, e) = chains-head y ys in
    elim (Bool-cases (back_to_back x y)) [
      | inl joined ↦ (y ∷ c, cs, rw (e, joined))
      | inr apart ↦ ([], (y ∷ c) ∷ cs, rw (e, apart))
    ]

-- The length of the first chain, and of the longest chain after it.
abbrev first_length : List (List TimeSlot) → ℕ
first_length [] = 0
first_length (c ∷ cs) = length c

abbrev rest_longest : List (List TimeSlot) → ℕ
rest_longest [] = 0
rest_longest (c ∷ cs) = max_by length cs

first_length-pos : (x : TimeSlot) (xs : List TimeSlot) → 1 ≤ first_length (chains (x ∷ xs))
first_length-pos x xs = let (c, cs, e) = chains-head x xs in rw e (omega arith)

record Linked (x y : TimeSlot) (xs ys : List TimeSlot) : Type 0 where
  first :
      first_length (chains xs) ≡ (if back_to_back x y then suc (first_length (chains ys)) else 1)
  rest : rest_longest (chains xs) ≡ (
      if back_to_back x y
      then rest_longest (chains ys)
      else max (first_length (chains ys)) (rest_longest (chains ys)))

chains-Linked : (x y : TimeSlot) (ys : List TimeSlot) → Linked x y (x ∷ y ∷ ys) (y ∷ ys)
chains-Linked x y ys =
    let (c, cs, e) = chains-head y ys in
    elim (Bool-cases (back_to_back x y)) [
      | inl joined ↦ record {
        first = rw (chains-cons, e, joined);
        rest = rw (chains-cons, e, joined);
      }
      | inr apart ↦ record { first = rw (chains-cons, e, apart); rest = rw (chains-cons, e, apart) }
    ]
  where
    chains-cons : chains (x ∷ y ∷ ys) ≡ link x (chains (y ∷ ys))
    chains-cons = unfold chains in refl

-- With `run` slots of the first chain already counted, the loop ends at the longest chain.
abbrev Reaches : TimeSlot → ℕ → ℕ → List TimeSlot → Type 0
Reaches x run best xs =
    run_loop x run best xs
    ≡ max best (max (run + first_length (chains (x ∷ xs)) - 1) (rest_longest (chains (x ∷ xs))))

abbrev longer : ℕ → ℕ → ℕ
longer best run = if ltb best run then run else best

longer_bounds : (best run : ℕ) → (run ≤ longer best run) × (longer best run ≡ max best run)
longer_bounds best run = ground arith

run_loop-Reaches :
    (x : TimeSlot) (run best : ℕ) (xs : List TimeSlot)
    → 1 ≤ run
    → run ≤ best
    → Reaches x run best xs
unfolding run_loop
run_loop-Reaches x run best [] pos le = unfold chains in omega arith
run_loop-Reaches x run best (y ∷ ys) pos le =
    go (back_to_back x y) (chains-Linked x y ys).first (chains-Linked x y ys).rest
      (run_loop-Reaches y (run + 1) (longer best (run + 1)) ys (omega arith)
        (longer_bounds best (run + 1)).0)
      (run_loop-Reaches y 1 best ys (omega arith) (omega arith))
  where
    go :
        (joined : Bool)
        → first_length (chains (x ∷ y ∷ ys))
          ≡ (if joined then suc (first_length (chains (y ∷ ys))) else 1)
        → rest_longest (chains (x ∷ y ∷ ys)) ≡ (
            if joined
            then rest_longest (chains (y ∷ ys))
            else max (first_length (chains (y ∷ ys))) (rest_longest (chains (y ∷ ys))))
        → Reaches y (run + 1) (longer best (run + 1)) ys
        → Reaches y 1 best ys
        → (let run' : ℕ = if joined then run + 1 else 1 in
            run_loop y run' (if joined && ltb best run' then run' else best) ys)
          ≡ max best (
              max
                (run + first_length (chains (x ∷ y ∷ ys)) - 1)
                (rest_longest (chains (x ∷ y ∷ ys))))
    go true f r on off =
        let f' : first_length (chains (x ∷ y ∷ ys)) ≡ suc (first_length (chains (y ∷ ys))) = f in
        let r' : rest_longest (chains (x ∷ y ∷ ys)) ≡ rest_longest (chains (y ∷ ys)) = r in
        rw on (omega (arith, longer_bounds best (run + 1), first_length-pos y ys))
    go false f r on off =
        let f' : first_length (chains (x ∷ y ∷ ys)) ≡ 1 = f in
        let r' : rest_longest (chains (x ∷ y ∷ ys))
            ≡ max (first_length (chains (y ∷ ys))) (rest_longest (chains (y ∷ ys))) =
          r in
        rw off (omega arith)

best_for_day_lem :
    (xs : List TimeSlot) → 1 ≤ length xs → best_for_day xs ≡ max_by length (chains xs)
unfolding best_for_day
best_for_day_lem [] pos = absurd (omega arith)
best_for_day_lem (x ∷ xs) pos =
    let (c, cs, e) = chains-head x xs in
    let reached = run_loop-Reaches x 1 1 xs (omega arith) (omega arith) in
    rw (reached, e) (omega arith)

-- A run has a window exactly if it is long enough.
windows-eq-nil : (d : ℕ) (xs : List TimeSlot) → 1 ≤ d → (windows d xs ≡ []) ↔ (length xs < d)
unfolding windows
windows-eq-nil d [] pos = (λ _. omega arith, λ _. refl)
windows-eq-nil d (x ∷ xs) pos = ground arith

link-length :
    (x : TimeSlot) (cs : List (List TimeSlot)) → max_by length (link x cs) ≤ suc (max_by length cs)
link-length x [] = omega arith
link-length x ([] ∷ cs) = omega arith
link-length x ((y ∷ ys) ∷ cs) = elim (Bool-cases (back_to_back x y)) [
  | inl joined ↦ rw joined (omega arith)
  | inr apart ↦ rw apart (omega arith)
]

chains-length : (xs : List TimeSlot) → max_by length (chains xs) ≤ length xs
unfolding chains
chains-length [] = omega arith
chains-length (x ∷ xs) = omega (arith, link-length x (chains xs), chains-length xs)

map-eq-nil : (l : List (List TimeSlot)) → (map slot_ids l ≡ []) ↔ (l ≡ [])
map-eq-nil [] = (λ e. refl, λ e. refl)
map-eq-nil (w ∷ l) = (λ e. absurd (cons≢nil e), λ e. absurd (cons≢nil e))

best_sorted :
    (bucket : List TimeSlot)
    → 1 ≤ length bucket
    → best_for_day (sort_by_start bucket) ≡ max_by length (chains (sort_by_start bucket))
unfolding sort_by_start
best_sorted bucket pos =
    best_for_day_lem (sort_by_start bucket) (rw (length-sort starts_no_later bucket) pos)

best_sorted_le :
    (bucket : List TimeSlot)
    → 1 ≤ length bucket
    → best_for_day (sort_by_start bucket) ≤ length bucket
unfolding sort_by_start
best_sorted_le bucket pos = omega (
  arith,
  best_sorted bucket pos,
  chains-length (sort_by_start bucket),
  length-sort starts_no_later bucket,
)

day_blocks-eq-nil :
    (d : ℕ) (bucket : List TimeSlot)
    → 1 ≤ d
    → 1 ≤ length bucket
    → (day_blocks d bucket ≡ []) ↔ (best_for_day (sort_by_start bucket) < d)
unfolding day_blocks
day_blocks-eq-nil d bucket pos full = elim (Bool-cases (ltb (length bucket) d)) [
  | inl few ↦
      rw few
        (λ _. omega (arith, best_sorted_le bucket full, ltb→lt (length bucket) d few), λ _. refl)
  | inr enough ↦
      let runs = chains (sort_by_start bucket) in
      let blocks = flat_map (windows d) runs in
      let iff = flat_map-eq-nil (windows d) length d runs pos (
        All-tabulate (λ c. (windows d c ≡ []) ↔ (length c < d)) runs
          (λ c _. windows-eq-nil d c pos)) in
      rw enough (
        λ e. rw (best_sorted bucket full) (iff.0 ((map-eq-nil blocks).0 e)),
        λ lt. (map-eq-nil blocks).1 (iff.1 (rw (best_sorted bucket full) at lt)),
      )
]

-- For a positive duration, `findContiguousSlots` finds no block exactly if the longest run that
-- `computeLongestContiguousRun` finds among the same slots is shorter than the duration.
pub find_contiguous_slots-eq-nil :
    (ids : List ℕ) (duration : ℕ) (lookup : SlotLookup)
    → 1 ≤ duration
    → (find_contiguous_slots ids duration lookup ≡ [])
      ↔ (compute_longest_contiguous_run ids lookup < duration)
unfolding find_contiguous_slots compute_longest_contiguous_run
find_contiguous_slots-eq-nil ids zero lookup pos = absurd (omega arith)
find_contiguous_slots-eq-nil ids (suc d) lookup pos = elim (Bool-cases (ltb (length ids) (suc d))) [
  | inl few ↦ rw few (λ _. omega (arith, bound, short, ltb→lt (length ids) (suc d) few), λ _. refl)
  | inr known ↦ elim (Bool-cases (ltb (length resolved) (suc d))) [
    | inl few ↦
        rw (known, few) (λ _. omega (arith, bound, ltb→lt (length resolved) (suc d) few), λ _. refl)
    | inr enough ↦
        rw (known, enough)
          (flat_map-eq-nil (λ b. day_blocks (suc d) b.1) best (suc d) buckets pos
            (All-tabulate (λ b. (day_blocks (suc d) b.1 ≡ []) ↔ (best b < suc d)) buckets
              (λ b m.
                day_blocks-eq-nil (suc d) b.1 pos
                  (All_get (IsSized (length resolved)) buckets sized b m).0)))
  ]
]
  where
    resolved : List TimeSlot
    resolved = resolve lookup ids

    buckets : List Bucket
    buckets = group_by_day [] resolved

    best : Bucket → ℕ
    best b = best_for_day (sort_by_start b.1)

    sized : All (IsSized (length resolved)) buckets
    sized = rw zero-add at (group_by_day-IsSized 0 [] resolved tt)

    short : length resolved ≤ length ids
    short = length-resolve-le lookup ids

    bound : max_by best buckets ≤ length resolved
    bound = max_by-le best (length resolved) buckets (
        All-tabulate (λ b. best b ≤ length resolved) buckets
          (λ b m.
            let (pos, fits) = All_get (IsSized (length resolved)) buckets sized b m in
            omega (arith, best_sorted_le b.1 pos)))
