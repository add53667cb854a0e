-- ===== src/Ga/Fragmentation.antt =====
-- ga/fitness.ts, calculateFragmentationPenalty.
use ga_scheduler_v.Base.{
  ℕ, ◌+◌, ◌-◌, max, String, Option, none, some, List, [], ◌∷◌, map, ltb, if◌then◌else◌, ◌==◌,
  nat_eq, string_eq,
}
use ga_scheduler_v.Base.Map
use ga_scheduler_v.Base.Map.{Map}
use ga_scheduler_v.Types.{TimeSlot, PreGaCandidate, Chromosome}
use ga_scheduler_v.Slots.{SlotLookup, group_by_day, sort_by_start, back_to_back}
use ga_scheduler_v.Ga.Fitness.{candidate_map, known_genes, sum_sessions}

abbrev max_day_gap : ℕ
max_day_gap = 100

-- `slots.map((slot, index) => [slot.id, index])`
indexed : ℕ → List TimeSlot → List (ℕ × ℕ)
indexed i [] = []
indexed i (slot ∷ slots) = (slot.id, i) ∷ indexed (i + 1) slots

slot_index_by_day : SlotLookup → Map String (Map ℕ ℕ)
unfolding indexed group_by_day sort_by_start
slot_index_by_day lookup =
    map (λ (day, slots). (day, Map.from_list (indexed 0 (sort_by_start slots))))
      (group_by_day [] (map (λ entry. entry.1) lookup))

-- Math.abs(a - b)
abbrev distance : ℕ → ℕ → ℕ
distance a b = if ltb a b then b - a else a - b

-- The index of a slot in its day, if both are known.
abbrev index_of : Map String (Map ℕ ℕ) → String → ℕ → Option ℕ
index_of by_day day id = elim (Map.get day by_day) [ none ↦ none | some m ↦ Map.get id m ]

-- What the pair of a slot and the next one adds.
pair_penalty : Map String (Map ℕ ℕ) → TimeSlot → TimeSlot → ℕ
pair_penalty by_day current next =
    if current.day == next.day
    then (if back_to_back current next then 0 else elim (index_of by_day current.day current.id) [
      | none ↦ 1
      | some i ↦ elim (index_of by_day current.day next.id) [
        | none ↦ 1
        | some j ↦ max 1 (distance j i - 1)
      ]
    ])
    else max_day_gap

-- A pair with an unknown slot is skipped.
ids_penalty : SlotLookup → Map String (Map ℕ ℕ) → ℕ → ℕ → ℕ
unfolding pair_penalty
ids_penalty lookup by_day a b = elim (Map.get a lookup) [
  | none ↦ 0
  | some current ↦ elim (Map.get b lookup) [
    | none ↦ 0
    | some next ↦ pair_penalty by_day current next
  ]
]

-- The loop over the adjacent pairs of `session.timeSlotIds`.
session_penalty : SlotLookup → Map String (Map ℕ ℕ) → List ℕ → ℕ
unfolding ids_penalty
session_penalty lookup by_day [] = 0
session_penalty lookup by_day (a ∷ []) = 0
session_penalty lookup by_day (a ∷ b ∷ rest) =
    ids_penalty lookup by_day a b + session_penalty lookup by_day (b ∷ rest)

unfoldable pub calculate_fragmentation_penalty :
    Chromosome → List PreGaCandidate → Option SlotLookup → ℕ
unfolding candidate_map slot_index_by_day session_penalty
calculate_fragmentation_penalty chromosome candidates none = 0
calculate_fragmentation_penalty chromosome candidates (some lookup) =
    let by_day = slot_index_by_day lookup in
    sum_sessions (λ s. session_penalty lookup by_day s.time_slot_ids)
      (known_genes candidates chromosome)
