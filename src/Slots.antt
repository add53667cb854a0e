-- ===== src/Slots.antt =====
-- ga/chromosome.ts, the slot finder: `buildSlotLookup` and `findContiguousSlots`; and
-- `computeLongestContiguousRun` of pre-ga/validator.ts, which groups and sorts the same way.
pub mod Contiguous
pub mod Grouping
pub mod Blocks
pub mod LongestRun
pub mod SameDay
use ga_scheduler_v.Base.{
  ℕ, zero, suc, ◌+◌, String, Bool, true, false, List, [], ◌∷◌, ◌++◌, map, Option, none, some,
  length, take, leb, ltb, ◌&&◌, flat_map, max_by, sort, locale_le, if◌then◌else◌, ◌==◌, string_eq,
  nat_eq,
}
use ga_scheduler_v.Base.Map
use ga_scheduler_v.Base.Map.{Map}
use ga_scheduler_v.Types.{TimeSlot}

abbrev pub SlotLookup : Type 0
SlotLookup = Map ℕ TimeSlot

-- buildSlotLookup
unfoldable pub build_slot_lookup : List TimeSlot → SlotLookup
build_slot_lookup slots = Map.from_list (map (λ ts. (ts.id, ts)) slots)

-- `ids.map(id => lookup.get(id)).filter(ts => ts !== undefined)`
unfoldable pub resolve : SlotLookup → List ℕ → List TimeSlot
resolve lookup [] = []
resolve lookup (i ∷ ids) = elim (Map.get i lookup) [
  | none ↦ resolve lookup ids
  | some ts ↦ ts ∷ resolve lookup ids
]

-- The `byDay` map: each slot is pushed on the bucket of its day.
unfoldable pub group_by_day :
    Map String (List TimeSlot) → List TimeSlot → Map String (List TimeSlot)
group_by_day m [] = m
group_by_day m (ts ∷ rest) =
    group_by_day (Map.set ts.day (Map.get_or ts.day [] m ++ ts ∷ []) m) rest

-- `(a, b) => a.startTime.localeCompare(b.startTime)`, as the test that it is not positive.
unfoldable pub starts_no_later : TimeSlot → TimeSlot → Bool
starts_no_later a b = locale_le a.start_time b.start_time

unfoldable pub sort_by_start : List TimeSlot → List TimeSlot
sort_by_start = sort starts_no_later

-- `a.endTime === b.startTime`
abbrev pub back_to_back : TimeSlot → TimeSlot → Bool
back_to_back a b = a.end_time == b.start_time

-- Puts `x` before the first chain if it runs on into it, and alone before it otherwise.
abbrev pub link : TimeSlot → List (List TimeSlot) → List (List TimeSlot)
link x [] = (x ∷ []) ∷ []
link x ([] ∷ cs) = (x ∷ []) ∷ cs
link x ((y ∷ ys) ∷ cs) = if back_to_back x y then (x ∷ y ∷ ys) ∷ cs else (x ∷ []) ∷ (y ∷ ys) ∷ cs

-- The maximal runs `daySlots[chainStart .. i-1]` of back-to-back slots, in order: the loop over
-- `i` breaks a run where `daySlots[i-1].endTime !== daySlots[i].startTime`.
unfoldable pub chains : List TimeSlot → List (List TimeSlot)
chains [] = []
chains (x ∷ xs) = link x (chains xs)

-- `slice(w, w + duration)` for each start `w` of a run that leaves room for `duration` slots.
unfoldable pub windows : ℕ → List TimeSlot → List (List TimeSlot)
windows duration [] = []
windows duration (x ∷ xs) =
    if leb duration (length (x ∷ xs)) then take duration (x ∷ xs) ∷ windows duration xs else []

slot_ids : List TimeSlot → List ℕ
slot_ids = map (λ ts. ts.id)

-- The blocks of one day: nothing if the day has too few slots.
unfoldable pub day_blocks : ℕ → List TimeSlot → List (List ℕ)
unfolding slot_ids
day_blocks duration slots =
    if ltb (length slots) duration
    then []
    else map slot_ids (flat_map (windows duration) (chains (sort_by_start slots)))

-- findContiguousSlots
unfoldable pub find_contiguous_slots : List ℕ → ℕ → SlotLookup → List (List ℕ)
find_contiguous_slots available zero lookup = []
find_contiguous_slots available (suc d) lookup =
    if ltb (length available) (suc d)
    then []
    else (let resolved = resolve lookup available in
        if ltb (length resolved) (suc d)
        then []
        else flat_map (λ bucket. day_blocks (suc d) bucket.1) (group_by_day [] resolved))

-- The inner loop of computeLongestContiguousRun, with `bucket[i - 1]` as `prev`.
unfoldable pub run_loop : TimeSlot → ℕ → ℕ → List TimeSlot → ℕ
run_loop prev run best [] = best
run_loop prev run best (x ∷ xs) =
    let run' : ℕ = if back_to_back prev x then run + 1 else 1 in
    run_loop x run' (if back_to_back prev x && ltb best run' then run' else best) xs

-- `bestForDay` of a sorted bucket.
unfoldable pub best_for_day : List TimeSlot → ℕ
unfolding run_loop
best_for_day [] = 1
best_for_day (x ∷ xs) = run_loop x 1 1 xs

-- computeLongestContiguousRun
unfoldable pub compute_longest_contiguous_run : List ℕ → SlotLookup → ℕ
compute_longest_contiguous_run ids time_slot_by_id =
    max_by (λ bucket. best_for_day (sort_by_start bucket.1))
      (group_by_day [] (resolve time_slot_by_id ids))
