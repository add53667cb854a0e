-- ===== src/Slots/SameDay.antt =====
-- ga/chromosome.ts, pickSameDaySessionSlots. The two numbers that Math.random draws among the tied
-- days are arguments, reduced by the number of those days.
pub mod OneDay
use ga_scheduler_v.Base.{
  ℕ, zero, suc, ◌%◌, String, Bool, Option, none, some, List, [], ◌∷◌, map, filter, flat_map, max_by,
  sort, length, take, get_elem?, leb, ltb, if◌then◌else◌, ◌==◌, nat_eq, string_eq,
}
use ga_scheduler_v.Types.{TimeSlot}
use ga_scheduler_v.Slots.{SlotLookup, resolve, group_by_day, sort_by_start, chains}

pub record DayProfile : Type 0 where
  pub day : String
  pub slots : List TimeSlot
  pub runs : List (List TimeSlot)
  pub longest_run : ℕ

-- `(a, b) => b.length - a.length`, as the test that it is not positive.
abbrev pub longer_first : List TimeSlot → List TimeSlot → Bool
longer_first a b = leb (length b) (length a)

abbrev pub first_length : List (List TimeSlot) → ℕ
first_length [] = 0
first_length (run ∷ _) = length run

unfoldable pub profile : String × List TimeSlot → DayProfile
profile (day, bucket) =
    let sorted = sort_by_start bucket in
    let runs = sort longer_first (chains sorted) in
    record { day = day; slots = sorted; runs = runs; longest_run = first_length runs }

-- The slots of the runs in order, up to `duration` of them.
abbrev pub first_slots : ℕ → DayProfile → List TimeSlot
first_slots duration p = take duration (flat_map (λ run. run) p.runs)

abbrev pub ids_of : List TimeSlot → List ℕ
ids_of = map (λ ts. ts.id)

-- One of the days whose `key` is the largest.
unfoldable pub pick_tied : (DayProfile → ℕ) → ℕ → List DayProfile → Option DayProfile
pick_tied key draw profiles =
    let tied = filter (λ p. key p == max_by key profiles) profiles in
    get_elem? tied (draw % length tied)

-- Path C: the day with the most slots, if it gives more than the primary day.
unfoldable pub fall_back : ℕ → ℕ → List DayProfile → DayProfile → List ℕ
unfolding pick_tied
fall_back duration draw profiles primary =
    let picked = ids_of (first_slots duration primary) in
    elim (pick_tied (λ p. length p.slots) draw profiles) [
      | none ↦ picked
      | some other ↦
          if other.day == primary.day
          then picked
          else (let alt = ids_of (first_slots duration other) in
              if ltb (length picked) (length alt) then alt else picked)
    ]

unfoldable pub pick_day : ℕ → ℕ → ℕ → List DayProfile → List ℕ
unfolding pick_tied fall_back
pick_day duration draw1 draw2 profiles = elim (pick_tied (λ p. p.longest_run) draw1 profiles) [
  | none ↦ []
  | some primary ↦
      let picked = ids_of (first_slots duration primary) in
      if leb duration (length picked)
      then picked
      else if ltb (length picked) (max_by (λ p. length p.slots) profiles)
      then fall_back duration draw2 profiles primary
      else picked
]

-- pickSameDaySessionSlots. Without a resolved slot there is no profile, and the result is empty.
unfoldable pub pick_same_day_session_slots : ℕ → ℕ → List ℕ → ℕ → SlotLookup → List ℕ
unfolding pick_day profile
pick_same_day_session_slots draw1 draw2 ids zero lookup = []
pick_same_day_session_slots draw1 draw2 ids (suc d) lookup =
    pick_day (suc d) draw1 draw2 (map profile (group_by_day [] (resolve lookup ids)))
