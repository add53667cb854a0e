-- ===== src/PreGa/Validator/Fitting.antt =====
-- pre-ga/validator.ts: the candidates that it emits are what the genetic algorithm needs.

use ga_scheduler_v.Base.{
  ℕ, ◌<◌, ◌≡◌, refl, ap, ◌∙◌, inl, inr, Bool, true, false, ◌&&◌, List, [], ◌∷◌, map, Memᴰ, Option,
  none, some, length, leb, ltb, min, sort, Memᴰ-sort, All, All-append, All_get, All-map,
  Option-cases, Bool-cases, nat_eq, ◌==◌, arith,
}
use ga_scheduler_v.Base.Map
use ga_scheduler_v.Base.Map.{Map}
use ga_scheduler_v.Types.{Room, TimeSlot, CourseOffering, PreGaCandidate}
use ga_scheduler_v.PreGa.Rooms.{
  RoomPhase, Placement, locked_room, alternates, split, rejected, is_null_room, has_room,
  qualifying, max_capacity, required_sessions, max_parallel_sessions_hard_cap, place_split,
  place_among, place, keep_placed, place_all, room_phase,
}
use ga_scheduler_v.PreGa.Cohorts.{
  lecturer_ids_of, lecturer_pool_of, cohort_candidate, raw_candidates, cohorts_of, tag,
  tag_entities,
}
use ga_scheduler_v.PreGa.Validator.{check_all, locked_offerings, run_pre_ga}
use ga_scheduler_v.PreGa.Validator.Accounting.{
  IsStaffed, build_cohort_staffed, cohorts_of-All, cohorts_of-IsStaffed,
}
use ga_scheduler_v.PreGa.Validator.Cohorting.{mem-lecturer_pool_of}
use ga_scheduler_v.Ga.Valid.{Within, IsCandidate}

-- Without a room of its own an offering has rooms to choose from.
abbrev Pooled : Map ℕ (List ℕ) → CourseOffering → Type 0
Pooled m o = o.room_id ≡ none → (ids : List ℕ) × (Map.get o.id m ≡ some ids) × (0 < length ids)

Pooled-set :
    (m : Map ℕ (List ℕ)) (i : ℕ) (ids : List ℕ) (o : CourseOffering)
    → 0 < length ids
    → Pooled m o
    → Pooled (Map.set i ids m) o
Pooled-set m i ids o some_room old free = elim (Bool-cases (i == o.id)) [
  | inl same ↦ (ids, Map.get-set i o.id ids m ∙ (rw same refl), some_room)
  | inr other ↦ let (ks, e, n) = old free in (ks, Map.get-set i o.id ids m ∙ (rw other e), n)
]

-- What a placement owes an offering.
abbrev Fits : CourseOffering → Placement → Type 0
Fits o locked_room = ¬ (o.room_id ≡ none)
Fits o (alternates ids) = 0 < length ids
Fits o (split ids n) = 0 < length ids
Fits o (rejected result) = Unit

place_split-Fits :
    (rooms : List Room) (o : CourseOffering) (ids : List ℕ)
    → 0 < length ids
    → Fits o (place_split rooms o ids)
unfolding place_split
place_split-Fits rooms o ids some_room =
    elim (Option-cases (required_sessions o.effective_student_count (max_capacity rooms ids))) [
      | inl endless ↦ rw (place_split, endless) tt
      | inr (n, e) ↦ elim (Bool-cases (ltb (min max_parallel_sessions_hard_cap (length ids)) n)) [
        | inl many ↦ rw (place_split, e, many) tt
        | inr few ↦ rw (place_split, e, few) some_room
      ]
    ]

place_among-Fits :
    (rooms : List Room) (o : CourseOffering) (ids : List ℕ) → Fits o (place_among rooms o ids)
unfolding place_among
place_among-Fits rooms o [] = tt
place_among-Fits rooms o (id ∷ ids) = elim (Bool-cases (is_null_room o)) [
  | inl free ↦ rw (place_among, free) (place_split-Fits rooms o (id ∷ ids) (omega arith))
  | inr own ↦ let some_room : 0 < length (id ∷ ids) = omega arith in rw (place_among, own) some_room
]

has_room_lem : (o : CourseOffering) → has_room o ≡ true → ¬ (o.room_id ≡ none)
has_room_lem o h free =
    let has : Option ℕ → Bool = λ r. elim r [ none ↦ false | some _ ↦ true ] in
    let lacks : has_room o ≡ false = ap has free in cc

place-Fits : (rooms : List Room) (o : CourseOffering) → Fits o (place rooms o)
unfolding place
place-Fits rooms o = elim (Bool-cases (o.is_fixed && has_room o)) [
  | inl pinned ↦ rw (place, pinned) (has_room_lem o (ground arith))
  | inr unpinned ↦ rw (place, unpinned) (place_among-Fits rooms o (qualifying rooms o))
]

abbrev IsPooled : RoomPhase → Type 0
IsPooled p = All (Pooled p.possible_room_ids_by_offering) p.still_feasible

widen :
    (m : Map ℕ (List ℕ)) (i : ℕ) (ids : List ℕ) (offerings : List CourseOffering)
    → 0 < length ids
    → All (Pooled m) offerings
    → All (Pooled (Map.set i ids m)) offerings
widen m i ids [] some_room h = tt
widen m i ids (o ∷ offerings) some_room h =
    (Pooled-set m i ids o some_room h.0, widen m i ids offerings some_room h.1)

own_set :
    (m : Map ℕ (List ℕ)) (o : CourseOffering) (ids : List ℕ)
    → 0 < length ids
    → Pooled (Map.set o.id ids m) o
own_set m o ids some_room free = (
  ids,
  Map.get-set o.id o.id ids m ∙ (let same : (o.id == o.id) ≡ true = ground arith in rw same refl),
  some_room,
)

keep_placed-IsPooled :
    (o : CourseOffering) (pl : Placement) (p : RoomPhase)
    → Fits o pl
    → IsPooled p
    → IsPooled (keep_placed o pl p)
unfolding keep_placed
keep_placed-IsPooled o locked_room p fits h =
    All-append (Pooled p.possible_room_ids_by_offering) p.still_feasible (o ∷ []) h
      (λ free. absurd (fits free), tt)
keep_placed-IsPooled o (alternates ids) p fits h =
    let m = p.possible_room_ids_by_offering in
    All-append (Pooled (Map.set o.id ids m)) p.still_feasible (o ∷ [])
      (widen m o.id ids p.still_feasible fits h) (own_set m o ids fits, tt)
keep_placed-IsPooled o (split ids n) p fits h =
    let m = p.possible_room_ids_by_offering in
    All-append (Pooled (Map.set o.id ids m)) p.still_feasible (o ∷ [])
      (widen m o.id ids p.still_feasible fits h) (own_set m o ids fits, tt)
keep_placed-IsPooled o (rejected result) p fits h = h

place_all-IsPooled :
    (rooms : List Room) (offerings : List CourseOffering) (p : RoomPhase)
    → IsPooled p
    → IsPooled (place_all rooms offerings p)
unfolding place_all
place_all-IsPooled rooms [] p h = h
place_all-IsPooled rooms (o ∷ rest) p h =
    place_all-IsPooled rooms rest (keep_placed o (place rooms o) p)
      (keep_placed-IsPooled o (place rooms o) p (place-Fits rooms o) h)

-- What is true of the candidate of each cohort is true of every raw candidate.
pub raw_candidates-All :
    (P : PreGaCandidate → Type 0) (rooms : List Room) (phase : RoomPhase) (slots : List TimeSlot)
    (cohorts : List (List CourseOffering))
    → All (All IsStaffed) cohorts
    → ((primary : CourseOffering) (others : List CourseOffering)
        → Memᴰ (primary ∷ others) cohorts
        → P (cohort_candidate rooms phase slots primary others))
    → All P (raw_candidates rooms phase slots cohorts)
unfolding raw_candidates
raw_candidates-All P rooms phase slots [] staffed h = tt
raw_candidates-All P rooms phase slots ([] ∷ cohorts) staffed h =
    raw_candidates-All P rooms phase slots cohorts staffed.1 (λ p os m. h p os (Memᴰ.tail m))
raw_candidates-All P rooms phase slots ((primary ∷ others) ∷ cohorts) staffed h =
    rw (raw_candidates, build_cohort_staffed rooms phase slots primary others staffed.0.0)
      (
        h primary others (Memᴰ.head refl),
        raw_candidates-All P rooms phase slots cohorts staffed.1 (λ p os m. h p os (Memᴰ.tail m)),
      )

groups-Within :
    (siblings listed : List CourseOffering)
    → ((o : CourseOffering) → Memᴰ o listed → Memᴰ o siblings)
    → All
        (λ group. Within group (lecturer_pool_of siblings))
        (map (λ (o : CourseOffering). sort leb (lecturer_ids_of o)) listed)
groups-Within siblings [] sub = tt
groups-Within siblings (o ∷ listed) sub = (
  λ l m.
      mem-lecturer_pool_of siblings o l (sub o (Memᴰ.head refl))
        ((Memᴰ-sort leb (lecturer_ids_of o) l).0 m),
  groups-Within siblings listed (λ k m. sub k (Memᴰ.tail m)),
)

tag-IsCandidate :
    (locked : Map ℕ ℕ) (rooms : List Room) (phase : RoomPhase) (slots : List TimeSlot)
    (primary : CourseOffering) (others : List CourseOffering)
    → Pooled phase.possible_room_ids_by_offering primary
    → IsCandidate (tag locked (cohort_candidate rooms phase slots primary others))
unfolding tag cohort_candidate
tag-IsCandidate locked rooms phase slots primary others pooled =
    let siblings = primary ∷ others in
    let assigned : Within (lecturer_ids_of primary) (lecturer_pool_of siblings) =
      λ l m. mem-lecturer_pool_of siblings primary l (Memᴰ.head refl) m in
    let grouped = groups-Within siblings siblings (λ o m. m) in
    elim (Option-cases (Map.get primary.id locked)) [
      | inr (room, held) ↦
          rw (tag, held)
            (record {
              assigned = assigned;
              grouped = grouped;
              owned = λ h. omega arith;
              housed = λ free. cc;
            })
      | inl untagged ↦
          rw (tag, untagged)
            (record {
              assigned = assigned;
              grouped = grouped;
              owned = λ h. omega arith;
              housed = λ free. let (ids, e, n) = pooled free in (refl, rw e n);
            })
    ]

-- Where the rooms are given, every candidate that runPreGA emits is what the genetic algorithm needs:
-- its lecturers and the lecturers of each sibling are of its pool, a cohort has a group of lecturers,
-- and a candidate without a room is flexible and has rooms to choose from.
pub run_pre_ga-IsCandidate :
    (offerings : List CourseOffering) (slots : List TimeSlot) (rooms : List Room)
    (locked : Option (Map ℕ ℕ))
    → All IsCandidate (run_pre_ga offerings slots (some rooms) locked).candidates
unfolding run_pre_ga tag_entities room_phase
run_pre_ga-IsCandidate offerings slots rooms locked =
    let phase = room_phase (some rooms) (check_all (length slots) offerings).feasible in
    let cohorts = cohorts_of phase.still_feasible in
    let locks : Map ℕ ℕ = elim locked [
      | none ↦ Map.from_list (locked_offerings phase.still_feasible)
      | some m ↦ m
    ] in
    let pooled = cohorts_of-All (Pooled phase.possible_room_ids_by_offering) phase.still_feasible (
      place_all-IsPooled rooms (check_all (length slots) offerings).feasible
        (record {
          still_feasible = [];
          infeasible = [];
          possible_room_ids_by_offering = [];
          null_room_parallel_by_offering = [];
        })
        tt) in
    All-map IsCandidate (tag locks) (raw_candidates rooms phase slots cohorts) (
      All_get (λ c. IsCandidate (tag locks c)) (raw_candidates rooms phase slots cohorts)
        (raw_candidates-All (λ c. IsCandidate (tag locks c)) rooms phase slots cohorts
          (cohorts_of-IsStaffed offerings slots (some rooms))
          (λ primary others m.
            tag-IsCandidate locks rooms phase slots primary others
              (All_get (All (Pooled phase.possible_room_ids_by_offering)) cohorts pooled
                (primary ∷ others) m).0)))
