-- ===== src/PreGa/Cohorts.antt =====
-- pre-ga/validator.ts, the cohort pass, and pre-ga/entityTagger.ts. A room that gives the number of
-- sessions has seats: checkRoomCapacity has refused the others.
use ga_scheduler_v.Base.{
  ℕ, Bool, true, false, not, ◌&&◌, none, some, List, [], ◌∷◌, ◌++◌, map, flat_map, any, max_by,
  sort, length, ltb, leb, if◌then◌else◌, ◌==◌, nat_eq,
}
use ga_scheduler_v.Base.Map
use ga_scheduler_v.Base.Map.{Map}
use ga_scheduler_v.Base.Set
use ga_scheduler_v.Types.{Room, TimeSlot, Lecturer, CourseOffering, PreGaCandidate}
use ga_scheduler_v.Slots.{build_slot_lookup, compute_longest_contiguous_run}
use ga_scheduler_v.PreGa.Checks.{
  fail, cohort_lecturer_pool_empty, effective_student_count_mismatch, ceil_div,
}
use ga_scheduler_v.PreGa.Rooms.{Infeasible, RoomPhase, max_capacity}

pub data Policy : Type 0 where
  use_max reject : Policy

-- STUDENT_COUNT_DISAGREEMENT_POLICY
abbrev pub student_count_disagreement_policy : Policy
student_count_disagreement_policy = use_max

-- The offerings of each course, in the order in which they came.
unfoldable pub group_by_course :
    Map ℕ (List CourseOffering) → List CourseOffering → Map ℕ (List CourseOffering)
group_by_course m [] = m
group_by_course m (o ∷ rest) =
    group_by_course (Map.set o.course_id (Map.get_or o.course_id [] m ++ o ∷ []) m) rest

abbrev pub id_no_later : CourseOffering → CourseOffering → Bool
id_no_later a b = leb a.id b.id

unfoldable pub sort_by_id : List CourseOffering → List CourseOffering
sort_by_id = sort id_no_later

-- `cohortStudentCount`
abbrev pub cohort_student_count : List CourseOffering → ℕ
cohort_student_count = max_by (λ (s : CourseOffering). s.effective_student_count)

abbrev pub lecturer_ids_of : CourseOffering → List ℕ
lecturer_ids_of o = map (λ (l : Lecturer). l.id) o.lecturers

-- `lecturerPool`
unfoldable pub lecturer_pool_of : List CourseOffering → List ℕ
lecturer_pool_of siblings = sort leb (Set.from_list (flat_map lecturer_ids_of siblings))

module _ (rooms : List Room) (phase : RoomPhase) where
  -- `parallelSessionCount` of the cohort `primary ∷ others`.
  unfoldable pub parallel_sessions : CourseOffering → List CourseOffering → ℕ
  unfolding max_capacity
  parallel_sessions primary others =
      let students = cohort_student_count (primary ∷ others) in
      elim primary.room [
        | some room ↦ ceil_div students room.capacity
        | none ↦ elim others [
          | [] ↦ Map.get_or primary.id 1 phase.null_room_parallel_by_offering
          | _ ∷ _ ↦
              let largest =
                max_capacity rooms (Map.get_or primary.id [] phase.possible_room_ids_by_offering) in
              if ltb 0 largest && ltb largest students then ceil_div students largest else 1
        ]
      ]

  -- `possibleTimeSlotIds`
  unfoldable pub possible_slots : List TimeSlot → CourseOffering → List ℕ
  possible_slots slots primary =
      let all_ids = map (λ (ts : TimeSlot). ts.id) slots in
      if primary.is_fixed
      then elim primary.fixed_time_slot_ids [ none ↦ all_ids | some ids ↦ ids ]
      else all_ids

  unfoldable pub cohort_candidate :
      List TimeSlot → CourseOffering → List CourseOffering → PreGaCandidate
  unfolding parallel_sessions possible_slots lecturer_pool_of
  cohort_candidate slots primary others =
      let ids = possible_slots slots primary in
      let run = compute_longest_contiguous_run ids (build_slot_lookup slots) in
      record {
        offering_id = primary.id;
        course_id = primary.course_id;
        room_id = primary.room_id;
        lecturer_ids = lecturer_ids_of primary;
        effective_student_count = cohort_student_count (primary ∷ others);
        parallel_session_count = parallel_sessions primary others;
        session_duration = primary.course.sks;
        possible_time_slot_ids = ids;
        possible_room_ids = Map.get primary.id phase.possible_room_ids_by_offering;
        is_fixed_room = false;
        fixed_time_slot_ids = none;
        parent_offering_id = none;
        sibling_offering_ids = map (λ (s : CourseOffering). s.id) (primary ∷ others);
        lecturer_pool = lecturer_pool_of (primary ∷ others);
        sibling_lecturer_groups = map (λ s. sort leb (lecturer_ids_of s)) (primary ∷ others);
        longest_contiguous_run = run;
        fragmentation_required = ltb run primary.course.sks;
      }

-- What a cohort becomes.
pub data CohortResult : Type 0 where
  emitted : PreGaCandidate → CohortResult
  refused : Infeasible → CohortResult

-- `counts.some(c => c !== counts[0])`, under the policy that rejects.
abbrev pub disagrees : Policy → CourseOffering → List CourseOffering → Bool
disagrees use_max primary others = false
disagrees reject primary others =
    any (λ s. not (s.effective_student_count == primary.effective_student_count)) (primary ∷ others)

module _ (rooms : List Room) (phase : RoomPhase) (slots : List TimeSlot) where
  unfoldable pub build_cohort : CourseOffering → List CourseOffering → CohortResult
  unfolding cohort_candidate
  build_cohort primary others =
      if length (lecturer_pool_of (primary ∷ others)) == 0
      then refused (record { offering = primary; failed_check = fail cohort_lecturer_pool_empty })
      else if disagrees student_count_disagreement_policy primary others
      then refused
          (record { offering = primary; failed_check = fail effective_student_count_mismatch })
      else emitted (cohort_candidate rooms phase slots primary others)

  -- `rawCandidates`. A cohort is never empty: its entry was made for an offering.
  unfoldable pub raw_candidates : List (List CourseOffering) → List PreGaCandidate
  unfolding build_cohort
  raw_candidates [] = []
  raw_candidates ([] ∷ cohorts) = raw_candidates cohorts
  raw_candidates ((primary ∷ others) ∷ cohorts) = elim (build_cohort primary others) [
    | emitted c ↦ c ∷ raw_candidates cohorts
    | refused _ ↦ raw_candidates cohorts
  ]

  -- What the pass pushes on `infeasible`.
  unfoldable pub refused_cohorts : List (List CourseOffering) → List Infeasible
  unfolding build_cohort
  refused_cohorts [] = []
  refused_cohorts ([] ∷ cohorts) = refused_cohorts cohorts
  refused_cohorts ((primary ∷ others) ∷ cohorts) = elim (build_cohort primary others) [
    | emitted _ ↦ refused_cohorts cohorts
    | refused entry ↦ entry ∷ refused_cohorts cohorts
  ]

-- The cohorts, in the order in which their courses came, each in ascending order of ids.
unfoldable pub cohorts_of : List CourseOffering → List (List CourseOffering)
unfolding group_by_course sort_by_id
cohorts_of feasible = map (λ entry. sort_by_id entry.1) (group_by_course [] feasible)

-- The function that tagEntities maps over the candidates.
unfoldable pub tag : Map ℕ ℕ → PreGaCandidate → PreGaCandidate
tag locked_room_map c = elim (Map.get c.offering_id locked_room_map) [
  | some room ↦ record c { room_id = some room; is_fixed_room = true }
  | none ↦ record c { is_fixed_room = false }
]

unfoldable pub tag_entities : List PreGaCandidate → Map ℕ ℕ → List PreGaCandidate
unfolding tag
tag_entities candidates locked_room_map = map (tag locked_room_map) candidates
