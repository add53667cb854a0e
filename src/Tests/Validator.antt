-- ===== src/Tests/Validator.antt =====
-- Two offerings of one course that become one cohort, and one without students that is refused.

use ga_scheduler_v.Base.{
  ℕ, ◌+◌, ◌≡◌, refl, true, false, none, some, String, List, [], ◌∷◌, sum_by, Memᴰ, locale_le,
}
use ga_scheduler_v.Types.{Room, TimeSlot, CourseOffering, PreGaCandidate}
use ga_scheduler_v.Slots.{
  compute_longest_contiguous_run, best_for_day, run_loop, group_by_day, resolve, sort_by_start,
  starts_no_later, build_slot_lookup,
}
use ga_scheduler_v.PreGa.Checks.{
  is_lecturer_eligible_for_course, check_integrity, check_room_capacity, check_temporal,
  check_facility, check_lecturer, check_competencies, check_policy, run_checks,
}
use ga_scheduler_v.PreGa.Rooms.{
  qualifies, qualifying, max_capacity, required_sessions, place_split, place_among, place,
  keep_placed, place_all, room_phase,
}
use ga_scheduler_v.PreGa.Cohorts.{
  group_by_course, sort_by_id, lecturer_pool_of, parallel_sessions, possible_slots,
  cohort_candidate, build_cohort, raw_candidates, refused_cohorts, cohorts_of, tag, tag_entities,
}
use ga_scheduler_v.PreGa.Validator.{record_check, check_all, locked_offerings, run_pre_ga}
use ga_scheduler_v.PreGa.Validator.Accounting.{sum_entries, run_pre_ga_accounts}
use ga_scheduler_v.PreGa.Validator.Cohorting.{Stands, run_pre_ga-Stands}
use ga_scheduler_v.Tests.PreGa.{offering, lecturer, lab}

abbrev hour : ℕ → String → String → TimeSlot
hour id start finish = record { id = id; day = "Monday"; start_time = start; end_time = finish }

abbrev pub hours : List TimeSlot
hours = hour 1 "08:00" "09:00" ∷ hour 2 "09:00" "10:00" ∷ hour 3 "11:00" "12:00" ∷ []

-- A sibling without a room, taught by another lecturer.
abbrev pub sibling : CourseOffering
sibling = record offering {
  id = 2;
  room_id = none;
  room = none;
  lecturers = record lecturer { id = 200 } ∷ [];
  effective_student_count = 20;
}

abbrev empty_offering : CourseOffering
empty_offering = record offering { id = 3; effective_student_count = 0 }

abbrev hall : Room
hall = record lab { id = 6; capacity = 80 }

abbrev offerings : List CourseOffering
offerings = sibling ∷ empty_offering ∷ offering ∷ []

abbrev pub rooms : List Room
rooms = lab ∷ hall ∷ []

program : Unit {0}
unfolding compute_longest_contiguous_run best_for_day run_loop group_by_day resolve sort_by_start
    starts_no_later locale_le build_slot_lookup is_lecturer_eligible_for_course check_integrity
    check_room_capacity check_temporal check_facility check_lecturer check_competencies check_policy
    run_checks qualifies qualifying max_capacity required_sessions place_split place_among place
    keep_placed place_all room_phase group_by_course sort_by_id lecturer_pool_of parallel_sessions
    possible_slots cohort_candidate build_cohort raw_candidates refused_cohorts cohorts_of tag
    tag_entities record_check check_all locked_offerings run_pre_ga
program = tt

feasible_ids :
    (run_pre_ga offerings hours (some rooms) none).validation.feasible ≡ sibling ∷ offering ∷ []
unfolding program
feasible_ids = refl

-- The primary is the offering with the least id, and its room holds a third of the students.
one_candidate :
    (run_pre_ga offerings hours (some rooms) none).candidates
    ≡ record {
      offering_id = 1;
      course_id = 10;
      room_id = some 5;
      lecturer_ids = 100 ∷ [];
      effective_student_count = 61;
      parallel_session_count = 3;
      session_duration = 3;
      possible_time_slot_ids = 1 ∷ 2 ∷ 3 ∷ [];
      possible_room_ids = some (6 ∷ []);
      is_fixed_room = false;
      fixed_time_slot_ids = none;
      parent_offering_id = none;
      sibling_offering_ids = 1 ∷ 2 ∷ [];
      lecturer_pool = 100 ∷ 200 ∷ [];
      sibling_lecturer_groups = (100 ∷ []) ∷ (200 ∷ []) ∷ [];
      longest_contiguous_run = 2;
      fragmentation_required = true;
    }
      ∷ []
unfolding program
one_candidate = refl

-- One for each offering, so that the lists are counted.
abbrev one : CourseOffering → ℕ
one _ = 1

run_pre_ga_accounts_example :
    sum_by one (run_pre_ga offerings hours (some rooms) none).validation.feasible
      + sum_entries one (run_pre_ga offerings hours (some rooms) none).validation.infeasible
    ≡ 3
run_pre_ga_accounts_example = run_pre_ga_accounts one offerings hours (some rooms) none

sibling_listed : Memᴰ sibling (run_pre_ga offerings hours (some rooms) none).validation.feasible
unfolding program
sibling_listed = Memᴰ.head refl

run_pre_ga-Stands_example :
    (c : PreGaCandidate) × Memᴰ c (run_pre_ga offerings hours (some rooms) none).candidates
    × Stands sibling c
run_pre_ga-Stands_example =
    run_pre_ga-Stands offerings hours (some rooms) none sibling sibling_listed
