-- ===== src/Tests/PreGa.antt =====
-- An offering that passes the checks, and one that a check stops.
use ga_scheduler_v.Base.{◌≡◌, ◌↔◌, refl, true, false, none, some, [], ◌∷◌}
use ga_scheduler_v.Types.{Room, Lecturer, Course, CourseOffering}
use ga_scheduler_v.PreGa.Checks.{
  passed, fail, Code, is_lecturer_eligible_for_course, check_integrity, check_room_capacity,
  check_temporal, check_facility, check_lecturer, check_competencies, check_policy, run_checks,
}
use ga_scheduler_v.PreGa.Checks.Eligibility.{IsEligible, is_lecturer_eligible_for_course_iff}
use ga_scheduler_v.PreGa.Checks.Gate.{IsAdmissible, run_checks-passed}

abbrev pub course : Course
course = record {
  id = 10;
  code = "IF101";
  name = "Algorithms";
  sks = 3;
  required_facilities = "LAB" ∷ [];
  required_competencies = "algorithms" ∷ [];
}

abbrev pub lecturer : Lecturer
lecturer = record {
  id = 100;
  name = "Ani";
  is_structural = false;
  max_sks = 12;
  preferred_time_slot_ids = [];
  competencies = "databases" ∷ "algorithms" ∷ [];
}

abbrev pub lab : Room
lab = record { id = 5; name = "L1"; capacity = 30; facilities = "PROJECTOR" ∷ "LAB" ∷ [] }

abbrev pub offering : CourseOffering
offering = record {
  id = 1;
  course_id = 10;
  course = course;
  room_id = some 5;
  room = some lab;
  lecturers = lecturer ∷ [];
  effective_student_count = 61;
  is_fixed = false;
  fixed_time_slot_ids = none;
  parent_offering_id = none;
  mapping_defects = none;
}

program : Unit {0}
unfolding run_checks check_integrity check_room_capacity check_temporal check_facility
    check_lecturer check_competencies check_policy is_lecturer_eligible_for_course
program = tt

-- Sixty-one students fill the room of thirty three times.
three_slots : run_checks 3 offering ≡ passed
unfolding program
three_slots = refl

two_slots : run_checks 2 offering ≡ fail Code.temporal_insufficient
unfolding program
two_slots = refl

run_checks-passed_example : (run_checks 3 offering ≡ passed) ↔ IsAdmissible 3 offering
run_checks-passed_example = run_checks-passed 3 offering

is_lecturer_eligible_for_course_iff_example :
    (is_lecturer_eligible_for_course lecturer course ≡ true) ↔ IsEligible lecturer course
is_lecturer_eligible_for_course_iff_example = is_lecturer_eligible_for_course_iff lecturer course
