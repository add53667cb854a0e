-- ===== src/PreGa/Checks.antt =====
-- pre-ga/checks.ts. A check passes or fails with a code and its metadata; the texts of `message`
-- are left out. `offering.course` and `offering.lecturers` are never null by their types, so the
-- branch of INTEGRITY_NO_COURSE cannot be taken and the null test of the lecturers is gone.
pub mod Gate
pub mod Eligibility
use ga_scheduler_v.Base.{
  ℕ, zero, suc, ◌+◌, ◌-◌, ◌/◌, String, Bool, true, false, not, ◌&&◌, ◌||◌, Option, none, some, List,
  [], ◌∷◌, ◌++◌, map, any, all, includes, length, ltb, leb, if◌then◌else◌, ◌==◌, nat_eq, string_eq,
}
use ga_scheduler_v.Types.{Room, Lecturer, Course, MappingDefects, CourseOffering}

pub data Code : Type 0 where
  cross_semester_defect integrity_no_lecturers integrity_no_students : Code
  room_zero_capacity temporal_insufficient facility_mismatch : Code
  lecturer_none lecturer_invalid competency_mismatch policy_fixed_no_slots : Code
  no_facility_match no_rooms_qualify no_capacity_combination : Code
  cohort_lecturer_pool_empty effective_student_count_mismatch : Code

pub data DefectField : Type 0 where
  lecturer_ids room_id : DefectField

-- The ids of `mismatches`. `expectedSemesterId` is never set.
pub record FieldGroup : Type 0 where
  pub field : DefectField
  pub mismatches : List ℕ

-- `metadata`: the first group once more (`field`, `mismatches`), and all groups (`fields`).
pub record Metadata : Type 0 where
  pub primary : FieldGroup
  pub fields : List FieldGroup

pub data CheckResult : Type 0 where
  passed : CheckResult
  failed : Code → Option Metadata → CheckResult

abbrev pub fail : Code → CheckResult
fail code = failed code none

-- isLecturerEligibleForCourse. `owned` is the set of the lecturer's competencies.
unfoldable pub is_lecturer_eligible_for_course : Lecturer → Course → Bool
is_lecturer_eligible_for_course lecturer course = elim course.required_competencies [
  | [] ↦ true
  | req ∷ reqs ↦ any (λ r. includes lecturer.competencies r) (req ∷ reqs)
]

lecturer_group : Option (List ℕ) → List FieldGroup
lecturer_group none = []
lecturer_group (some []) = []
lecturer_group (some (id ∷ ids)) = record { field = lecturer_ids; mismatches = id ∷ ids } ∷ []

room_group : Option ℕ → List FieldGroup
room_group none = []
room_group (some id) = record { field = room_id; mismatches = id ∷ [] } ∷ []

-- `groups`: empty exactly if the condition on the defects is false.
defect_groups : Option MappingDefects → List FieldGroup
unfolding lecturer_group room_group
defect_groups none = []
defect_groups (some defects) =
    lecturer_group defects.missing_lecturer_ids ++ room_group defects.missing_room_id

unfoldable pub check_integrity : CourseOffering → CheckResult
unfolding defect_groups
check_integrity o = elim (defect_groups o.mapping_defects) [
  | primary ∷ rest ↦
      failed cross_semester_defect (some (record { primary = primary; fields = primary ∷ rest }))
  | [] ↦
      if length o.lecturers == 0
      then fail integrity_no_lecturers
      else if leb o.effective_student_count 0
      then fail integrity_no_students
      else passed
]

unfoldable pub check_room_capacity : CourseOffering → CheckResult
check_room_capacity o = elim o.room [
  | none ↦ passed
  | some room ↦ if leb room.capacity 0 then fail room_zero_capacity else passed
]

-- Math.ceil(a / b), where `b` is not 0.
abbrev pub ceil_div : ℕ → ℕ → ℕ
ceil_div a b = (a + (b - 1)) / b

-- `totalTimeSlots < Math.ceil(students / capacity)`. A division by 0 gives Infinity, which every
-- number is below, or NaN for 0 / 0, which none is.
needs_more_than : ℕ → ℕ → ℕ → Bool
needs_more_than slots students zero = ltb 0 students
needs_more_than slots students (suc c) = ltb slots (ceil_div students (suc c))

unfoldable pub check_temporal : CourseOffering → ℕ → CheckResult
unfolding needs_more_than
check_temporal o total_time_slots = elim o.room [
  | none ↦ if leb total_time_slots 0 then fail temporal_insufficient else passed
  | some room ↦
      if needs_more_than total_time_slots o.effective_student_count room.capacity
      then fail temporal_insufficient
      else passed
]

unfoldable pub check_facility : CourseOffering → CheckResult
check_facility o = elim o.room [
  | none ↦ passed
  | some room ↦
      if all (λ f. includes room.facilities f) o.course.required_facilities
      then passed
      else fail facility_mismatch
]

-- `!lecturer.id || !lecturer.name`
incomplete : Lecturer → Bool
incomplete l = l.id == 0 || l.name == ""

unfoldable pub check_lecturer : CourseOffering → CheckResult
unfolding incomplete
check_lecturer o =
    if length o.lecturers == 0
    then fail lecturer_none
    else if any incomplete o.lecturers
    then fail lecturer_invalid
    else passed

unfoldable pub check_competencies : CourseOffering → CheckResult
unfolding is_lecturer_eligible_for_course
check_competencies o = elim o.course.required_competencies [
  | [] ↦ passed
  | _ ∷ _ ↦
      if all (λ l. is_lecturer_eligible_for_course l o.course) o.lecturers
      then passed
      else fail competency_mismatch
]

-- `!offering.fixedTimeSlotIds || offering.fixedTimeSlotIds.length === 0`
abbrev pub no_slots : Option (List ℕ) → Bool
no_slots none = true
no_slots (some ids) = length ids == 0

unfoldable pub check_policy : CourseOffering → CheckResult
check_policy o =
    if o.is_fixed && no_slots o.fixed_time_slot_ids then fail policy_fixed_no_slots else passed

-- `a`, and if it passes `b`: the loop over the checks stops at the first that fails.
abbrev pub and_then : CheckResult → CheckResult → CheckResult
and_then passed b = b
and_then (failed code metadata) b = failed code metadata

-- The `checks` array of validator.ts, run in order.
unfoldable pub run_checks : ℕ → CourseOffering → CheckResult
run_checks total_slots o = and_then (check_integrity o) (
    and_then (check_room_capacity o) (
      and_then (check_temporal o total_slots) (
        and_then (check_facility o)
          (and_then (check_lecturer o) (and_then (check_competencies o) (check_policy o))))))
