-- ===== src/Repo/CourseOffering.antt =====
-- repo/mappers/courseOfferingMapper.ts. An object of one field is that field, and `none` is the thrown
-- error for a course that is missing.
pub mod Integrity
use ga_scheduler_v.Base.{ℕ, Bool, Option, none, some, List, [], ◌∷◌, if◌then◌else◌, nat_eq}
use ga_scheduler_v.Base.Map
use ga_scheduler_v.Base.Map.{Map}
use ga_scheduler_v.Types.{Room, Lecturer, Course, MappingDefects, CourseOffering}

pub record CourseOfferingRowFull : Type 0 where
  pub id : ℕ
  pub course_id : ℕ
  pub room_id : Option ℕ
  pub effective_student_count : ℕ
  pub is_fixed : Bool
  pub parent_offering_id : Option ℕ
  pub lecturers : List ℕ
  pub fixed_slots : List ℕ

-- `lecturers`
unfoldable pub found_lecturers : Map ℕ Lecturer → List ℕ → List Lecturer
found_lecturers lecturer_by_id [] = []
found_lecturers lecturer_by_id (l ∷ rest) =
    let more = found_lecturers lecturer_by_id rest in
    elim (Map.get l lecturer_by_id) [ none ↦ more | some lecturer ↦ lecturer ∷ more ]

-- `missingLecturerIds`
unfoldable pub missing_lecturers : Map ℕ Lecturer → List ℕ → List ℕ
missing_lecturers lecturer_by_id [] = []
missing_lecturers lecturer_by_id (l ∷ rest) =
    let more = missing_lecturers lecturer_by_id rest in
    elim (Map.get l lecturer_by_id) [ none ↦ l ∷ more | some _ ↦ more ]

-- `room`
unfoldable pub found_room : Map ℕ Room → Option ℕ → Option Room
found_room room_by_id none = none
found_room room_by_id (some r) = Map.get r room_by_id

-- `missingRoomId`
unfoldable pub missing_room : Map ℕ Room → Option ℕ → Option ℕ
missing_room room_by_id none = none
missing_room room_by_id (some r) = elim (Map.get r room_by_id) [ none ↦ some r | some _ ↦ none ]

-- `base.mappingDefects`, which is only there if something is missing.
unfoldable pub mapping_defects_of : List ℕ → Option ℕ → Option MappingDefects
mapping_defects_of [] none = none
mapping_defects_of [] (some r) =
    some
      (record { missing_lecturer_ids = none; missing_room_id = some r; missing_course_id = none })
mapping_defects_of (l ∷ ls) r =
    some (record {
      missing_lecturer_ids = some (l ∷ ls);
      missing_room_id = r;
      missing_course_id = none;
    })

-- mapCourseOfferingRow
unfoldable pub map_course_offering_row :
    CourseOfferingRowFull → Map ℕ Lecturer → Map ℕ Room → Map ℕ Course → Option CourseOffering
unfolding found_lecturers missing_lecturers found_room missing_room mapping_defects_of
map_course_offering_row row lecturer_by_id room_by_id course_by_id =
    elim (Map.get row.course_id course_by_id) [
      | none ↦ none
      | some course ↦ some (record {
        id = row.id;
        course_id = row.course_id;
        course = course;
        room_id = row.room_id;
        room = found_room room_by_id row.room_id;
        lecturers = found_lecturers lecturer_by_id row.lecturers;
        effective_student_count = row.effective_student_count;
        is_fixed = row.is_fixed;
        fixed_time_slot_ids = if row.is_fixed then some row.fixed_slots else none;
        parent_offering_id = row.parent_offering_id;
        mapping_defects =
            mapping_defects_of (missing_lecturers lecturer_by_id row.lecturers)
              (missing_room room_by_id row.room_id);
      })
    ]
