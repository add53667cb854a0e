-- ===== src/Tests/Mapping.antt =====
-- The row of an offering, with its lecturer in the map and without.
use ga_scheduler_v.Base.{◌<◌, ◌≡◌, ◌↔◌, refl, false, none, some, [], ◌∷◌, All}
use ga_scheduler_v.PreGa.Checks.{passed, check_integrity}
use ga_scheduler_v.Repo.CourseOffering.{
  CourseOfferingRowFull, found_lecturers, missing_lecturers, found_room, missing_room,
  mapping_defects_of, map_course_offering_row,
}
use ga_scheduler_v.Repo.CourseOffering.Integrity.{
  IsFound, IsRoomFound, check_integrity-map_course_offering_row,
}
use ga_scheduler_v.Tests.PreGa.{course, lecturer, lab, offering}

abbrev row : CourseOfferingRowFull
row = record {
  id = 1;
  course_id = 10;
  room_id = some 5;
  effective_student_count = 61;
  is_fixed = false;
  parent_offering_id = none;
  lecturers = 100 ∷ [];
  fixed_slots = [];
}

program : Unit {0}
unfolding found_lecturers missing_lecturers found_room missing_room mapping_defects_of
    map_course_offering_row
program = tt

mapped :
    map_course_offering_row row ((100, lecturer) ∷ []) ((5, lab) ∷ []) ((10, course) ∷ [])
    ≡ some offering
unfolding program
mapped = refl

no_course : map_course_offering_row row ((100, lecturer) ∷ []) ((5, lab) ∷ []) [] ≡ none
unfolding program
no_course = refl

check_integrity-map_course_offering_row_example : (check_integrity offering ≡ passed) ↔ (
    All (IsFound ((100, lecturer) ∷ [])) (100 ∷ [])
    × IsRoomFound ((5, lab) ∷ []) (some 5)
    × (0 < 1)
    × (0 < 61))
check_integrity-map_course_offering_row_example =
    check_integrity-map_course_offering_row row ((100, lecturer) ∷ []) ((5, lab) ∷ [])
      ((10, course) ∷ []) offering mapped
