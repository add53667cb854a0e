-- ===== src/Repo/CourseOffering/Integrity.antt =====
-- repo/mappers/courseOfferingMapper.ts and checkIntegrity of pre-ga/checks.ts: what is missing in the
-- maps is what the first check refuses.
use ga_scheduler_v.Base.{
  ℕ, ◌<◌, ◌≡◌, ◌↔◌, refl, sym, subst, ap, ◌∙◌, inl, inr, Option, none, some, Option-cases, List, [],
  ◌∷◌, if◌then◌else◌, All, length, suc, nat_eq, arith,
}
use ga_scheduler_v.Base.Map
use ga_scheduler_v.Base.Map.{Map}
use ga_scheduler_v.Types.{Room, Lecturer, Course, CourseOffering}
use ga_scheduler_v.PreGa.Checks.{passed, check_integrity}
use ga_scheduler_v.PreGa.Checks.Gate.{IsClean, check_integrity-passed}
use ga_scheduler_v.Repo.CourseOffering.{
  CourseOfferingRowFull, found_lecturers, missing_lecturers, found_room, missing_room,
  mapping_defects_of, map_course_offering_row,
}

abbrev pub IsFound {ℓ} : {V : Type ℓ} → Map ℕ V → ℕ → Type ℓ
IsFound {V = V} m k = (v : V) × (Map.get k m ≡ some v)

abbrev pub IsRoomFound : Map ℕ Room → Option ℕ → Type 0
IsRoomFound m none = Unit
IsRoomFound m (some r) = IsFound m r

missing_lecturers-eq-nil :
    (m : Map ℕ Lecturer) (ls : List ℕ) → (missing_lecturers m ls ≡ []) ↔ All (IsFound m) ls
unfolding missing_lecturers
missing_lecturers-eq-nil m [] = (λ h. tt, λ h. refl)
missing_lecturers-eq-nil m (l ∷ ls) = elim (Option-cases (Map.get l m)) [
  | inl lost ↦ (
    λ h. let none_left = rw (missing_lecturers, lost) at (h) in cc,
    λ h. let (v, e) = h.0 in let never : none ≡ some v = sym lost ∙ e in cc,
  )
  | inr (v, e) ↦
      rw (missing_lecturers, e)
        (
          λ h. ((v, refl), (missing_lecturers-eq-nil m ls).0 h),
          λ h. (missing_lecturers-eq-nil m ls).1 h.1,
        )
]

missing_room-eq-none : (m : Map ℕ Room) (r : Option ℕ) → (missing_room m r ≡ none) ↔ IsRoomFound m r
unfolding missing_room
missing_room-eq-none m none = (λ h. tt, λ h. refl)
missing_room-eq-none m (some r) = elim (Option-cases (Map.get r m)) [
  | inl lost ↦ (
    λ h. let there = rw (missing_room, lost) at (h) in cc,
    λ h. let (v, e) = h in let never : none ≡ some v = sym lost ∙ e in cc,
  )
  | inr (v, e) ↦ rw (missing_room, e) (λ h. (v, refl), λ h. refl)
]

mapping_defects_of-IsClean :
    (ls : List ℕ) (r : Option ℕ) → IsClean (mapping_defects_of ls r) ↔ ((ls ≡ []) × (r ≡ none))
unfolding mapping_defects_of
mapping_defects_of-IsClean [] none = (λ h. (refl, refl), λ h. tt)
mapping_defects_of-IsClean [] (some r) = (λ h. let lost = h.1 in cc, λ h. let lost = h.1 in cc)
mapping_defects_of-IsClean (l ∷ ls) r = (
  λ h. elim h.0 [ inl e ↦ cc | inr e ↦ let nothing : l ∷ ls ≡ [] = cc in cc ],
  λ h. let nothing = h.0 in cc,
)

found_lecturers-length :
    (m : Map ℕ Lecturer) (ls : List ℕ)
    → All (IsFound m) ls
    → length (found_lecturers m ls) ≡ length ls
unfolding found_lecturers
found_lecturers-length m [] h = refl
found_lecturers-length m (l ∷ ls) h =
    let (v, e) = h.0 in rw (found_lecturers, e) (ap suc (found_lecturers-length m ls h.1))

-- A row whose course is known becomes an offering that passes the integrity check exactly if each of
-- its lecturers and its room, if it has one, are in the maps, and it has a lecturer and a student.
pub check_integrity-map_course_offering_row :
    (row : CourseOfferingRowFull) (lecturer_by_id : Map ℕ Lecturer) (room_by_id : Map ℕ Room)
    (course_by_id : Map ℕ Course) (o : CourseOffering)
    → map_course_offering_row row lecturer_by_id room_by_id course_by_id ≡ some o
    → (check_integrity o ≡ passed) ↔ (
        All (IsFound lecturer_by_id) row.lecturers
        × IsRoomFound room_by_id row.room_id
        × (0 < length row.lecturers)
        × (0 < row.effective_student_count))
unfolding map_course_offering_row
check_integrity-map_course_offering_row row ls rs cs o h =
    elim (Option-cases (Map.get row.course_id cs)) [
      | inl lost ↦ let nothing = rw (map_course_offering_row, lost) at (h) in cc
      | inr (course, e) ↦
          let made = rw (map_course_offering_row, e) at (h) in
          let mapped : CourseOffering = record {
            id = row.id;
            course_id = row.course_id;
            course = course;
            room_id = row.room_id;
            room = found_room rs row.room_id;
            lecturers = found_lecturers ls row.lecturers;
            effective_student_count = row.effective_student_count;
            is_fixed = row.is_fixed;
            fixed_time_slot_ids = if row.is_fixed then some row.fixed_slots else none;
            parent_offering_id = row.parent_offering_id;
            mapping_defects =
                mapping_defects_of (missing_lecturers ls row.lecturers)
                  (missing_room rs row.room_id);
          } in
          let same : mapped ≡ o = cc in
          let clean =
            mapping_defects_of-IsClean (missing_lecturers ls row.lecturers)
              (missing_room rs row.room_id) in
          let checked = check_integrity-passed mapped in
          let found = missing_lecturers-eq-nil ls row.lecturers in
          let roomed = missing_room-eq-none rs row.room_id in
          subst
            (λ (k : CourseOffering). (check_integrity k ≡ passed) ↔ (
              All (IsFound ls) row.lecturers
              × IsRoomFound rs row.room_id
              × (0 < length row.lecturers)
              × (0 < row.effective_student_count)))
            same
            (
              λ p.
                  let (tidy, staffed, attended) = checked.0 p in
                  let (none_lost, room_there) = clean.0 tidy in
                  let all = found.0 none_lost in
                  let long = found_lecturers-length ls row.lecturers all in
                  (all, roomed.0 room_there, omega arith, attended),
              λ (all, room_there, staffed, attended).
                  let long = found_lecturers-length ls row.lecturers all in
                  checked.1 (clean.1 (found.1 all, roomed.1 room_there), omega arith, attended),
            )
    ]
