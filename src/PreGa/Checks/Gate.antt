-- ===== src/PreGa/Checks/Gate.antt =====
-- The gate: which offerings pass all checks.
use mathlib.Core.List.Memᴰ
use text.Mathlib.TextEquality.{eq_iff}
use ga_scheduler_v.Base.{
  ℕ, zero, suc, ◌*◌, ◌≤◌, ◌<◌, ◌≡◌, ◌≢◌, ◌↔◌, ◌⊎◌, inl, inr, refl, String, Bool, true, false, ◌&&◌,
  Option, none, some, Option-cases, List, [], ◌∷◌, Memᴰ, any, all, all_get, includes, includes_iff,
  length, leb, if◌then◌else◌, string_eq, nat_eq, List-cases, arith, ◌==◌,
}
use ga_scheduler_v.Types.{Room, Lecturer, MappingDefects, CourseOffering}
use ga_scheduler_v.PreGa.Checks.{
  CheckResult, passed, failed, fail, Code, is_lecturer_eligible_for_course, lecturer_group,
  room_group, defect_groups, check_integrity, check_room_capacity, needs_more_than, check_temporal,
  check_facility, incomplete, check_lecturer, check_competencies, no_slots, check_policy, and_then,
  run_checks,
}
use ga_scheduler_v.PreGa.Checks.Eligibility.{
  IsEligible, is_lecturer_eligible_for_course_iff, ceil_div-le, all_of,
}

-- No reference of the offering was lost: no lecturer and no room is missing.
abbrev pub IsClean : Option MappingDefects → Type 0
IsClean none = Unit
IsClean (some d) =
    ((d.missing_lecturer_ids ≡ none) ⊎ (d.missing_lecturer_ids ≡ some []))
    × (d.missing_room_id ≡ none)

-- A room holds the offering in as many sessions as there are slots, and has what the course needs.
pub record IsSuitable (slots students : ℕ) (required : List String) (room : Room) : Type 0 where
  pub seats : 0 < room.capacity
  pub sessions : students ≤ slots * room.capacity
  pub facilities : (f : String) → Memᴰ f required → Memᴰ f room.facilities

abbrev pub IsHoused : ℕ → ℕ → List String → Option Room → Type 0
IsHoused slots students required none = 0 < slots
IsHoused slots students required (some room) = IsSuitable slots students required room

abbrev pub IsPinned : Option (List ℕ) → Type 0
IsPinned none = ⊥
IsPinned (some ids) = 0 < length ids

-- What an offering needs to enter layer 2.
pub record IsAdmissible (slots : ℕ) (o : CourseOffering) : Type 0 where
  pub clean : IsClean o.mapping_defects
  pub staffed : 0 < length o.lecturers
  pub attended : 0 < o.effective_student_count
  pub housed : IsHoused slots o.effective_student_count o.course.required_facilities o.room
  pub complete : (l : Lecturer) → Memᴰ l o.lecturers → (l.id ≢ 0) × (l.name ≢ "")
  pub eligible : (l : Lecturer) → Memᴰ l o.lecturers → IsEligible l o.course
  pub pinned : o.is_fixed ≡ true → IsPinned o.fixed_time_slot_ids

and_then-passed : (a b : CheckResult) → (and_then a b ≡ passed) ↔ ((a ≡ passed) × (b ≡ passed))
and_then-passed passed b = (λ e. (refl, e), λ h. h.1)
and_then-passed (failed code m) b = (λ e. cc, λ h. h.0)

defect_groups-nil : (d : Option MappingDefects) → (defect_groups d ≡ []) ↔ IsClean d
unfolding defect_groups lecturer_group room_group
defect_groups-nil none = (λ _. tt, λ _. refl)
defect_groups-nil (some d) = ground arith

-- A check that fails on `b` passes exactly if `b` is false, and one that passes on `b` if it is true.
fails_if : (b : Bool) (code : Code) → ((if b then fail code else passed) ≡ passed) ↔ (b ≡ false)
fails_if true code = (λ e. cc, λ e. cc)
fails_if false code = (λ e. refl, λ e. refl)

passes_if : (b : Bool) (code : Code) → ((if b then passed else fail code) ≡ passed) ↔ (b ≡ true)
passes_if true code = (λ e. refl, λ e. refl)
passes_if false code = (λ e. cc, λ e. cc)

incomplete_iff : (l : Lecturer) → (incomplete l ≡ false) ↔ ((l.id ≢ 0) × (l.name ≢ ""))
unfolding incomplete
incomplete_iff l = ground (arith, eq_iff l.name "")

any-false :
    (xs : List Lecturer)
    → (any incomplete xs ≡ false) ↔ ((l : Lecturer) → Memᴰ l xs → incomplete l ≡ false)
any-false [] = (λ _ l m. absurd (Memᴰ.not-nil m), λ _. refl)
any-false (x ∷ xs) = (
  λ h l m. elim (Memᴰ.cases_cons m) [
    | inl e ↦ rw e (ground arith)
    | inr t ↦ (any-false xs).0 (ground arith) l t
  ],
  λ h. rw (h x (Memᴰ.head refl)) ((any-false xs).1 (λ l m. h l (Memᴰ.tail m))),
)

needs_more_than_iff :
    (slots students capacity : ℕ)
    → 0 < students
    → (needs_more_than slots students capacity ≡ false)
      ↔ ((0 < capacity) × (students ≤ slots * capacity))
unfolding needs_more_than
needs_more_than_iff slots students zero attended = ground arith
needs_more_than_iff slots students (suc c) attended =
    let iff = ceil_div-le students (suc c) slots (omega arith) in
    (λ h. (omega arith, iff.0 (ground arith)), λ h. let le = iff.1 h.1 in ground arith)

suitable :
    (slots students : ℕ) (required : List String) (room : Room)
    → 0 < students
    → (((if leb room.capacity 0 then fail Code.room_zero_capacity else passed) ≡ passed)
        × ((if needs_more_than slots students room.capacity
              then fail Code.temporal_insufficient
              else passed)
            ≡ passed)
        × ((if all (λ f. includes room.facilities f) required
              then passed
              else fail Code.facility_mismatch)
            ≡ passed))
      ↔ IsSuitable slots students required room
suitable slots students required room attended =
    let has = λ (f : String). includes room.facilities f in
    let temporal =
      fails_if (needs_more_than slots students room.capacity) Code.temporal_insufficient in
    let fits = needs_more_than_iff slots students room.capacity attended in
    let facility = passes_if (all has required) Code.facility_mismatch in
    (
      λ (c, t, f).
          let (seats, sessions) = fits.0 (temporal.0 t) in
          record {
            seats = seats;
            sessions = sessions;
            facilities =
                λ g m. (includes_iff room.facilities g).0 (all_get has required (facility.0 f) g m);
          },
      λ s. (
        (fails_if (leb room.capacity 0) Code.room_zero_capacity).1
            (let h = s.seats in ground arith),
        temporal.1 (fits.1 (s.seats, s.sessions)),
        facility.1
            (all_of has required (λ g m. (includes_iff room.facilities g).1 (s.facilities g m))),
      ),
    )

module _ (o : CourseOffering) where
  pub check_integrity-passed :
      (check_integrity o ≡ passed)
      ↔ (IsClean o.mapping_defects × (0 < length o.lecturers) × (0 < o.effective_student_count))
  unfolding check_integrity
  check_integrity-passed = elim (List-cases (defect_groups o.mapping_defects)) [
    | inl e ↦
        let clean = (defect_groups-nil o.mapping_defects).0 e in
        rw (e, check_integrity)
          (λ h. (clean, ground arith, ground arith), λ (_, staffed, attended). ground arith)
    | inr (g, gs, e) ↦
        rw (e, check_integrity)
          (λ h. cc, λ (clean, _, _). let e' = (defect_groups-nil o.mapping_defects).1 clean in cc)
  ]

  check_lecturer-passed :
      0 < length o.lecturers
      → (check_lecturer o ≡ passed)
        ↔ ((l : Lecturer) → Memᴰ l o.lecturers → (l.id ≢ 0) × (l.name ≢ ""))
  unfolding check_lecturer incomplete
  check_lecturer-passed staffed =
      let some_lecturer : (length o.lecturers == 0) ≡ false = ground arith in
      let iff = fails_if (any incomplete o.lecturers) Code.lecturer_invalid in
      rw some_lecturer (
        λ h l m. (incomplete_iff l).0 ((any-false o.lecturers).0 (iff.0 h) l m),
        λ h. iff.1 ((any-false o.lecturers).1 (λ l m. (incomplete_iff l).1 (h l m))),
      )

  check_competencies-passed :
      (check_competencies o ≡ passed)
      ↔ ((l : Lecturer) → Memᴰ l o.lecturers → IsEligible l o.course)
  unfolding check_competencies
  check_competencies-passed = elim (List-cases o.course.required_competencies) [
    | inl e ↦ rw (e, check_competencies) (λ _ l m. inl refl, λ _. refl)
    | inr (r, rs, e) ↦
        let eligible = λ (l : Lecturer). is_lecturer_eligible_for_course l o.course in
        let iff = passes_if (all eligible o.lecturers) Code.competency_mismatch in
        let passes : check_competencies o ≡ passed ↔ all eligible o.lecturers ≡ true =
          simp (e, check_competencies) iff in
        (
          λ h l m.
              (is_lecturer_eligible_for_course_iff l o.course).0
                (all_get eligible o.lecturers (passes.0 h) l m),
          λ h. passes.1 (
              all_of eligible o.lecturers
                (λ l m. (is_lecturer_eligible_for_course_iff l o.course).1 (h l m))),
        )
  ]

  check_policy-passed :
      (check_policy o ≡ passed) ↔ (o.is_fixed ≡ true → IsPinned o.fixed_time_slot_ids)
  unfolding check_policy
  check_policy-passed = go o.is_fixed o.fixed_time_slot_ids
    where
      go :
          (b : Bool) (ids : Option (List ℕ))
          → ((if b && no_slots ids then fail Code.policy_fixed_no_slots else passed) ≡ passed)
            ↔ (b ≡ true → IsPinned ids)
      go false ids = (λ _ e. cc, λ _. refl)
      go true none = (λ e _. cc, λ h. absurd (h refl))
      go true (some ids) = ground arith

  check_room-passed :
      (slots : ℕ)
      → 0 < o.effective_student_count
      → ((check_room_capacity o ≡ passed)
          × (check_temporal o slots ≡ passed)
          × (check_facility o ≡ passed))
        ↔ IsHoused slots o.effective_student_count o.course.required_facilities o.room
  unfolding check_room_capacity check_temporal check_facility needs_more_than
  check_room-passed slots attended = elim (Option-cases o.room) [
    | inl e ↦ rw (e, check_room_capacity, check_temporal, check_facility) (ground arith)
    | inr (room, e) ↦
        rw (e, check_room_capacity, check_temporal, check_facility)
          (suitable slots o.effective_student_count o.course.required_facilities room attended)
  ]

-- An offering passes the seven checks exactly if it is admissible: no reference was lost, it has
-- lecturers and students, a pre-assigned room has seats and facilities and holds the students in at
-- most as many sessions as there are time slots (without such a room there is a time slot), every
-- lecturer is complete and eligible, and a fixed offering names its slots.
pub run_checks-passed :
    (slots : ℕ) (o : CourseOffering) → (run_checks slots o ≡ passed) ↔ IsAdmissible slots o
unfolding run_checks
run_checks-passed slots o = (
  λ h.
      let (i, h₁) = (and_then-passed (check_integrity o) _).0 h in
      let (r, h₂) = (and_then-passed (check_room_capacity o) _).0 h₁ in
      let (t, h₃) = (and_then-passed (check_temporal o slots) _).0 h₂ in
      let (f, h₄) = (and_then-passed (check_facility o) _).0 h₃ in
      let (l, h₅) = (and_then-passed (check_lecturer o) _).0 h₄ in
      let (c, p) = (and_then-passed (check_competencies o) _).0 h₅ in
      let (clean, staffed, attended) = (check_integrity-passed o).0 i in
      record {
        clean = clean;
        staffed = staffed;
        attended = attended;
        housed = (check_room-passed o slots attended).0 (r, t, f);
        complete = (check_lecturer-passed o staffed).0 l;
        eligible = (check_competencies-passed o).0 c;
        pinned = (check_policy-passed o).0 p;
      },
  λ a.
      let (r, t, f) = (check_room-passed o slots a.attended).1 a.housed in
      (and_then-passed (check_integrity o) _).1 (
        (check_integrity-passed o).1 (a.clean, a.staffed, a.attended),
        (and_then-passed (check_room_capacity o) _).1 (
          r,
          (and_then-passed (check_temporal o slots) _).1 (
            t,
            (and_then-passed (check_facility o) _).1 (
              f,
              (and_then-passed (check_lecturer o) _).1 (
                (check_lecturer-passed o a.staffed).1 a.complete,
                (and_then-passed (check_competencies o) _).1 (
                  (check_competencies-passed o).1 a.eligible,
                  (check_policy-passed o).1 a.pinned,
                ),
              ),
            ),
          ),
        ),
      ),
)
