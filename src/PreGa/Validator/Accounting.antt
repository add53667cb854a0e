-- ===== src/PreGa/Validator/Accounting.antt =====
-- pre-ga/validator.ts: which offerings runPreGA returns as feasible, and which as infeasible.
use mathlib.Core.List.Memᴰ
use ga_scheduler_v.Base.{
  ℕ, ◌+◌, ◌≡◌, ◌<◌, refl, false, inl, inr, List, [], ◌∷◌, ◌++◌, Memᴰ, Option, none, some, flat_map,
  sum_by, length, sort, leb, Memᴰ-sort, Memᴰ-flat_map, All, All-append, All_get, All-map,
  All-tabulate, Option-cases, ◌==◌, nat_eq, arith,
}
use ga_scheduler_v.Base.Map
use ga_scheduler_v.Base.Map.{Map}
use ga_scheduler_v.Base.Set
use ga_scheduler_v.Types.{Room, TimeSlot, Lecturer, CourseOffering}
use ga_scheduler_v.PreGa.Checks.{CheckResult, passed, failed, run_checks}
use ga_scheduler_v.PreGa.Checks.Gate.{run_checks-passed}
use ga_scheduler_v.PreGa.Rooms.{
  Infeasible, Placement, locked_room, alternates, split, rejected, place, keep_placed, RoomPhase,
  place_all, room_phase,
}
use ga_scheduler_v.PreGa.Cohorts.{
  lecturer_pool_of, lecturer_ids_of, group_by_course, sort_by_id, id_no_later, build_cohort,
  refused_cohorts, cohorts_of, emitted, cohort_candidate,
}
use ga_scheduler_v.PreGa.Validator.{Validation, record_check, check_all, run_pre_ga, rooms_or_none}

sum_by-append {ℓ} :
    {A : Type ℓ} (f : A → ℕ) (xs ys : List A) → sum_by f (xs ++ ys) ≡ sum_by f xs + sum_by f ys
sum_by-append f [] ys = omega arith
sum_by-append f (x ∷ xs) ys = omega (arith, sum_by-append f xs ys)

abbrev pub sum_entries : (CourseOffering → ℕ) → List Infeasible → ℕ
sum_entries f = sum_by (λ (e : Infeasible). f e.offering)

module _ (f : CourseOffering → ℕ) where
  record_check-sum :
      (o : CourseOffering) (r : CheckResult) (v : Validation)
      → sum_by f (record_check o r v).feasible + sum_entries f (record_check o r v).infeasible
        ≡ f o + (sum_by f v.feasible + sum_entries f v.infeasible)
  unfolding record_check
  record_check-sum o passed v = omega arith
  record_check-sum o (failed code metadata) v = omega arith

  check_all-sum :
      (total : ℕ) (offerings : List CourseOffering)
      → sum_by f (check_all total offerings).feasible
          + sum_entries f (check_all total offerings).infeasible
        ≡ sum_by f offerings
  unfolding check_all
  check_all-sum total [] = refl
  check_all-sum total (o ∷ rest) = omega (
    arith,
    check_all-sum total rest,
    record_check-sum o (run_checks total o) (check_all total rest),
  )

  abbrev phase_sum : RoomPhase → ℕ
  phase_sum p = sum_by f p.still_feasible + sum_entries f p.infeasible

  keep_placed-sum :
      (o : CourseOffering) (r : Placement) (p : RoomPhase)
      → phase_sum (keep_placed o r p) ≡ phase_sum p + f o
  unfolding keep_placed
  keep_placed-sum o locked_room p = omega (arith, sum_by-append f p.still_feasible (o ∷ []))
  keep_placed-sum o (alternates ids) p = omega (arith, sum_by-append f p.still_feasible (o ∷ []))
  keep_placed-sum o (split ids n) p = omega (arith, sum_by-append f p.still_feasible (o ∷ []))
  keep_placed-sum o (rejected result) p = omega (
    arith,
    sum_by-append (λ (e : Infeasible). f e.offering) p.infeasible
        (record { offering = o; failed_check = result } ∷ []),
  )

  place_all-sum :
      (rooms : List Room) (offerings : List CourseOffering) (p : RoomPhase)
      → phase_sum (place_all rooms offerings p) ≡ phase_sum p + sum_by f offerings
  unfolding place_all
  place_all-sum rooms [] p = omega arith
  place_all-sum rooms (o ∷ rest) p = omega (
    arith,
    keep_placed-sum o (place rooms o) p,
    place_all-sum rooms rest (keep_placed o (place rooms o) p),
  )

  room_phase-sum :
      (rooms : Option (List Room)) (offerings : List CourseOffering)
      → phase_sum (room_phase rooms offerings) ≡ sum_by f offerings
  unfolding room_phase
  room_phase-sum none offerings = omega arith
  room_phase-sum (some rooms) offerings = omega (arith, place_all-sum rooms offerings _)

-- `P` of the offerings that stay.
module _ (P : CourseOffering → Type 0) where
  keep_placed-All :
      (o : CourseOffering) (r : Placement) (p : RoomPhase)
      → P o
      → All P p.still_feasible
      → All P (keep_placed o r p).still_feasible
  unfolding keep_placed
  keep_placed-All o locked_room p h a = All-append P p.still_feasible (o ∷ []) a (h, tt)
  keep_placed-All o (alternates ids) p h a = All-append P p.still_feasible (o ∷ []) a (h, tt)
  keep_placed-All o (split ids n) p h a = All-append P p.still_feasible (o ∷ []) a (h, tt)
  keep_placed-All o (rejected result) p h a = a

  place_all-All :
      (rooms : List Room) (offerings : List CourseOffering) (p : RoomPhase)
      → All P offerings
      → All P p.still_feasible
      → All P (place_all rooms offerings p).still_feasible
  unfolding place_all
  place_all-All rooms [] p h a = a
  place_all-All rooms (o ∷ rest) p h a =
      place_all-All rooms rest (keep_placed o (place rooms o) p) h.1
        (keep_placed-All o (place rooms o) p h.0 a)

  pub room_phase-All :
      (rooms : Option (List Room)) (offerings : List CourseOffering)
      → All P offerings
      → All P (room_phase rooms offerings).still_feasible
  unfolding room_phase
  room_phase-All none offerings h = h
  room_phase-All (some rooms) offerings h = place_all-All rooms offerings _ h tt

  group_by_course-All :
      (m : Map ℕ (List CourseOffering)) (offerings : List CourseOffering)
      → All (λ entry. All P entry.1) m
      → All P offerings
      → All (λ entry. All P entry.1) (group_by_course m offerings)
  unfolding group_by_course
  group_by_course-All m [] a h = a
  group_by_course-All m (o ∷ rest) a h =
      group_by_course-All (Map.set o.course_id (Map.get_or o.course_id [] m ++ o ∷ []) m) rest
        (Map.All-set (λ entry. All P entry.1) o.course_id (Map.get_or o.course_id [] m ++ o ∷ []) m
          a
          (elim (Option-cases (Map.get o.course_id m)) [
            | inl new ↦ rw (new, Map.get_or) (h.0, tt)
            | inr (bucket, old) ↦
                rw (old, Map.get_or)
                  (All-append P bucket (o ∷ [])
                    (Map.All-get (λ entry. All P entry.1) o.course_id bucket m a old) (h.0, tt))
          ]))
        h.1

  pub cohorts_of-All :
      (offerings : List CourseOffering) → All P offerings → All (All P) (cohorts_of offerings)
  unfolding cohorts_of
  cohorts_of-All offerings h =
      All-map (All P) (λ (entry : ℕ × List CourseOffering). sort_by_id entry.1)
        (group_by_course [] offerings)
        (λ entry m. All-tabulate P (sort_by_id entry.1) (λ o mo.
          All_get P entry.1
            (All_get (λ (e : ℕ × List CourseOffering). All P e.1) (group_by_course [] offerings)
              (group_by_course-All [] offerings tt h) entry m)
            o (unfold sort_by_id in (Memᴰ-sort id_no_later entry.1 o).0 mo)))

abbrev pub IsStaffed : CourseOffering → Type 0
IsStaffed o = 0 < length o.lecturers

record_check-IsStaffed :
    (o : CourseOffering) (r : CheckResult) (v : Validation)
    → (r ≡ passed → IsStaffed o)
    → All IsStaffed v.feasible
    → All IsStaffed (record_check o r v).feasible
unfolding record_check
record_check-IsStaffed o passed v h a = (h refl, a)
record_check-IsStaffed o (failed code metadata) v h a = a

check_all-IsStaffed :
    (total : ℕ) (offerings : List CourseOffering)
    → All IsStaffed (check_all total offerings).feasible
unfolding check_all
check_all-IsStaffed total [] = tt
check_all-IsStaffed total (o ∷ rest) =
    record_check-IsStaffed o (run_checks total o) (check_all total rest)
      (λ e. ((run_checks-passed total o).0 e).staffed) (check_all-IsStaffed total rest)

pool_staffed :
    (primary : CourseOffering) (others : List CourseOffering)
    → IsStaffed primary
    → 0 < length (lecturer_pool_of (primary ∷ others))
unfolding lecturer_pool_of
pool_staffed primary others h =
    let ids = flat_map lecturer_ids_of (primary ∷ others) in
    let l = nonempty_get primary.lecturers h in
    mem_nonempty l.0.id (sort leb (Set.from_list ids)) (
      (Memᴰ-sort leb (Set.from_list ids) l.0.id).1 (
        (Set.Memᴰ-from_list ids l.0.id).1 (
          (Memᴰ-flat_map lecturer_ids_of (primary ∷ others) l.0.id).1
            (primary, Memᴰ.head refl, Memᴰ.map (λ (k : Lecturer). k.id) l.1))))
  where
    nonempty_get : (ls : List Lecturer) → 0 < length ls → (l : Lecturer) × Memᴰ l ls
    nonempty_get [] h = let none_left : ⊥ = omega arith in absurd none_left
    nonempty_get (l ∷ ls) h = (l, Memᴰ.head refl)

    mem_nonempty : (i : ℕ) (ids : List ℕ) → Memᴰ i ids → 0 < length ids
    mem_nonempty i [] m = absurd (Memᴰ.not-nil m)
    mem_nonempty i (j ∷ ids) m = omega arith

module _ (rooms : List Room) (phase : RoomPhase) (slots : List TimeSlot) where
  pub build_cohort_staffed :
      (primary : CourseOffering) (others : List CourseOffering)
      → IsStaffed primary
      → build_cohort rooms phase slots primary others
        ≡ emitted (cohort_candidate rooms phase slots primary others)
  unfolding build_cohort
  build_cohort_staffed primary others h =
      let n = pool_staffed primary others h in
      let e : (length (lecturer_pool_of (primary ∷ others)) == 0) ≡ false = ground arith in
      rw e refl

  -- No cohort is refused: the checks leave no offering without a lecturer.
  refused_cohorts-eq-nil :
      (cohorts : List (List CourseOffering))
      → All (All IsStaffed) cohorts
      → refused_cohorts rooms phase slots cohorts ≡ []
  unfolding refused_cohorts
  refused_cohorts-eq-nil [] h = refl
  refused_cohorts-eq-nil ([] ∷ cohorts) h = refused_cohorts-eq-nil cohorts h.1
  refused_cohorts-eq-nil ((primary ∷ others) ∷ cohorts) h =
      rw (refused_cohorts, build_cohort_staffed primary others h.0.0)
        (refused_cohorts-eq-nil cohorts h.1)

-- The cohorts that runPreGA makes hold staffed offerings only.
pub cohorts_of-IsStaffed :
    (offerings : List CourseOffering) (slots : List TimeSlot) (rooms : Option (List Room))
    → All
        (All IsStaffed)
        (cohorts_of (room_phase rooms (check_all (length slots) offerings).feasible).still_feasible)
cohorts_of-IsStaffed offerings slots rooms =
    let feasible = (check_all (length slots) offerings).feasible in
    cohorts_of-All IsStaffed (room_phase rooms feasible).still_feasible
      (room_phase-All IsStaffed rooms feasible (check_all-IsStaffed (length slots) offerings))

-- Whatever is counted of the offerings, the feasible ones and those of the infeasible entries
-- together count as much as all offerings: each offering is on exactly one of the two lists, as
-- often as it was given.
pub run_pre_ga_accounts :
    (f : CourseOffering → ℕ) (offerings : List CourseOffering) (slots : List TimeSlot)
    (rooms : Option (List Room)) (locked : Option (Map ℕ ℕ))
    → sum_by f (run_pre_ga offerings slots rooms locked).validation.feasible
        + sum_entries f (run_pre_ga offerings slots rooms locked).validation.infeasible
      ≡ sum_by f offerings
unfolding run_pre_ga
run_pre_ga_accounts f offerings slots rooms locked =
    let checked = check_all (length slots) offerings in
    let phase = room_phase rooms checked.feasible in
    rw
      (refused_cohorts-eq-nil (rooms_or_none rooms) phase slots (cohorts_of phase.still_feasible)
        (cohorts_of-IsStaffed offerings slots rooms))
      (omega (
        arith,
        check_all-sum f (length slots) offerings,
        room_phase-sum f rooms checked.feasible,
        sum_by-append (λ (e : Infeasible). f e.offering) checked.infeasible
            (phase.infeasible ++ []),
        sum_by-append (λ (e : Infeasible). f e.offering) phase.infeasible [],
      ))
