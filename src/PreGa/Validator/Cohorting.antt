-- ===== src/PreGa/Validator/Cohorting.antt =====
-- pre-ga/validator.ts: the cohort that stands for a feasible offering.
use mathlib.Core.List.Memᴰ
use ga_scheduler_v.Base.{
  ℕ, ◌≤◌, ◌≡◌, refl, sym, inl, inr, List, [], ◌∷◌, ◌++◌, Memᴰ, Option, none, some, flat_map, length,
  leb, Memᴰ-sort, Memᴰ-flat_map, max_by-get, All, All-append, All_get, Option-cases, Bool-cases,
  All-tabulate, subst, nat_eq, cons≢nil, List-cases,
}
use ga_scheduler_v.Base.Map
use ga_scheduler_v.Base.Map.{Map}
use ga_scheduler_v.Base.Set
use ga_scheduler_v.Types.{Room, TimeSlot, CourseOffering, PreGaCandidate}
use ga_scheduler_v.PreGa.Rooms.{RoomPhase, room_phase}
use ga_scheduler_v.PreGa.Cohorts.{
  lecturer_pool_of, lecturer_ids_of, group_by_course, sort_by_id, id_no_later, raw_candidates,
  cohorts_of, cohort_candidate, tag, tag_entities,
}
use ga_scheduler_v.PreGa.Validator.{check_all, run_pre_ga, rooms_or_none, locked_offerings}
use ga_scheduler_v.PreGa.Validator.Accounting.{
  IsStaffed, cohorts_of-IsStaffed, build_cohort_staffed,
}

abbrev pub Cohort : Type 0
Cohort = ℕ × List CourseOffering

abbrev pub IsOfCourse : Cohort → Type 0
IsOfCourse (course, siblings) = All (λ (o : CourseOffering). o.course_id ≡ course) siblings

pub group_by_course-IsOfCourse :
    (m : Map ℕ (List CourseOffering)) (offerings : List CourseOffering)
    → All IsOfCourse m
    → All IsOfCourse (group_by_course m offerings)
unfolding group_by_course
group_by_course-IsOfCourse m [] h = h
group_by_course-IsOfCourse m (o ∷ rest) h =
    group_by_course-IsOfCourse (Map.set o.course_id (Map.get_or o.course_id [] m ++ o ∷ []) m) rest
      (Map.All-set IsOfCourse o.course_id (Map.get_or o.course_id [] m ++ o ∷ []) m h
        (elim (Option-cases (Map.get o.course_id m)) [
          | inl new ↦ rw (new, Map.get_or) (refl, tt)
          | inr (bucket, old) ↦
              rw (old, Map.get_or)
                (All-append (λ (s : CourseOffering). s.course_id ≡ o.course_id) bucket (o ∷ [])
                  (Map.All-get IsOfCourse o.course_id bucket m h old) (refl, tt))
        ]))

-- A push on the bucket of `k` takes nothing out of the bucket of `j`.
push_keeps :
    (k j : ℕ) (x o : CourseOffering) (m : Map ℕ (List CourseOffering))
    → Memᴰ o (Map.get_or j [] m)
    → Memᴰ o (Map.get_or j [] (Map.set k (Map.get_or k [] m ++ x ∷ []) m))
push_keeps k j x o m h =
    let e = Map.get_or-set k j [] (Map.get_or k [] m ++ x ∷ []) m in
    elim (Bool-cases (nat_eq.same k j)) [
      | inl same ↦
          let eq : j ≡ k = sym ((nat_eq.same_iff k j).0 same) in
          subst (Memᴰ o) (sym (rw same at e)) (Memᴰ.append_left (x ∷ []) (rw eq at h))
      | inr other ↦ subst (Memᴰ o) (sym (rw other at e)) h
    ]

push_has :
    (k : ℕ) (x : CourseOffering) (m : Map ℕ (List CourseOffering))
    → Memᴰ x (Map.get_or k [] (Map.set k (Map.get_or k [] m ++ x ∷ []) m))
push_has k x m =
    let e = Map.get_or-set k k [] (Map.get_or k [] m ++ x ∷ []) m in
    let same = (nat_eq.same_iff k k).1 refl in
    subst (Memᴰ x) (sym (rw same at e)) (Memᴰ.append_right (Map.get_or k [] m) (Memᴰ.head refl))

-- An offering that is in the bucket of its course stays there.
group_by_course_keeps :
    (m : Map ℕ (List CourseOffering)) (offerings : List CourseOffering) (o : CourseOffering)
    → Memᴰ o (Map.get_or o.course_id [] m)
    → Memᴰ o (Map.get_or o.course_id [] (group_by_course m offerings))
unfolding group_by_course
group_by_course_keeps m [] o h = h
group_by_course_keeps m (x ∷ rest) o h =
    group_by_course_keeps (Map.set x.course_id (Map.get_or x.course_id [] m ++ x ∷ []) m) rest o
      (push_keeps x.course_id o.course_id x o m h)

mem-group_by_course :
    (m : Map ℕ (List CourseOffering)) (offerings : List CourseOffering) (o : CourseOffering)
    → Memᴰ o offerings
    → Memᴰ o (Map.get_or o.course_id [] (group_by_course m offerings))
unfolding group_by_course
mem-group_by_course m [] o h = absurd (Memᴰ.not-nil h)
mem-group_by_course m (x ∷ rest) o h = elim (Memᴰ.cases_cons h) [
  | inl same ↦
      group_by_course_keeps (Map.set x.course_id (Map.get_or x.course_id [] m ++ x ∷ []) m) rest o (
        subst
          (λ (y : CourseOffering). Memᴰ y (
            Map.get_or y.course_id []
              (Map.set x.course_id (Map.get_or x.course_id [] m ++ x ∷ []) m)))
          (sym same) (push_has x.course_id x m))
  | inr t ↦
      mem-group_by_course (Map.set x.course_id (Map.get_or x.course_id [] m ++ x ∷ []) m) rest o t
]

-- The cohort of an offering, once its cohorts are made.
mem-cohorts_of :
    (offerings : List CourseOffering) (o : CourseOffering)
    → Memᴰ o offerings
    → (siblings : List CourseOffering) × Memᴰ siblings (cohorts_of offerings)
      × Memᴰ o siblings
      × All (λ (s : CourseOffering). s.course_id ≡ o.course_id) siblings
unfolding cohorts_of
mem-cohorts_of offerings o h =
    let m = group_by_course [] offerings in
    let listed = mem-group_by_course [] offerings o h in
    elim (Option-cases (Map.get o.course_id m)) [
      | inl unknown ↦ absurd (Memᴰ.not-nil (rw (Map.get_or, unknown) at listed))
      | inr (bucket, found) ↦
          let here : Memᴰ o bucket = rw (Map.get_or, found) at listed in
          let of_course =
            Map.All-get IsOfCourse o.course_id bucket m (group_by_course-IsOfCourse [] offerings tt)
              found in
          (
            sort_by_id bucket,
            Memᴰ.map (λ (entry : Cohort). sort_by_id entry.1)
                (Map.mem_of_get o.course_id m bucket found),
            (unfold sort_by_id in (Memᴰ-sort id_no_later bucket o).1 here),
            All-tabulate (λ (s : CourseOffering). s.course_id ≡ o.course_id) (sort_by_id bucket)
                (λ s ms.
                  All_get (λ (s : CourseOffering). s.course_id ≡ o.course_id) bucket of_course s
                    (unfold sort_by_id in (Memᴰ-sort id_no_later bucket s).0 ms)),
          )
    ]

module _ (rooms : List Room) (phase : RoomPhase) (slots : List TimeSlot) where
  mem-raw_candidates :
      (primary : CourseOffering) (others : List CourseOffering)
      (cohorts : List (List CourseOffering))
      → All (All IsStaffed) cohorts
      → Memᴰ (primary ∷ others) cohorts
      → Memᴰ
          (cohort_candidate rooms phase slots primary others)
          (raw_candidates rooms phase slots cohorts)
  unfolding raw_candidates
  mem-raw_candidates primary others [] a h = absurd (Memᴰ.not-nil h)
  mem-raw_candidates primary others ([] ∷ cohorts) a h = elim (Memᴰ.cases_cons h) [
    | inl e ↦ absurd (cons≢nil e)
    | inr t ↦ mem-raw_candidates primary others cohorts a.1 t
  ]
  mem-raw_candidates primary others ((p ∷ os) ∷ cohorts) a h =
      rw (raw_candidates, build_cohort_staffed rooms phase slots p os a.0.0)
        (elim (Memᴰ.cases_cons h) [
          | inl e ↦
              let ep : primary ≡ p = cc in
              let eo : others ≡ os = cc in
              Memᴰ.head (λ i. cohort_candidate rooms phase slots (ep i) (eo i))
          | inr t ↦ Memᴰ.tail (mem-raw_candidates primary others cohorts a.1 t)
        ])

pub mem-lecturer_pool_of :
    (siblings : List CourseOffering) (o : CourseOffering) (l : ℕ)
    → Memᴰ o siblings
    → Memᴰ l (lecturer_ids_of o)
    → Memᴰ l (lecturer_pool_of siblings)
unfolding lecturer_pool_of
mem-lecturer_pool_of siblings o l mo ml =
    let ids = flat_map lecturer_ids_of siblings in
    (Memᴰ-sort leb (Set.from_list ids) l).1
      ((Set.Memᴰ-from_list ids l).1 ((Memᴰ-flat_map lecturer_ids_of siblings l).1 (o, mo, ml)))

-- The candidate that stands for an offering: one of its course that lists it among its siblings,
-- has all its lecturers in the pool and counts at least its students.
pub record Stands (o : CourseOffering) (c : PreGaCandidate) : Type 0 where
  pub course : c.course_id ≡ o.course_id
  pub sibling : Memᴰ o.id c.sibling_offering_ids
  pub taught : (l : ℕ) → Memᴰ l (lecturer_ids_of o) → Memᴰ l c.lecturer_pool
  pub seated : o.effective_student_count ≤ c.effective_student_count

Stands-tag :
    (locked : Map ℕ ℕ) (o : CourseOffering) (c : PreGaCandidate)
    → Stands o c
    → Stands o (tag locked c)
unfolding tag
Stands-tag locked o c s = elim (Option-cases (Map.get c.offering_id locked)) [
  | inl free ↦
      rw (tag, free)
        (record { course = s.course; sibling = s.sibling; taught = s.taught; seated = s.seated })
  | inr (room, held) ↦
      rw (tag, held)
        (record { course = s.course; sibling = s.sibling; taught = s.taught; seated = s.seated })
]

-- Every offering that runPreGA returns as feasible has a candidate that stands for it: one of its
-- course that lists it among its siblings, has all its lecturers in its pool and counts at least its
-- students.
pub run_pre_ga-Stands :
    (offerings : List CourseOffering) (slots : List TimeSlot) (rooms : Option (List Room))
    (locked : Option (Map ℕ ℕ)) (o : CourseOffering)
    → Memᴰ o (run_pre_ga offerings slots rooms locked).validation.feasible
    → (c : PreGaCandidate) × Memᴰ c (run_pre_ga offerings slots rooms locked).candidates
      × Stands o c
unfolding run_pre_ga tag_entities
run_pre_ga-Stands offerings slots rooms locked o h =
    let phase = room_phase rooms (check_all (length slots) offerings).feasible in
    let cohorts = cohorts_of phase.still_feasible in
    let locks : Map ℕ ℕ = elim locked [
      | none ↦ Map.from_list (locked_offerings phase.still_feasible)
      | some m ↦ m
    ] in
    let (siblings, listed, here, of_course) = mem-cohorts_of phase.still_feasible o h in
    elim (List-cases siblings) [
      | inl none_left ↦ absurd (Memᴰ.not-nil (rw none_left at here))
      | inr (primary, others, e) ↦
          let c = cohort_candidate (rooms_or_none rooms) phase slots primary others in
          let here' : Memᴰ o (primary ∷ others) = subst (Memᴰ o) e here in
          let stands : Stands o c =
            unfold cohort_candidate in
            record {
              course = (rw e at of_course).0;
              sibling = Memᴰ.map (λ (s : CourseOffering). s.id) here';
              taught = λ l ml. mem-lecturer_pool_of (primary ∷ others) o l here' ml;
              seated =
                  max_by-get (λ (s : CourseOffering). s.effective_student_count) (primary ∷ others)
                    o here';
            } in
          (
            tag locks c,
            Memᴰ.map (tag locks) (
                mem-raw_candidates (rooms_or_none rooms) phase slots primary others cohorts
                  (cohorts_of-IsStaffed offerings slots rooms)
                  (subst (λ (k : List CourseOffering). Memᴰ k cohorts) e listed)),
            Stands-tag locks o c stands,
          )
    ]
