-- ===== src/PreGa/Validator/Apart.antt =====
-- pre-ga/validator.ts: the candidates stand for different offerings.
use mathlib.Core.List.Memᴰ
use ga_scheduler_v.Base.{
  ℕ, ◌≡◌, ◌≢◌, refl, sym, subst, ap, ◌∙◌, inl, inr, List, [], ◌∷◌, ◌++◌, map, Memᴰ, Option, none,
  some, Option-cases, length, Memᴰ-sort, All, All_get, All-map, All-tabulate, Distinct, nat_eq,
}
use ga_scheduler_v.Base.Map
use ga_scheduler_v.Base.Map.{Map}
use ga_scheduler_v.Types.{Room, TimeSlot, CourseOffering, PreGaCandidate}
use ga_scheduler_v.PreGa.Rooms.{RoomPhase, room_phase}
use ga_scheduler_v.PreGa.Checks.{CheckResult, passed, failed, run_checks}
use ga_scheduler_v.PreGa.Cohorts.{
  group_by_course, sort_by_id, id_no_later, cohort_candidate, raw_candidates, cohorts_of, tag,
  tag_entities,
}
use ga_scheduler_v.PreGa.Validator.{
  Validation, record_check, check_all, locked_offerings, rooms_or_none, run_pre_ga,
}
use ga_scheduler_v.PreGa.Validator.Accounting.{
  IsStaffed, build_cohort_staffed, room_phase-All, cohorts_of-All, cohorts_of-IsStaffed,
}
use ga_scheduler_v.PreGa.Validator.Cohorting.{Cohort, IsOfCourse, group_by_course-IsOfCourse}
use ga_scheduler_v.PreGa.Validator.Fitting.{raw_candidates-All}
use ga_scheduler_v.Ga.Schedule.{offering_of_candidate}

abbrev pub id_of : CourseOffering → ℕ
id_of o = o.id

group_by_course-IsUnique :
    (m : Map ℕ (List CourseOffering)) (offerings : List CourseOffering)
    → Map.IsUnique m
    → Map.IsUnique (group_by_course m offerings)
unfolding group_by_course
group_by_course-IsUnique m [] u = u
group_by_course-IsUnique m (o ∷ rest) u =
    let bucket = Map.get_or o.course_id [] m ++ o ∷ [] in
    group_by_course-IsUnique (Map.set o.course_id bucket m) rest
      (Map.IsUnique-set o.course_id bucket m u)

record_check-mem :
    (x : CourseOffering) (r : CheckResult) (v : Validation) (o : CourseOffering)
    (rest : List CourseOffering)
    → (Memᴰ o v.feasible → Memᴰ o rest)
    → Memᴰ o (record_check x r v).feasible
    → Memᴰ o (x ∷ rest)
unfolding record_check
record_check-mem x passed v o rest h m = elim (Memᴰ.cases_cons m) [
  | inl e ↦ Memᴰ.head e
  | inr t ↦ Memᴰ.tail (h t)
]
record_check-mem x (failed code metadata) v o rest h m = Memᴰ.tail (h m)

check_all-mem :
    (total : ℕ) (offerings : List CourseOffering) (o : CourseOffering)
    → Memᴰ o (check_all total offerings).feasible
    → Memᴰ o offerings
unfolding check_all
check_all-mem total [] o m = absurd (Memᴰ.not-nil m)
check_all-mem total (x ∷ rest) o m =
    record_check-mem x (run_checks total x) (check_all total rest) o rest
      (check_all-mem total rest o) m

Distinct-mem :
    (offerings : List CourseOffering) (a b : CourseOffering)
    → Distinct id_of offerings
    → Memᴰ a offerings
    → Memᴰ b offerings
    → a.id ≡ b.id
    → a ≡ b
Distinct-mem [] a b d ma mb e = absurd (Memᴰ.not-nil ma)
Distinct-mem (x ∷ xs) a b d ma mb e = elim (Memᴰ.cases_cons ma) [
  | inl a_first ↦ elim (Memᴰ.cases_cons mb) [
    | inl b_first ↦ a_first ∙ sym b_first
    | inr b_later ↦ absurd (
        All_get (λ (y : CourseOffering). x.id ≢ y.id) xs d.0 b b_later (ap id_of (sym a_first) ∙ e))
  ]
  | inr a_later ↦ elim (Memᴰ.cases_cons mb) [
    | inl b_first ↦ absurd (
        All_get (λ (y : CourseOffering). x.id ≢ y.id) xs d.0 a a_later
          (ap id_of (sym b_first) ∙ sym e))
    | inr b_later ↦ Distinct-mem xs a b d.1 a_later b_later e
  ]
]

abbrev cohort_of : Cohort → List CourseOffering
cohort_of entry = sort_by_id entry.1

mem-sort_by_id :
    (siblings : List CourseOffering) (o : CourseOffering)
    → Memᴰ o (sort_by_id siblings)
    → Memᴰ o siblings
unfolding sort_by_id
mem-sort_by_id siblings o m = (Memᴰ-sort id_no_later siblings o).0 m

module _ (offerings : List CourseOffering) (distinct : Distinct id_of offerings) where
  -- A cohort of a course, of given offerings.
  abbrev IsCohort : Cohort → Type 0
  IsCohort entry =
      IsOfCourse entry × All (λ (o : CourseOffering). Memᴰ o offerings) (sort_by_id entry.1)

  -- The candidate stands for an offering that is not of the course.
  abbrev IsElse : ℕ → PreGaCandidate → Type 0
  IsElse course c =
      (o : CourseOffering) × Memᴰ o offerings × (o.id ≡ c.offering_id) × (course ≢ o.course_id)

  module _ (rooms : List Room) (phase : RoomPhase) (slots : List TimeSlot) where
    raw_candidates-IsElse :
        (course : ℕ) (rest : List Cohort)
        → All (λ (entry : Cohort). ¬ (course ≡ entry.0)) rest
        → All IsCohort rest
        → All (All IsStaffed) (map cohort_of rest)
        → All (IsElse course) (raw_candidates rooms phase slots (map cohort_of rest))
    unfolding cohort_candidate
    raw_candidates-IsElse course rest apart good staffed =
        raw_candidates-All (IsElse course) rooms phase slots (map cohort_of rest) staffed
          (λ primary others m.
            let (entry, n, e) = Memᴰ.of_map cohort_of rest m in
            let fine = All_get IsCohort rest good entry n in
            let here : Memᴰ primary (sort_by_id entry.1) =
              subst (λ k. Memᴰ primary k) (sym e) (Memᴰ.head refl) in
            let of_course =
              All_get (λ (o : CourseOffering). o.course_id ≡ entry.0) entry.1 fine.0 primary
                (mem-sort_by_id entry.1 primary here) in
            (
              primary,
              All_get (λ (o : CourseOffering). Memᴰ o offerings) (sort_by_id entry.1) fine.1 primary
                  here,
              refl,
              λ same.
                  All_get (λ (k : Cohort). ¬ (course ≡ k.0)) rest apart entry n (same ∙ of_course),
            ))

    raw_candidates-Distinct_cons :
        (course : ℕ) (siblings : List CourseOffering) (rest : List Cohort)
        → All (λ (o : CourseOffering). o.course_id ≡ course) siblings
        → All (λ (o : CourseOffering). Memᴰ o offerings) siblings
        → All IsStaffed siblings
        → All (All IsStaffed) (map cohort_of rest)
        → All (IsElse course) (raw_candidates rooms phase slots (map cohort_of rest))
        → Distinct offering_of_candidate (raw_candidates rooms phase slots (map cohort_of rest))
        → Distinct offering_of_candidate
            (raw_candidates rooms phase slots (siblings ∷ map cohort_of rest))
    unfolding raw_candidates cohort_candidate
    raw_candidates-Distinct_cons course [] rest of_course listed staffed others_staffed elsewhere
          more =
        more
    raw_candidates-Distinct_cons course (primary ∷ others) rest of_course listed staffed
          others_staffed elsewhere more =
        let later = raw_candidates rooms phase slots (map cohort_of rest) in
        rw (raw_candidates, build_cohort_staffed rooms phase slots primary others staffed.0)
          (
            All-tabulate (λ (c : PreGaCandidate). primary.id ≢ c.offering_id) later
                (λ c m.
                  let (o, mo, e, apart) = All_get (IsElse course) later elsewhere c m in
                  λ same.
                    let one =
                      Distinct-mem offerings primary o distinct listed.0 mo (same ∙ sym e) in
                    apart (sym of_course.0 ∙ ap (λ (k : CourseOffering). k.course_id) one)),
            more,
          )

    raw_candidates-Distinct :
        (entries : List Cohort)
        → Map.IsUnique entries
        → All IsCohort entries
        → All (All IsStaffed) (map cohort_of entries)
        → Distinct offering_of_candidate (raw_candidates rooms phase slots (map cohort_of entries))
    unfolding raw_candidates
    raw_candidates-Distinct [] u good staffed = tt
    raw_candidates-Distinct ((course, siblings) ∷ rest) u good staffed =
        raw_candidates-Distinct_cons course (sort_by_id siblings) rest
          (All-tabulate (λ (o : CourseOffering). o.course_id ≡ course) (sort_by_id siblings)
            (λ o m.
              All_get (λ (k : CourseOffering). k.course_id ≡ course) siblings good.0.0 o
                (mem-sort_by_id siblings o m)))
          good.0.1 staffed.0 staffed.1 (raw_candidates-IsElse course rest u.0 good.1 staffed.1)
          (raw_candidates-Distinct rest u.1 good.1 staffed.1)

tag_offering : (locked : Map ℕ ℕ) (c : PreGaCandidate) → (tag locked c).offering_id ≡ c.offering_id
unfolding tag
tag_offering locked c = elim (Option-cases (Map.get c.offering_id locked)) [
  | inl untagged ↦ rw (tag, untagged) refl
  | inr (room, held) ↦ rw (tag, held) refl
]

Distinct-tag :
    (locked : Map ℕ ℕ) (cs : List PreGaCandidate)
    → Distinct offering_of_candidate cs
    → Distinct offering_of_candidate (map (tag locked) cs)
Distinct-tag locked [] d = tt
Distinct-tag locked (c ∷ cs) d = (
  All-map (λ (k : PreGaCandidate). (tag locked c).offering_id ≢ k.offering_id) (tag locked) cs
      (λ k m same.
        All_get (λ (y : PreGaCandidate). c.offering_id ≢ y.offering_id) cs d.0 k m
          (sym (tag_offering locked c) ∙ same ∙ tag_offering locked k)),
  Distinct-tag locked cs d.1,
)

-- Where the ids of the offerings are pairwise different, so are the offering ids of the candidates that
-- runPreGA emits.
pub run_pre_ga-Distinct :
    (offerings : List CourseOffering) (slots : List TimeSlot) (rooms : Option (List Room))
    (locked : Option (Map ℕ ℕ))
    → Distinct id_of offerings
    → Distinct offering_of_candidate (run_pre_ga offerings slots rooms locked).candidates
unfolding run_pre_ga tag_entities cohorts_of
run_pre_ga-Distinct offerings slots rooms locked distinct =
    let feasible = (check_all (length slots) offerings).feasible in
    let phase = room_phase rooms feasible in
    let entries = group_by_course [] phase.still_feasible in
    let locks : Map ℕ ℕ = elim locked [
      | none ↦ Map.from_list (locked_offerings phase.still_feasible)
      | some m ↦ m
    ] in
    let IsGiven : CourseOffering → Type 0 = λ o. Memᴰ o offerings in
    let given =
      room_phase-All IsGiven rooms feasible
        (All-tabulate IsGiven feasible (check_all-mem (length slots) offerings)) in
    let listed = cohorts_of-All IsGiven phase.still_feasible given in
    let of_course = group_by_course-IsOfCourse [] phase.still_feasible tt in
    Distinct-tag locks (raw_candidates (rooms_or_none rooms) phase slots (map cohort_of entries)) (
      raw_candidates-Distinct offerings distinct (rooms_or_none rooms) phase slots entries
        (group_by_course-IsUnique [] phase.still_feasible tt)
        (All-tabulate (IsCohort offerings distinct) entries (λ entry m. (
          All_get IsOfCourse entries of_course entry m,
          All_get (All IsGiven) (map cohort_of entries) listed (cohort_of entry)
              (Memᴰ.map cohort_of m),
        )))
        (cohorts_of-IsStaffed offerings slots rooms))
