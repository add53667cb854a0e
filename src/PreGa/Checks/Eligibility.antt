-- ===== src/PreGa/Checks/Eligibility.antt =====
-- Eligibility, facilities and rounding, stated without the code.

use native.Mathlib.Nat.{div-lt_iff_lt-mul}
use ga_scheduler_v.Base.{
  ℕ, ◌+◌, ◌-◌, ◌*◌, ◌≤◌, ◌<◌, ◌≡◌, ◌↔◌, ◌⊎◌, inl, inr, refl, String, Bool, true, List, [], ◌∷◌,
  Memᴰ, any_iff, all, includes, includes_iff, string_eq, List-cases, arith,
}
use ga_scheduler_v.Types.{Lecturer, Course}
use ga_scheduler_v.PreGa.Checks.{is_lecturer_eligible_for_course, ceil_div}

-- A course that asks for nothing is open to all; any other wants one of its competencies.
abbrev pub IsEligible : Lecturer → Course → Type 0
IsEligible l c =
    (c.required_competencies ≡ [])
    ⊎ ((r : String) × Memᴰ r c.required_competencies × Memᴰ r l.competencies)

-- `isLecturerEligibleForCourse` is true exactly for a course that requires no competency, or of
-- which the lecturer owns at least one required competency.
pub is_lecturer_eligible_for_course_iff :
    (l : Lecturer) (c : Course) → (is_lecturer_eligible_for_course l c ≡ true) ↔ IsEligible l c
unfolding is_lecturer_eligible_for_course
is_lecturer_eligible_for_course_iff l c = elim (List-cases c.required_competencies) [
  | inl open' ↦ rw (open', is_lecturer_eligible_for_course) (λ _. inl refl, λ _. refl)
  | inr (req, reqs, e) ↦
      let owns = λ (r : String). includes l.competencies r in
      rw (e, is_lecturer_eligible_for_course)
        (
          λ h.
              let (r, m, o) = (any_iff owns (req ∷ reqs)).0 h in
              inr (r, m, (includes_iff l.competencies r).0 o),
          λ s. elim s [
            | inl empty ↦ absurd' empty
            | inr (r, m, o) ↦
                (any_iff owns (req ∷ reqs)).1 (r, m, (includes_iff l.competencies r).1 o)
          ],
        )
]
  where
    absurd' : {b : Bool} {x : String} {xs : List String} → x ∷ xs ≡ [] → b ≡ true
    absurd' e = cc

pub ceil_div-le : (a b n : ℕ) → 0 < b → (ceil_div a b ≤ n) ↔ (a ≤ n * b)
ceil_div-le a b n pos =
    let iff = div-lt_iff_lt-mul {k = b} {x = a + (b - 1)} {y = n + 1} pos in
    (
      λ h. let h' = iff.0 (omega arith) in omega arith,
      λ h. let h' = iff.1 (omega arith) in omega arith,
    )

pub all_of {ℓ} :
    {A : Type ℓ} (p : A → Bool) (xs : List A) → ((x : A) → Memᴰ x xs → p x ≡ true) → all p xs ≡ true
all_of p [] h = refl
all_of p (x ∷ xs) h = rw (h x (Memᴰ.head refl)) (all_of p xs (λ y m. h y (Memᴰ.tail m)))
