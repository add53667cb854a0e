-- ===== src/Slots/Contiguous.antt =====
-- Runs of back-to-back slots: what `chains` and `windows` cut out of a sorted day.

use text.Mathlib.TextEquality.{eq_iff}
use ga_scheduler_v.Base.{
  ℕ, zero, suc, ◌≡◌, inl, inr, List, [], ◌∷◌, length, take, length-take, leb, leb→le, Bool-cases,
  All, arith,
}
use ga_scheduler_v.Types.{TimeSlot}
use ga_scheduler_v.Slots.{back_to_back, link, chains, windows}

-- Each slot ends when the next one starts.
abbrev pub IsContiguous : List TimeSlot → Type 0
IsContiguous [] = Unit
IsContiguous (x ∷ []) = Unit
IsContiguous (x ∷ y ∷ rest) = (x.end_time ≡ y.start_time) × IsContiguous (y ∷ rest)

link-IsContiguous :
    (x : TimeSlot) (cs : List (List TimeSlot)) → All IsContiguous cs → All IsContiguous (link x cs)
link-IsContiguous x [] h = (tt, tt)
link-IsContiguous x ([] ∷ cs) h = (tt, h.1)
link-IsContiguous x ((y ∷ ys) ∷ cs) h = elim (Bool-cases (back_to_back x y)) [
  | inl joined ↦ rw joined (((eq_iff x.end_time y.start_time).0 joined, h.0), h.1)
  | inr apart ↦ rw apart (tt, h)
]

pub chains-IsContiguous : (xs : List TimeSlot) → All IsContiguous (chains xs)
unfolding chains
chains-IsContiguous [] = tt
chains-IsContiguous (x ∷ xs) = link-IsContiguous x (chains xs) (chains-IsContiguous xs)

-- `P` of every slot of every chain.
abbrev Everywhere : (TimeSlot → Type 0) → List (List TimeSlot) → Type 0
Everywhere P = All (All P)

module _ (P : TimeSlot → Type 0) where
  link-Everywhere :
      (x : TimeSlot) (cs : List (List TimeSlot)) → P x → Everywhere P cs → Everywhere P (link x cs)
  link-Everywhere x [] p h = ((p, tt), tt)
  link-Everywhere x ([] ∷ cs) p h = ((p, tt), h.1)
  link-Everywhere x ((y ∷ ys) ∷ cs) p h = elim (Bool-cases (back_to_back x y)) [
    | inl joined ↦ rw joined ((p, h.0), h.1)
    | inr apart ↦ rw apart ((p, tt), h)
  ]

  pub chains-All : (xs : List TimeSlot) → All P xs → All (All P) (chains xs)
  unfolding chains
  chains-All [] h = tt
  chains-All (x ∷ xs) h = link-Everywhere x (chains xs) h.0 (chains-All xs h.1)

  take-All : (n : ℕ) (xs : List TimeSlot) → All P xs → All P (take n xs)
  take-All zero xs h = tt
  take-All (suc n) [] h = tt
  take-All (suc n) (x ∷ xs) h = (h.0, take-All n xs h.1)

  pub windows-All : (d : ℕ) (xs : List TimeSlot) → All P xs → All (All P) (windows d xs)
  unfolding windows
  windows-All d [] h = tt
  windows-All d (x ∷ xs) h = elim (Bool-cases (leb d (length (x ∷ xs)))) [
    | inl fits ↦ rw fits (take-All d (x ∷ xs) h, windows-All d xs h.1)
    | inr short ↦ rw short tt
  ]

take-IsContiguous : (n : ℕ) (xs : List TimeSlot) → IsContiguous xs → IsContiguous (take n xs)
take-IsContiguous zero xs h = tt
take-IsContiguous (suc n) [] h = tt
take-IsContiguous (suc zero) (x ∷ xs) h = tt
take-IsContiguous (suc (suc n)) (x ∷ []) h = tt
take-IsContiguous (suc (suc n)) (x ∷ y ∷ xs) h = (h.0, take-IsContiguous (suc n) (y ∷ xs) h.1)

IsContiguous-tail : (x : TimeSlot) (xs : List TimeSlot) → IsContiguous (x ∷ xs) → IsContiguous xs
IsContiguous-tail x [] h = tt
IsContiguous-tail x (y ∷ xs) h = h.1

-- A window has the duration's length and is contiguous.
abbrev pub IsWindow : ℕ → List TimeSlot → Type 0
IsWindow d w = (length w ≡ d) × IsContiguous w

pub windows-IsWindow :
    (d : ℕ) (xs : List TimeSlot) → IsContiguous xs → All (IsWindow d) (windows d xs)
unfolding windows
windows-IsWindow d [] h = tt
windows-IsWindow d (x ∷ xs) h = elim (Bool-cases (leb d (length (x ∷ xs)))) [
  | inl fits ↦ rw fits (
    (
      omega (arith, length-take d (x ∷ xs), leb→le d (length (x ∷ xs)) fits),
      take-IsContiguous d (x ∷ xs) h,
    ),
    windows-IsWindow d xs (IsContiguous-tail x xs h),
  )
  | inr short ↦ rw short tt
]
