-- ===== src/Repo/CompetencyCodec/Trim.antt =====
-- repo/competencyCodec.ts: what trim leaves, and the tags that pass.
use ga_scheduler_v.Base.{
  ◌≡◌, refl, ap, ◌∙◌, inl, inr, false, ◌&&◌, Bool-cases, String, List, [], ◌∷◌, map, All,
}
use ga_scheduler_v.Repo.CompetencyCodec.{
  Result, thrown, returned, is_space, is_empty, trim_start, trim_end, trim, Value, text, other,
  validate_tag, cons_tag, validate_tags,
}

-- No blank in front.
pub Stripped : String → Type 0
Stripped String.[] = Unit
Stripped (String.◌∷◌ c s) = is_space c ≡ false

trim_start-Stripped : (s : String) → Stripped (trim_start s)
unfolding trim_start Stripped
trim_start-Stripped String.[] = tt
trim_start-Stripped (String.◌∷◌ c s) = elim (Bool-cases (is_space c)) [
  | inl blank ↦ rw (trim_start, blank) (trim_start-Stripped s)
  | inr solid ↦ rw (trim_start, solid) solid
]

trim_start_same : (s : String) → Stripped s → trim_start s ≡ s
unfolding trim_start Stripped
trim_start_same String.[] h = refl
trim_start_same (String.◌∷◌ c s) h = rw (trim_start, h) refl

trim_end-Stripped : (s : String) → Stripped s → Stripped (trim_end s)
unfolding trim_end Stripped
trim_end-Stripped String.[] h = tt
trim_end-Stripped (String.◌∷◌ c s) h = rw (trim_end, h) h

trim_end_idem : (s : String) → trim_end (trim_end s) ≡ trim_end s
unfolding trim_end
trim_end_idem String.[] = refl
trim_end_idem (String.◌∷◌ c s) = elim (Bool-cases (is_space c && is_empty (trim_end s))) [
  | inl gone ↦ rw (trim_end, gone) refl
  | inr kept ↦ rw (trim_end, kept, trim_end_idem s, kept) refl
]

pub trim_idem : (s : String) → trim (trim s) ≡ trim s
unfolding trim
trim_idem s =
    let stripped = trim_end-Stripped (trim_start s) (trim_start-Stripped s) in
    ap trim_end (trim_start_same (trim_end (trim_start s)) stripped) ∙ trim_end_idem (trim_start s)

-- A text that is not blank.
abbrev pub IsTag : Value → Type 0
IsTag other = ⊥
IsTag (text s) = is_empty (trim s) ≡ false

abbrev pub trimmed : Value → String
trimmed other = String.[]
trimmed (text s) = trim s

pub validate_tags_all :
    (vs : List Value) → All IsTag vs → validate_tags vs ≡ returned (map trimmed vs)
unfolding validate_tags validate_tag
validate_tags_all [] h = refl
validate_tags_all (other ∷ vs) h = absurd h.0
validate_tags_all (text s ∷ vs) h = rw (validate_tag, h.0, validate_tags_all vs h.1) refl

pub IsTag-trimmed : (vs : List Value) → All IsTag vs → All IsTag (map text (map trimmed vs))
IsTag-trimmed [] h = tt
IsTag-trimmed (other ∷ vs) h = absurd h.0
IsTag-trimmed (text s ∷ vs) h = (ap is_empty (trim_idem s) ∙ h.0, IsTag-trimmed vs h.1)

pub trimmed_again : (vs : List Value) → map trimmed (map text (map trimmed vs)) ≡ map trimmed vs
unfolding trim
trimmed_again [] = refl
trimmed_again (other ∷ vs) = ap (λ ts. String.[] ∷ ts) (trimmed_again vs)
trimmed_again (text s ∷ vs) = λ i. trim_idem s i ∷ trimmed_again vs i

cons_tag-returned :
    (r : Result String) (rs : Result (List String)) (ts : List String)
    → cons_tag r rs ≡ returned ts
    → (t : String) × (us : List String) × (r ≡ returned t) × (rs ≡ returned us)
cons_tag-returned (thrown e) rs ts h = cc
cons_tag-returned (returned t) (thrown e) ts h = cc
cons_tag-returned (returned t) (returned us) ts h = (t, us, refl, refl)

-- Only tags pass.
pub validate_tags-returned :
    (vs : List Value) (ts : List String) → validate_tags vs ≡ returned ts → All IsTag vs
unfolding validate_tags validate_tag
validate_tags-returned [] ts h = tt
validate_tags-returned (other ∷ vs) ts h = cc
validate_tags-returned (text s ∷ vs) ts h =
    let (t, us, first, rest) = cons_tag-returned (validate_tag (text s)) (validate_tags vs) ts h in
    (
      elim (Bool-cases (is_empty (trim s))) [
        | inr solid ↦ solid
        | inl blank ↦ let dropped = rw (validate_tag, blank) at (first) in cc
      ],
      validate_tags-returned vs us rest,
    )
