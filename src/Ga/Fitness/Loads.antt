-- ===== src/Ga/Fitness/Loads.antt =====
-- ga/fitness.ts: the teaching load that the structural penalty and the load penalty charge.
use mathlib.Core.List.Memᴰ
use ga_scheduler_v.Base.{
  ℕ, ◌+◌, ◌-◌, ◌≤◌, ◌≡◌, ◌≢◌, ◌↔◌, ◌∙◌, sym, ap, inl, inr, refl, Bool, true, Option, none, some,
  Option-cases, List, [], ◌∷◌, Memᴰ, sum_by, length, All, All_get, All-tabulate, Distinct,
  if◌then◌else◌, Bool-cases, ◌==◌, nat_eq, nat_beq_iff, arith,
}
use ga_scheduler_v.Base.Map
use ga_scheduler_v.Base.Map.{Map}
use ga_scheduler_v.Types.{PreGaCandidate, GeneSession, Chromosome}
use ga_scheduler_v.Ga.Fitness.{
  add_load, load_sessions, load_genes, known_genes, sum_sessions, is_structural,
  structural_max_sessions, calculate_structural_penalty, overload, calculate_load_penalty,
}

-- The slots of a session, for each time that it lists the lecturer.
abbrev pub list_load : ℕ → ℕ → List ℕ → ℕ
list_load l sks = sum_by (λ k. if k == l then sks else 0)

abbrev pub session_load : ℕ → GeneSession → ℕ
session_load l s = list_load l (length s.time_slot_ids) s.lecturer_ids

-- The slots that a lecturer teaches over all sessions of the chromosome.
abbrev pub load_of : ℕ → Chromosome → ℕ
load_of l = sum_sessions (session_load l)

abbrev lecturer_of : ℕ × ℕ → ℕ
lecturer_of entry = entry.0

Distinct-set :
    (k v : ℕ) (m : Map ℕ ℕ) → Distinct lecturer_of m → Distinct lecturer_of (Map.set k v m)
Distinct-set k v [] d = (tt, tt)
Distinct-set k v ((j, w) ∷ m) d = elim (Bool-cases (j == k)) [
  | inl same ↦ rw same (d.0, d.1)
  | inr other ↦
      let apart : j ≢ k = λ e. let same = (nat_beq_iff j k).1 e in cc in
      rw other (Map.All-set (λ (y : ℕ × ℕ). j ≢ y.0) k v m d.0 apart, Distinct-set k v m d.1)
]

apart_of_mem :
    {j : ℕ} (k v : ℕ) (m : Map ℕ ℕ) → All (λ (y : ℕ × ℕ). j ≢ y.0) m → j ≡ k → ¬ Memᴰ (k, v) m
apart_of_mem k v m h e t = All_get (λ (y : ℕ × ℕ). _ ≢ y.0) m h (k, v) t e

get_of_mem : (k v : ℕ) (m : Map ℕ ℕ) → Distinct lecturer_of m → Memᴰ (k, v) m → Map.get k m ≡ some v
get_of_mem k v [] d h = absurd (Memᴰ.not-nil h)
get_of_mem k v ((j, w) ∷ m) d h = elim (Memᴰ.cases_cons h) [
  | inl e ↦
      let ek : j ≡ k = cc in
      let ev : w ≡ v = cc in let same = (nat_beq_iff j k).1 ek in rw same (ap some ev)
  | inr t ↦ elim (Bool-cases (j == k)) [
    | inl same ↦ absurd (apart_of_mem k v m d.0 (let e = (nat_beq_iff j k).0 same in e) t)
    | inr other ↦ rw other (get_of_mem k v m d.1 t)
  ]
]

module _ (counted : ℕ → Bool) where
  -- What the map holds for a lecturer that counts; the others have no entry.
  abbrev weight : ℕ → ℕ → ℕ
  weight l n = if counted l then n else 0

  weight_add : (l a b : ℕ) → weight l (a + b) ≡ weight l a + weight l b
  weight_add l a b = ground arith

  step :
      (l k sks : ℕ) (m : Map ℕ ℕ)
      → Map.get_or l 0 (if counted k then Map.set k (Map.get_or k 0 m + sks) m else m)
        ≡ Map.get_or l 0 m + weight l (if k == l then sks else 0)
  step l k sks m = elim (Bool-cases (k == l)) [
    | inl same ↦
        let e : l ≡ k = sym ((nat_beq_iff k l).0 same) in
        let g = Map.get_or-set k l 0 (Map.get_or k 0 m + sks) m in
        let g' : Map.get_or l 0 (Map.set k (Map.get_or k 0 m + sks) m) ≡ Map.get_or l 0 m + sks =
          rw same at g ∙ rw e refl in
        let c : counted l ≡ counted k = ap counted e in
        elim (Bool-cases (counted k)) [
          | inl taken ↦ rw (same, taken, c ∙ taken) g'
          | inr left_out ↦ rw (same, left_out, c ∙ left_out) (omega arith)
        ]
    | inr other ↦
        let g = Map.get_or-set k l 0 (Map.get_or k 0 m + sks) m in
        let g' : Map.get_or l 0 (Map.set k (Map.get_or k 0 m + sks) m) ≡ Map.get_or l 0 m =
          rw other at g in
        let none_more : weight l 0 ≡ 0 = ground arith in
        elim (Bool-cases (counted k)) [
          | inl taken ↦ rw (other, taken, none_more) (omega arith)
          | inr left_out ↦ rw (other, left_out, none_more) (omega arith)
        ]
  ]

  get_or-add_load :
      (l : ℕ) (ls : List ℕ) (sks : ℕ) (m : Map ℕ ℕ)
      → Map.get_or l 0 (add_load counted ls sks m)
        ≡ Map.get_or l 0 m + weight l (list_load l sks ls)
  unfolding add_load
  get_or-add_load l [] sks m = ground arith
  get_or-add_load l (k ∷ ls) sks m =
      let m' = if counted k then Map.set k (Map.get_or k 0 m + sks) m else m in
      let one = step l k sks m in
      let rest = get_or-add_load l ls sks m' in
      let both = weight_add l (if k == l then sks else 0) (list_load l sks ls) in
      rest ∙ (omega arith)

  get_or-load_sessions :
      (l : ℕ) (ss : List GeneSession) (m : Map ℕ ℕ)
      → Map.get_or l 0 (load_sessions counted ss m)
        ≡ Map.get_or l 0 m + weight l (sum_by (session_load l) ss)
  unfolding load_sessions
  get_or-load_sessions l [] m = ground arith
  get_or-load_sessions l (s ∷ rest) m =
      let m' = add_load counted s.lecturer_ids (length s.time_slot_ids) m in
      let one = get_or-add_load l s.lecturer_ids (length s.time_slot_ids) m in
      let more = get_or-load_sessions l rest m' in
      let both = weight_add l (session_load l s) (sum_by (session_load l) rest) in
      more ∙ (omega arith)

  get_or-load_genes :
      (l : ℕ) (gs : Chromosome) (m : Map ℕ ℕ)
      → Map.get_or l 0 (load_genes counted gs m) ≡ Map.get_or l 0 m + weight l (load_of l gs)
  unfolding load_genes
  get_or-load_genes l [] m = ground arith
  get_or-load_genes l (g ∷ rest) m =
      let m' = load_sessions counted g.sessions m in
      let one = get_or-load_sessions l g.sessions m in
      let more = get_or-load_genes l rest m' in
      let both = weight_add l (sum_by (session_load l) g.sessions) (load_of l rest) in
      more ∙ (omega arith)

  Distinct-add_load :
      (ls : List ℕ) (sks : ℕ) (m : Map ℕ ℕ)
      → Distinct lecturer_of m
      → Distinct lecturer_of (add_load counted ls sks m)
  unfolding add_load
  Distinct-add_load [] sks m d = d
  Distinct-add_load (k ∷ ls) sks m d = elim (Bool-cases (counted k)) [
    | inl taken ↦
        rw (add_load, taken)
          (Distinct-add_load ls sks (Map.set k (Map.get_or k 0 m + sks) m)
            (Distinct-set k (Map.get_or k 0 m + sks) m d))
    | inr left_out ↦ rw (add_load, left_out) (Distinct-add_load ls sks m d)
  ]

  Distinct-load_sessions :
      (ss : List GeneSession) (m : Map ℕ ℕ)
      → Distinct lecturer_of m
      → Distinct lecturer_of (load_sessions counted ss m)
  unfolding load_sessions
  Distinct-load_sessions [] m d = d
  Distinct-load_sessions (s ∷ rest) m d =
      Distinct-load_sessions rest (add_load counted s.lecturer_ids (length s.time_slot_ids) m)
        (Distinct-add_load s.lecturer_ids (length s.time_slot_ids) m d)

  Distinct-load_genes :
      (gs : Chromosome) (m : Map ℕ ℕ)
      → Distinct lecturer_of m
      → Distinct lecturer_of (load_genes counted gs m)
  unfolding load_genes
  Distinct-load_genes [] m d = d
  Distinct-load_genes (g ∷ rest) m d =
      Distinct-load_genes rest (load_sessions counted g.sessions m)
        (Distinct-load_sessions g.sessions m d)

sum_by-zero : (f : ℕ × ℕ → ℕ) (m : Map ℕ ℕ) → (sum_by f m ≡ 0) ↔ All (λ entry. f entry ≡ 0) m
sum_by-zero f [] = (λ _. tt, λ _. refl)
sum_by-zero f (entry ∷ m) =
    let rest = sum_by-zero f m in
    (λ h. (omega arith, rest.0 (omega arith)), λ (z, a). let r = rest.1 a in omega arith)

module _ (counted : ℕ → Bool) (f : ℕ × ℕ → ℕ) (free : (l : ℕ) → f (l, 0) ≡ 0) where
  entry_zero :
      (gs : Chromosome) (l v : ℕ)
      → ((k : ℕ) → counted k ≡ true → f (k, load_of k gs) ≡ 0)
      → Map.get_or l 0 (load_genes counted gs []) ≡ v
      → f (l, v) ≡ 0
  entry_zero gs l v h held =
      let e = sym held ∙ get_or-load_genes counted l gs [] in
      elim (Bool-cases (counted l)) [
        | inl taken ↦
            let w : v ≡ load_of l gs = (rw taken at e) ∙ (omega arith) in
            ap (λ n. f (l, n)) w ∙ h l taken
        | inr left_out ↦
            let w : v ≡ 0 = (rw left_out at e) ∙ (omega arith) in ap (λ n. f (l, n)) w ∙ free l
      ]

  load_zero :
      (gs : Chromosome) (l v : ℕ)
      → counted l ≡ true
      → Map.get_or l 0 (load_genes counted gs []) ≡ v
      → f (l, v) ≡ 0
      → f (l, load_of l gs) ≡ 0
  load_zero gs l v taken held z =
      let e = sym held ∙ get_or-load_genes counted l gs [] in
      let w : load_of l gs ≡ v = sym ((rw taken at e) ∙ (omega arith)) in ap (λ n. f (l, n)) w ∙ z

  -- A sum over the loads is 0 exactly if it is 0 at the load of every lecturer that counts.
  sum_loads-zero :
      (gs : Chromosome)
      → (sum_by f (load_genes counted gs []) ≡ 0)
        ↔ ((l : ℕ) → counted l ≡ true → f (l, load_of l gs) ≡ 0)
  sum_loads-zero gs =
      let m = load_genes counted gs [] in
      let zero_at = sum_by-zero f m in
      (
        λ h l taken. elim (Option-cases (Map.get l m)) [
          | inl unknown ↦ load_zero gs l 0 taken (rw (Map.get_or, unknown) refl) (free l)
          | inr (v, found) ↦
              load_zero gs l v taken (rw (Map.get_or, found) refl)
                (All_get (λ entry. f entry ≡ 0) m (zero_at.0 h) (l, v) (Map.mem_of_get l m v found))
        ],
        λ h. zero_at.1 (
            All-tabulate (λ entry. f entry ≡ 0) m
              (λ (l, v) listed.
                let found = get_of_mem l v m (Distinct-load_genes counted gs [] tt) listed in
                entry_zero gs l v h (rw (Map.get_or, found) refl))),
      )

-- The structural penalty is 0 exactly if no structural lecturer teaches more than two slots in the
-- genes whose offering has a candidate, a slot counting once for each time that its session lists
-- the lecturer.
pub calculate_structural_penalty-zero :
    (chromosome : Chromosome) (candidates : List PreGaCandidate) (structural : Map ℕ Bool)
    → (calculate_structural_penalty chromosome candidates structural ≡ 0) ↔ (
        (l : ℕ)
        → is_structural structural l ≡ true
        → load_of l (known_genes candidates chromosome) ≤ 2)
unfolding calculate_structural_penalty
calculate_structural_penalty-zero chromosome candidates structural =
    let iff =
      sum_loads-zero (is_structural structural) (λ entry. entry.1 - structural_max_sessions)
        (λ l. omega arith) (known_genes candidates chromosome) in
    (
      λ z l taken. let e = iff.0 z l taken in omega arith,
      λ h. iff.1 (λ l taken. let e = h l taken in omega arith),
    )

-- The load penalty is 0 exactly if no lecturer with a cap teaches more slots than the cap in the
-- genes whose offering has a candidate, a slot counting once for each time that its session lists
-- the lecturer.
pub calculate_load_penalty-zero :
    (chromosome : Chromosome) (candidates : List PreGaCandidate) (caps : Map ℕ ℕ)
    → (calculate_load_penalty chromosome candidates caps ≡ 0) ↔ (
        (l limit : ℕ)
        → Map.get l caps ≡ some limit
        → load_of l (known_genes candidates chromosome) ≤ limit)
unfolding calculate_load_penalty
calculate_load_penalty-zero chromosome candidates caps =
    let gs = known_genes candidates chromosome in
    let free : (l : ℕ) → overload caps (l, 0) ≡ 0 = λ l. free_of (Map.get l caps) in
    let iff = sum_loads-zero (λ l. true) (overload caps) free gs in
    (
      λ z l limit found.
          let e : load_of l gs - limit ≡ 0 = rw (overload, found) at (iff.0 z l refl) in
          omega arith,
      λ h. iff.1 (λ l _. elim (Option-cases (Map.get l caps)) [
        | inl unknown ↦ rw (overload, unknown) refl
        | inr (limit, found) ↦ rw (overload, found) (let e = h l limit found in omega arith)
      ]),
    )
  where
    free_of : (o : Option ℕ) → elim o as (λ _. ℕ) [ none ↦ 0 | some limit ↦ 0 - limit ] ≡ 0
    free_of none = refl
    free_of (some limit) = omega arith
