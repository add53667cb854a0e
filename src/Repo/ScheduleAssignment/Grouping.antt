-- ===== src/Repo/ScheduleAssignment/Grouping.antt =====
-- repo/mappers/scheduleAssignmentMapper.ts: records that come offering by offering are grouped as they come.
use ga_scheduler_v.Base.{
  ℕ, ◌≡◌, refl, sym, ap, ◌∙◌, true, false, none, some, List, [], ◌∷◌, ◌++◌, All, append_assoc,
  append-nil, ◌==◌, nat_eq, arith,
}
use ga_scheduler_v.Base.Map
use ga_scheduler_v.Base.Map.{Map}
use ga_scheduler_v.Repo.ScheduleAssignment.{ScheduleAssignmentRecord, by_offering}

abbrev Buckets : Type 0
Buckets = Map ℕ (List ScheduleAssignmentRecord)

-- No bucket is of the offering.
abbrev pub Lacks : ℕ → Map ℕ (List ScheduleAssignmentRecord) → Type 0
Lacks k m = All (λ (p : ℕ × List ScheduleAssignmentRecord). ¬ (p.0 ≡ k)) m

set_new :
    (k : ℕ) (v : List ScheduleAssignmentRecord) (m : Buckets)
    → Lacks k m
    → Map.set k v m ≡ m ++ (k, v) ∷ []
set_new k v [] h = refl
set_new k v ((j, w) ∷ m) h =
    let other : (j == k) ≡ false = ground arith in
    rw other (ap (λ n. (j, w) ∷ n) (set_new k v m h.1))

set_last :
    (k : ℕ) (v w : List ScheduleAssignmentRecord) (m : Buckets)
    → Lacks k m
    → Map.set k v (m ++ (k, w) ∷ []) ≡ m ++ (k, v) ∷ []
set_last k v w [] h = let same : (k == k) ≡ true = ground arith in rw same refl
set_last k v w ((j, u) ∷ m) h =
    let other : (j == k) ≡ false = ground arith in
    rw other (ap (λ n. (j, u) ∷ n) (set_last k v w m h.1))

get_new : (k : ℕ) (m : Buckets) → Lacks k m → Map.get k m ≡ none
get_new k [] h = refl
get_new k ((j, u) ∷ m) h = let other : (j == k) ≡ false = ground arith in rw other (get_new k m h.1)

get_last :
    (k : ℕ) (w : List ScheduleAssignmentRecord) (m : Buckets)
    → Lacks k m
    → Map.get k (m ++ (k, w) ∷ []) ≡ some w
get_last k w [] h = let same : (k == k) ≡ true = ground arith in rw same refl
get_last k w ((j, u) ∷ m) h =
    let other : (j == k) ≡ false = ground arith in rw other (get_last k w m h.1)

abbrev pub IsOf : ℕ → ScheduleAssignmentRecord → Type 0
IsOf k r = r.offering_id ≡ k

by_offering_last :
    (k : ℕ) (b rs : List ScheduleAssignmentRecord) (m : Buckets)
    → Lacks k m
    → All (IsOf k) rs
    → by_offering (m ++ (k, b) ∷ []) rs ≡ m ++ (k, b ++ rs) ∷ []
unfolding by_offering
by_offering_last k b [] m new of_k = ap (λ c. m ++ (k, c) ∷ []) (sym (append-nil b))
by_offering_last k b (r ∷ rs) m new of_k =
    let old : Map.get_or k [] (m ++ (k, b) ∷ []) ≡ b = rw (Map.get_or, get_last k b m new) refl in
    let here = m ++ (k, b) ∷ [] in
    let push = ap (λ i. Map.set i (Map.get_or i [] here ++ r ∷ []) here) of_k.0 in
    let found = ap (λ c. Map.set k (c ++ r ∷ []) here) old in
    ap (λ n. by_offering n rs) (push ∙ found ∙ set_last k (b ++ r ∷ []) b m new)
    ∙ by_offering_last k (b ++ r ∷ []) rs m new of_k.1
    ∙ ap (λ c. m ++ (k, c) ∷ []) (append_assoc b (r ∷ []) rs)

-- The records of one offering make the last bucket.
pub by_offering_new :
    (k : ℕ) (r : ScheduleAssignmentRecord) (rs : List ScheduleAssignmentRecord)
    (m : Map ℕ (List ScheduleAssignmentRecord))
    → Lacks k m
    → All (IsOf k) (r ∷ rs)
    → by_offering m (r ∷ rs) ≡ m ++ (k, r ∷ rs) ∷ []
unfolding by_offering
by_offering_new k r rs m new of_k =
    let fresh : Map.get_or k [] m ≡ [] = rw (Map.get_or, get_new k m new) refl in
    let push = ap (λ i. Map.set i (Map.get_or i [] m ++ r ∷ []) m) of_k.0 in
    let found = ap (λ c. Map.set k (c ++ r ∷ []) m) fresh in
    ap (λ n. by_offering n rs) (push ∙ found ∙ set_new k (r ∷ []) m new)
    ∙ by_offering_last k (r ∷ []) rs m new of_k.1

pub by_offering-append :
    (m : Map ℕ (List ScheduleAssignmentRecord)) (rs ss : List ScheduleAssignmentRecord)
    → by_offering m (rs ++ ss) ≡ by_offering (by_offering m rs) ss
unfolding by_offering
by_offering-append m [] ss = refl
by_offering-append m (r ∷ rs) ss =
    by_offering-append (Map.set r.offering_id (Map.get_or r.offering_id [] m ++ r ∷ []) m) rs ss
