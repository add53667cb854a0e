-- ===== src/Slots/Grouping.antt =====
-- The lookup of slot ids and the grouping by day.
use mathlib.Core.List.Memᴰ
use ga_scheduler_v.Base.{
  ℕ, suc, ◌+◌, ◌≤◌, ◌≡◌, refl, inl, inr, List, [], ◌∷◌, ◌++◌, Memᴰ, String, map, All, All-append,
  some, Option-cases, length, length-append, arith, string_eq, nat_eq,
}
use ga_scheduler_v.Base.Map
use ga_scheduler_v.Base.Map.{Map}
use ga_scheduler_v.Types.{TimeSlot}
use ga_scheduler_v.Slots.{SlotLookup, build_slot_lookup, resolve, group_by_day}

module _ (lookup : SlotLookup) (Q : TimeSlot → Type 0) where
  pub resolve-All :
      (ids : List ℕ)
      → ((i : ℕ) (t : TimeSlot) → Memᴰ i ids → Map.get i lookup ≡ some t → Q t)
      → All Q (resolve lookup ids)
  unfolding resolve
  resolve-All [] h = tt
  resolve-All (i ∷ ids) h = elim (Option-cases (Map.get i lookup)) [
    | inl unknown ↦ rw (unknown, resolve) (resolve-All ids (λ j t m. h j t (Memᴰ.tail m)))
    | inr (t, found) ↦
        rw (found, resolve)
          (h i t (Memᴰ.head refl) found, resolve-All ids (λ j u m. h j u (Memᴰ.tail m)))
  ]

pub length-resolve-le :
    (lookup : SlotLookup) (ids : List ℕ) → length (resolve lookup ids) ≤ length ids
unfolding resolve
length-resolve-le lookup [] = omega arith
length-resolve-le lookup (i ∷ ids) = ground (arith, length-resolve-le lookup ids)

-- A slot found under an id is one of the slots, and has that id.
pub get-build_slot_lookup :
    (slots : List TimeSlot) (i : ℕ) (t : TimeSlot)
    → Map.get i (build_slot_lookup slots) ≡ some t
    → Memᴰ t slots × (t.id ≡ i)
unfolding build_slot_lookup
get-build_slot_lookup slots i t h =
    let (u, m, e) =
      Memᴰ.of_map (λ (ts : TimeSlot). (ts.id, ts)) slots
        (Map.mem_of_get-from_list (map (λ ts. (ts.id, ts)) slots) i t h) in
    let same : u ≡ t = cc in (Memᴰ.cast (cc) m, cc)

abbrev pub Bucket : Type 0
Bucket = String × List TimeSlot

-- Every slot of a bucket falls on its day and has `Q`.
abbrev pub IsOfDay : (TimeSlot → Type 0) → Bucket → Type 0
IsOfDay Q (day, slots) = All (λ t. (t.day ≡ day) × Q t) slots

module _ (Q : TimeSlot → Type 0) where
  bucket-IsOfDay :
      (m : Map String (List TimeSlot)) (t : TimeSlot)
      → All (IsOfDay Q) m
      → Q t
      → IsOfDay Q (t.day, Map.get_or t.day [] m ++ t ∷ [])
  bucket-IsOfDay m t h q = elim (Option-cases (Map.get t.day m)) [
    | inl new ↦ rw (new, Map.get_or) ((refl, q), tt)
    | inr (slots, old) ↦
        rw (old, Map.get_or)
          (All-append (λ u. (u.day ≡ t.day) × Q u) slots (t ∷ [])
            (Map.All-get (IsOfDay Q) t.day slots m h old) ((refl, q), tt))
  ]

  pub group_by_day-IsOfDay :
      (m : Map String (List TimeSlot)) (ts : List TimeSlot)
      → All (IsOfDay Q) m
      → All Q ts
      → All (IsOfDay Q) (group_by_day m ts)
  unfolding group_by_day
  group_by_day-IsOfDay m [] h q = h
  group_by_day-IsOfDay m (t ∷ ts) h q =
      group_by_day-IsOfDay (Map.set t.day (Map.get_or t.day [] m ++ t ∷ []) m) ts
        (Map.All-set (IsOfDay Q) t.day (Map.get_or t.day [] m ++ t ∷ []) m h
          (bucket-IsOfDay m t h q.0))
        q.1

-- A bucket is not empty and holds at most `n` slots.
abbrev pub IsSized : ℕ → Bucket → Type 0
IsSized n (day, slots) = (1 ≤ length slots) × (length slots ≤ n)

weaken : (n : ℕ) (m : Map String (List TimeSlot)) → All (IsSized n) m → All (IsSized (suc n)) m
weaken n [] h = tt
weaken n ((day, slots) ∷ m) h = (omega arith, weaken n m h.1)

bucket-IsSized :
    (n : ℕ) (m : Map String (List TimeSlot)) (t : TimeSlot)
    → All (IsSized n) m
    → IsSized (suc n) (t.day, Map.get_or t.day [] m ++ t ∷ [])
bucket-IsSized n m t h = elim (Option-cases (Map.get t.day m)) [
  | inl new ↦ rw (new, Map.get_or) (omega arith)
  | inr (slots, old) ↦
      rw (old, Map.get_or)
        (omega (arith, length-append slots (t ∷ []), Map.All-get (IsSized n) t.day slots m h old))
]

pub group_by_day-IsSized :
    (n : ℕ) (m : Map String (List TimeSlot)) (ts : List TimeSlot)
    → All (IsSized n) m
    → All (IsSized (n + length ts)) (group_by_day m ts)
unfolding group_by_day
group_by_day-IsSized n m [] h = rw (the_sum n) h
  where
    the_sum : (k : ℕ) → k + 0 ≡ k
    the_sum k = omega arith
group_by_day-IsSized n m (t ∷ ts) h =
    let e : n + suc (length ts) ≡ suc n + length ts = omega arith in
    rw e (
      group_by_day-IsSized (suc n) (Map.set t.day (Map.get_or t.day [] m ++ t ∷ []) m) ts (
        Map.All-set (IsSized (suc n)) t.day (Map.get_or t.day [] m ++ t ∷ []) m (weaken n m h)
          (bucket-IsSized n m t h)))
