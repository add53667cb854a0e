-- ===== src/Slots/SameDay/OneDay.antt =====
-- ga/chromosome.ts: the slots that pickSameDaySessionSlots returns.

use ga_scheduler_v.Base.{
  ℕ, zero, suc, ◌%◌, ◌≤◌, ◌≡◌, refl, String, inl, inr, Bool-cases, some, Option-cases, List, [],
  ◌∷◌, map, Memᴰ, filter, Memᴰ-filter, flat_map, Memᴰ-flat_map, Memᴰ-sort, Memᴰ-take, max_by, sort,
  length, length-map, length-take, get_elem?, leb, ltb, ◌==◌, nat_eq, string_eq, All, All-map,
  All-tabulate, All_get, arith,
}
use ga_scheduler_v.Base.Map
use ga_scheduler_v.Types.{TimeSlot}
use ga_scheduler_v.Slots.{SlotLookup, resolve, group_by_day, sort_by_start, starts_no_later, chains}
use ga_scheduler_v.Slots.Contiguous.{chains-All}
use ga_scheduler_v.Slots.Grouping.{Bucket, IsOfDay, group_by_day-IsOfDay, resolve-All}
use ga_scheduler_v.Slots.SameDay.{
  DayProfile, longer_first, profile, first_slots, ids_of, pick_tied, fall_back, pick_day,
  pick_same_day_session_slots,
}

-- The ids are at most `duration` ids of slots of one day, each with the property `Q`.
pub record IsOneDay (Q : TimeSlot → Type 0) (duration : ℕ) (ids : List ℕ) : Type 0 where
  pub slots : List TimeSlot
  pub day : String
  pub named : ids ≡ ids_of slots
  pub short : length ids ≤ duration
  pub same_day : All (λ t. (t.day ≡ day) × Q t) slots

module _ (Q : TimeSlot → Type 0) (duration : ℕ) where
  -- Every slot of every run of the profile falls on its day.
  abbrev IsFair : DayProfile → Type 0
  IsFair p = (t : TimeSlot) → Memᴰ t (flat_map (λ run. run) p.runs) → (t.day ≡ p.day) × Q t

  profile-IsFair : (b : Bucket) → IsOfDay Q b → IsFair (profile b)
  unfolding profile sort_by_start
  profile-IsFair (day, bucket) h t m =
      let P : TimeSlot → Type 0 = λ t. (t.day ≡ day) × Q t in
      let sorted = sort_by_start bucket in
      let sorted_All : All P sorted =
        All-tabulate P sorted
          (λ t mt. All_get P bucket h t ((Memᴰ-sort starts_no_later bucket t).0 mt)) in
      let (run, mr, mt) =
        (Memᴰ-flat_map (λ (run : List TimeSlot). run) (sort longer_first (chains sorted)) t).0 m in
      let mr' = (Memᴰ-sort longer_first (chains sorted) run).0 mr in
      All_get P run (All_get (All P) (chains sorted) (chains-All P sorted sorted_All) run mr') t mt

  first_slots-IsOneDay :
      (p : DayProfile) → IsFair p → IsOneDay Q duration (ids_of (first_slots duration p))
  first_slots-IsOneDay p h = record {
    slots = first_slots duration p;
    day = p.day;
    named = refl;
    short = omega (
      arith,
      length-map (λ (ts : TimeSlot). ts.id) (first_slots duration p),
      length-take duration (flat_map (λ run. run) p.runs),
    );
    same_day =
        All-tabulate (λ (t : TimeSlot). (t.day ≡ p.day) × Q t) (first_slots duration p)
          (λ t m. h t (Memᴰ-take duration (flat_map (λ run. run) p.runs) m));
  }

  get_elem?-mem :
      (xs : List DayProfile) (i : ℕ) (p : DayProfile) → get_elem? xs i ≡ some p → Memᴰ p xs
  get_elem?-mem [] i p h = cc
  get_elem?-mem (x ∷ xs) zero p h = Memᴰ.head (cc)
  get_elem?-mem (x ∷ xs) (suc i) p h = Memᴰ.tail (get_elem?-mem xs i p h)

  pick_tied-mem :
      (key : DayProfile → ℕ) (draw : ℕ) (ps : List DayProfile) (p : DayProfile)
      → pick_tied key draw ps ≡ some p
      → Memᴰ p ps
  unfolding pick_tied
  pick_tied-mem key draw ps p h =
      let tied = filter (λ q. key q == max_by key ps) ps in
      ((Memᴰ-filter (λ q. key q == max_by key ps) ps p).0
        (get_elem?-mem tied (draw % length tied) p h)).0

  module _ (ps : List DayProfile) (fair : All IsFair ps) where
    fall_back-IsOneDay :
        (draw : ℕ) (primary : DayProfile)
        → IsFair primary
        → IsOneDay Q duration (fall_back duration draw ps primary)
    unfolding fall_back
    fall_back-IsOneDay draw primary h =
        elim (Option-cases (pick_tied (λ p. length p.slots) draw ps)) [
          | inl n ↦ rw (fall_back, n) (first_slots-IsOneDay primary h)
          | inr (other, e) ↦
              let fair_other =
                All_get IsFair ps fair other
                  (pick_tied-mem (λ p. length p.slots) draw ps other e) in
              elim (Bool-cases (other.day == primary.day)) [
                | inl same ↦ rw (fall_back, e, same) (first_slots-IsOneDay primary h)
                | inr apart ↦
                    elim (Bool-cases (
                      ltb (length (ids_of (first_slots duration primary)))
                        (length (ids_of (first_slots duration other))))) [
                          | inl more ↦
                              rw (fall_back, e, apart, more) (first_slots-IsOneDay other fair_other)
                          | inr less ↦
                              rw (fall_back, e, apart, less) (first_slots-IsOneDay primary h)
                        ]
              ]
        ]

    pick_day-IsOneDay : (draw1 draw2 : ℕ) → IsOneDay Q duration (pick_day duration draw1 draw2 ps)
    unfolding pick_day
    pick_day-IsOneDay draw1 draw2 = elim (Option-cases (pick_tied (λ p. p.longest_run) draw1 ps)) [
      | inl n ↦
          rw (pick_day, n)
            (record { slots = []; day = ""; named = refl; short = omega arith; same_day = tt })
      | inr (p, e) ↦
          let h = All_get IsFair ps fair p (pick_tied-mem (λ p. p.longest_run) draw1 ps p e) in
          elim (Bool-cases (leb duration (length (ids_of (first_slots duration p))))) [
            | inl full ↦ rw (pick_day, e, full) (first_slots-IsOneDay p h)
            | inr few ↦
                elim (Bool-cases (
                  ltb (length (ids_of (first_slots duration p)))
                    (max_by (λ p. length p.slots) ps))) [
                      | inl more ↦ rw (pick_day, e, few, more) (fall_back-IsOneDay draw2 p h)
                      | inr less ↦ rw (pick_day, e, few, less) (first_slots-IsOneDay p h)
                    ]
          ]
    ]

-- The slot is known under one of the ids.
abbrev pub IsListed : SlotLookup → List ℕ → TimeSlot → Type 0
IsListed lookup ids t = (i : ℕ) × Memᴰ i ids × (Map.get i lookup ≡ some t)

-- Whatever is drawn, `pickSameDaySessionSlots` returns at most `duration` ids, and these are the ids
-- of slots of one day that the lookup knows under the given ids.
pub pick_same_day_session_slots-IsOneDay :
    (draw1 draw2 : ℕ) (ids : List ℕ) (duration : ℕ) (lookup : SlotLookup)
    → IsOneDay
        (IsListed lookup ids)
        duration
        (pick_same_day_session_slots draw1 draw2 ids duration lookup)
unfolding pick_same_day_session_slots
pick_same_day_session_slots-IsOneDay draw1 draw2 ids zero lookup = record {
  slots = [];
  day = "";
  named = refl;
  short = omega arith;
  same_day = tt;
}
pick_same_day_session_slots-IsOneDay draw1 draw2 ids (suc d) lookup =
    let Q = IsListed lookup ids in
    let buckets = group_by_day [] (resolve lookup ids) in
    let of_day =
      group_by_day-IsOfDay Q [] (resolve lookup ids) tt
        (resolve-All lookup Q ids (λ i t m e. (i, m, e))) in
    pick_day-IsOneDay Q (suc d) (map profile buckets)
      (All-map (IsFair Q (suc d)) profile buckets
        (λ b m. profile-IsFair Q (suc d) b (All_get (IsOfDay Q) buckets of_day b m)))
      draw1 draw2
