-- ===== src/Slots/Blocks.antt =====
-- What a block of `findContiguousSlots` is.
use mathlib.Core.List.Memᴰ
use ga_scheduler_v.Base.{
  ℕ, zero, suc, ◌≡◌, List, [], Memᴰ, String, map, All, All_get, All-tabulate, some, length,
  length-map, ltb, Bool-cases, inl, inr, flat_map, Memᴰ-flat_map, Memᴰ-sort, nat_eq, arith,
}
use ga_scheduler_v.Base.Map
use ga_scheduler_v.Types.{TimeSlot}
use ga_scheduler_v.Slots.{
  SlotLookup, build_slot_lookup, resolve, group_by_day, starts_no_later, sort_by_start, chains,
  windows, slot_ids, day_blocks, find_contiguous_slots,
}
use ga_scheduler_v.Slots.Contiguous.{
  IsContiguous, IsWindow, chains-IsContiguous, chains-All, windows-All, windows-IsWindow,
}
use ga_scheduler_v.Slots.Grouping.{
  IsOfDay, resolve-All, get-build_slot_lookup, group_by_day-IsOfDay,
}

-- `ids` are `duration` many ids of slots of one day that follow one another back to back, each
-- with the property `Q`.
pub record IsBlock (Q : TimeSlot → Type 0) (duration : ℕ) (ids : List ℕ) : Type 0 where
  pub slots : List TimeSlot
  pub day : String
  pub named : ids ≡ map (λ t. t.id) slots
  pub long : length ids ≡ duration
  pub contiguous : IsContiguous slots
  pub same_day : All (λ t. (t.day ≡ day) × Q t) slots

module _ (Q : TimeSlot → Type 0) where
  day_blocks-IsBlock :
      (d : ℕ) (day : String) (bucket : List TimeSlot) (ids : List ℕ)
      → IsOfDay Q (day, bucket)
      → Memᴰ ids (day_blocks d bucket)
      → IsBlock Q d ids
  unfolding day_blocks sort_by_start
  day_blocks-IsBlock d day bucket ids h m = elim (Bool-cases (ltb (length bucket) d)) [
    | inl few ↦ absurd (Memᴰ.not-nil (rw few at m))
    | inr enough ↦
        let sorted = sort_by_start bucket in
        let (w, mw, e) =
          Memᴰ.of_map slot_ids (flat_map (windows d) (chains sorted)) (rw enough at m) in
        let (c, mc, mw') = (Memᴰ-flat_map (windows d) (chains sorted) w).0 mw in
        let P : TimeSlot → Type 0 = λ t. (t.day ≡ day) × Q t in
        let sorted_All : All P sorted =
          All-tabulate P sorted
            (λ t mt. All_get P bucket h t ((Memᴰ-sort starts_no_later bucket t).0 mt)) in
        let chain_All = All_get (All P) (chains sorted) (chains-All P sorted sorted_All) c mc in
        let chain_ok = All_get IsContiguous (chains sorted) (chains-IsContiguous sorted) c mc in
        let (long, contiguous) =
          All_get (IsWindow d) (windows d c) (windows-IsWindow d c chain_ok) w mw' in
        record {
          slots = w;
          day = day;
          named = sym' e;
          long = rw (← e) (omega (arith, length-map (λ (t : TimeSlot). t.id) w));
          contiguous = contiguous;
          same_day = All_get (All P) (windows d c) (windows-All P d c chain_All) w mw';
        }
  ]
    where
      sym' : {xs ys : List ℕ} → xs ≡ ys → ys ≡ xs
      sym' e = cc

  pub find_contiguous_slots-IsBlock :
      (available : List ℕ) (duration : ℕ) (lookup : SlotLookup) (ids : List ℕ)
      → ((i : ℕ) (t : TimeSlot) → Memᴰ i available → Map.get i lookup ≡ some t → Q t)
      → Memᴰ ids (find_contiguous_slots available duration lookup)
      → IsBlock Q duration ids
  unfolding find_contiguous_slots
  find_contiguous_slots-IsBlock available zero lookup ids q m = absurd (Memᴰ.not-nil m)
  find_contiguous_slots-IsBlock available (suc d) lookup ids q m =
      elim (Bool-cases (ltb (length available) (suc d))) [
        | inl few ↦ absurd (Memᴰ.not-nil (rw few at m))
        | inr known ↦ elim (Bool-cases (ltb (length (resolve lookup available)) (suc d))) [
          | inl few ↦ absurd (Memᴰ.not-nil (rw (known, few) at m))
          | inr enough ↦
              let buckets = group_by_day [] (resolve lookup available) in
              let (bucket, mb, mi) =
                (Memᴰ-flat_map (λ b. day_blocks (suc d) b.1) buckets ids).0
                  (rw (known, enough) at m) in
              day_blocks-IsBlock (suc d) bucket.0 bucket.1 ids
                (All_get (IsOfDay Q) buckets
                  (group_by_day-IsOfDay Q [] (resolve lookup available) tt
                    (resolve-All lookup Q available q))
                  bucket mb)
                mi
        ]
      ]

-- Every block that `findContiguousSlots` returns under the lookup of the timetable has exactly
-- `duration` ids, and these are, in order, the ids of slots of the timetable that fall on one day,
-- that are all among the available ids, and each of which ends when the next one starts.
pub find_contiguous_slots_sound :
    (slots : List TimeSlot) (available : List ℕ) (duration : ℕ) (ids : List ℕ)
    → Memᴰ ids (find_contiguous_slots available duration (build_slot_lookup slots))
    → IsBlock (λ t. Memᴰ t slots × Memᴰ t.id available) duration ids
find_contiguous_slots_sound slots available duration ids =
    find_contiguous_slots-IsBlock (λ t. Memᴰ t slots × Memᴰ t.id available) available duration
      (build_slot_lookup slots) ids
      (λ i t m g. let (mt, e) = get-build_slot_lookup slots i t g in (mt, Memᴰ.cast e m))
