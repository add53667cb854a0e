-- ===== src/Ga/Repair/Filling.antt =====
-- ga/repair.ts: the greedy repair of a session, seen against what the candidate allows.
use mathlib.Core.List.Memᴰ
use ga_scheduler_v.Base.{
  ℕ, ◌+◌, ◌≤◌, ◌<◌, refl, sym, subst, inl, inr, Bool, true, false, not, ◌&&◌, ◌||◌, Bool-cases,
  List, [], ◌∷◌, ◌++◌, Memᴰ, length-append, Memᴰ-concat, length, any, includes, leb, ◌==◌, nat_eq,
  pair_eq, arith,
}
use ga_scheduler_v.Base.Map
use ga_scheduler_v.Base.Map.{Map}
use ga_scheduler_v.Types.{PreGaCandidate, GeneSession}
use ga_scheduler_v.Ga.Draws.{Draws, part, stream}
use ga_scheduler_v.Ga.Shuffle.{fisher_yates_shuffle}
use ga_scheduler_v.Ga.Shuffle.Members.{fisher_yates_shuffle-mem}
use ga_scheduler_v.Ga.Valid.{Within, IsSession}
use ga_scheduler_v.Ga.Repair.{ConflictIndex, lecturer_conflicts, pick_lecturer_swap_for_block}
use ga_scheduler_v.Ga.Repair.Greedy.{
  slot_conflicts, keep_free, fill, swap_greedily, repair_session_greedy,
}
use ga_scheduler_v.Ga.Repair.Valid.{Allowed, session_at-Allowed, or_session-IsSession, swap-Within}

-- At most `n` of `xs`.
abbrev Few : List ℕ → ℕ → List ℕ → Type 0
Few xs n slots = Within slots xs × (length slots ≤ n)

Few-concat :
    (xs : List ℕ) (n : ℕ) (slots : List ℕ) (slot : ℕ)
    → Within slots xs
    → Memᴰ slot xs
    → length slots < n
    → Few xs n (slots ++ slot ∷ [])
Few-concat xs n slots slot h m room = (
  λ x k. elim ((Memᴰ-concat x slot slots).0 k) [
    | inl old ↦ h x old
    | inr e ↦ subst (λ y. Memᴰ y xs) (sym e) m
  ],
  omega (arith, length-append slots (slot ∷ [])),
)

module _ (s : GeneSession) (index : ConflictIndex) where
  fill-Few :
      (only_free : Bool) (needed : ℕ) (xs slots chosen : List ℕ)
      → Within slots xs
      → Few xs needed chosen
      → Few xs needed (fill s index only_free needed slots chosen)
  unfolding fill
  fill-Few only_free needed xs [] chosen h k = k
  fill-Few only_free needed xs (slot ∷ slots) chosen h k =
      elim (Bool-cases (
        leb needed (length chosen)
        || includes chosen slot
        || (only_free && slot_conflicts slot s.room_id s.lecturer_ids index))) [
          | inl skipped ↦
              rw (fill, skipped)
                (fill-Few only_free needed xs slots chosen (λ x m. h x (Memᴰ.tail m)) k)
          | inr taken ↦
              rw (fill, taken)
                (fill-Few only_free needed xs slots (chosen ++ slot ∷ []) (λ x m. h x (Memᴰ.tail m))
                  (Few-concat xs needed chosen slot k.0 (h slot (Memᴰ.head refl)) (ground arith)))
        ]

  keep_free-Few :
      (xs slots chosen : List ℕ) (n : ℕ)
      → Within slots xs
      → Few xs n chosen
      → length chosen + length slots ≤ n
      → Few xs n (keep_free s index slots chosen)
  unfolding keep_free
  keep_free-Few xs [] chosen n h k room = k
  keep_free-Few xs (slot ∷ slots) chosen n h k room =
      elim (Bool-cases
        (not (slot_conflicts slot s.room_id s.lecturer_ids index) && not (includes chosen slot))) [
          | inr skipped ↦
              rw (keep_free, skipped)
                (keep_free-Few xs slots chosen n (λ x m. h x (Memᴰ.tail m)) k (omega arith))
          | inl taken ↦
              rw (keep_free, taken)
                (keep_free-Few xs slots (chosen ++ slot ∷ []) n (λ x m. h x (Memᴰ.tail m))
                  (Few-concat xs n chosen slot k.0 (h slot (Memᴰ.head refl)) (omega arith))
                  (omega (arith, length-append chosen (slot ∷ []))))
        ]

  module _ (c : PreGaCandidate) (old : IsSession c s) where
    swap_greedily-Allowed : (d : Draws) (needed : ℕ) → Allowed c (swap_greedily s index d needed c)
    unfolding swap_greedily
    swap_greedily-Allowed d needed =
        let block = s.time_slot_ids in
        elim (Bool-cases (
          lecturer_conflicts block s.lecturer_ids index
          && not (any (λ slot. Map.has (s.room_id, slot) index.room_time_used) block)
          && length block == needed)) [
            | inr other ↦ rw (swap_greedily, other) tt
            | inl only ↦
                rw (swap_greedily, only)
                  (session_at-Allowed c s.room_id block
                    (pick_lecturer_swap_for_block d block c s.lecturer_ids index) old.room old.slots
                    (swap-Within c d block s.lecturer_ids index))
          ]

    pub repair_session_greedy-IsSession :
        (d : Draws) → IsSession c (repair_session_greedy s index d c.session_duration c)
    unfolding repair_session_greedy
    repair_session_greedy-IsSession d =
        let xs = c.possible_time_slot_ids in
        let n = c.session_duration in
        let slots1 = fisher_yates_shuffle (stream (part 1 d)) xs in
        let slots2 = fisher_yates_shuffle (stream (part 2 d)) xs in
        let kept = keep_free s index s.time_slot_ids [] in
        let freed = fill s index true n slots1 kept in
        let filled = fill s index false n slots2 freed in
        let few0 =
          keep_free-Few xs s.time_slot_ids [] n old.slots.0
            (λ x m. absurd (Memᴰ.not-nil m), omega arith)
            (let short = old.slots.1 in omega arith) in
        let few1 =
          fill-Few true n xs slots1 kept (λ x m. fisher_yates_shuffle-mem (stream (part 1 d)) xs m)
            few0 in
        let few2 =
          fill-Few false n xs slots2 freed
            (λ x m. fisher_yates_shuffle-mem (stream (part 2 d)) xs m) few1 in
        or_session-IsSession c (swap_greedily s index (part 0 d) n c)
          (record { room_id = s.room_id; time_slot_ids = filled; lecturer_ids = s.lecturer_ids })
          (swap_greedily-Allowed (part 0 d) n)
          (record { room = old.room; slots = few2; taught = old.taught })
