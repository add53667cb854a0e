-- ===== src/Ga/Repair/Clean.antt =====
-- ga/repair.ts: where a place without conflicts is there, repairSessionAsBlock finds one.
use mathlib.Core.List.Memᴰ
use ga_scheduler_v.Base.{
  ℕ, suc, ◌≤◌, ◌<◌, ◌≡◌, refl, sym, subst, ap, inl, inr, false, not, ◌&&◌, Bool-cases, Option, none,
  some, Option-cases, List, [], ◌∷◌, Memᴰ, length, sum_by, list_same_iff, if◌then◌else◌, ◌==◌,
  nat_eq, list_eq, arith,
}
use ga_scheduler_v.Base.Set.{Set}
use ga_scheduler_v.Types.{PreGaCandidate, GeneSession, GeneKind}
use ga_scheduler_v.Slots.{SlotLookup, find_contiguous_slots}
use ga_scheduler_v.Ga.Draws.{Draws, part, stream}
use ga_scheduler_v.Ga.Shuffle.{fisher_yates_shuffle}
use ga_scheduler_v.Ga.Shuffle.Picks.{fisher_yates_shuffle_keeps}
use ga_scheduler_v.Ga.Repair.{
  ConflictIndex, room_or_gene_slot_conflicts, lecturer_conflicts, same_lecturer_set,
  lecturer_alternatives, pick_lecturer_swap_for_block,
}
use ga_scheduler_v.Ga.Repair.Valid.{find_first-mem}
use ga_scheduler_v.Ga.Repair.Block.{
  session_at, or_try, or_session, place_at, place_first, place_elsewhere, last_resort, other_rooms,
  move_to, relocate, swap_lecturers, is_clean, repair_session_as_block,
}

module _ (f : List ℕ → ℕ) where
  sum_by-mem : (xs : List (List ℕ)) (x : List ℕ) → Memᴰ x xs → f x ≤ sum_by f xs
  sum_by-mem [] x m = absurd (Memᴰ.not-nil m)
  sum_by-mem (y ∷ ys) x m = elim (Memᴰ.cases_cons m) [
    | inl e ↦ let same : f x ≡ f y = ap f e in omega arith
    | inr t ↦ omega (arith, sum_by-mem ys x t)
  ]

abbrev same_block : List ℕ → List ℕ → ℕ
same_block x y = if y == x then 1 else 0

mem_of_sum : (x : List ℕ) (ys : List (List ℕ)) → 0 < sum_by (same_block x) ys → Memᴰ x ys
mem_of_sum x [] h = let never : ⊥ = omega arith in absurd never
mem_of_sum x (y ∷ ys) h = elim (Bool-cases (y == x)) [
  | inl same ↦ Memᴰ.head (sym ((list_same_iff y x).0 same))
  | inr other ↦
      Memᴰ.tail
        (mem_of_sum x ys (let uncounted : same_block x y ≡ 0 = rw other refl in omega arith))
]

-- A shuffle loses nothing.
mem-shuffle :
    (draw : ℕ → ℕ) (xs : List (List ℕ)) (x : List ℕ)
    → Memᴰ x xs
    → Memᴰ x (fisher_yates_shuffle draw xs)
mem-shuffle draw xs x m =
    let counted : same_block x x ≡ 1 = rw ((list_same_iff x x).1 refl) refl in
    let there = sum_by-mem (same_block x) xs x m in
    let kept = fisher_yates_shuffle_keeps (same_block x) draw xs in
    mem_of_sum x (fisher_yates_shuffle draw xs) (omega arith)

module _ (c : PreGaCandidate) (index : ConflictIndex) (used : Set ℕ) (s : GeneSession) where
  -- No conflict in the index or among the slots of the gene, by the tests of the code.
  abbrev pub IsUntaken : List ℕ → ℕ → List ℕ → Type 0
  IsUntaken block room lecturers =
      (room_or_gene_slot_conflicts block room index used ≡ false)
      × (lecturer_conflicts block lecturers index ≡ false)

  abbrev pub Clean : Option GeneSession → Type 0
  Clean none = Unit
  Clean (some t) = IsUntaken t.time_slot_ids t.room_id t.lecturer_ids

  swap-IsUntaken :
      (d : Draws) (block : List ℕ) (room : ℕ)
      → room_or_gene_slot_conflicts block room index used ≡ false
      → Clean (session_at room block (pick_lecturer_swap_for_block d block c s.lecturer_ids index))
  unfolding pick_lecturer_swap_for_block
  swap-IsUntaken d block room free =
      elim (Option-cases (pick_lecturer_swap_for_block d block c s.lecturer_ids index)) [
        | inl missing ↦ rw missing tt
        | inr (ids, found) ↦
            let passed =
              (find_first-mem
                (λ js.
                  not (same_lecturer_set js s.lecturer_ids)
                  && not (lecturer_conflicts block js index))
                (lecturer_alternatives d c s.lecturer_ids) ids found).1 in
            rw found (free, ground arith)
      ]

  or_try-Clean : (o other : Option GeneSession) → Clean o → Clean other → Clean (or_try o other)
  or_try-Clean none other h k = k
  or_try-Clean (some t) other h k = h

  place_at-Clean :
      (d : Draws) (block : List ℕ) (room : ℕ) → Clean (place_at c index used s d block room)
  unfolding place_at
  place_at-Clean d block room =
      elim (Bool-cases (room_or_gene_slot_conflicts block room index used)) [
        | inl held ↦ rw (place_at, held) tt
        | inr free ↦ elim (Bool-cases (lecturer_conflicts block s.lecturer_ids index)) [
          | inr idle ↦ rw (place_at, free, idle) (free, idle)
          | inl busy ↦ rw (place_at, free, busy) (swap-IsUntaken d block room free)
        ]
      ]

  place_first-Clean :
      (d : Draws) (i : ℕ) (blocks : List (List ℕ)) (room : ℕ)
      → Clean (place_first c index used s d i blocks room)
  unfolding place_first
  place_first-Clean d i [] room = tt
  place_first-Clean d i (block ∷ blocks) room =
      or_try-Clean (place_at c index used s (part i d) block room)
        (place_first c index used s d (suc i) blocks room) (place_at-Clean (part i d) block room)
        (place_first-Clean d (suc i) blocks room)

  abbrev Found : Option GeneSession → Type 0
  Found o = (t : GeneSession) × (o ≡ some t)

  or_try-Found : (o other : Option GeneSession) → Found other → Found (or_try o other)
  or_try-Found none other h = h
  or_try-Found (some t) other h = (t, refl)

  -- The loop over the blocks finds a place if a block is free.
  place_first-Found :
      (d : Draws) (i : ℕ) (blocks : List (List ℕ)) (room : ℕ) (block : List ℕ)
      → Memᴰ block blocks
      → IsUntaken block room s.lecturer_ids
      → Found (place_first c index used s d i blocks room)
  unfolding place_first place_at
  place_first-Found d i [] room block m free = absurd (Memᴰ.not-nil m)
  place_first-Found d i (b ∷ blocks) room block m free = elim (Memᴰ.cases_cons m) [
    | inr t ↦
        or_try-Found (place_at c index used s (part i d) b room)
          (place_first c index used s d (suc i) blocks room)
          (place_first-Found d (suc i) blocks room block t free)
    | inl e ↦
        let (f, l) = subst (λ k. IsUntaken k room s.lecturer_ids) e free in
        (
          record { room_id = room; time_slot_ids = b; lecturer_ids = s.lecturer_ids },
          rw (place_first, place_at, f, l) refl,
        )
  ]

  move_to-IsUntaken :
      (d : Draws) (kind : GeneKind) (blocks : List (List ℕ)) (block : List ℕ)
      → Memᴰ block blocks
      → IsUntaken block s.room_id s.lecturer_ids
      → Clean (some (move_to c index used s d kind blocks))
  unfolding move_to
  move_to-IsUntaken d kind [] block m free = absurd (Memᴰ.not-nil m)
  move_to-IsUntaken d kind (b ∷ blocks) block m free =
      let here = place_first c index used s (part 0 d) 0 (b ∷ blocks) s.room_id in
      let there =
        place_elsewhere c index used s (part 1 d) 0 (other_rooms c index used s (part 2 d) kind)
          (b ∷ blocks) in
      let (t, e) = place_first-Found (part 0 d) 0 (b ∷ blocks) s.room_id block m free in
      let clean = subst Clean e (place_first-Clean (part 0 d) 0 (b ∷ blocks) s.room_id) in
      subst
        (λ o. Clean (some (or_session (or_try o there) (last_resort c index used s (part 3 d) b))))
        (sym e) clean

  relocate-IsUntaken :
      (d : Draws) (kind : GeneKind) (lookup : SlotLookup) (blocks : List (List ℕ)) (block : List ℕ)
      → Memᴰ block blocks
      → IsUntaken block s.room_id s.lecturer_ids
      → Clean (some (relocate c index used s d kind lookup blocks))
  unfolding relocate
  relocate-IsUntaken d kind lookup [] block m free = absurd (Memᴰ.not-nil m)
  relocate-IsUntaken d kind lookup (b ∷ blocks) block m free =
      move_to-IsUntaken (part 0 d) kind (fisher_yates_shuffle (stream (part 1 d)) (b ∷ blocks))
        block (mem-shuffle (stream (part 1 d)) (b ∷ blocks) block m) free

  or_session-Clean :
      (o : Option GeneSession) (t : GeneSession)
      → Clean o
      → Clean (some t)
      → Clean (some (or_session o t))
  or_session-Clean none t h k = k
  or_session-Clean (some u) t h k = h

  swap_lecturers-Clean : (d : Draws) → Clean (swap_lecturers c index used s d)
  unfolding swap_lecturers
  swap_lecturers-Clean d =
      let block = s.time_slot_ids in
      elim (Bool-cases (
        length block == c.session_duration
        && lecturer_conflicts block s.lecturer_ids index
        && not (room_or_gene_slot_conflicts block s.room_id index used))) [
          | inr other ↦ rw (swap_lecturers, other) tt
          | inl only ↦
              let free : room_or_gene_slot_conflicts block s.room_id index used ≡ false =
                ground arith in
              rw (swap_lecturers, only) (swap-IsUntaken d block s.room_id free)
        ]

  -- Where a contiguous block of the candidate is not taken in the room of the session for its
  -- lecturers, the place of the repaired session is not taken.
  pub repair_session_as_block-IsUntaken :
      (d : Draws) (kind : GeneKind) (lookup : SlotLookup) (block : List ℕ)
      → Memᴰ block (find_contiguous_slots c.possible_time_slot_ids c.session_duration lookup)
      → IsUntaken block s.room_id s.lecturer_ids
      → Clean (some (repair_session_as_block c index used s d kind lookup))
  unfolding repair_session_as_block is_clean
  repair_session_as_block-IsUntaken d kind lookup block m free =
      let blocks = find_contiguous_slots c.possible_time_slot_ids c.session_duration lookup in
      elim (Bool-cases
        (is_clean c index used s s && length s.time_slot_ids == c.session_duration)) [
          | inl fine ↦
              rw (repair_session_as_block, fine)
                (let untaken : Clean (some s) = (ground arith, ground arith) in untaken)
          | inr other ↦
              rw (repair_session_as_block, other)
                (or_session-Clean (swap_lecturers c index used s (part 0 d))
                  (relocate c index used s (part 1 d) kind lookup blocks)
                  (swap_lecturers-Clean (part 0 d))
                  (relocate-IsUntaken (part 1 d) kind lookup blocks block m free))
        ]
