-- ===== src/Ga/Repair/Free.antt =====
-- ga/repair.ts: a session that repairSessionAsBlock has repaired against the other genes.

use ga_scheduler_v.Base.{
  ℕ, ◌≡◌, ◌↔◌, refl, inl, inr, Bool, true, false, ◌||◌, Bool-cases, List, Memᴰ, any, any_iff,
  includes_iff, nat_eq, pair_eq, arith,
}
use ga_scheduler_v.Base.Map
use ga_scheduler_v.Base.Set
use ga_scheduler_v.Base.Set.{Set}
use ga_scheduler_v.Types.{PreGaCandidate, GeneSession, GeneKind, Chromosome}
use ga_scheduler_v.Slots.{SlotLookup, find_contiguous_slots}
use ga_scheduler_v.Ga.Draws.{Draws}
use ga_scheduler_v.Ga.Repair.{build_conflict_index, room_or_gene_slot_conflicts, lecturer_conflicts}
use ga_scheduler_v.Ga.Repair.Block.{repair_session_as_block}
use ga_scheduler_v.Ga.Repair.Index.{
  Others, HoldsRoom, HoldsLecturer, has_room-build_conflict_index,
  has_lecturer-build_conflict_index,
}
use ga_scheduler_v.Ga.Repair.Clean.{IsUntaken, repair_session_as_block-IsUntaken}

any-false {ℓ} :
    {A : Type ℓ} (p : A → Bool) (xs : List A)
    → (any p xs ≡ false) ↔ ((x : A) → Memᴰ x xs → p x ≡ false)
any-false p xs = (
  λ h x m. elim (Bool-cases (p x)) [
    | inl holds ↦ let some_one = (any_iff p xs).1 (x, m, holds) in cc
    | inr fails ↦ fails
  ],
  λ h. elim (Bool-cases (any p xs)) [
    | inl holds ↦ let (x, m, q) = (any_iff p xs).0 holds in let r = h x m in cc
    | inr fails ↦ fails
  ],
)

-- At none of the slots of a block, in a room and with lecturers, does a session of a gene of another
-- offering hold the room or one of the lecturers, and none of the slots is in the set of those that the
-- gene uses already.
pub record IsFree (chromosome : Chromosome) (offering : ℕ) (used : Set ℕ) (block : List ℕ)
    (room : ℕ) (staff : List ℕ) : Type 0 where
  pub unused : (slot : ℕ) → Memᴰ slot block → ¬ Memᴰ slot used
  pub rooms :
      (slot : ℕ)
      → Memᴰ slot block
      → (t : GeneSession) → Others chromosome offering t
      → ¬ HoldsRoom (room, slot) t
  pub lecturers :
      (slot : ℕ)
      → Memᴰ slot block
      → (l : ℕ) → Memᴰ l staff
      → (t : GeneSession) → Others chromosome offering t
      → ¬ HoldsLecturer (l, slot) t

module _ (chromosome : Chromosome) (offering : ℕ) (used : Set ℕ) where
  IsUntaken-IsFree :
      (c : PreGaCandidate) (s : GeneSession) (block : List ℕ) (room : ℕ) (lecturers : List ℕ)
      → IsUntaken c (build_conflict_index chromosome offering) used s block room lecturers
        ↔ IsFree chromosome offering used block room lecturers
  unfolding room_or_gene_slot_conflicts lecturer_conflicts
  IsUntaken-IsFree c s block room lecturers = (
    λ (free, idle). record {
      unused = λ slot m n.
          let q = (any-false at_slot block).0 free slot m in
          let r = (includes_iff used slot).1 n in ground arith;
      rooms = λ slot m t o held.
          let q = (any-false at_slot block).0 free slot m in
          let r = (has_room-build_conflict_index chromosome offering (room, slot)).1 (t, o, held) in
          ground arith;
      lecturers = λ slot m l n t o held.
          let q = (any-false busy_at block).0 idle slot m in
          let p = (any-false (is_busy slot) lecturers).0 q l n in
          let r =
            (has_lecturer-build_conflict_index chromosome offering (l, slot)).1 (t, o, held) in
          cc;
    },
    λ f. (
      (any-false at_slot block).1 (λ slot m.
          not_held slot (λ n. f.unused slot m ((includes_iff used slot).0 n))
            (λ h.
              let (t, o, held) =
                (has_room-build_conflict_index chromosome offering (room, slot)).0 h in
              f.rooms slot m t o held)),
      (any-false busy_at block).1 (λ slot m. (any-false (is_busy slot) lecturers).1 (λ l n.
          elim (Bool-cases (is_busy slot l)) [
            | inr idle ↦ idle
            | inl busy ↦
                let (t, o, held) =
                  (has_lecturer-build_conflict_index chromosome offering (l, slot)).0 busy in
                absurd (f.lecturers slot m l n t o held)
          ])),
    ),
  )
    where
      at_slot : ℕ → Bool
      at_slot slot =
          Set.has slot used
          || Map.has (room, slot) (build_conflict_index chromosome offering).room_time_used

      is_busy : ℕ → ℕ → Bool
      is_busy slot l =
          Map.has (l, slot) (build_conflict_index chromosome offering).lecturer_time_used

      busy_at : ℕ → Bool
      busy_at slot = any (is_busy slot) lecturers

      not_held :
          (slot : ℕ)
          → ¬ (Set.has slot used ≡ true)
          → ¬ (
              Map.has (room, slot) (build_conflict_index chromosome offering).room_time_used ≡ true)
          → at_slot slot ≡ false
      not_held slot h k = ground arith

  -- With the conflict index of the other genes: if one of the contiguous blocks of the candidate is
  -- free in the room of the session for its lecturers, then the repaired session is free at its slots.
  -- Free is a block if at none of its slots any session of a gene of another offering holds the room
  -- or one of the lecturers, and none of its slots is in the given set of slots that the gene uses
  -- already. This holds whatever is drawn.
  pub repair_session_as_block-IsFree :
      (c : PreGaCandidate) (s : GeneSession) (d : Draws) (kind : GeneKind) (lookup : SlotLookup)
      (block : List ℕ)
      → Memᴰ block (find_contiguous_slots c.possible_time_slot_ids c.session_duration lookup)
      → IsFree chromosome offering used block s.room_id s.lecturer_ids
      → (t : GeneSession) × (repair_session_as_block c
            (build_conflict_index chromosome offering)
            used
            s
            d
            kind
            lookup
          ≡ t)
        × IsFree chromosome offering used t.time_slot_ids t.room_id t.lecturer_ids
  repair_session_as_block-IsFree c s d kind lookup block m free =
      let index = build_conflict_index chromosome offering in
      let t = repair_session_as_block c index used s d kind lookup in
      let untaken =
        repair_session_as_block-IsUntaken c index used s d kind lookup block m
          ((IsUntaken-IsFree c s block s.room_id s.lecturer_ids).1 free) in
      (t, refl, (IsUntaken-IsFree c s t.time_slot_ids t.room_id t.lecturer_ids).0 untaken)
