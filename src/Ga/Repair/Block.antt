-- ===== src/Ga/Repair/Block.antt =====
-- ga/repair.ts, repairSessionAsBlock.
use ga_scheduler_v.Base.{
  ℕ, suc, Bool, not, ◌&&◌, Option, none, some, List, [], ◌∷◌, length, if◌then◌else◌, ◌==◌, nat_eq,
}
use ga_scheduler_v.Base.Set.{Set}
use ga_scheduler_v.Types.{PreGaCandidate, GeneSession, GeneKind, fixed, flexible}
use ga_scheduler_v.Slots.{SlotLookup, find_contiguous_slots}
use ga_scheduler_v.Slots.SameDay.{pick_same_day_session_slots}
use ga_scheduler_v.Ga.Draws.{Draws, part, number, stream}
use ga_scheduler_v.Ga.Shuffle.{fisher_yates_shuffle}
use ga_scheduler_v.Ga.Seeder.{room_pool}
use ga_scheduler_v.Ga.Repair.{
  ConflictIndex, room_or_gene_slot_conflicts, lecturer_conflicts, pick_lecturer_swap_for_block,
}

abbrev pub session_at : ℕ → List ℕ → Option (List ℕ) → Option GeneSession
session_at room block none = none
session_at room block (some ids) =
    some (record { room_id = room; time_slot_ids = block; lecturer_ids = ids })

-- The first of the two that is there.
abbrev pub or_try : Option GeneSession → Option GeneSession → Option GeneSession
or_try (some s) other = some s
or_try none other = other

abbrev pub or_session : Option GeneSession → GeneSession → GeneSession
or_session (some s) other = s
or_session none other = other

module _ (c : PreGaCandidate) (index : ConflictIndex) (used : Set ℕ) (s : GeneSession) where
  -- A clean place for the session: the block in the room, with its lecturers or with others.
  unfoldable pub place_at : Draws → List ℕ → ℕ → Option GeneSession
  place_at d block room =
      if room_or_gene_slot_conflicts block room index used
      then none
      else if not (lecturer_conflicts block s.lecturer_ids index)
      then session_at room block (some s.lecturer_ids)
      else session_at room block (pick_lecturer_swap_for_block d block c s.lecturer_ids index)

  -- The loop over the blocks, from block `i` on.
  unfoldable pub place_first : Draws → ℕ → List (List ℕ) → ℕ → Option GeneSession
  unfolding place_at
  place_first d i [] room = none
  place_first d i (block ∷ blocks) room =
      or_try (place_at (part i d) block room) (place_first d (suc i) blocks room)

  -- The loop over the other rooms.
  unfoldable pub place_elsewhere : Draws → ℕ → List ℕ → List (List ℕ) → Option GeneSession
  unfolding place_first
  place_elsewhere d i [] blocks = none
  place_elsewhere d i (room ∷ rooms) blocks =
      let rest = place_elsewhere d (suc i) rooms blocks in
      if room == s.room_id then rest else or_try (place_first (part i d) 0 blocks room) rest

  -- The residual placement: the block in the session's room, with other lecturers if some are free.
  unfoldable pub last_resort : Draws → List ℕ → GeneSession
  last_resort d block =
      or_session
        (session_at s.room_id block (pick_lecturer_swap_for_block d block c s.lecturer_ids index))
        (record { room_id = s.room_id; time_slot_ids = block; lecturer_ids = s.lecturer_ids })

  -- The other rooms that a flexible gene may take.
  unfoldable pub other_rooms : Draws → GeneKind → List ℕ
  other_rooms d fixed = []
  other_rooms d flexible = fisher_yates_shuffle (stream d) (room_pool c)

  -- A clean place in the session's room, then in another room, then the first block as it is.
  unfoldable pub move_to : Draws → GeneKind → List (List ℕ) → GeneSession
  unfolding place_first place_elsewhere last_resort other_rooms
  move_to d kind [] = s
  move_to d kind (block ∷ blocks) =
      or_session
        (or_try (place_first (part 0 d) 0 (block ∷ blocks) s.room_id)
          (place_elsewhere (part 1 d) 0 (other_rooms (part 2 d) kind) (block ∷ blocks)))
        (last_resort (part 3 d) block)

  -- The block of the same-day selector, where it finds any slot.
  unfoldable pub move_to_slots : Draws → GeneKind → List ℕ → GeneSession
  unfolding move_to
  move_to_slots d kind [] = s
  move_to_slots d kind (slot ∷ slots) = move_to d kind ((slot ∷ slots) ∷ [])

  unfoldable pub relocate : Draws → GeneKind → SlotLookup → List (List ℕ) → GeneSession
  unfolding move_to move_to_slots
  relocate d kind lookup [] = move_to_slots (part 0 d) kind (
      pick_same_day_session_slots (number (part 1 d)) (number (part 2 d)) c.possible_time_slot_ids
        c.session_duration lookup)
  relocate d kind lookup (block ∷ blocks) =
      move_to (part 0 d) kind (fisher_yates_shuffle (stream (part 1 d)) (block ∷ blocks))

  -- Other lecturers for the session as it stands, if only its lecturers are in conflict.
  unfoldable pub swap_lecturers : Draws → Option GeneSession
  swap_lecturers d =
      if length s.time_slot_ids == c.session_duration
        && lecturer_conflicts s.time_slot_ids s.lecturer_ids index
        && not (room_or_gene_slot_conflicts s.time_slot_ids s.room_id index used)
      then session_at s.room_id s.time_slot_ids
          (pick_lecturer_swap_for_block d s.time_slot_ids c s.lecturer_ids index)
      else none

  unfoldable pub is_clean : GeneSession → Bool
  is_clean t =
      not (room_or_gene_slot_conflicts t.time_slot_ids t.room_id index used)
      && not (lecturer_conflicts t.time_slot_ids t.lecturer_ids index)

  -- repairSessionAsBlock
  unfoldable pub repair_session_as_block : Draws → GeneKind → SlotLookup → GeneSession
  unfolding relocate swap_lecturers is_clean
  repair_session_as_block d kind lookup =
      if is_clean s && length s.time_slot_ids == c.session_duration
      then s
      else or_session (swap_lecturers (part 0 d)) (
          relocate (part 1 d) kind lookup
            (find_contiguous_slots c.possible_time_slot_ids c.session_duration lookup))
