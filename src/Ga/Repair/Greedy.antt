-- ===== src/Ga/Repair/Greedy.antt =====
-- ga/repair.ts, repairSessionGreedy. `usedSlots` holds what `newSlots` holds, so that one list does.
use ga_scheduler_v.Base.{
  ℕ, Bool, true, false, not, ◌&&◌, ◌||◌, Option, none, List, [], ◌∷◌, ◌++◌, any, includes, length,
  leb, if◌then◌else◌, ◌==◌, nat_eq, pair_eq,
}
use ga_scheduler_v.Base.Map
use ga_scheduler_v.Types.{PreGaCandidate, GeneSession}
use ga_scheduler_v.Ga.Draws.{Draws, part, stream}
use ga_scheduler_v.Ga.Shuffle.{fisher_yates_shuffle}
use ga_scheduler_v.Ga.Repair.{ConflictIndex, lecturer_conflicts, pick_lecturer_swap_for_block}
use ga_scheduler_v.Ga.Repair.Block.{session_at, or_session}

-- slotConflicts
unfoldable pub slot_conflicts : ℕ → ℕ → List ℕ → ConflictIndex → Bool
slot_conflicts slot room lecturers index =
    Map.has (room, slot) index.room_time_used
    || any (λ l. Map.has (l, slot) index.lecturer_time_used) lecturers

module _ (s : GeneSession) (index : ConflictIndex) where
  -- The slots of the session that are free, each once.
  unfoldable pub keep_free : List ℕ → List ℕ → List ℕ
  unfolding slot_conflicts
  keep_free [] chosen = chosen
  keep_free (slot ∷ slots) chosen = keep_free slots (
      if not (slot_conflicts slot s.room_id s.lecturer_ids index) && not (includes chosen slot)
      then chosen ++ slot ∷ []
      else chosen)

  -- A loop that fills up to `needed` slots, from all slots or from the free ones.
  unfoldable pub fill : Bool → ℕ → List ℕ → List ℕ → List ℕ
  unfolding slot_conflicts
  fill only_free needed [] chosen = chosen
  fill only_free needed (slot ∷ slots) chosen = fill only_free needed slots (
      if leb needed (length chosen)
        || includes chosen slot
        || (only_free && slot_conflicts slot s.room_id s.lecturer_ids index)
      then chosen
      else chosen ++ slot ∷ [])

  -- Other lecturers, if the room is free at the slots and they are as many as needed.
  unfoldable pub swap_greedily : Draws → ℕ → PreGaCandidate → Option GeneSession
  swap_greedily d needed c =
      if lecturer_conflicts s.time_slot_ids s.lecturer_ids index
        && not (any (λ slot. Map.has (s.room_id, slot) index.room_time_used) s.time_slot_ids)
        && length s.time_slot_ids == needed
      then session_at s.room_id s.time_slot_ids
          (pick_lecturer_swap_for_block d s.time_slot_ids c s.lecturer_ids index)
      else none

  -- repairSessionGreedy
  unfoldable pub repair_session_greedy : Draws → ℕ → PreGaCandidate → GeneSession
  unfolding keep_free fill swap_greedily
  repair_session_greedy d needed c =
      let shuffled1 = fisher_yates_shuffle (stream (part 1 d)) c.possible_time_slot_ids in
      let shuffled2 = fisher_yates_shuffle (stream (part 2 d)) c.possible_time_slot_ids in
      or_session (swap_greedily (part 0 d) needed c) (record {
        room_id = s.room_id;
        time_slot_ids =
            fill false needed shuffled2 (fill true needed shuffled1 (keep_free s.time_slot_ids []));
        lecturer_ids = s.lecturer_ids;
      })
