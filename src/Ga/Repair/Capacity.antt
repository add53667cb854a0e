-- ===== src/Ga/Repair/Capacity.antt =====
-- ga/repair.ts, repairCapacityShortfall. The sessions that the source changes in place are a state.
use ga_scheduler_v.Base.{
  ℕ, zero, suc, Bool, true, false, not, ◌&&◌, ◌||◌, Option, none, some, List, [], ◌∷◌, ◌++◌, map,
  filter, any, includes, sum_by, sort, length, get_elem?, leb, ltb, if◌then◌else◌, ◌==◌, nat_eq,
  pair_eq,
}
use ga_scheduler_v.Base.Map
use ga_scheduler_v.Base.Map.{Map}
use ga_scheduler_v.Types.{Room, PreGaCandidate, GeneSession, GeneKind, fixed, flexible}
use ga_scheduler_v.Ga.Shuffle.{set_elem}
use ga_scheduler_v.Ga.Fitness.{Use, capacity_of}
use ga_scheduler_v.Ga.Seeder.{room_pool}
use ga_scheduler_v.Ga.Repair.{ConflictIndex}

-- `gene.sessions.map((_, i) => i)`
unfoldable pub indices_from : ℕ → List GeneSession → List ℕ
indices_from i [] = []
indices_from i (s ∷ rest) = i ∷ indices_from (suc i) rest

-- `siblingRoomSlots`: what the sessions other than the one at `idx` hold, from index `i` on.
unfoldable pub sibling_room_slots : ℕ → ℕ → List GeneSession → List Use
sibling_room_slots idx i [] = []
sibling_room_slots idx i (s ∷ rest) =
    let more = sibling_room_slots idx (suc i) rest in
    if i == idx then more else map (λ slot. (s.room_id, slot)) s.time_slot_ids ++ more

module _ (rooms : Map ℕ Room) (index : ConflictIndex) (pool : List ℕ) where
  -- `capacityOf` of the room of a session, by its index.
  abbrev pub capacity_at : List GeneSession → ℕ → ℕ
  capacity_at sessions i = elim (get_elem? sessions i) [
    | none ↦ 0
    | some s ↦ capacity_of rooms s.room_id
  ]

  unfoldable pub total_capacity : List GeneSession → ℕ
  total_capacity = sum_by (λ (s : GeneSession). capacity_of rooms s.room_id)

  unfoldable pub alternatives : GeneSession → List ℕ
  alternatives s =
      sort (λ a b. leb (capacity_of rooms b) (capacity_of rooms a))
        (filter
          (λ r. not (r == s.room_id) && ltb (capacity_of rooms s.room_id) (capacity_of rooms r))
          pool)

  -- The first larger room that is free at the slots of the session.
  unfoldable pub free_room : List Use → List ℕ → List ℕ → Option ℕ
  free_room siblings slots [] = none
  free_room siblings slots (room ∷ rest) =
      let more = free_room siblings slots rest in
      if any (λ slot. Map.has (room, slot) index.room_time_used || includes siblings (room, slot))
        slots
      then more
      else some room

  -- The move of the session at `idx` to such a room.
  unfoldable pub upgrade : List GeneSession → ℕ → Option (List GeneSession)
  unfolding alternatives free_room sibling_room_slots
  upgrade sessions idx = elim (get_elem? sessions idx) [
    | none ↦ none
    | some s ↦
        elim (free_room (sibling_room_slots idx 0 sessions) s.time_slot_ids (alternatives s)) [
          | none ↦ none
          | some room ↦ some (set_elem idx (record s { room_id = room }) sessions)
        ]
  ]

  -- The loop over the indices in the order of the capacities.
  unfoldable pub upgrade_any : List GeneSession → List ℕ → Option (List GeneSession)
  unfolding upgrade
  upgrade_any sessions [] = none
  upgrade_any sessions (idx ∷ order) = elim (upgrade sessions idx) [
    | some changed ↦ some changed
    | none ↦ upgrade_any sessions order
  ]

  -- The rounds of the outer loop.
  unfoldable pub upgrade_loop : ℕ → ℕ → List GeneSession → List GeneSession
  unfolding upgrade_any total_capacity
  upgrade_loop required zero sessions = sessions
  upgrade_loop required (suc left) sessions =
      if leb required (total_capacity sessions)
      then sessions
      else elim (upgrade_any sessions (
          sort (λ a b. leb (capacity_at sessions a) (capacity_at sessions b))
            (indices_from 0 sessions))) [
              | none ↦ sessions
              | some changed ↦ upgrade_loop required left changed
            ]

abbrev pub has_own_room : PreGaCandidate → Bool
has_own_room c = elim c.room_id [ none ↦ false | some _ ↦ true ]

-- repairCapacityShortfall
unfoldable pub repair_capacity_shortfall :
    GeneKind → PreGaCandidate → ConflictIndex → Map ℕ Room → List GeneSession → List GeneSession
unfolding upgrade_loop
repair_capacity_shortfall fixed c index rooms sessions = sessions
repair_capacity_shortfall flexible c index rooms sessions =
    if has_own_room c || leb (length sessions) 1
    then sessions
    else upgrade_loop rooms index (room_pool c) c.effective_student_count (length sessions) sessions
