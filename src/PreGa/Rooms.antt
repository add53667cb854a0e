-- ===== src/PreGa/Rooms.antt =====
-- pre-ga/validator.ts, the filter that computes `possibleRoomIds` and the number of parallel sessions
-- of an offering without a room. Infinity, the result of a division by 0, is `none`.
use ga_scheduler_v.Base.{
  ℕ, zero, suc, min, Bool, true, false, ◌&&◌, ◌||◌, Option, none, some, List, [], ◌∷◌, ◌++◌, map,
  filter, all, includes, max_by, length, ltb, leb, if◌then◌else◌, string_eq, nat_eq,
}
use ga_scheduler_v.Base.Map
use ga_scheduler_v.Base.Map.{Map}
use ga_scheduler_v.Types.{Room, CourseOffering}
use ga_scheduler_v.PreGa.Checks.{
  CheckResult, fail, no_facility_match, no_rooms_qualify, no_capacity_combination, ceil_div,
}

-- An entry of `infeasible`.
pub record Infeasible : Type 0 where
  pub offering : CourseOffering
  pub failed_check : CheckResult

abbrev pub max_parallel_sessions_hard_cap : ℕ
max_parallel_sessions_hard_cap = 5

-- `offering.roomId === null`
abbrev pub is_null_room : CourseOffering → Bool
is_null_room o = elim o.room_id [ none ↦ true | some _ ↦ false ]

abbrev pub has_room : CourseOffering → Bool
has_room o = elim o.room_id [ none ↦ false | some _ ↦ true ]

-- The predicate of the filter over `allRooms`.
unfoldable pub qualifies : CourseOffering → Room → Bool
qualifies o r =
    (is_null_room o || leb o.effective_student_count r.capacity)
    && all (λ f. includes r.facilities f) o.course.required_facilities

unfoldable pub qualifying : List Room → CourseOffering → List ℕ
unfolding qualifies
qualifying rooms o = map (λ (r : Room). r.id) (filter (qualifies o) rooms)

-- `Math.max(...ids.map(id => roomById.get(id)!.capacity))`
unfoldable pub max_capacity : List Room → List ℕ → ℕ
max_capacity rooms ids =
    let room_by_id = Map.from_list (map (λ (r : Room). (r.id, r)) rooms) in
    max_by (λ id. elim (Map.get id room_by_id) [ none ↦ 0 | some r ↦ r.capacity ]) ids

-- `students > capacity ? Math.ceil(students / capacity) : 1`
unfoldable pub required_sessions : ℕ → ℕ → Option ℕ
required_sessions students capacity =
    if ltb capacity students
    then elim capacity [ zero ↦ none | suc c ↦ some (ceil_div students (suc c)) ]
    else some 1

-- What the loop does with one offering: the possible rooms, with the number of sessions where the
-- offering has no room.
pub data Placement : Type 0 where
  locked_room : Placement
  alternates : List ℕ → Placement
  split : List ℕ → ℕ → Placement
  rejected : CheckResult → Placement

-- An offering without a room is split, unless it needs more sessions than the cap.
unfoldable pub place_split : List Room → CourseOffering → List ℕ → Placement
unfolding max_capacity required_sessions
place_split rooms o ids =
    elim (required_sessions o.effective_student_count (max_capacity rooms ids)) [
      | none ↦ rejected (fail no_capacity_combination)
      | some n ↦
          if ltb (min max_parallel_sessions_hard_cap (length ids)) n
          then rejected (fail no_capacity_combination)
          else split ids n
    ]

-- The place of an offering among the qualifying rooms.
unfoldable pub place_among : List Room → CourseOffering → List ℕ → Placement
unfolding place_split
place_among rooms o [] =
    rejected (fail (if is_null_room o then no_facility_match else no_rooms_qualify))
place_among rooms o (id ∷ ids) =
    if is_null_room o then place_split rooms o (id ∷ ids) else alternates (id ∷ ids)

unfoldable pub place : List Room → CourseOffering → Placement
unfolding qualifying place_among
place rooms o =
    if o.is_fixed && has_room o then locked_room else place_among rooms o (qualifying rooms o)

pub record RoomPhase : Type 0 where
  pub still_feasible : List CourseOffering
  pub infeasible : List Infeasible
  pub possible_room_ids_by_offering : Map ℕ (List ℕ)
  pub null_room_parallel_by_offering : Map ℕ ℕ

unfoldable pub keep_placed : CourseOffering → Placement → RoomPhase → RoomPhase
keep_placed o locked_room p = record p { still_feasible = p.still_feasible ++ o ∷ [] }
keep_placed o (alternates ids) p = record p {
  still_feasible = p.still_feasible ++ o ∷ [];
  possible_room_ids_by_offering = Map.set o.id ids p.possible_room_ids_by_offering;
}
keep_placed o (split ids n) p = record p {
  still_feasible = p.still_feasible ++ o ∷ [];
  possible_room_ids_by_offering = Map.set o.id ids p.possible_room_ids_by_offering;
  null_room_parallel_by_offering = Map.set o.id n p.null_room_parallel_by_offering;
}
keep_placed o (rejected result) p = record p {
  infeasible = p.infeasible ++ record { offering = o; failed_check = result } ∷ [];
}

unfoldable pub place_all : List Room → List CourseOffering → RoomPhase → RoomPhase
unfolding place keep_placed
place_all rooms [] p = p
place_all rooms (o ∷ rest) p = place_all rooms rest (keep_placed o (place rooms o) p)

-- `if (allRooms)`: without the rooms nothing is filtered.
unfoldable pub room_phase : Option (List Room) → List CourseOffering → RoomPhase
unfolding place_all
room_phase none feasible = record {
  still_feasible = feasible;
  infeasible = [];
  possible_room_ids_by_offering = [];
  null_room_parallel_by_offering = [];
}
room_phase (some rooms) feasible = place_all rooms feasible (record {
  still_feasible = [];
  infeasible = [];
  possible_room_ids_by_offering = [];
  null_room_parallel_by_offering = [];
})
