-- ===== src/PreGa/Validator.antt =====
-- pre-ga/validator.ts, runPreGA: the checks, the filter of the rooms, the cohorts and the tags.
pub mod Accounting
pub mod Cohorting
pub mod Fitting
pub mod Apart
use ga_scheduler_v.Base.{
  ℕ, Bool, true, false, ◌&&◌, Option, none, some, List, [], ◌∷◌, ◌++◌, filter, length,
  if◌then◌else◌, nat_eq,
}
use ga_scheduler_v.Base.Map
use ga_scheduler_v.Base.Map.{Map}
use ga_scheduler_v.Types.{Room, TimeSlot, CourseOffering, PreGaCandidate}
use ga_scheduler_v.PreGa.Checks.{CheckResult, passed, failed, run_checks}
use ga_scheduler_v.PreGa.Rooms.{Infeasible, RoomPhase, room_phase}
use ga_scheduler_v.PreGa.Cohorts.{cohorts_of, raw_candidates, refused_cohorts, tag_entities}

-- PreGAValidationResult
pub record Validation : Type 0 where
  pub feasible : List CourseOffering
  pub infeasible : List Infeasible

pub record PreGaResult : Type 0 where
  pub validation : Validation
  pub candidates : List PreGaCandidate

-- Where an offering goes after its checks.
unfoldable pub record_check : CourseOffering → CheckResult → Validation → Validation
record_check o passed v = record v { feasible = o ∷ v.feasible }
record_check o (failed code metadata) v = record v {
  infeasible = record { offering = o; failed_check = failed code metadata } ∷ v.infeasible;
}

-- The loop over the offerings: the first check that fails decides.
unfoldable pub check_all : ℕ → List CourseOffering → Validation
unfolding record_check
check_all total [] = record { feasible = []; infeasible = [] }
check_all total (o ∷ rest) = record_check o (run_checks total o) (check_all total rest)

-- `effectiveLockedRoomMap` where none is given.
unfoldable pub locked_offerings : List CourseOffering → Map ℕ ℕ
locked_offerings [] = []
locked_offerings (o ∷ rest) =
    let entries = locked_offerings rest in
    elim o.room_id [
      | none ↦ entries
      | some room ↦ if o.is_fixed then (o.id, room) ∷ entries else entries
    ]

abbrev pub rooms_or_none : Option (List Room) → List Room
rooms_or_none none = []
rooms_or_none (some rooms) = rooms

unfoldable pub run_pre_ga :
    List CourseOffering → List TimeSlot → Option (List Room) → Option (Map ℕ ℕ) → PreGaResult
unfolding check_all locked_offerings
run_pre_ga offerings slots all_rooms locked_room_map =
    let checked = check_all (length slots) offerings in
    let phase = room_phase all_rooms checked.feasible in
    let cohorts = cohorts_of phase.still_feasible in
    let rooms = rooms_or_none all_rooms in
    let locked : Map ℕ ℕ = elim locked_room_map [
      | none ↦ Map.from_list (locked_offerings phase.still_feasible)
      | some m ↦ m
    ] in
    record {
      validation = record {
        feasible = phase.still_feasible;
        infeasible =
            checked.infeasible ++ (phase.infeasible ++ refused_cohorts rooms phase slots cohorts);
      };
      candidates = tag_entities (raw_candidates rooms phase slots cohorts) locked;
    }
