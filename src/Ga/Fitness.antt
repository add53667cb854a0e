-- ===== src/Ga/Fitness.antt =====
-- ga/fitness.ts. The keys `room:X:slot:Y` and `lec:X:slot:Y` are pairs of numbers here. The entropy
-- of calculateLecturerDistributionEntropy (a logarithm in floating point, for telemetry only) is left
-- out, and the fitness 1 / (1 + c) is the exact rational with that denominator.
pub mod Collisions
pub mod Loads
use ga_scheduler_v.Base.{
  ℕ, zero, suc, ◌+◌, ◌-◌, ◌*◌, max, String, Bool, true, false, not, ◌&&◌, Option, none, some, List,
  [], ◌∷◌, ◌++◌, map, filter, includes, sum_by, length, ltb, if◌then◌else◌, ◌==◌, nat_eq, string_eq,
  pair_eq,
}
use ga_scheduler_v.Base.Map
use ga_scheduler_v.Base.Map.{Map}
use ga_scheduler_v.Base.Set
use ga_scheduler_v.Base.Set.{Set}
use ga_scheduler_v.Types.{Room, TimeSlot, PreGaCandidate, GeneSession, Gene, Chromosome}
use ga_scheduler_v.Slots.{group_by_day, sort_by_start}

-- candidateMap
unfoldable pub candidate_map : List PreGaCandidate → Map ℕ PreGaCandidate
candidate_map candidates = Map.from_list (map (λ c. (c.offering_id, c)) candidates)

-- The genes that the loops do not skip: those whose offering has a candidate.
abbrev pub is_known : List PreGaCandidate → Gene → Bool
is_known candidates gene = Map.has gene.offering_id (candidate_map candidates)

abbrev pub known_genes : List PreGaCandidate → Chromosome → Chromosome
known_genes candidates = filter (is_known candidates)

-- A number of a resource and the id of a slot.
abbrev pub Use : Type 0
Use = ℕ × ℕ

pub record Tally : Type 0 where
  pub room_time_map : Map Use ℕ
  pub lecturer_time_map : Map Use ℕ
  pub violations : ℕ

-- `const count = (map.get(key) ?? 0) + 1; map.set(key, count); if (count > 1) violations++;`
count_room : Use → Tally → Tally
count_room key t =
    let count = Map.get_or key 0 t.room_time_map + 1 in
    record {
      room_time_map = Map.set key count t.room_time_map;
      lecturer_time_map = t.lecturer_time_map;
      violations = if ltb 1 count then t.violations + 1 else t.violations;
    }

count_lecturer : Use → Tally → Tally
count_lecturer key t =
    let count = Map.get_or key 0 t.lecturer_time_map + 1 in
    record {
      room_time_map = t.room_time_map;
      lecturer_time_map = Map.set key count t.lecturer_time_map;
      violations = if ltb 1 count then t.violations + 1 else t.violations;
    }

tally_lecturers : List ℕ → ℕ → Tally → Tally
unfolding count_lecturer
tally_lecturers [] slot t = t
tally_lecturers (l ∷ ls) slot t = tally_lecturers ls slot (count_lecturer (l, slot) t)

tally_slots : GeneSession → List ℕ → Tally → Tally
unfolding count_room tally_lecturers
tally_slots s [] t = t
tally_slots s (slot ∷ slots) t =
    tally_slots s slots (tally_lecturers s.lecturer_ids slot (count_room (s.room_id, slot) t))

tally_sessions : List GeneSession → Tally → Tally
unfolding tally_slots
tally_sessions [] t = t
tally_sessions (s ∷ rest) t = tally_sessions rest (tally_slots s s.time_slot_ids t)

tally_genes : Chromosome → Tally → Tally
unfolding tally_sessions
tally_genes [] t = t
tally_genes (g ∷ rest) t = tally_genes rest (tally_sessions g.sessions t)

abbrev pub empty_tally : Tally
empty_tally = record { room_time_map = []; lecturer_time_map = []; violations = 0 }

unfoldable pub evaluate_hard_fitness : Chromosome → List PreGaCandidate → ℕ
unfolding tally_genes candidate_map
evaluate_hard_fitness chromosome candidates =
    (tally_genes (known_genes candidates chromosome) empty_tally).violations

-- The sum over all sessions of the genes that are not skipped.
abbrev pub sum_sessions : (GeneSession → ℕ) → Chromosome → ℕ
sum_sessions f = sum_by (λ g. sum_by f g.sessions)

unfoldable pub evaluate_competency_mismatch :
    Chromosome → List PreGaCandidate → Option (Map ℕ (Set ℕ)) → ℕ
unfolding candidate_map
evaluate_competency_mismatch chromosome candidates none = 0
evaluate_competency_mismatch chromosome candidates (some eligibility_map) =
    sum_by
      (λ g. elim (Map.get g.offering_id eligibility_map) [
        | none ↦ 0
        | some eligible ↦
            sum_by
              (λ s.
                sum_by (λ l. if not (Set.has l eligible) then length s.time_slot_ids else 0)
                  s.lecturer_ids)
              g.sessions
      ])
      (known_genes candidates chromosome)

-- The slots taught by each lecturer that `counted` admits: `lecturerSessionCount`, `assignedSks`.
module _ (counted : ℕ → Bool) where
  add_load : List ℕ → ℕ → Map ℕ ℕ → Map ℕ ℕ
  add_load [] sks m = m
  add_load (l ∷ ls) sks m =
      add_load ls sks (if counted l then Map.set l (Map.get_or l 0 m + sks) m else m)

  load_sessions : List GeneSession → Map ℕ ℕ → Map ℕ ℕ
  unfolding add_load
  load_sessions [] m = m
  load_sessions (s ∷ rest) m =
      load_sessions rest (add_load s.lecturer_ids (length s.time_slot_ids) m)

  load_genes : Chromosome → Map ℕ ℕ → Map ℕ ℕ
  unfolding load_sessions
  load_genes [] m = m
  load_genes (g ∷ rest) m = load_genes rest (load_sessions g.sessions m)

abbrev pub structural_max_sessions : ℕ
structural_max_sessions = 2

-- `lecturerStructuralMap.get(lecturerId)` as a test.
abbrev pub is_structural : Map ℕ Bool → ℕ → Bool
is_structural m l = Map.get_or l false m

unfoldable pub calculate_structural_penalty : Chromosome → List PreGaCandidate → Map ℕ Bool → ℕ
unfolding load_genes candidate_map
calculate_structural_penalty chromosome candidates structural =
    sum_by (λ entry. entry.1 - structural_max_sessions)
      (load_genes (is_structural structural) (known_genes candidates chromosome) [])

-- What one entry of `assignedSks` adds; a lecturer without a cap adds nothing.
abbrev pub overload : Map ℕ ℕ → ℕ × ℕ → ℕ
overload caps (l, total) = elim (Map.get l caps) [ none ↦ 0 | some cap ↦ total - cap ]

unfoldable pub calculate_load_penalty : Chromosome → List PreGaCandidate → Map ℕ ℕ → ℕ
unfolding load_genes candidate_map
calculate_load_penalty chromosome candidates caps =
    sum_by (overload caps) (load_genes (λ l. true) (known_genes candidates chromosome) [])

-- The seats of a room, and 0 for a room that is not known.
abbrev pub capacity_of : Map ℕ Room → ℕ → ℕ
capacity_of rooms id = elim (Map.get id rooms) [ none ↦ 0 | some room ↦ room.capacity ]

unfoldable pub calculate_capacity_shortfall_penalty :
    Chromosome → List PreGaCandidate → Option (Map ℕ Room) → ℕ
unfolding candidate_map
calculate_capacity_shortfall_penalty chromosome candidates none = 0
calculate_capacity_shortfall_penalty chromosome candidates (some rooms) =
    sum_by
      (λ g. elim (Map.get g.offering_id (candidate_map candidates)) [
        | none ↦ 0
        | some c ↦ elim c.room_id [
          | some _ ↦ 0
          | none ↦ c.effective_student_count - sum_by (λ s. capacity_of rooms s.room_id) g.sessions
        ]
      ])
      chromosome

unfoldable pub calculate_preference_penalty : Chromosome → List PreGaCandidate → Map ℕ (Set ℕ) → ℕ
unfolding candidate_map
calculate_preference_penalty chromosome candidates preferences =
    sum_sessions
      (λ s.
        sum_by
          (λ l. elim (Map.get l preferences) [
            | none ↦ 0
            | some preferred ↦
                if length preferred == 0
                then 0
                else length (filter (λ slot. not (Set.has slot preferred)) s.time_slot_ids)
          ])
          s.lecturer_ids)
      (known_genes candidates chromosome)
