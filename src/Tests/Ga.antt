-- ===== src/Tests/Ga.antt =====
-- Two genes that share a room and a slot, and how they are scored.
use ga_scheduler_v.Base.{
  ℕ, ◌≡◌, ◌↔◌, refl, true, false, none, some, List, [], ◌∷◌, ◌≤◌, nat_eq, arith,
}
use ga_scheduler_v.Base.Map
use ga_scheduler_v.Types.{PreGaCandidate, Gene, GeneKind, Chromosome}
use ga_scheduler_v.Ga.Fitness.{
  is_structural, known_genes, candidate_map, evaluate_hard_fitness, evaluate_competency_mismatch,
  calculate_structural_penalty, calculate_load_penalty, calculate_capacity_shortfall_penalty,
  calculate_preference_penalty,
}
use ga_scheduler_v.Ga.Fitness.Collisions.{
  Unique, room_uses, lecturer_uses, evaluate_hard_fitness-zero,
}
use ga_scheduler_v.Ga.Fitness.Loads.{
  load_of, calculate_structural_penalty-zero, calculate_load_penalty-zero,
}
use ga_scheduler_v.Ga.Fragmentation.{calculate_fragmentation_penalty}
use ga_scheduler_v.Ga.Evaluation.{
  greater, default_config, EvaluatedChromosome, Surroundings, violations_of, penalties_of,
  evaluate_fitness, fewer_violations_win,
}

abbrev pub candidate : ℕ → ℕ → PreGaCandidate
candidate offering lecturer = record {
  offering_id = offering;
  course_id = 10;
  room_id = some 5;
  lecturer_ids = lecturer ∷ [];
  effective_student_count = 30;
  parallel_session_count = 1;
  session_duration = 1;
  possible_time_slot_ids = 1 ∷ 2 ∷ [];
  possible_room_ids = none;
  is_fixed_room = false;
  fixed_time_slot_ids = none;
  parent_offering_id = none;
  sibling_offering_ids = offering ∷ [];
  lecturer_pool = lecturer ∷ [];
  sibling_lecturer_groups = (lecturer ∷ []) ∷ [];
  longest_contiguous_run = 1;
  fragmentation_required = false;
}

abbrev gene : ℕ → ℕ → ℕ → Gene
gene offering lecturer slot = record {
  kind = GeneKind.flexible;
  offering_id = offering;
  sessions = record { room_id = 5; time_slot_ids = slot ∷ []; lecturer_ids = lecturer ∷ [] } ∷ [];
}

-- A cohort without a room of its own, too large for the rooms that are known.
abbrev crowd : PreGaCandidate
crowd = record (candidate 3 300) { room_id = none; effective_student_count = 150 }

abbrev candidates : List PreGaCandidate
candidates = candidate 1 100 ∷ candidate 2 200 ∷ crowd ∷ []

abbrev clash : Chromosome
clash = gene 1 100 1 ∷ gene 2 200 1 ∷ []

abbrev clean : Chromosome
clean = gene 1 100 1 ∷ gene 2 200 2 ∷ []

abbrev crowded : Chromosome
crowded = gene 3 300 1 ∷ []

abbrev surroundings : Surroundings
surroundings = record {
  lecturer_structural_map = [];
  lecturer_preference_map = [];
  lecturer_max_sks_map = [];
  competency_eligibility_map = none;
  room_by_id = some [];
  time_slot_by_id = none;
}

program : Unit {0}
unfolding evaluate_fitness evaluate_hard_fitness evaluate_competency_mismatch
    calculate_structural_penalty calculate_load_penalty calculate_capacity_shortfall_penalty
    calculate_preference_penalty calculate_fragmentation_penalty candidate_map
program = tt

abbrev scored : List PreGaCandidate → Surroundings → Chromosome → EvaluatedChromosome
scored cs env chromosome = evaluate_fitness chromosome cs env default_config

one_collision : (scored candidates surroundings clash).hard_violations ≡ 1
unfolding program
one_collision = refl

no_collision : evaluate_hard_fitness clean candidates ≡ 0
unfolding program
no_collision = refl

evaluate_hard_fitness-zero_example : (evaluate_hard_fitness clean candidates ≡ 0) ↔ (
    Unique (room_uses (known_genes candidates clean))
    × Unique (lecturer_uses (known_genes candidates clean)))
evaluate_hard_fitness-zero_example = evaluate_hard_fitness-zero clean candidates

crowded_scores :
    ((scored candidates surroundings crowded).hard_violations ≡ 0)
    × ((scored candidates surroundings crowded).soft_penalty ≡ 150)
    × ((scored candidates surroundings clash).soft_penalty ≡ 0)
unfolding program
crowded_scores = (refl, refl, refl)

-- The weights do not put every feasible chromosome above every infeasible one.
infeasible_wins :
    greater
      (scored candidates surroundings clash).fitness
      (scored candidates surroundings crowded).fitness
    ≡ true
unfolding program
infeasible_wins = refl

one_violation :
    (violations_of candidates surroundings clean ≡ 0)
    × (violations_of candidates surroundings clash ≡ 1)
    × (penalties_of candidates surroundings clean ≡ 0)
unfolding program
one_violation = (refl, refl, refl)

fewer_violations_win_example :
    greater
      (evaluate_fitness clean candidates surroundings default_config).fitness
      (evaluate_fitness clash candidates surroundings default_config).fitness
    ≡ true
fewer_violations_win_example =
    fewer_violations_win candidates surroundings default_config clean clash
      (omega (arith, one_violation.0, one_violation.1)) (omega (arith, one_violation.2))

-- A lecturer of three slots, structural and with a cap of two.
abbrev busy : Chromosome
busy = gene 1 100 1 ∷ gene 1 100 2 ∷ gene 2 100 3 ∷ []

over_by_one : calculate_load_penalty busy candidates ((100, 2) ∷ []) ≡ 1
unfolding program
over_by_one = refl

calculate_structural_penalty-zero_example :
    (calculate_structural_penalty busy candidates ((100, true) ∷ []) ≡ 0) ↔ (
      (l : ℕ)
      → is_structural ((100, true) ∷ []) l ≡ true
      → load_of l (known_genes candidates busy) ≤ 2)
calculate_structural_penalty-zero_example =
    calculate_structural_penalty-zero busy candidates ((100, true) ∷ [])

calculate_load_penalty-zero_example :
    (calculate_load_penalty busy candidates ((100, 2) ∷ []) ≡ 0) ↔ (
      (l limit : ℕ)
      → Map.get l ((100, 2) ∷ []) ≡ some limit
      → load_of l (known_genes candidates busy) ≤ limit)
calculate_load_penalty-zero_example = calculate_load_penalty-zero busy candidates ((100, 2) ∷ [])
