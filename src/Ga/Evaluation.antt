-- ===== src/Ga/Evaluation.antt =====
-- ga/fitness.ts, evaluateFitness: the weighted sum of the violations and the penalties.
use native.Mathlib.Nat.{mul-le-mul_right}
use ga_scheduler_v.Base.{
  ℕ, suc, ◌≤◌, ◌+◌, ◌*◌, ◌<◌, ◌≡◌, Bool, true, List, Option, ltb, lt→ltb, arith,
}
use ga_scheduler_v.Base.Map.{Map}
use ga_scheduler_v.Base.Set.{Set}
use ga_scheduler_v.Types.{Room, PreGaCandidate, Chromosome}
use ga_scheduler_v.Slots.{SlotLookup}
use ga_scheduler_v.Ga.Fitness.{
  evaluate_hard_fitness, evaluate_competency_mismatch, calculate_structural_penalty,
  calculate_load_penalty, calculate_capacity_shortfall_penalty, calculate_preference_penalty,
}
use ga_scheduler_v.Ga.Fragmentation.{calculate_fragmentation_penalty}

-- The fitness 1 / (1 + cost) of a weighted cost. The cost counts fractions of one over the
-- `weight_unit` of the configuration, which is the same throughout a run.
pub data Fitness : Type 0 where
  of_cost : (cost : ℕ) → Fitness

-- `a > b` of two fitness values: the smaller cost is the larger fraction.
abbrev pub greater : Fitness → Fitness → Bool
greater (of_cost a) (of_cost b) = ltb a b

-- The weights are not negative, and may be fractions; the source takes doubles. They are numbers of
-- fractions of one over `weight_unit`, which is positive: 100 and 1 are 200 and 2 in halves.
pub record FitnessConfig : Type 0 where
  pub weight_unit : ℕ
  pub hard_penalty_weight : ℕ
  pub soft_penalty_weight : ℕ

abbrev pub default_config : FitnessConfig
default_config = record { weight_unit = 1; hard_penalty_weight = 100; soft_penalty_weight = 1 }

pub record EvaluatedChromosome : Type 0 where
  pub chromosome : Chromosome
  pub fitness : Fitness
  pub hard_violations : ℕ
  pub soft_penalty : ℕ
  pub structural_penalty : ℕ
  pub preference_penalty : ℕ
  pub load_penalty : ℕ
  pub capacity_shortfall_penalty : ℕ
  pub fragmentation_penalty : ℕ
  pub competency_mismatch : ℕ

-- The maps that `evaluateFitness` takes besides the chromosome and the candidates.
pub record Surroundings : Type 0 where
  pub lecturer_structural_map : Map ℕ Bool
  pub lecturer_preference_map : Map ℕ (Set ℕ)
  pub lecturer_max_sks_map : Map ℕ ℕ
  pub competency_eligibility_map : Option (Map ℕ (Set ℕ))
  pub room_by_id : Option (Map ℕ Room)
  pub time_slot_by_id : Option SlotLookup

unfoldable pub evaluate_fitness :
    Chromosome → List PreGaCandidate → Surroundings → FitnessConfig → EvaluatedChromosome
evaluate_fitness chromosome candidates env config =
    let collisions = evaluate_hard_fitness chromosome candidates in
    let mismatch =
      evaluate_competency_mismatch chromosome candidates env.competency_eligibility_map in
    let hard = collisions + mismatch in
    let structural =
      calculate_structural_penalty chromosome candidates env.lecturer_structural_map in
    let preference =
      calculate_preference_penalty chromosome candidates env.lecturer_preference_map in
    let load = calculate_load_penalty chromosome candidates env.lecturer_max_sks_map in
    let shortfall = calculate_capacity_shortfall_penalty chromosome candidates env.room_by_id in
    let fragmentation = calculate_fragmentation_penalty chromosome candidates env.time_slot_by_id in
    let soft = structural + preference + load + shortfall + fragmentation in
    record {
      chromosome = chromosome;
      fitness = of_cost (hard * config.hard_penalty_weight + soft * config.soft_penalty_weight);
      hard_violations = hard;
      soft_penalty = soft;
      structural_penalty = structural;
      preference_penalty = preference;
      load_penalty = load;
      capacity_shortfall_penalty = shortfall;
      fragmentation_penalty = fragmentation;
      competency_mismatch = mismatch;
    }

-- The hard violations: repeated uses of rooms and of lecturers, and lecturers not eligible.
abbrev pub violations_of : List PreGaCandidate → Surroundings → Chromosome → ℕ
violations_of candidates env chromosome =
    evaluate_hard_fitness chromosome candidates
    + evaluate_competency_mismatch chromosome candidates env.competency_eligibility_map

-- The five soft penalties.
abbrev pub penalties_of : List PreGaCandidate → Surroundings → Chromosome → ℕ
penalties_of candidates env chromosome =
    calculate_structural_penalty chromosome candidates env.lecturer_structural_map
    + calculate_preference_penalty chromosome candidates env.lecturer_preference_map
    + calculate_load_penalty chromosome candidates env.lecturer_max_sks_map
    + calculate_capacity_shortfall_penalty chromosome candidates env.room_by_id
    + calculate_fragmentation_penalty chromosome candidates env.time_slot_by_id

-- Under any weights a chromosome with fewer hard violations scores above another one, if the weighted
-- sum of its five soft penalties is larger than that of the other by less than the hard weight: each
-- violation outweighs any difference in the soft penalties below that.
pub fewer_violations_win :
    (candidates : List PreGaCandidate) (env : Surroundings) (config : FitnessConfig)
    (better worse : Chromosome)
    → violations_of candidates env better < violations_of candidates env worse
    → penalties_of candidates env better * config.soft_penalty_weight
      < penalties_of candidates env worse * config.soft_penalty_weight + config.hard_penalty_weight
    → greater
        (evaluate_fitness better candidates env config).fitness
        (evaluate_fitness worse candidates env config).fitness
      ≡ true
unfolding evaluate_fitness
fewer_violations_win candidates env config better worse fewer close =
    let weighted = mul-le-mul_right config.hard_penalty_weight (
      let next : suc (violations_of candidates env better) ≤ violations_of candidates env worse =
        omega arith in
      next) in
    lt→ltb _ _ (omega (arith, weighted))
