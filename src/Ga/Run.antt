-- ===== src/Ga/Run.antt =====
-- ga/runGA.ts. A fitness is the exact fraction, not a rounded one, and the mean of a generation is kept
-- as the values it is the mean of. The state also holds what the hooks onGeneration and onCheckpoint
-- were given, in order; `should_cancel` is the hook of that name. `none` is a thrown error. The console
-- output and the awaits are left out, and so is lecturerDistributionEntropy.
pub mod Generation
pub mod Ranking
pub mod Empty
pub mod Breeding
pub mod State
pub mod Loop
pub mod Result
use ga_scheduler_v.Base.{
  ℕ, zero, suc, ◌+◌, ◌-◌, ◌*◌, ◌%◌, Bool, true, false, not, ◌&&◌, Option, none, some, List, [], ◌∷◌,
  ◌++◌, map, take, sort, length, leb, ltb, if◌then◌else◌, ◌==◌, nat_eq,
}
use ga_scheduler_v.Base.Map.{Map}
use ga_scheduler_v.Base.Set.{Set}
use ga_scheduler_v.Types.{Room, TimeSlot, PreGaCandidate, GeneSession, GeneKind, Gene, Chromosome}
use ga_scheduler_v.Slots.{SlotLookup, build_slot_lookup}
use ga_scheduler_v.Ga.Draws.{Draws, part, number, stream, coin}
use ga_scheduler_v.Ga.Evaluation.{
  Fitness, of_cost, greater, FitnessConfig, EvaluatedChromosome, Surroundings, evaluate_fitness,
}
use ga_scheduler_v.Ga.Selection.{tournament_selection}
use ga_scheduler_v.Ga.Crossover.{Crossover, single_point, uniform, pmx, cross}
use ga_scheduler_v.Ga.Seeder.{generate_initial_population}
use ga_scheduler_v.Ga.Mutation.{mutate_chromosome}
use ga_scheduler_v.Ga.Repair.Whole.{repair_chromosome}

abbrev pub stagnation_window : ℕ
stagnation_window = 100

-- One over STAGNATION_THRESHOLD.
abbrev pub one_over_threshold : ℕ
one_over_threshold = 1000000

abbrev pub checkpoint_interval : ℕ
checkpoint_interval = 10

pub data CrossoverType : Type 0 where
  single_point_type uniform_type pmx_type : CrossoverType

-- The two weights count fractions of one over `weight_unit`, as in Ga.Evaluation.
pub record GaConfig : Type 0 where
  pub population_size : ℕ
  pub generations : ℕ
  pub elitism_count : ℕ
  pub tournament_size : ℕ
  pub crossover_type : CrossoverType
  pub weight_unit : ℕ
  pub hard_penalty_weight : ℕ
  pub soft_penalty_weight : ℕ

-- The data that runGA takes.
pub record GaInput : Type 0 where
  pub candidates : List PreGaCandidate
  pub lecturer_structural_map : Map ℕ Bool
  pub lecturer_preference_map : Map ℕ (Set ℕ)
  pub lecturer_max_sks_map : Map ℕ ℕ
  pub competency_eligibility_map : Option (Map ℕ (Set ℕ))
  pub all_time_slots : Option (List TimeSlot)
  pub room_by_id : Option (Map ℕ Room)

pub record Mean : Type 0 where
  pub of : List Fitness

pub record GenerationSnapshot : Type 0 where
  pub generation : ℕ
  pub best_fitness : Fitness
  pub avg_fitness : Mean
  pub hard_violations : ℕ
  pub soft_penalty : ℕ
  pub competency_mismatch : ℕ
  pub structural_penalty : ℕ
  pub preference_penalty : ℕ
  pub load_penalty : ℕ
  pub capacity_shortfall_penalty : ℕ
  pub fragmentation_penalty : ℕ

-- What cloneChromosome copies of a session and of a gene: the lecturers are not copied.
pub record ClonedSession : Type 0 where
  pub room_id : ℕ
  pub time_slot_ids : List ℕ

pub record ClonedGene : Type 0 where
  pub kind : GeneKind
  pub offering_id : ℕ
  pub sessions : List ClonedSession

abbrev pub clone_chromosome : Chromosome → List ClonedGene
clone_chromosome = map (λ (g : Gene). record {
  kind = g.kind;
  offering_id = g.offering_id;
  sessions =
      map (λ (s : GeneSession). record { room_id = s.room_id; time_slot_ids = s.time_slot_ids })
        g.sessions;
})

pub record GaCheckpointSnapshot : Type 0 where
  pub generation : ℕ
  pub best_chromosome : List ClonedGene
  pub best_fitness : Fitness
  pub hard_violations : ℕ
  pub population : List (List ClonedGene)
  pub history : List Fitness
  pub avg_history : List Mean

-- The variables of the loop. `overall_best` stands for the four that start with `overall`, and `none`
-- is minus infinity.
pub record GaState : Type 0 where
  pub population : List Chromosome
  pub history : List Fitness
  pub avg_history : List Mean
  pub overall_best : Option EvaluatedChromosome
  pub stagnation_counter : ℕ
  pub last_recorded_best_fitness : Option Fitness
  pub stagnated_early : Bool
  pub generations_run : ℕ
  pub snapshots : List GenerationSnapshot
  pub checkpoints : List GaCheckpointSnapshot

-- `best.fitness - lastRecordedBestFitness > STAGNATION_THRESHOLD`, where a fitness of cost `c` is the
-- fraction unit / (unit + c).
unfoldable pub improves : ℕ → Option Fitness → Fitness → Bool
improves unit none new = true
improves unit (some (of_cost old)) (of_cost new) =
    ltb ((unit + new) * (unit + old)) (one_over_threshold * (unit * (old - new)))

-- `if (best.fitness > overallBestFitness)`
unfoldable pub track_best : EvaluatedChromosome → Option EvaluatedChromosome → EvaluatedChromosome
track_best best none = best
track_best best (some overall) = if greater best.fitness overall.fitness then best else overall

abbrev pub rank : List EvaluatedChromosome → List EvaluatedChromosome
rank = sort (λ (a b : EvaluatedChromosome). not (greater b.fitness a.fitness))

abbrev pub mean : List EvaluatedChromosome → Mean
mean evaluated = record { of = map (λ (e : EvaluatedChromosome). e.fitness) evaluated }

abbrev pub snapshot : ℕ → List EvaluatedChromosome → EvaluatedChromosome → GenerationSnapshot
snapshot gen evaluated best = record {
  generation = suc gen;
  best_fitness = best.fitness;
  avg_fitness = mean evaluated;
  hard_violations = best.hard_violations;
  soft_penalty = best.soft_penalty;
  competency_mismatch = best.competency_mismatch;
  structural_penalty = best.structural_penalty;
  preference_penalty = best.preference_penalty;
  load_penalty = best.load_penalty;
  capacity_shortfall_penalty = best.capacity_shortfall_penalty;
  fragmentation_penalty = best.fragmentation_penalty;
}

-- The histories, the best of all and the hook onGeneration.
unfoldable pub record_generation :
    ℕ → List EvaluatedChromosome → EvaluatedChromosome → GaState → GaState
unfolding track_best
record_generation gen evaluated best s = record s {
  history = s.history ++ best.fitness ∷ [];
  avg_history = s.avg_history ++ mean evaluated ∷ [];
  overall_best = some (track_best best s.overall_best);
  generations_run = suc gen;
  snapshots = s.snapshots ++ snapshot gen evaluated best ∷ [];
}

-- The hook onCheckpoint, with the best of all, which is there by then.
unfoldable pub checkpoint : ℕ → EvaluatedChromosome → GaState → GaState
checkpoint gen best s =
    if suc gen % checkpoint_interval == 0
    then record s {
      checkpoints =
          s.checkpoints
          ++ record {
            generation = suc gen;
            best_chromosome = clone_chromosome best.chromosome;
            best_fitness = best.fitness;
            hard_violations = best.hard_violations;
            population = map clone_chromosome s.population;
            history = s.history;
            avg_history = s.avg_history;
          }
            ∷ [];
    }
    else s

unfoldable pub detect_stagnation : ℕ → EvaluatedChromosome → GaState → GaState
unfolding improves
detect_stagnation unit best s =
    if improves unit s.last_recorded_best_fitness best.fitness
    then record s { stagnation_counter = 0; last_recorded_best_fitness = some best.fitness }
    else record s { stagnation_counter = suc s.stagnation_counter }

-- What getCrossoverFn's function draws for two parents, the first with `len` genes.
unfoldable pub draw_crossover : Draws → CrossoverType → ℕ → Crossover
draw_crossover d single_point_type len = single_point (number (part 0 d) % len)
draw_crossover d uniform_type len = uniform (λ i. coin (part i d))
draw_crossover d pmx_type len = pmx (number (part 0 d) % len) (number (part 1 d) % len)

-- How a generation ends.
pub data Turn : Type 0 where
  stop go_on : GaState → Turn

abbrev pub both : Option Chromosome → Option Chromosome → Option (Chromosome × Chromosome)
both none b = none
both (some a) none = none
both (some a) (some b) = some (a, b)

abbrev pub initial_state : List Chromosome → GaState
initial_state population = record {
  population = population;
  history = [];
  avg_history = [];
  overall_best = none;
  stagnation_counter = 0;
  last_recorded_best_fitness = none;
  stagnated_early = false;
  generations_run = 0;
  snapshots = [];
  checkpoints = [];
}
