-- ===== src/Ga/Run/Generation.antt =====
-- ga/runGA.ts: the next population, a generation, the loop and the run.
use ga_scheduler_v.Base.{
  ℕ, zero, suc, Bool, true, ◌&&◌, Option, none, some, List, [], ◌∷◌, ◌++◌, map, take, length, leb,
  ltb, if◌then◌else◌, ◌==◌, nat_eq,
}
use ga_scheduler_v.Types.{Chromosome}
use ga_scheduler_v.Slots.{SlotLookup, build_slot_lookup}
use ga_scheduler_v.Ga.Draws.{Draws, part, stream}
use ga_scheduler_v.Ga.Evaluation.{EvaluatedChromosome, Surroundings, evaluate_fitness}
use ga_scheduler_v.Ga.Selection.{tournament_selection}
use ga_scheduler_v.Ga.Crossover.{cross}
use ga_scheduler_v.Ga.Seeder.{generate_initial_population}
use ga_scheduler_v.Ga.Mutation.{mutate_chromosome}
use ga_scheduler_v.Ga.Repair.Whole.{repair_chromosome}
use ga_scheduler_v.Ga.Run.{
  stagnation_window, GaConfig, GaInput, GaState, track_best, rank, record_generation, checkpoint,
  detect_stagnation, draw_crossover, Turn, stop, go_on, both, initial_state,
}

module _ (input : GaInput) (config : GaConfig) where
  abbrev pub slot_lookup : Option SlotLookup
  slot_lookup = elim input.all_time_slots [
    | none ↦ none
    | some slots ↦ some (build_slot_lookup slots)
  ]

  abbrev pub surroundings : Surroundings
  surroundings = record {
    lecturer_structural_map = input.lecturer_structural_map;
    lecturer_preference_map = input.lecturer_preference_map;
    lecturer_max_sks_map = input.lecturer_max_sks_map;
    competency_eligibility_map = input.competency_eligibility_map;
    room_by_id = input.room_by_id;
    time_slot_by_id = slot_lookup;
  }

  abbrev pub evaluate : Chromosome → EvaluatedChromosome
  evaluate ch = evaluate_fitness ch input.candidates surroundings (record {
    weight_unit = config.weight_unit;
    hard_penalty_weight = config.hard_penalty_weight;
    soft_penalty_weight = config.soft_penalty_weight;
  })

  abbrev pub repair : Draws → Chromosome → Chromosome
  repair d ch = repair_chromosome d input.candidates slot_lookup input.room_by_id ch

  -- A child, mutated and then repaired.
  unfoldable pub grow : Draws → Chromosome → Option Chromosome
  grow d child = elim (mutate_chromosome (part 0 d) input.candidates slot_lookup child) [
    | none ↦ none
    | some mutated ↦ some (repair (part 1 d) mutated)
  ]

  unfoldable pub mate :
      Draws
      → Option EvaluatedChromosome
      → Option EvaluatedChromosome
      → Option (Chromosome × Chromosome)
  unfolding draw_crossover grow
  mate d none parent2 = none
  mate d (some parent1) none = none
  mate d (some parent1) (some parent2) =
      elim (cross (draw_crossover (part 0 d) config.crossover_type (length parent1.chromosome))
        parent1.chromosome parent2.chromosome) [
          | none ↦ none
          | some (child1, child2) ↦ both (grow (part 1 d) child1) (grow (part 2 d) child2)
        ]

  -- One round of the loop that fills the population.
  unfoldable pub breed : Draws → List EvaluatedChromosome → Option (Chromosome × Chromosome)
  unfolding mate
  breed d evaluated =
      mate (part 0 d) (tournament_selection (stream (part 1 d)) evaluated config.tournament_size)
        (tournament_selection (stream (part 2 d)) evaluated config.tournament_size)

  -- The loop from round `i` on. On fuel; each round adds two chromosomes.
  unfoldable pub fill_population :
      Draws → ℕ → ℕ → List EvaluatedChromosome → List Chromosome → Option (List Chromosome)
  unfolding breed
  fill_population d i zero evaluated population =
      if leb config.population_size (length population) then some population else none
  fill_population d i (suc fuel) evaluated population =
      if leb config.population_size (length population)
      then some population
      else elim (breed (part i d) evaluated) [
        | none ↦ none
        | some (child1, child2) ↦
            fill_population d (suc i) fuel evaluated (population ++ child1 ∷ child2 ∷ [])
      ]

  abbrev pub elite : List EvaluatedChromosome → List Chromosome
  elite evaluated =
      map (λ (e : EvaluatedChromosome). e.chromosome) (take config.elitism_count evaluated)

  unfoldable pub next_population : Draws → List EvaluatedChromosome → Option (List Chromosome)
  unfolding fill_population
  next_population d evaluated =
      elim (fill_population d 0 config.population_size evaluated (elite evaluated)) [
        | none ↦ none
        | some population ↦ some (take config.population_size population)
      ]

  -- One generation, for the evaluated chromosomes in order.
  unfoldable pub turn : Draws → ℕ → GaState → List EvaluatedChromosome → Option Turn
  unfolding record_generation checkpoint detect_stagnation next_population
  turn d gen s [] = none
  turn d gen s (best ∷ rest) =
      let seen = record_generation gen (best ∷ rest) best s in
      let s' =
        detect_stagnation config.weight_unit best
          (checkpoint gen (track_best best s.overall_best) seen) in
      if leb stagnation_window s'.stagnation_counter && ltb 0 best.hard_violations
      then some (stop (record s' { stagnated_early = true }))
      else if best.hard_violations == 0 && best.soft_penalty == 0
      then some (stop s')
      else elim (next_population d (best ∷ rest)) [
        | none ↦ none
        | some population ↦ some (go_on (record s' { population = population }))
      ]

  -- The repair of each individual of the initial population.
  abbrev pub repair_all : Draws → ℕ → List Chromosome → List Chromosome
  repair_all d i [] = []
  repair_all d i (ch ∷ rest) = repair (part i d) ch ∷ repair_all d (suc i) rest

  module _ (should_cancel : ℕ → Bool) where
    -- The loop, with `left` generations to go from generation `gen` on.
    unfoldable pub run_from : Draws → ℕ → ℕ → GaState → Option GaState
    unfolding turn
    run_from d gen zero s = some s
    run_from d gen (suc left) s =
        if should_cancel gen
        then some s
        else elim (turn (part gen d) gen s (rank (map evaluate s.population))) [
          | none ↦ none
          | some (stop s') ↦ some s'
          | some (go_on s') ↦ run_from d (suc gen) left s'
        ]

    -- runGA. The result is the state at the end of the loop.
    unfoldable pub run_ga : Draws → Option GaState
    unfolding run_from
    run_ga d =
        elim (generate_initial_population (part 0 d) input.candidates config.population_size
          slot_lookup) [
            | none ↦ none
            | some population ↦
                run_from (part 2 d) 0 config.generations
                  (initial_state (repair_all (part 1 d) 0 population))
          ]
