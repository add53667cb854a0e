-- ===== src/Ga/Run/Breeding.antt =====
-- ga/runGA.ts: the next population. With valid candidates no step of it throws.
use mathlib.Core.List.Memᴰ
use ga_scheduler_v.Base.{
  ℕ, zero, suc, ◌+◌, ◌≤◌, ◌<◌, ◌≡◌, refl, subst, ap, ◌∙◌, inl, inr, true, Bool-cases, Option, none,
  some, List, [], ◌∷◌, ◌++◌, map, take, Memᴰ, length, length-append, length-take, All, All_get,
  All-append, All-tabulate, Memᴰ-take, append_assoc, append-nil, leb, nat_eq, arith,
}
use ga_scheduler_v.Base.Map
use ga_scheduler_v.Types.{TimeSlot, Chromosome}
use ga_scheduler_v.Slots.{build_slot_lookup}
use ga_scheduler_v.Ga.Draws.{Draws, part, stream}
use ga_scheduler_v.Ga.Evaluation.{EvaluatedChromosome}
use ga_scheduler_v.Ga.Selection.{tournament_selection-Wins}
use ga_scheduler_v.Ga.Valid.{IsCandidate, IsLookup}
use ga_scheduler_v.Ga.Schedule.{IsSchedule, mutate_chromosome-IsSchedule}
use ga_scheduler_v.Ga.Schedule.Crossed.{cross-IsSchedule}
use ga_scheduler_v.Ga.Schedule.Repaired.{repair_chromosome-IsSchedule}
use ga_scheduler_v.Ga.Run.{GaInput, GaConfig, draw_crossover}
use ga_scheduler_v.Ga.Run.Empty.{length-loci, draw_crossover-IsDrawn}
use ga_scheduler_v.Ga.Run.Generation.{
  slot_lookup, repair, grow, mate, breed, fill_population, elite, next_population,
}

-- The lookup that buildSlotLookup makes finds each slot under its own id.
lookup-IsLookup :
    (slots : Option (List TimeSlot))
    → IsLookup (elim slots [ none ↦ none | some ts ↦ some (build_slot_lookup ts) ])
unfolding build_slot_lookup
lookup-IsLookup none = tt
lookup-IsLookup (some slots) = λ i t h.
    let (k, m, e) =
      Memᴰ.of_map (λ (k : TimeSlot). (k.id, k)) slots
        (Map.mem_of_get-from_list (map (λ (k : TimeSlot). (k.id, k)) slots) i t h) in
    cc

module _ (input : GaInput) (config : GaConfig) where
  abbrev pub Good : Chromosome → Type 0
  Good = IsSchedule input.candidates

  pub known : IsLookup (slot_lookup input config)
  known = lookup-IsLookup input.all_time_slots

  pub repair-Good : (d : Draws) (ch : Chromosome) → Good ch → Good (repair input config d ch)
  repair-Good d ch good =
      repair_chromosome-IsSchedule input.candidates (slot_lookup input config) known
        input.room_by_id d ch good

  module _ (ok : All IsCandidate input.candidates) where
    grow-Good :
        (d : Draws) (child : Chromosome)
        → Good child
        → (ch : Chromosome) × (grow input config d child ≡ some ch) × Good ch
    unfolding grow
    grow-Good d child good =
        let (mutated, e, fine) =
          mutate_chromosome-IsSchedule input.candidates ok (slot_lookup input config) known
            (part 0 d) child good in
        (
          repair input config (part 1 d) mutated,
          rw (grow, e) refl,
          repair-Good (part 1 d) mutated fine,
        )

    -- The numbers drawn are loci, where there are candidates.
    mate-Good :
        (d : Draws) (a b : EvaluatedChromosome)
        → 0 < length input.candidates
        → Good a.chromosome
        → Good b.chromosome
        → (child1 child2 : Chromosome) × (mate input config d (some a) (some b)
            ≡ some (child1, child2))
          × Good child1
          × Good child2
    unfolding mate
    mate-Good d a b loci fine_a fine_b =
        let kind = draw_crossover (part 0 d) config.crossover_type (length a.chromosome) in
        let drawn =
          draw_crossover-IsDrawn (part 0 d) config.crossover_type (length a.chromosome)
            (let same = length-loci input a.chromosome fine_a in omega arith) in
        let ((first, second), e, fine1, fine2) =
          cross-IsSchedule input.candidates kind a.chromosome b.chromosome drawn fine_a fine_b in
        let (child1, e1, good1) = grow-Good (part 1 d) first fine1 in
        let (child2, e2, good2) = grow-Good (part 2 d) second fine2 in
        (child1, child2, rw (mate, e, e1, e2) refl, good1, good2)

    module _ (rounds : 0 < config.tournament_size) (evaluated : List EvaluatedChromosome) where
      module _ (loci : 0 < length input.candidates) (some_one : 0 < length evaluated)
          (good : (e : EvaluatedChromosome) → Memᴰ e evaluated → Good e.chromosome) where
        breed-Good :
            (d : Draws)
            → (child1 child2 : Chromosome) × (breed input config d evaluated
                ≡ some (child1, child2))
              × Good child1
              × Good child2
        unfolding breed
        breed-Good d =
            let (a, ea, wa) =
              tournament_selection-Wins (stream (part 1 d)) evaluated config.tournament_size rounds
                some_one in
            let (b, eb, wb) =
              tournament_selection-Wins (stream (part 2 d)) evaluated config.tournament_size rounds
                some_one in
            let (child1, child2, e, fine1, fine2) =
              mate-Good (part 0 d) a b loci (good a wa.listed) (good b wb.listed) in
            (child1, child2, rw (breed, ea, eb) e, fine1, fine2)

        -- The rounds add to the population until it is large enough, on a unit of fuel for each
        -- chromosome that is missing.
        fill_population-Good :
            (d : Draws) (i fuel : ℕ) (population : List Chromosome)
            → config.population_size ≤ length population + fuel
            → All Good population
            → (more : List Chromosome) × (fill_population input config d i fuel evaluated population
                ≡ some (population ++ more))
              × (config.population_size ≤ length (population ++ more))
              × All Good (population ++ more)
        unfolding fill_population
        fill_population-Good d i zero population enough all = (
          [],
          rw (fill_population, append-nil population)
              (let full : leb config.population_size (length population) ≡ true = ground arith in
                rw full refl),
          omega (arith, length-append population []),
          rw (append-nil population) all,
        )
        fill_population-Good d i (suc fuel) population enough all =
            elim (Bool-cases (leb config.population_size (length population))) [
              | inl full ↦ (
                [],
                rw (fill_population, full, append-nil population) refl,
                (let large : config.population_size ≤ length population = ground arith in
                    omega (arith, length-append population [])),
                rw (append-nil population) all,
              )
              | inr short ↦
                  let (child1, child2, e, fine1, fine2) = breed-Good (part i d) in
                  let pair = child1 ∷ child2 ∷ [] in
                  let (more, filled, large, fine) =
                    fill_population-Good d (suc i) fuel (population ++ pair)
                      (omega (arith, length-append population pair))
                      (All-append Good population pair all (fine1, (fine2, tt))) in
                  let same = append_assoc population pair more in
                  (
                    pair ++ more,
                    rw (fill_population, short, e) (filled ∙ ap (λ p. some p) same),
                    subst (λ p. config.population_size ≤ length p) same large,
                    subst (λ p. All Good p) same fine,
                  )
            ]

        elite-Good : All Good (elite input config evaluated)
        elite-Good =
            let chromosome_of : EvaluatedChromosome → Chromosome = λ e. e.chromosome in
            All-tabulate Good (elite input config evaluated) (λ ch m.
              let (e, n, same) =
                Memᴰ.of_map chromosome_of (take config.elitism_count evaluated) m in
              subst Good same (good e (Memᴰ-take config.elitism_count evaluated n)))

        -- The next population is as large as the configuration says, and with an elite the chromosomes
        -- of the elite start it.
        pub next_population-Good :
            (d : Draws)
            → (more : List Chromosome) × (next_population input config d evaluated
                ≡ some (take config.population_size (elite input config evaluated ++ more)))
              × (length (take config.population_size (elite input config evaluated ++ more))
                  ≡ config.population_size)
              × All Good (take config.population_size (elite input config evaluated ++ more))
        unfolding next_population
        next_population-Good d =
            let size = config.population_size in
            let (more, e, large, fine) =
              fill_population-Good d 0 size (elite input config evaluated) (omega arith)
                elite-Good in
            let all = elite input config evaluated ++ more in
            (
              more,
              rw (next_population, e) refl,
              omega (arith, length-take size all),
              All-tabulate Good (take size all)
                  (λ ch m. All_get Good all fine ch (Memᴰ-take size all m)),
            )

-- With an elite, the first of the evaluated chromosomes is in the next population.
pub elite-first :
    (input : GaInput) (config : GaConfig) (best : EvaluatedChromosome)
    (rest : List EvaluatedChromosome) (more : List Chromosome)
    → 0 < config.elitism_count
    → 0 < config.population_size
    → Memᴰ best.chromosome (take config.population_size (elite input config (best ∷ rest) ++ more))
elite-first input config best rest more k n = leads config.elitism_count config.population_size k n
  where
    chromosome_of : EvaluatedChromosome → Chromosome
    chromosome_of e = e.chromosome

    leads :
        (k n : ℕ)
        → 0 < k
        → 0 < n
        → Memᴰ best.chromosome (take n (map chromosome_of (take k (best ∷ rest)) ++ more))
    leads zero n hk hn = let never : ⊥ = omega arith in absurd never
    leads (suc k) zero hk hn = let never : ⊥ = omega arith in absurd never
    leads (suc k) (suc n) hk hn = Memᴰ.head refl
