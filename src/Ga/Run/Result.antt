-- ===== src/Ga/Run/Result.antt =====
-- ga/runGA.ts: the result of a run.
use mathlib.Core.List.Memᴰ
use ga_scheduler_v.Base.{
  ℕ, zero, suc, ◌≤◌, ◌<◌, ◌≡◌, refl, sym, subst, ap, ◌∙◌, inl, inr, Bool, false, some, Option-cases,
  List, [], ◌∷◌, Memᴰ, length, All, All_get, Distinct, nat_eq, arith,
}
use ga_scheduler_v.Types.{Chromosome}
use ga_scheduler_v.Ga.Draws.{Draws, part}
use ga_scheduler_v.Ga.Evaluation.{EvaluatedChromosome}
use ga_scheduler_v.Ga.Valid.{IsCandidate}
use ga_scheduler_v.Ga.Seeder.{population_from, generate_initial_population}
use ga_scheduler_v.Ga.Seeder.Valid.{create_random_chromosome-IsChromosome}
use ga_scheduler_v.Ga.Schedule.{IsSchedule, offering_of_candidate, IsChromosome-IsSchedule}
use ga_scheduler_v.Ga.Run.{GaInput, GaConfig, GaState, initial_state}
use ga_scheduler_v.Ga.Run.Generation.{slot_lookup, evaluate, repair_all, run_ga}
use ga_scheduler_v.Ga.Run.Ranking.{NotOver}
use ga_scheduler_v.Ga.Run.Breeding.{Good, known, repair-Good}
use ga_scheduler_v.Ga.Run.State.{Rising, Tops, IsOverall, IsRun, IsLive}
use ga_scheduler_v.Ga.Run.Loop.{Returns, run_from-Returns}

-- What a run needs: valid candidates of pairwise different offerings, and a population and a
-- tournament of at least one.
pub record IsRunnable (input : GaInput) (config : GaConfig) : Type 0 where
  pub candidates : All IsCandidate input.candidates
  pub apart : Distinct offering_of_candidate input.candidates
  pub crowd : 0 < config.population_size
  pub rounds : 0 < config.tournament_size

module _ (input : GaInput) (config : GaConfig) (fit : IsRunnable input config) where
  population_from-Good :
      (d : Draws) (i left : ℕ)
      → (population : List Chromosome) × (population_from d i left input.candidates
            (slot_lookup input config)
          ≡ some population)
        × (length population ≡ left)
        × All (Good input config) population
  unfolding population_from
  population_from-Good d i zero = ([], refl, refl, tt)
  population_from-Good d i (suc left) =
      let (ch, e, fine) =
        create_random_chromosome-IsChromosome (part i d) input.candidates (slot_lookup input config)
          fit.candidates (known input config) in
      let (rest, es, n, all) = population_from-Good d (suc i) left in
      (
        ch ∷ rest,
        rw (population_from, e, es) refl,
        ap suc n,
        (IsChromosome-IsSchedule input.candidates ch fit.apart fine, all),
      )

  repair_all-Good :
      (d : Draws) (i : ℕ) (population : List Chromosome)
      → All (Good input config) population
      → (length (repair_all input config d i population) ≡ length population)
        × All (Good input config) (repair_all input config d i population)
  repair_all-Good d i [] all = (refl, tt)
  repair_all-Good d i (ch ∷ rest) all =
      let (n, more) = repair_all-Good d (suc i) rest all.1 in
      (ap suc n, (repair-Good input config (part i d) ch all.0, more))

  module _ (should_cancel : ℕ → Bool) where
    -- The loop that a run comes down to.
    started :
        (d : Draws)
        → (s : GaState) × Returns input config fit.candidates fit.rounds fit.crowd should_cancel
            (part 2 d)
            0
            config.generations
            s
          × ((r : Returns input config fit.candidates fit.rounds fit.crowd should_cancel
                (part 2 d)
                0
                config.generations
                s)
              → run_ga input config should_cancel d ≡ some r.state)
    unfolding run_ga generate_initial_population
    started d =
        let (seeds, e, n, all) = population_from-Good (part 0 d) 0 config.population_size in
        let population = repair_all input config (part 1 d) 0 seeds in
        let (m, fine) = repair_all-Good (part 1 d) 0 seeds all in
        let s = initial_state population in
        let r0 : IsRun input config 0 s = record {
          ran = refl;
          told = refl;
          overall = refl;
          rising = λ some_elite. tt;
        } in
        let live : IsLive input config s = record {
          good = All_get (Good input config) population fine;
          sized = m ∙ n;
          carried = λ some_elite f k. absurd (Memᴰ.not-nil k);
        } in
        (
          s,
          run_from-Returns input config fit.candidates fit.rounds fit.crowd should_cancel (part 2 d)
              0 config.generations s r0 live,
          λ r. rw (run_ga, e) r.returns,
        )

    -- The end of a run.
    record Ended (d : Draws) : Type 0 where
      state : GaState
      returns : run_ga input config should_cancel d ≡ some state
      last : ℕ
      ended : last ≤ config.generations
      advanced : 0 < config.generations → should_cancel 0 ≡ false → 0 < last
      run : IsRun input config last state

    run_ga-Ended : (d : Draws) → Ended d
    run_ga-Ended d =
        let (s, r, e) = started d in
        record {
          state = r.state;
          returns = e r;
          last = r.last;
          ended = (let bound = r.ended in omega arith);
          advanced = r.advanced;
          run = r.run;
        }

    ended-state :
        (d : Draws) (s : GaState)
        → run_ga input config should_cancel d ≡ some s
        → (run_ga-Ended d).state ≡ s
    ended-state d s e = let same = sym (run_ga-Ended d).returns ∙ e in cc

    -- Whatever is drawn and whenever the run is cancelled, runGA on valid candidates of different
    -- offerings, with a population and a tournament of at least one, throws no error: it returns after
    -- at most `generations` generations, with one entry of the history for each.
    pub run_ga-Returns :
        (d : Draws)
        → (s : GaState) × (run_ga input config should_cancel d ≡ some s)
          × (s.generations_run ≤ config.generations)
          × (length s.history ≡ s.generations_run)
    run_ga-Returns d =
        let r = run_ga-Ended d in
        let ran = r.run.ran in
        let told = r.run.told in
        let bound = r.ended in (r.state, r.returns, omega arith, omega arith)

    best-Tops :
        (d : Draws) (s : GaState) (best : EvaluatedChromosome)
        → run_ga input config should_cancel d ≡ some s
        → s.overall_best ≡ some best
        → Tops input config s.history best
    best-Tops d s best e b =
        let overall =
          subst (λ (t : GaState). IsOverall input config t.history t.overall_best)
            (ended-state d s e) (run_ga-Ended d).run.overall in
        subst (IsOverall input config s.history) b overall

    -- The chromosome that runGA returns is a schedule: it has the offerings of the candidates at their
    -- loci, and for each the kind, the number of sessions, and allowed rooms, slots and lecturers. The
    -- candidates are valid ones of different offerings, and the population and the tournament are not
    -- empty.
    pub run_ga-IsSchedule :
        (d : Draws) (s : GaState) (best : EvaluatedChromosome)
        → run_ga input config should_cancel d ≡ some s
        → s.overall_best ≡ some best
        → IsSchedule input.candidates best.chromosome
    run_ga-IsSchedule d s best e b = (best-Tops d s best e b).good

    -- The best of a run on valid candidates is what the evaluation of its chromosome gives; its fitness
    -- is an entry of the history, and no entry is above it.
    pub run_ga-best :
        (d : Draws) (s : GaState) (best : EvaluatedChromosome)
        → run_ga input config should_cancel d ≡ some s
        → s.overall_best ≡ some best
        → (best ≡ evaluate input config best.chromosome)
          × Memᴰ best.fitness s.history
          × All (λ f. NotOver f best.fitness) s.history
    run_ga-best d s best e b =
        let tops = best-Tops d s best e b in (tops.scored, tops.reached, tops.over)

    -- With an elite of at least one, the best fitness of a generation of a run on valid candidates is
    -- never below that of an earlier one.
    pub run_ga-Rising :
        (d : Draws) (s : GaState)
        → 0 < config.elitism_count
        → run_ga input config should_cancel d ≡ some s
        → Rising s.history
    run_ga-Rising d s some_elite e =
        subst (λ (t : GaState). Rising t.history) (ended-state d s e)
          ((run_ga-Ended d).run.rising some_elite)

    -- A run on valid candidates that has a generation to go and is not cancelled before it has a best
    -- chromosome at its end.
    pub run_ga_finds :
        (d : Draws) (s : GaState)
        → 0 < config.generations
        → should_cancel 0 ≡ false
        → run_ga input config should_cancel d ≡ some s
        → (best : EvaluatedChromosome) × (s.overall_best ≡ some best)
    run_ga_finds d s some_left wanted e = elim (Option-cases s.overall_best) [
      | inr found ↦ found
      | inl missing ↦
          let r = run_ga-Ended d in
          let same = ended-state d s e in
          let overall : IsOverall input config s.history s.overall_best =
            subst (λ (t : GaState). IsOverall input config t.history t.overall_best) same
              r.run.overall in
          let empty : s.history ≡ [] = subst (IsOverall input config s.history) missing overall in
          let told : length s.history ≡ r.last =
            subst (λ (t : GaState). length t.history ≡ r.last) same r.run.told in
          let zero_long : length s.history ≡ 0 = ap length empty in
          let some_run = r.advanced some_left wanted in let never : ⊥ = omega arith in absurd never
    ]
