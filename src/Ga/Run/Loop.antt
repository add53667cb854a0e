-- ===== src/Ga/Run/Loop.antt =====
-- ga/runGA.ts: a generation keeps what holds of the variables, and the loop returns.
use ga_scheduler_v.Base.{
  ℕ, zero, suc, ◌+◌, ◌≤◌, ◌<◌, ◌≡◌, refl, sym, subst, inl, inr, Bool, true, false, ◌&&◌, Bool-cases,
  some, List, [], ◌∷◌, ◌++◌, map, take, Memᴰ, Memᴰ-concat, length-append, All, All_get,
  All-tabulate, leb, ltb, ◌==◌, nat_eq, arith,
}
use ga_scheduler_v.Ga.Draws.{Draws, part}
use ga_scheduler_v.Ga.Evaluation.{Fitness, EvaluatedChromosome}
use ga_scheduler_v.Ga.Valid.{IsCandidate}
use ga_scheduler_v.Ga.Run.{
  GaInput, GaConfig, GaState, Turn, stop, go_on, stagnation_window, track_best, rank,
  record_generation, checkpoint, detect_stagnation,
}
use ga_scheduler_v.Ga.Run.Generation.{evaluate, elite, turn, run_from}
use ga_scheduler_v.Ga.Run.Ranking.{
  NotOver, NotOver-refl, NotOver-trans, Led-IsBest, IsRanked, rank-IsRanked,
}
use ga_scheduler_v.Ga.Run.Empty.{some_candidate}
use ga_scheduler_v.Ga.Run.Breeding.{Good, next_population-Good, elite-first}
use ga_scheduler_v.Ga.Run.State.{
  Rising-concat, IsRun, IsLive, Turned, checkpoint-IsRun, detect_stagnation-IsRun, track_best-Tops,
  history-kept,
}

module _ (input : GaInput) (config : GaConfig) where
  module _ (ok : All IsCandidate input.candidates) (rounds : 0 < config.tournament_size)
      (crowd : 0 < config.population_size) where
    module _ (gen : ℕ) (s : GaState) (r : IsRun input config gen s)
        (live : IsLive input config s) where
      -- With an elite, no value of the history is above the best of the generation.
      carried-over :
          (best : EvaluatedChromosome) (rest : List EvaluatedChromosome)
          → IsRanked input config s.population (best ∷ rest)
          → 0 < config.elitism_count
          → (f : Fitness) → Memᴰ f s.history
          → NotOver f best.fitness
      carried-over best rest ranked some_elite f m =
          let (ch, n, above) = live.carried some_elite f m in
          NotOver-trans f (evaluate input config ch).fitness best.fitness above
            ((Led-IsBest best rest ranked.led).first (evaluate input config ch) (ranked.all ch n))

      record_generation-IsRun :
          (best : EvaluatedChromosome) (rest : List EvaluatedChromosome)
          → IsRanked input config s.population (best ∷ rest)
          → IsRun input config (suc gen) (record_generation gen (best ∷ rest) best s)
      unfolding record_generation
      record_generation-IsRun best rest ranked =
          let (listed, scored) = ranked.from best (Memᴰ.head refl) in
          let told = r.told in
          record {
            ran = refl;
            told = omega (arith, length-append s.history (best.fitness ∷ []));
            overall =
                track_best-Tops input config s.history best s.overall_best r.overall
                  (live.good best.chromosome listed) scored;
            rising = λ some_elite. Rising-concat s.history best.fitness (r.rising some_elite) (
                All-tabulate (λ f. NotOver f best.fitness) s.history
                  (carried-over best rest ranked some_elite));
          }

      seen-over :
          (best : EvaluatedChromosome) (rest : List EvaluatedChromosome)
          → IsRanked input config s.population (best ∷ rest)
          → 0 < config.elitism_count
          → (f : Fitness) → Memᴰ f (record_generation gen (best ∷ rest) best s).history
          → NotOver f best.fitness
      unfolding record_generation
      seen-over best rest ranked some_elite f m =
          elim ((Memᴰ-concat f best.fitness s.history).0 m) [
            | inl old ↦ carried-over best rest ranked some_elite f old
            | inr same ↦ subst (λ k. NotOver k best.fitness) (sym same) (NotOver-refl best.fitness)
          ]

      turn-Turned :
          (d : Draws) (ranked : List EvaluatedChromosome)
          → IsRanked input config s.population ranked
          → (t : Turn) × (turn input config d gen s ranked ≡ some t)
            × Turned input config (suc gen) t
      unfolding turn
      turn-Turned d [] ranked =
          let none_there = ranked.sized in
          let full = live.sized in let never : ⊥ = omega arith in absurd never
      turn-Turned d (best ∷ rest) ranked =
          let seen = record_generation gen (best ∷ rest) best s in
          let s' =
            detect_stagnation config.weight_unit best
              (checkpoint gen (track_best best s.overall_best) seen) in
          let r' : IsRun input config (suc gen) s' =
            detect_stagnation-IsRun input config (suc gen) best
              (checkpoint gen (track_best best s.overall_best) seen)
              (checkpoint-IsRun input config gen (suc gen) (track_best best s.overall_best) seen
                (record_generation-IsRun best rest ranked)) in
          elim (Bool-cases
            (leb stagnation_window s'.stagnation_counter && ltb 0 best.hard_violations)) [
              | inl stagnant ↦ (
                stop (record s' { stagnated_early = true }),
                rw (turn, stagnant) refl,
                record { ran = r'.ran; told = r'.told; overall = r'.overall; rising = r'.rising },
              )
              | inr lively ↦
                  elim (Bool-cases (best.hard_violations == 0 && best.soft_penalty == 0)) [
                    | inl perfect ↦ (stop s', rw (turn, lively, perfect) refl, r')
                    | inr flawed ↦
                        let (listed, scored) = ranked.from best (Memᴰ.head refl) in
                        let loci =
                          some_candidate input config best (live.good best.chromosome listed) scored
                            flawed in
                        let (more, e, sized, fine) =
                          next_population-Good input config ok rounds (best ∷ rest) loci
                            (omega arith) (λ k m. live.good k.chromosome (ranked.from k m).0) d in
                        let next =
                          take config.population_size (elite input config (best ∷ rest) ++ more) in
                        let s'' : GaState = record s' { population = next } in
                        let kept =
                          history-kept input config gen (track_best best s.overall_best) best
                            seen in
                        (
                          go_on s'',
                          rw (turn, lively, flawed, e) refl,
                          (
                            record {
                              ran = r'.ran;
                              told = r'.told;
                              overall = r'.overall;
                              rising = r'.rising;
                            },
                            record {
                              good = All_get (Good input config) next fine;
                              sized = sized;
                              carried = λ some_elite f m. (
                                best.chromosome,
                                elite-first input config best rest more some_elite crowd,
                                subst (λ (k : EvaluatedChromosome). NotOver f k.fitness) scored
                                    (seen-over best rest ranked some_elite f
                                      (subst (λ fs. Memᴰ f fs) kept m)),
                              );
                            },
                          ),
                        )
                  ]
            ]

    module _ (should_cancel : ℕ → Bool) where
      -- The loop returns, after at most the generations that are left.
      pub record Returns (d : Draws) (gen left : ℕ) (s : GaState) : Type 0 where
        pub state : GaState
        pub last : ℕ
        pub returns : run_from input config should_cancel d gen left s ≡ some state
        pub ended : last ≤ gen + left
        pub begun : gen ≤ last
        pub advanced : 0 < left → should_cancel gen ≡ false → gen < last
        pub run : IsRun input config last state

      run_from-go_on :
          (d : Draws) (gen left : ℕ) (s s' : GaState)
          → should_cancel gen ≡ false
          → turn input config (part gen d) gen s (rank (map (evaluate input config) s.population))
            ≡ some (go_on s')
          → Returns d (suc gen) left s'
          → Returns d gen (suc left) s
      unfolding run_from
      run_from-go_on d gen left s s' wanted e later = record {
        state = later.state;
        last = later.last;
        returns = rw (run_from, wanted, e) later.returns;
        ended = (let bound = later.ended in omega arith);
        begun = (let bound = later.begun in omega arith);
        advanced = λ some_left wanted. let bound = later.begun in omega arith;
        run = later.run;
      }

      run_from-stop :
          (d : Draws) (gen left : ℕ) (s s' : GaState)
          → should_cancel gen ≡ false
          → turn input config (part gen d) gen s (rank (map (evaluate input config) s.population))
            ≡ some (stop s')
          → IsRun input config (suc gen) s'
          → Returns d gen (suc left) s
      unfolding run_from
      run_from-stop d gen left s s' wanted e r = record {
        state = s';
        last = suc gen;
        returns = rw (run_from, wanted, e) refl;
        ended = omega arith;
        begun = omega arith;
        advanced = λ some_left wanted. omega arith;
        run = r;
      }

      run_from_next :
          (d : Draws) (gen left : ℕ) (s : GaState)
          → should_cancel gen ≡ false
          → (t : Turn)
          → turn input config (part gen d) gen s (rank (map (evaluate input config) s.population))
            ≡ some t
          → Turned input config (suc gen) t
          → ((s' : GaState)
              → IsRun input config (suc gen) s'
              → IsLive input config s'
              → Returns d (suc gen) left s')
          → Returns d gen (suc left) s
      run_from_next d gen left s wanted (stop s') e done later =
          run_from-stop d gen left s s' wanted e done
      run_from_next d gen left s wanted (go_on s') e (r', live') later =
          run_from-go_on d gen left s s' wanted e (later s' r' live')

      pub run_from-Returns :
          (d : Draws) (gen left : ℕ) (s : GaState)
          → IsRun input config gen s
          → IsLive input config s
          → Returns d gen left s
      unfolding run_from
      run_from-Returns d gen zero s r live = record {
        state = s;
        last = gen;
        returns = refl;
        ended = omega arith;
        begun = omega arith;
        advanced = λ some_left wanted. let never : ⊥ = omega arith in absurd never;
        run = r;
      }
      run_from-Returns d gen (suc left) s r live = elim (Bool-cases (should_cancel gen)) [
        | inl cancelled ↦ record {
          state = s;
          last = gen;
          returns = rw (run_from, cancelled) refl;
          ended = omega arith;
          begun = omega arith;
          advanced = λ some_left wanted. cc;
          run = r;
        }
        | inr wanted ↦
            let (t, e, turned) =
              turn-Turned gen s r live (part gen d)
                (rank (map (evaluate input config) s.population))
                (rank-IsRanked input config s.population) in
            run_from_next d gen left s wanted t e turned (run_from-Returns d (suc gen) left)
      ]
