-- ===== src/Pipeline.antt =====
-- orchestrator.ts, the way from the offerings through runPreGA to runGA: the candidates of the first are
-- what the second runs on.
use ga_scheduler_v.Base.{ℕ, ◌<◌, ◌≡◌, Bool, Option, some, List, Distinct}
use ga_scheduler_v.Base.Map.{Map}
use ga_scheduler_v.Types.{Room, TimeSlot, CourseOffering}
use ga_scheduler_v.PreGa.Validator.{run_pre_ga}
use ga_scheduler_v.PreGa.Validator.Fitting.{run_pre_ga-IsCandidate}
use ga_scheduler_v.PreGa.Validator.Apart.{id_of, run_pre_ga-Distinct}
use ga_scheduler_v.Ga.Draws.{Draws}
use ga_scheduler_v.Ga.Evaluation.{EvaluatedChromosome}
use ga_scheduler_v.Ga.Schedule.{IsSchedule}
use ga_scheduler_v.Ga.Run.{GaInput, GaConfig, GaState}
use ga_scheduler_v.Ga.Run.Generation.{run_ga}
use ga_scheduler_v.Ga.Run.Result.{IsRunnable, run_ga-Returns, run_ga-IsSchedule}

-- The input of runGA with the candidates that runPreGA emits.
unfoldable pub input_of :
    GaInput → List CourseOffering → List TimeSlot → List Room → Option (Map ℕ ℕ) → GaInput
input_of rest offerings slots rooms locked = record rest {
  candidates = (run_pre_ga offerings slots (some rooms) locked).candidates;
}

module _ (offerings : List CourseOffering) (slots : List TimeSlot) (rooms : List Room)
    (locked : Option (Map ℕ ℕ)) where
  module _ (rest : GaInput) (config : GaConfig) (distinct : Distinct id_of offerings) where
    pub input_of-IsRunnable :
        0 < config.population_size
        → 0 < config.tournament_size
        → IsRunnable (input_of rest offerings slots rooms locked) config
    unfolding input_of
    input_of-IsRunnable crowd rounds = record {
      candidates = run_pre_ga-IsCandidate offerings slots rooms locked;
      apart = run_pre_ga-Distinct offerings slots (some rooms) locked distinct;
      crowd = crowd;
      rounds = rounds;
    }

    -- Whatever the offerings, as long as their ids are different and the rooms are given: runGA on the
    -- candidates that runPreGA emits throws no error, and the best chromosome of the run, if there is
    -- one, is a schedule of these candidates. The population and the tournament are not empty.
    pub run_ga-run_pre_ga :
        (should_cancel : ℕ → Bool) (d : Draws)
        → 0 < config.population_size
        → 0 < config.tournament_size
        → (s : GaState) × (run_ga
              (input_of rest offerings slots rooms locked)
              config
              should_cancel
              d
            ≡ some s)
          × ((best : EvaluatedChromosome)
              → s.overall_best ≡ some best
              → IsSchedule
                  (run_pre_ga offerings slots (some rooms) locked).candidates
                  best.chromosome)
    unfolding input_of
    run_ga-run_pre_ga should_cancel d crowd rounds =
        let input = input_of rest offerings slots rooms locked in
        let fit = input_of-IsRunnable crowd rounds in
        let (s, e, short, told) = run_ga-Returns input config fit should_cancel d in
        (s, e, λ best b. run_ga-IsSchedule input config fit should_cancel d s best e b)
