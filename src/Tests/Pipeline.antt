-- ===== src/Tests/Pipeline.antt =====
-- From two offerings of one course to a schedule.
use ga_scheduler_v.Base.{◌≡◌, none, some, List, [], ◌∷◌, All, Distinct, arith}
use ga_scheduler_v.Types.{CourseOffering}
use ga_scheduler_v.Tests.PreGa.{offering}
use ga_scheduler_v.Tests.Validator.{sibling, hours, rooms}
use ga_scheduler_v.Tests.Evolution.{input, config, draws, never}
use ga_scheduler_v.PreGa.Validator.{run_pre_ga}
use ga_scheduler_v.PreGa.Validator.Fitting.{run_pre_ga-IsCandidate}
use ga_scheduler_v.PreGa.Validator.Apart.{id_of, run_pre_ga-Distinct}
use ga_scheduler_v.Ga.Valid.{IsCandidate}
use ga_scheduler_v.Ga.Evaluation.{EvaluatedChromosome}
use ga_scheduler_v.Ga.Schedule.{IsSchedule, offering_of_candidate}
use ga_scheduler_v.Ga.Run.{GaState}
use ga_scheduler_v.Ga.Run.Generation.{run_ga}
use ga_scheduler_v.Pipeline.{input_of, run_ga-run_pre_ga}

abbrev two : List CourseOffering
two = sibling ∷ offering ∷ []

two-Distinct : Distinct id_of two
two-Distinct = ((λ e. omega arith, tt), (tt, tt))

run_pre_ga-IsCandidate_example : All IsCandidate (run_pre_ga two hours (some rooms) none).candidates
run_pre_ga-IsCandidate_example = run_pre_ga-IsCandidate two hours rooms none

run_pre_ga-Distinct_example :
    Distinct offering_of_candidate (run_pre_ga two hours (some rooms) none).candidates
run_pre_ga-Distinct_example = run_pre_ga-Distinct two hours (some rooms) none two-Distinct

run_ga-run_pre_ga_example :
    (s : GaState) × (run_ga (input_of input two hours rooms none) config never draws ≡ some s)
    × ((best : EvaluatedChromosome)
        → s.overall_best ≡ some best
        → IsSchedule (run_pre_ga two hours (some rooms) none).candidates best.chromosome)
run_ga-run_pre_ga_example =
    run_ga-run_pre_ga two hours rooms none input config two-Distinct never draws (omega arith)
      (omega arith)
