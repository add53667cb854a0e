-- ===== src/Tests/Evolution.antt =====
-- A run on two candidates: an offering locked to a room, and a cohort of two offerings without a room.
use mathlib.Core.List.Memᴰ
use ga_scheduler_v.Base.{
  ℕ, ◌≤◌, ◌≡◌, refl, sym, subst, Bool, true, false, none, some, List, [], ◌∷◌, Memᴰ, length, All,
  All_get, ◌<◌, arith, locale_le,
}
use ga_scheduler_v.Types.{PreGaCandidate, GeneSession, GeneKind, Gene, Chromosome}
use ga_scheduler_v.Slots.{
  build_slot_lookup, resolve, group_by_day, starts_no_later, sort_by_start, chains, windows,
  day_blocks, find_contiguous_slots,
}
use ga_scheduler_v.Tests.Slots.{timetable, ids}
use ga_scheduler_v.Ga.Draws.{Draws}
use ga_scheduler_v.Ga.Evaluation.{EvaluatedChromosome}
use ga_scheduler_v.Ga.Crossover.{Crossover, cross}
use ga_scheduler_v.Ga.Seeder.{create_random_chromosome}
use ga_scheduler_v.Ga.Mutation.{mutate_chromosome}
use ga_scheduler_v.Ga.Repair.{build_conflict_index}
use ga_scheduler_v.Ga.Repair.Index.{Others}
use ga_scheduler_v.Ga.Repair.Block.{repair_session_as_block}
use ga_scheduler_v.Ga.Repair.Free.{IsFree, repair_session_as_block-IsFree}
use ga_scheduler_v.Ga.Repair.Whole.{repair_chromosome}
use ga_scheduler_v.Ga.Valid.{IsCandidate, IsChromosome}
use ga_scheduler_v.Ga.Seeder.Valid.{create_random_chromosome-IsChromosome}
use ga_scheduler_v.Ga.Schedule.{IsSchedule, IsChromosome-IsSchedule, mutate_chromosome-IsSchedule}
use ga_scheduler_v.Ga.Schedule.Crossed.{cross-IsSchedule}
use ga_scheduler_v.Ga.Schedule.Repaired.{repair_chromosome-IsSchedule}
use ga_scheduler_v.Ga.Run.{GaInput, GaConfig, GaState, pmx_type}
use ga_scheduler_v.Ga.Run.Empty.{length-loci}
use ga_scheduler_v.Ga.Run.Generation.{slot_lookup, evaluate, run_ga}
use ga_scheduler_v.Ga.Run.Ranking.{NotOver}
use ga_scheduler_v.Ga.Run.Breeding.{known}
use ga_scheduler_v.Ga.Run.State.{Rising}
use ga_scheduler_v.Ga.Run.Result.{
  IsRunnable, run_ga-Returns, run_ga-IsSchedule, run_ga-best, run_ga-Rising, run_ga_finds,
}

abbrev locked : PreGaCandidate
locked = record {
  offering_id = 1;
  course_id = 10;
  room_id = some 5;
  lecturer_ids = 100 ∷ [];
  effective_student_count = 30;
  parallel_session_count = 1;
  session_duration = 2;
  possible_time_slot_ids = ids;
  possible_room_ids = none;
  is_fixed_room = true;
  fixed_time_slot_ids = none;
  parent_offering_id = none;
  sibling_offering_ids = 1 ∷ [];
  lecturer_pool = 100 ∷ [];
  sibling_lecturer_groups = (100 ∷ []) ∷ [];
  longest_contiguous_run = 3;
  fragmentation_required = false;
}

abbrev cohort : PreGaCandidate
cohort = record locked {
  offering_id = 2;
  course_id = 20;
  room_id = none;
  lecturer_ids = 200 ∷ [];
  parallel_session_count = 2;
  possible_room_ids = some (5 ∷ 6 ∷ []);
  is_fixed_room = false;
  sibling_offering_ids = 2 ∷ 3 ∷ [];
  lecturer_pool = 200 ∷ 300 ∷ [];
  sibling_lecturer_groups = (200 ∷ []) ∷ (300 ∷ []) ∷ [];
}

abbrev pub input : GaInput
input = record {
  candidates = locked ∷ cohort ∷ [];
  lecturer_structural_map = [];
  lecturer_preference_map = [];
  lecturer_max_sks_map = [];
  competency_eligibility_map = none;
  all_time_slots = some timetable;
  room_by_id = none;
}

abbrev pub config : GaConfig
config = record {
  population_size = 3;
  generations = 2;
  elitism_count = 1;
  tournament_size = 2;
  crossover_type = pmx_type;
  weight_unit = 1;
  hard_penalty_weight = 100;
  soft_penalty_weight = 1;
}

abbrev pub draws : Draws
draws path = length path

abbrev pub never : ℕ → Bool
never gen = false

one_of_pool : (l x : ℕ) → x ≡ l → (ys : List ℕ) → Memᴰ l ys → Memᴰ x ys
one_of_pool l x e ys m = subst (λ k. Memᴰ k ys) (sym e) m

locked-IsCandidate : IsCandidate locked
locked-IsCandidate = record {
  assigned = λ x m. m;
  grouped = (λ x m. m, tt);
  owned = λ h. let none_there : ⊥ = omega arith in absurd none_there;
  housed = λ e. cc;
}

cohort-IsCandidate : IsCandidate cohort
cohort-IsCandidate = record {
  assigned = λ x m. one_of_pool 200 x (Memᴰ.eq_of_singleton m) (200 ∷ 300 ∷ []) (Memᴰ.head refl);
  grouped = (
    λ x m. one_of_pool 200 x (Memᴰ.eq_of_singleton m) (200 ∷ 300 ∷ []) (Memᴰ.head refl),
    (
      λ x m.
          one_of_pool 300 x (Memᴰ.eq_of_singleton m) (200 ∷ 300 ∷ []) (Memᴰ.tail (Memᴰ.head refl)),
      tt,
    ),
  );
  owned = λ h. omega arith;
  housed = λ e. (refl, omega arith);
}

valid : All IsCandidate input.candidates
valid = (locked-IsCandidate, (cohort-IsCandidate, tt))

input-IsRunnable : IsRunnable input config
input-IsRunnable = record {
  candidates = valid;
  apart = ((λ e. omega arith, tt), (tt, tt));
  crowd = omega arith;
  rounds = omega arith;
}

run_ga-Returns_example :
    (s : GaState) × (run_ga input config never draws ≡ some s)
    × (s.generations_run ≤ 2)
    × (length s.history ≡ s.generations_run)
run_ga-Returns_example = run_ga-Returns input config input-IsRunnable never draws

abbrev final : GaState
final = (run_ga-Returns input config input-IsRunnable never draws).0

final-returns : run_ga input config never draws ≡ some final
final-returns = (run_ga-Returns input config input-IsRunnable never draws).1

found : (best : EvaluatedChromosome) × (final.overall_best ≡ some best)
found =
    run_ga_finds input config input-IsRunnable never draws final (omega arith) refl final-returns

run_ga_finds_example : (best : EvaluatedChromosome) × (final.overall_best ≡ some best)
run_ga_finds_example =
    run_ga_finds input config input-IsRunnable never draws final (omega arith) refl final-returns

run_ga-IsSchedule_example : IsSchedule input.candidates found.0.chromosome
run_ga-IsSchedule_example =
    run_ga-IsSchedule input config input-IsRunnable never draws final found.0 final-returns found.1

run_ga-best_example :
    (found.0 ≡ evaluate input config found.0.chromosome)
    × Memᴰ found.0.fitness final.history
    × All (λ f. NotOver f found.0.fitness) final.history
run_ga-best_example =
    run_ga-best input config input-IsRunnable never draws final found.0 final-returns found.1

run_ga-Rising_example : Rising final.history
run_ga-Rising_example =
    run_ga-Rising input config input-IsRunnable never draws final (omega arith) final-returns

create_random_chromosome-IsChromosome_example :
    (chromosome : Chromosome) × (create_random_chromosome draws input.candidates
        (slot_lookup input config)
      ≡ some chromosome)
    × IsChromosome input.candidates chromosome
create_random_chromosome-IsChromosome_example =
    create_random_chromosome-IsChromosome draws input.candidates (slot_lookup input config) valid
      (known input config)

-- A schedule of the two candidates.
seeded : (gs : Chromosome) × IsSchedule input.candidates gs
seeded =
    let (gs, e, fine) =
      create_random_chromosome-IsChromosome draws input.candidates (slot_lookup input config) valid
        (known input config) in
    (gs, IsChromosome-IsSchedule input.candidates gs input-IsRunnable.apart fine)

mutate_chromosome-IsSchedule_example :
    (gs : Chromosome) × (mutate_chromosome draws input.candidates
        (slot_lookup input config)
        seeded.0
      ≡ some gs)
    × IsSchedule input.candidates gs
mutate_chromosome-IsSchedule_example =
    mutate_chromosome-IsSchedule input.candidates valid (slot_lookup input config)
      (known input config) draws seeded.0 seeded.1

repair_chromosome-IsSchedule_example :
    IsSchedule input.candidates
      (repair_chromosome draws input.candidates (slot_lookup input config) none seeded.0)
repair_chromosome-IsSchedule_example =
    repair_chromosome-IsSchedule input.candidates (slot_lookup input config) (known input config)
      none draws seeded.0 seeded.1

seeded_two : length seeded.0 ≡ 2
seeded_two = length-loci input seeded.0 seeded.1

cross-IsSchedule_example :
    (children : Chromosome × Chromosome) × (cross (Crossover.pmx 1 0) seeded.0 seeded.0
      ≡ some children)
    × IsSchedule input.candidates children.0
    × IsSchedule input.candidates children.1
cross-IsSchedule_example =
    cross-IsSchedule input.candidates (Crossover.pmx 1 0) seeded.0 seeded.0
      (omega (arith, seeded_two), omega (arith, seeded_two)) seeded.1 seeded.1

-- A session that lies on the slots of another gene, with the block of the afternoon free.
abbrev neighbour : GeneSession
neighbour = record { room_id = 5; time_slot_ids = 101 ∷ 102 ∷ []; lecturer_ids = 100 ∷ [] }

abbrev neighbours : Chromosome
neighbours = record { kind = GeneKind.flexible; offering_id = 7; sessions = neighbour ∷ [] } ∷ []

abbrev clashing : GeneSession
clashing = record { room_id = 5; time_slot_ids = 101 ∷ 102 ∷ []; lecturer_ids = 100 ∷ [] }

afternoon : Memᴰ (104 ∷ 105 ∷ []) (find_contiguous_slots ids 2 (build_slot_lookup timetable))
unfolding find_contiguous_slots build_slot_lookup resolve group_by_day day_blocks windows chains
    sort_by_start starts_no_later locale_le
afternoon = Memᴰ.tail (Memᴰ.tail (Memᴰ.head refl))

-- No slot of the afternoon is one of the neighbour's.
apart :
    (slot : ℕ)
    → Memᴰ slot (104 ∷ 105 ∷ [])
    → (t : GeneSession) → Others neighbours 1 t
    → ¬ Memᴰ slot t.time_slot_ids
apart slot m t (g, mg, other, mt) held =
    let eg = Memᴰ.eq_of_singleton mg in
    let et : t ≡ neighbour = Memᴰ.eq_of_singleton (subst (λ (k : Gene). Memᴰ t k.sessions) eg mt) in
    let there = subst (λ (k : GeneSession). Memᴰ slot k.time_slot_ids) et held in
    let late =
      All_get (λ (k : ℕ). 103 < k) (104 ∷ 105 ∷ []) (omega arith, (omega arith, tt)) slot m in
    let early =
      All_get (λ (k : ℕ). k < 103) (101 ∷ 102 ∷ []) (omega arith, (omega arith, tt)) slot there in
    omega arith

afternoon-IsFree : IsFree neighbours 1 [] (104 ∷ 105 ∷ []) 5 (100 ∷ [])
afternoon-IsFree = record {
  unused = λ slot m n. Memᴰ.not-nil n;
  rooms = λ slot m t o held. apart slot m t o held.1;
  lecturers = λ slot m l n t o held. apart slot m t o held.1;
}

repair_session_as_block-IsFree_example :
    (t : GeneSession) × (repair_session_as_block locked
        (build_conflict_index neighbours 1)
        []
        clashing
        draws
        GeneKind.fixed
        (build_slot_lookup timetable)
      ≡ t)
    × IsFree neighbours 1 [] t.time_slot_ids t.room_id t.lecturer_ids
repair_session_as_block-IsFree_example =
    repair_session_as_block-IsFree neighbours 1 [] locked clashing draws GeneKind.fixed
      (build_slot_lookup timetable) (104 ∷ 105 ∷ []) afternoon afternoon-IsFree
