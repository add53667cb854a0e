-- ===== src/Tests/Draws.antt =====
-- Runs whose draws are fixed: a shuffle, a pick of blocks and a tournament.
use ga_scheduler_v.Base.{ℕ, ◌≡◌, ◌≤◌, ◌<◌, refl, some, List, [], ◌∷◌, length, sum_by, arith}
use ga_scheduler_v.Ga.Shuffle.{
  set_elem, swap, shuffle_from, fisher_yates_shuffle, pick_from, pick_distinct_blocks,
}
use ga_scheduler_v.Ga.Shuffle.Picks.{fisher_yates_shuffle_keeps, pick_distinct_blocks_lem}
use ga_scheduler_v.Ga.Evaluation.{EvaluatedChromosome, of_cost}
use ga_scheduler_v.Ga.Selection.{
  compete, tournament_from, tournament_selection, Wins, tournament_selection-Wins,
}

program : Unit {0}
unfolding set_elem swap shuffle_from fisher_yates_shuffle pick_from pick_distinct_blocks compete
    tournament_from tournament_selection
program = tt

-- The draw of every round is 0.
abbrev draws : ℕ → ℕ
draws i = 0

abbrev size : List ℕ → ℕ
size = length

abbrev blocks : List (List ℕ)
blocks = (1 ∷ 2 ∷ []) ∷ (3 ∷ []) ∷ (5 ∷ 6 ∷ 7 ∷ []) ∷ []

rotated : fisher_yates_shuffle {A = ℕ} draws (1 ∷ 2 ∷ 3 ∷ []) ≡ 2 ∷ 3 ∷ 1 ∷ []
unfolding program
rotated = refl

fisher_yates_shuffle_keeps_example :
    sum_by size (fisher_yates_shuffle draws blocks) ≡ sum_by size blocks
fisher_yates_shuffle_keeps_example = fisher_yates_shuffle_keeps size draws blocks

pick_distinct_blocks_lem_example :
    (0 < length blocks → length (pick_distinct_blocks draws blocks 2) ≡ 2)
    × (2 ≤ length blocks → sum_by size (pick_distinct_blocks draws blocks 2) ≤ sum_by size blocks)
pick_distinct_blocks_lem_example = pick_distinct_blocks_lem size draws blocks 2

abbrev costing : ℕ → EvaluatedChromosome
costing cost = record {
  chromosome = [];
  fitness = of_cost cost;
  hard_violations = 0;
  soft_penalty = cost;
  structural_penalty = 0;
  preference_penalty = cost;
  load_penalty = 0;
  capacity_shortfall_penalty = 0;
  fragmentation_penalty = 0;
  competency_mismatch = 0;
}

abbrev field : List EvaluatedChromosome
field = costing 9 ∷ costing 4 ∷ costing 7 ∷ []

abbrev in_turn : ℕ → ℕ
in_turn i = i

cheapest : tournament_selection in_turn field 3 ≡ some (costing 4)
unfolding program
cheapest = refl

tournament_selection-Wins_example :
    (w : EvaluatedChromosome) × (tournament_selection in_turn field 3 ≡ some w)
    × Wins in_turn field 0 3 w
tournament_selection-Wins_example =
    tournament_selection-Wins in_turn field 3 (omega arith) (omega arith)
