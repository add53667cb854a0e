-- ===== src/Tests/Crossover.antt =====
-- A crossover of two masked parents, one gene fixed and one flexible.
use ga_scheduler_v.Base.{ℕ, ◌*◌, ◌≡◌, refl, none, some, arith, [], ◌∷◌}
use ga_scheduler_v.Base.Map.{Map}
use ga_scheduler_v.Types.{PreGaCandidate, Gene, GeneKind, Chromosome}
use ga_scheduler_v.Tests.Ga.{candidate}
use ga_scheduler_v.Ga.Crossover.{
  single_point_crossover, uniform_from, uniform_crossover, swap_from, swap_segment, pmx_crossover,
  Crossover, cross, same_rooms, lecturers_within_pool, assert_gene, assert_locus, assert_loci,
  assert_masking_invariant, room_changed,
}
use ga_scheduler_v.Ga.Crossover.Masking.{IsHeir, cross-IsHeir}

abbrev gene : GeneKind → ℕ → ℕ → ℕ → Gene
gene kind offering room slot = record {
  kind = kind;
  offering_id = offering;
  sessions =
      record { room_id = room; time_slot_ids = slot ∷ []; lecturer_ids = offering * 100 ∷ [] } ∷ [];
}

abbrev masks : Map ℕ PreGaCandidate
masks = (1, candidate 1 100) ∷ (2, candidate 2 200) ∷ []

abbrev mother : Chromosome
mother = gene GeneKind.fixed 1 5 1 ∷ gene GeneKind.flexible 2 6 1 ∷ []

abbrev father : Chromosome
father = gene GeneKind.fixed 1 5 2 ∷ gene GeneKind.flexible 2 7 3 ∷ []

program : Unit {0}
unfolding single_point_crossover uniform_from uniform_crossover swap_from swap_segment pmx_crossover
    cross same_rooms lecturers_within_pool assert_gene assert_locus assert_loci
    assert_masking_invariant
program = tt

-- The sessions of the second locus change places.
swapped :
    cross (Crossover.pmx 1 1) mother father
    ≡ some (
      gene GeneKind.fixed 1 5 1 ∷ gene GeneKind.flexible 2 7 3 ∷ [],
      gene GeneKind.fixed 1 5 2 ∷ gene GeneKind.flexible 2 6 1 ∷ [],
    )
unfolding program
swapped = refl

-- Without genes the loop of pmxCrossover reads a gene that is not there.
no_genes : cross (Crossover.pmx 0 0) [] [] ≡ none
unfolding program
no_genes = refl

-- A fixed gene in another room is an error.
moved :
    assert_masking_invariant masks mother
      (gene GeneKind.fixed 1 9 1 ∷ gene GeneKind.flexible 2 6 1 ∷ [])
    ≡ some room_changed
unfolding program
moved = refl

mother-IsHeir : IsHeir masks mother father mother
unfolding program
mother-IsHeir = (refl, refl)

father-IsHeir : IsHeir masks mother father father
unfolding program
father-IsHeir = (refl, refl)

cross-IsHeir_example :
    (children : Chromosome × Chromosome) × (cross (Crossover.pmx 1 1) mother father ≡ some children)
    × IsHeir masks mother father children.0
    × IsHeir masks mother father children.1
cross-IsHeir_example =
    cross-IsHeir masks (Crossover.pmx 1 1) mother father (omega arith, omega arith) mother-IsHeir
      father-IsHeir
