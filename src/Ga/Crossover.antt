-- ===== src/Ga/Crossover.antt =====
-- ga/crossover.ts. A number drawn by Math.random is an argument: the cut of singlePointCrossover, the
-- coin of each locus of uniformCrossover, the two ends of pmxCrossover. A clone is the same value,
-- since values are not shared here. A crossover is `none` where it throws, on a locus that a parent does
-- not have. The texts of the errors are left out.
pub mod Passing
pub mod Masking
use ga_scheduler_v.Base.{
  ℕ, zero, suc, ◌+◌, ◌<◌, Bool, true, false, not, ◌&&◌, ◌||◌, Option, none, some, List, [], ◌∷◌,
  ◌++◌, map, take, drop, all, get_elem?, length, leb, ltb, if◌then◌else◌, ◌==◌, nat_eq, option_eq,
}
use ga_scheduler_v.Base.Map
use ga_scheduler_v.Base.Map.{Map}
use ga_scheduler_v.Base.Set
use ga_scheduler_v.Types.{PreGaCandidate, GeneSession, GeneKind, fixed, flexible, Gene, Chromosome}

abbrev pub clone_sessions : List GeneSession → List GeneSession
clone_sessions = map (λ (s : GeneSession). record {
  room_id = s.room_id;
  time_slot_ids = s.time_slot_ids;
  lecturer_ids = s.lecturer_ids;
})

abbrev pub clone_gene : Gene → Gene
clone_gene g = record g { sessions = clone_sessions g.sessions }

-- singlePointCrossover, cut at `point`.
unfoldable pub single_point_crossover : ℕ → Chromosome → Chromosome → Chromosome × Chromosome
single_point_crossover point parent1 parent2 = (
  map clone_gene (take point parent1) ++ map clone_gene (drop point parent2),
  map clone_gene (take point parent2) ++ map clone_gene (drop point parent1),
)

-- uniformCrossover, with `coin i` for `Math.random() < 0.5` at locus `i`. The loop is over the loci of
-- the first parent.
unfoldable pub uniform_from :
    ℕ → (ℕ → Bool) → Chromosome → Chromosome → Option (Chromosome × Chromosome)
uniform_from i coin [] parent2 = some ([], [])
uniform_from i coin (g ∷ parent1) [] = none
uniform_from i coin (g ∷ parent1) (h ∷ parent2) = elim (uniform_from (i + 1) coin parent1 parent2) [
  | none ↦ none
  | some (child1, child2) ↦ some (
      if coin i
      then (clone_gene g ∷ child1, clone_gene h ∷ child2)
      else (clone_gene h ∷ child1, clone_gene g ∷ child2))
]

unfoldable pub uniform_crossover :
    (ℕ → Bool) → Chromosome → Chromosome → Option (Chromosome × Chromosome)
unfolding uniform_from
uniform_crossover = uniform_from 0

-- The swap of the sessions at the loci from `start` to `last`, which both parents have, seen from locus
-- `i` on.
unfoldable pub swap_from : ℕ → ℕ → ℕ → Chromosome → Chromosome → Chromosome × Chromosome
swap_from i start last [] parent2 = ([], map clone_gene parent2)
swap_from i start last (g ∷ parent1) [] = (map clone_gene (g ∷ parent1), [])
swap_from i start last (g ∷ parent1) (h ∷ parent2) =
    let (child1, child2) = swap_from (i + 1) start last parent1 parent2 in
    if leb start i && leb i last
    then (
      record g { sessions = clone_sessions h.sessions } ∷ child1,
      record h { sessions = clone_sessions g.sessions } ∷ child2,
    )
    else (clone_gene g ∷ child1, clone_gene h ∷ child2)

-- The loop of pmxCrossover reads a gene of both children at every locus up to `last`.
unfoldable pub swap_segment : ℕ → ℕ → Chromosome → Chromosome → Option (Chromosome × Chromosome)
unfolding swap_from
swap_segment start last parent1 parent2 =
    if ltb last (length parent1) && ltb last (length parent2)
    then some (swap_from 0 start last parent1 parent2)
    else none

-- pmxCrossover, with the two numbers drawn in either order. Without genes the source draws 0 and 0, and
-- throws.
unfoldable pub pmx_crossover : ℕ → ℕ → Chromosome → Chromosome → Option (Chromosome × Chromosome)
unfolding swap_segment
pmx_crossover a b parent1 parent2 =
    if ltb b a then swap_segment b a parent1 parent2 else swap_segment a b parent1 parent2

-- The draws of one crossover of each type, as getCrossoverFn selects it.
pub data Crossover : Type 0 where
  single_point : (point : ℕ) → Crossover
  uniform : (coin : ℕ → Bool) → Crossover
  pmx : (start last : ℕ) → Crossover

unfoldable pub cross : Crossover → Chromosome → Chromosome → Option (Chromosome × Chromosome)
unfolding single_point_crossover uniform_crossover pmx_crossover
cross (single_point point) parent1 parent2 = some (single_point_crossover point parent1 parent2)
cross (uniform coin) parent1 parent2 = uniform_crossover coin parent1 parent2
cross (pmx a b) parent1 parent2 = pmx_crossover a b parent1 parent2

-- What is drawn for a first parent of `len` genes: the numbers of pmxCrossover are below `len`, so that
-- there are none without genes.
abbrev pub IsDrawn : Crossover → ℕ → Type 0
IsDrawn (single_point point) len = Unit
IsDrawn (uniform coin) len = Unit
IsDrawn (pmx a b) len = (a < len) × (b < len)

-- The errors that assertMaskingInvariant throws.
pub data Violation : Type 0 where
  length_differs offering_changed candidate_missing kind_changed room_changed : Violation
  outside_pool : Violation

-- assertLecturersWithinPool: whether it returns.
unfoldable pub lecturers_within_pool : Gene → PreGaCandidate → Bool
lecturers_within_pool child candidate =
    all
      (λ (s : GeneSession).
        all (λ l. Set.has l (Set.from_list candidate.lecturer_pool)) s.lecturer_ids)
      child.sessions

abbrev pub is_fixed_gene : Gene → Bool
is_fixed_gene g = elim g.kind [ fixed ↦ true | flexible ↦ false ]

-- The loop that compares `roomId` of each session of the parent with the child's session, if any.
unfoldable pub same_rooms : List GeneSession → List GeneSession → Bool
same_rooms [] child = true
same_rooms (p ∷ parent) [] = false
same_rooms (p ∷ parent) (c ∷ child) = p.room_id == c.room_id && same_rooms parent child

-- assertMaskingInvariant on a gene, outside production: `none` if it returns.
unfoldable pub assert_gene : Gene → Gene → Option PreGaCandidate → Option Violation
unfolding same_rooms lecturers_within_pool
assert_gene parent child candidate =
    if is_fixed_gene parent && not (is_fixed_gene child)
    then some kind_changed
    else if is_fixed_gene parent && not (same_rooms parent.sessions child.sessions)
    then some room_changed
    else elim candidate [
      | none ↦ none
      | some c ↦ if lecturers_within_pool child c then none else some outside_pool
    ]

-- One round of the walk over the loci.
unfoldable pub assert_locus : Map ℕ PreGaCandidate → Gene → Gene → Option Violation
unfolding assert_gene
assert_locus candidates p c =
    if p.offering_id == c.offering_id
    then elim (Map.get c.offering_id candidates) [
      | none ↦ some candidate_missing
      | some candidate ↦ assert_gene p c (some candidate)
    ]
    else some offering_changed

-- The first error, where there is one.
abbrev pub or_else : Option Violation → Option Violation → Option Violation
or_else (some violation) rest = some violation
or_else none rest = rest

-- The walk over the loci, for two chromosomes of the same length.
unfoldable pub assert_loci : Map ℕ PreGaCandidate → Chromosome → Chromosome → Option Violation
unfolding assert_locus
assert_loci candidates [] child = none
assert_loci candidates (p ∷ parent) [] = none
assert_loci candidates (p ∷ parent) (c ∷ child) =
    or_else (assert_locus candidates p c) (assert_loci candidates parent child)

-- assertMaskingInvariant on chromosomes, with a mask of candidates.
unfoldable pub assert_masking_invariant :
    Map ℕ PreGaCandidate → Chromosome → Chromosome → Option Violation
unfolding assert_loci
assert_masking_invariant candidates parent child =
    if length parent == length child
    then assert_loci candidates parent child
    else some length_differs
