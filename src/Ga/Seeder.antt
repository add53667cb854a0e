-- ===== src/Ga/Seeder.antt =====
-- ga/chromosome.ts, createGeneFromCandidate and createRandomChromosome, and ga/population.ts. `none` is
-- a thrown error: no room to seed from, or no lecturer group of a cohort.
pub mod Valid
use ga_scheduler_v.Base.{
  ℕ, zero, suc, ◌+◌, ◌*◌, ◌%◌, Bool, true, false, ◌&&◌, Option, none, some, List, [], ◌∷◌, length,
  take, drop, get_elem?, ltb, if◌then◌else◌, nat_eq,
}
use ga_scheduler_v.Types.{PreGaCandidate, GeneSession, fixed, flexible, Gene, Chromosome}
use ga_scheduler_v.Slots.{SlotLookup, find_contiguous_slots}
use ga_scheduler_v.Slots.SameDay.{pick_same_day_session_slots}
use ga_scheduler_v.Ga.Draws.{Draws, part, number, stream}
use ga_scheduler_v.Ga.Shuffle.{fisher_yates_shuffle, pick_distinct_blocks}

-- `pool[Math.floor(Math.random() * pool.length)]`
abbrev pub pick_one : Draws → List ℕ → Option ℕ
pick_one d pool = get_elem? pool (number d % length pool)

-- `candidate.possibleRoomIds ?? []`
abbrev pub room_pool : PreGaCandidate → List ℕ
room_pool c = elim c.possible_room_ids [ none ↦ [] | some ids ↦ ids ]

abbrev pub is_multi_room_split : PreGaCandidate → Bool
is_multi_room_split c = elim c.room_id [ none ↦ ltb 1 c.parallel_session_count | some _ ↦ false ]

-- `seedRoomId`
unfoldable pub seed_room : Draws → PreGaCandidate → Option ℕ
seed_room d c = elim c.room_id [ some r ↦ some r | none ↦ pick_one d (room_pool c) ]

-- pickRoomForSession
unfoldable pub pick_room_for_session : Draws → PreGaCandidate → ℕ → Option ℕ
pick_room_for_session d c seed =
    if is_multi_room_split c then pick_one d (room_pool c) else some seed

-- pickLecturersForSession
unfoldable pub pick_lecturers_for_session : PreGaCandidate → ℕ → Option (List ℕ)
pick_lecturers_for_session c i =
    if ltb 1 (length c.sibling_offering_ids)
    then get_elem? c.sibling_lecturer_groups (i % length c.sibling_lecturer_groups)
    else some c.lecturer_ids

-- `left` calls of pickSameDaySessionSlots, from call `i` on.
unfoldable pub same_day_blocks : Draws → PreGaCandidate → SlotLookup → ℕ → ℕ → List (List ℕ)
same_day_blocks d c lookup i zero = []
same_day_blocks d c lookup i (suc left) =
    pick_same_day_session_slots (number (part 0 (part i d))) (number (part 1 (part i d)))
      c.possible_time_slot_ids c.session_duration lookup
    ∷ same_day_blocks d c lookup (suc i) left

-- `shuffled.slice(i * sessionDuration, (i + 1) * sessionDuration)`
abbrev pub slice_at : PreGaCandidate → List ℕ → ℕ → List ℕ
slice_at c shuffled i = take c.session_duration (drop (i * c.session_duration) shuffled)

unfoldable pub slices : PreGaCandidate → List ℕ → ℕ → ℕ → List (List ℕ)
slices c shuffled i zero = []
slices c shuffled i (suc left) = slice_at c shuffled i ∷ slices c shuffled (suc i) left

-- The blocks that are found, and the fallback if there is none.
unfoldable pub blocks_or_same_day :
    Draws → PreGaCandidate → SlotLookup → ℕ → List (List ℕ) → List (List ℕ)
unfolding pick_distinct_blocks same_day_blocks
blocks_or_same_day d c lookup count [] = same_day_blocks d c lookup 0 count
blocks_or_same_day d c lookup count (block ∷ blocks) =
    pick_distinct_blocks (stream d) (block ∷ blocks) count

-- `timeSlotIds` of `count` sessions.
unfoldable pub session_slots : Draws → PreGaCandidate → Option SlotLookup → ℕ → List (List ℕ)
unfolding blocks_or_same_day slices
session_slots d c none count =
    slices c (fisher_yates_shuffle (stream d) c.possible_time_slot_ids) 0 count
session_slots d c (some lookup) count =
    blocks_or_same_day d c lookup count
      (find_contiguous_slots c.possible_time_slot_ids c.session_duration lookup)

-- One session, if its room and its lecturers are there.
abbrev pub session_of : Option ℕ → List ℕ → Option (List ℕ) → Option GeneSession
session_of none slots lecturers = none
session_of (some room) slots none = none
session_of (some room) slots (some ids) =
    some (record { room_id = room; time_slot_ids = slots; lecturer_ids = ids })

abbrev pub cons_session : Option GeneSession → Option (List GeneSession) → Option (List GeneSession)
cons_session none rest = none
cons_session (some s) none = none
cons_session (some s) (some rest) = some (s ∷ rest)

-- The sessions over `blocks`, from index `i` on, with `lecturers` for the session of each index.
unfoldable pub sessions_over :
    Draws
    → PreGaCandidate
    → ℕ
    → (ℕ → Option (List ℕ))
    → ℕ
    → List (List ℕ)
    → Option (List GeneSession)
unfolding pick_room_for_session
sessions_over d c seed lecturers i [] = some []
sessions_over d c seed lecturers i (block ∷ blocks) =
    cons_session (session_of (pick_room_for_session (part i d) c seed) block (lecturers i))
      (sessions_over d c seed lecturers (suc i) blocks)

abbrev pub gene_of : PreGaCandidate → Option (List GeneSession) → Option Gene
gene_of c none = none
gene_of c (some sessions) = some (record {
  kind = if c.is_fixed_room then fixed else flexible;
  offering_id = c.offering_id;
  sessions = sessions;
})

-- createGeneFromCandidate
unfoldable pub create_gene_from_candidate : Draws → PreGaCandidate → Option SlotLookup → Option Gene
unfolding seed_room sessions_over session_slots pick_lecturers_for_session
create_gene_from_candidate d c lookup = elim (seed_room (part 0 d) c) [
  | none ↦ none
  | some seed ↦ gene_of c (
      sessions_over (part 1 d) c seed (pick_lecturers_for_session c) 0
        (session_slots (part 2 d) c lookup c.parallel_session_count))
]

abbrev pub cons_gene : Option Gene → Option Chromosome → Option Chromosome
cons_gene none rest = none
cons_gene (some g) none = none
cons_gene (some g) (some rest) = some (g ∷ rest)

-- createRandomChromosome, for the candidates from index `i` on.
unfoldable pub create_from : Draws → ℕ → List PreGaCandidate → Option SlotLookup → Option Chromosome
unfolding create_gene_from_candidate
create_from d i [] lookup = some []
create_from d i (c ∷ cs) lookup =
    cons_gene (create_gene_from_candidate (part i d) c lookup) (create_from d (suc i) cs lookup)

unfoldable pub create_random_chromosome :
    Draws → List PreGaCandidate → Option SlotLookup → Option Chromosome
unfolding create_from
create_random_chromosome d = create_from d 0

abbrev pub cons_chromosome : Option Chromosome → Option (List Chromosome) → Option (List Chromosome)
cons_chromosome none rest = none
cons_chromosome (some x) none = none
cons_chromosome (some x) (some rest) = some (x ∷ rest)

-- generateInitialPopulation, with `left` individuals to go from index `i` on.
unfoldable pub population_from :
    Draws → ℕ → ℕ → List PreGaCandidate → Option SlotLookup → Option (List Chromosome)
unfolding create_random_chromosome
population_from d i zero cs lookup = some []
population_from d i (suc left) cs lookup =
    cons_chromosome (create_random_chromosome (part i d) cs lookup)
      (population_from d (suc i) left cs lookup)

unfoldable pub generate_initial_population :
    Draws → List PreGaCandidate → ℕ → Option SlotLookup → Option (List Chromosome)
unfolding population_from
generate_initial_population d cs population_size lookup =
    population_from d 0 population_size cs lookup
