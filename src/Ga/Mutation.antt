-- ===== src/Ga/Mutation.antt =====
-- ga/mutation.ts. `coin` decides whether a gene is mutated, whatever the rate is. `none` is a thrown
-- error. pickBlocks does what pickDistinctBlocks does.
pub mod Valid
use ga_scheduler_v.Base.{
  ℕ, zero, suc, ◌+◌, ◌*◌, ◌%◌, min, max, Bool, true, false, Option, none, some, List, [], ◌∷◌,
  length, take, sort, leb, ltb, get_elem?, map, if◌then◌else◌, ◌==◌, nat_eq,
}
use ga_scheduler_v.Base.Map
use ga_scheduler_v.Base.Map.{Map}
use ga_scheduler_v.Types.{PreGaCandidate, GeneSession, GeneKind, fixed, flexible, Gene, Chromosome}
use ga_scheduler_v.Slots.{SlotLookup, find_contiguous_slots}
use ga_scheduler_v.Slots.SameDay.{pick_same_day_session_slots}
use ga_scheduler_v.Ga.Draws.{Draws, part, number, stream, coin}
use ga_scheduler_v.Ga.Shuffle.{set_elem, fisher_yates_shuffle}
use ga_scheduler_v.Ga.Fitness.{candidate_map}
use ga_scheduler_v.Ga.Seeder.{
  pick_one, room_pool, pick_lecturers_for_session, slice_at, blocks_or_same_day, session_slots,
  sessions_over, cons_gene,
}

-- carryLecturersForSession
unfoldable pub carry_lecturers_for_session : PreGaCandidate → List GeneSession → ℕ → Option (List ℕ)
unfolding pick_lecturers_for_session
carry_lecturers_for_session c prior i = elim (get_elem? prior i) [
  | some s ↦ some s.lecturer_ids
  | none ↦ pick_lecturers_for_session c i
]

-- `newLecturerIds`, for a pool that is not empty.
unfoldable pub new_lecturer_ids : Draws → List ℕ → ℕ → List ℕ
unfolding fisher_yates_shuffle
new_lecturer_ids d pool size =
    if size == 1
    then elim (pick_one (part 0 d) pool) [ none ↦ [] | some l ↦ l ∷ [] ]
    else sort leb (take size (fisher_yates_shuffle (stream (part 1 d)) pool))

-- mutateLecturer
unfoldable pub mutate_lecturer : Draws → List GeneSession → PreGaCandidate → List GeneSession
unfolding new_lecturer_ids set_elem
mutate_lecturer d sessions c =
    if leb (length c.sibling_offering_ids) 1
    then sessions
    else if length c.lecturer_pool == 0
    then sessions
    else (let idx = number (part 0 d) % length sessions in
        elim (get_elem? sessions idx) [
          | none ↦ sessions
          | some target ↦
              let size = min (max 1 (length target.lecturer_ids)) (length c.lecturer_pool) in
              set_elem idx
                (record target { lecturer_ids = new_lecturer_ids (part 1 d) c.lecturer_pool size })
                sessions
        ])

-- The slots of the sessions of a fixed gene where no block is found: each session draws its own.
unfoldable pub own_slots : Draws → PreGaCandidate → Option SlotLookup → ℕ → ℕ → List (List ℕ)
unfolding fisher_yates_shuffle
own_slots d c lookup i zero = []
own_slots d c none i (suc left) =
    slice_at c (fisher_yates_shuffle (stream (part i d)) c.possible_time_slot_ids) i
    ∷ own_slots d c none (suc i) left
own_slots d c (some lookup) i (suc left) =
    pick_same_day_session_slots (number (part 0 (part i d))) (number (part 1 (part i d)))
      c.possible_time_slot_ids c.session_duration lookup
    ∷ own_slots d c (some lookup) (suc i) left

unfoldable pub fixed_slots : Draws → PreGaCandidate → Option SlotLookup → ℕ → List (List ℕ)
unfolding own_slots session_slots
fixed_slots d c none count = own_slots d c none 0 count
fixed_slots d c (some lookup) count = session_slots d c (some lookup) count

-- Each session with the slots of its index, its room and its lecturers kept.
abbrev pub with_slots : List GeneSession → List (List ℕ) → List GeneSession
with_slots [] blocks = []
with_slots (s ∷ sessions) [] = []
with_slots (s ∷ sessions) (block ∷ blocks) =
    record s { time_slot_ids = block } ∷ with_slots sessions blocks

-- `gene.sessions[0]?.roomId ?? candidate.roomId ?? 0`
abbrev pub room_or_first : List GeneSession → PreGaCandidate → ℕ
room_or_first [] c = elim c.room_id [ none ↦ 0 | some r ↦ r ]
room_or_first (s ∷ _) c = s.room_id

-- `seedRoomId` of the mutation.
unfoldable pub mutation_room : Draws → PreGaCandidate → List GeneSession → ℕ
mutation_room d c prior = elim (pick_one d (room_pool c)) [
  | some r ↦ r
  | none ↦ room_or_first prior c
]

abbrev pub with_sessions : Gene → Option (List GeneSession) → Option Gene
with_sessions g none = none
with_sessions g (some sessions) = some (record g { sessions = sessions })

abbrev pub then_mutate_lecturer :
    Draws → PreGaCandidate → Option (List GeneSession) → Option (List GeneSession)
then_mutate_lecturer d c none = none
then_mutate_lecturer d c (some sessions) = some (mutate_lecturer d sessions c)

-- The new room and slots of the sessions `prior` of a gene of either kind.
unfoldable pub mutate_sessions :
    Draws
    → PreGaCandidate
    → Option SlotLookup
    → GeneKind
    → List GeneSession
    → Option (List GeneSession)
unfolding fixed_slots carry_lecturers_for_session mutation_room session_slots sessions_over
mutate_sessions d c lookup fixed prior =
    some (with_slots prior (fixed_slots (part 0 d) c lookup (length prior)))
mutate_sessions d c lookup flexible prior =
    sessions_over (part 1 d) c (mutation_room (part 2 d) c prior)
      (carry_lecturers_for_session c prior) 0
      (session_slots (part 0 d) c lookup c.parallel_session_count)

-- What mutateChromosome does with a gene whose candidate is known.
unfoldable pub mutate_gene : Draws → PreGaCandidate → Option SlotLookup → Gene → Option Gene
unfolding mutate_sessions mutate_lecturer
mutate_gene d c lookup g =
    with_sessions g
      (then_mutate_lecturer (part 1 d) c (mutate_sessions (part 0 d) c lookup g.kind g.sessions))

unfoldable pub mutate_locus : Draws → List PreGaCandidate → Option SlotLookup → Gene → Option Gene
unfolding mutate_gene candidate_map
mutate_locus d candidates lookup g =
    if coin (part 0 d)
    then elim (Map.get g.offering_id (candidate_map candidates)) [
      | none ↦ some g
      | some c ↦ mutate_gene (part 1 d) c lookup g
    ]
    else some g

-- mutateChromosome, from locus `i` on.
unfoldable pub mutate_from :
    Draws → ℕ → List PreGaCandidate → Option SlotLookup → Chromosome → Option Chromosome
unfolding mutate_locus
mutate_from d i candidates lookup [] = some []
mutate_from d i candidates lookup (g ∷ rest) =
    cons_gene (mutate_locus (part i d) candidates lookup g)
      (mutate_from d (suc i) candidates lookup rest)

unfoldable pub mutate_chromosome :
    Draws → List PreGaCandidate → Option SlotLookup → Chromosome → Option Chromosome
unfolding mutate_from
mutate_chromosome d = mutate_from d 0
