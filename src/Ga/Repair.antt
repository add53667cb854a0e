-- ===== src/Ga/Repair.antt =====
-- ga/repair.ts, the repair of one session and of a gene. The keys `room:X:slot:Y` and `lec:X:slot:Y`
-- are pairs of numbers, as in Ga.Fitness, and the index holds the offering at each, as in the source.
pub mod Block
pub mod Greedy
pub mod Capacity
pub mod Valid
pub mod Index
pub mod Clean
pub mod Free
pub mod Filling
pub mod Upgrading
pub mod Sessions
pub mod Whole
use ga_scheduler_v.Base.{
  ℕ, zero, suc, ◌+◌, ◌%◌, min, max, Bool, true, false, not, ◌&&◌, ◌||◌, Option, none, some, List,
  [], ◌∷◌, ◌++◌, map, any, all, sort, length, leb, ltb, get_elem?, if◌then◌else◌, ◌==◌, nat_eq,
  pair_eq, list_eq,
}
use ga_scheduler_v.Base.Map
use ga_scheduler_v.Base.Map.{Map}
use ga_scheduler_v.Base.Set
use ga_scheduler_v.Base.Set.{Set}
use ga_scheduler_v.Types.{PreGaCandidate, GeneSession, GeneKind, fixed, flexible, Gene, Chromosome}
use ga_scheduler_v.Slots.{SlotLookup, find_contiguous_slots}
use ga_scheduler_v.Slots.SameDay.{pick_same_day_session_slots}
use ga_scheduler_v.Ga.Draws.{Draws, part, number, stream}
use ga_scheduler_v.Ga.Shuffle.{fisher_yates_shuffle}
use ga_scheduler_v.Ga.Fitness.{Use}
use ga_scheduler_v.Ga.Seeder.{room_pool}

pub record ConflictIndex : Type 0 where
  pub room_time_used : Map Use ℕ
  pub lecturer_time_used : Map Use ℕ

note_lecturers : ℕ → ℕ → List ℕ → Map Use ℕ → Map Use ℕ
note_lecturers offering slot [] m = m
note_lecturers offering slot (l ∷ ls) m =
    note_lecturers offering slot ls (Map.set (l, slot) offering m)

note_slots : ℕ → GeneSession → List ℕ → ConflictIndex → ConflictIndex
unfolding note_lecturers
note_slots offering s [] index = index
note_slots offering s (slot ∷ slots) index = note_slots offering s slots (record {
  room_time_used = Map.set (s.room_id, slot) offering index.room_time_used;
  lecturer_time_used = note_lecturers offering slot s.lecturer_ids index.lecturer_time_used;
})

note_sessions : ℕ → List GeneSession → ConflictIndex → ConflictIndex
unfolding note_slots
note_sessions offering [] index = index
note_sessions offering (s ∷ rest) index =
    note_sessions offering rest (note_slots offering s s.time_slot_ids index)

note_genes : ℕ → Chromosome → ConflictIndex → ConflictIndex
unfolding note_sessions
note_genes excluded [] index = index
note_genes excluded (g ∷ rest) index =
    note_genes excluded rest
      (if g.offering_id == excluded then index else note_sessions g.offering_id g.sessions index)

-- buildConflictIndex
unfoldable pub build_conflict_index : Chromosome → ℕ → ConflictIndex
unfolding note_genes
build_conflict_index chromosome excluded =
    note_genes excluded chromosome (record { room_time_used = []; lecturer_time_used = [] })

-- roomOrGeneSlotConflicts
unfoldable pub room_or_gene_slot_conflicts : List ℕ → ℕ → ConflictIndex → Set ℕ → Bool
room_or_gene_slot_conflicts block room index used =
    any (λ slot. Set.has slot used || Map.has (room, slot) index.room_time_used) block

-- lecturerConflicts
unfoldable pub lecturer_conflicts : List ℕ → List ℕ → ConflictIndex → Bool
lecturer_conflicts block lecturers index =
    any (λ slot. any (λ l. Map.has (l, slot) index.lecturer_time_used) lecturers) block

-- sameLecturerSet
unfoldable pub same_lecturer_set : List ℕ → List ℕ → Bool
same_lecturer_set a b = sort leb a == sort leb b

-- `shuffled[(start + offset) % shuffled.length]` for `left` offsets.
unfoldable pub window_from : List ℕ → ℕ → ℕ → List ℕ
window_from shuffled i zero = []
window_from shuffled i (suc left) =
    let rest = window_from shuffled (suc i) left in
    elim (get_elem? shuffled (i % length shuffled)) [ none ↦ rest | some l ↦ l ∷ rest ]

-- The loop over `start`, with `left` rounds to go and the alternatives so far in `seen`.
unfoldable pub alternatives_from : List ℕ → ℕ → ℕ → ℕ → Set (List ℕ) → Set (List ℕ)
unfolding window_from
alternatives_from shuffled size start zero seen = seen
alternatives_from shuffled size start (suc left) seen =
    alternatives_from shuffled size (suc start) left
      (Set.add (sort leb (window_from shuffled start size)) seen)

-- lecturerAlternatives. The keys of `seen` determine the lists, so that one set holds both.
unfoldable pub lecturer_alternatives : Draws → PreGaCandidate → List ℕ → List (List ℕ)
unfolding alternatives_from
lecturer_alternatives d c current =
    if length c.lecturer_pool == 0
    then []
    else (let size = min (max 1 (length current)) (length c.lecturer_pool) in
        let shuffled = fisher_yates_shuffle (stream d) c.lecturer_pool in
        if size == 1
        then map (λ l. l ∷ []) shuffled
        else alternatives_from shuffled size 0 (length shuffled) [])

-- The first element that passes the test.
abbrev pub find_first : (List ℕ → Bool) → List (List ℕ) → Option (List ℕ)
find_first p [] = none
find_first p (x ∷ xs) = if p x then some x else find_first p xs

-- pickLecturerSwapForBlock
unfoldable pub pick_lecturer_swap_for_block :
    Draws → List ℕ → PreGaCandidate → List ℕ → ConflictIndex → Option (List ℕ)
unfolding lecturer_alternatives same_lecturer_set lecturer_conflicts
pick_lecturer_swap_for_block d block c current index =
    find_first
      (λ ids. not (same_lecturer_set ids current) && not (lecturer_conflicts block ids index))
      (lecturer_alternatives d c current)
