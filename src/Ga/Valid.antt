-- ===== src/Ga/Valid.antt =====
-- What a gene owes its candidate, whatever ga/ does with it: the offering, the kind, the number of
-- sessions, and for each session a room, slots and lecturers that the candidate allows.

use ga_scheduler_v.Base.{
  ℕ, ◌≤◌, ◌<◌, ◌≡◌, ◌⊎◌, false, Option, none, some, List, [], ◌∷◌, Memᴰ, length, All, nat_eq,
}
use ga_scheduler_v.Base.Map
use ga_scheduler_v.Types.{TimeSlot, PreGaCandidate, GeneSession, Gene, Chromosome}
use ga_scheduler_v.Slots.{SlotLookup}
use ga_scheduler_v.Ga.Seeder.{room_pool}
use ga_scheduler_v.Ga.Crossover.{is_fixed_gene}

abbrev pub Within : List ℕ → List ℕ → Type 0
Within xs ys = (x : ℕ) → Memᴰ x xs → Memᴰ x ys

-- What the validator gives a candidate: its lecturers are of the pool, a cohort has a group of
-- lecturers, and without a room of its own it is flexible and has rooms to choose from.
pub record IsCandidate (c : PreGaCandidate) : Type 0 where
  pub assigned : Within c.lecturer_ids c.lecturer_pool
  pub grouped : All (λ group. Within group c.lecturer_pool) c.sibling_lecturer_groups
  pub owned : 1 < length c.sibling_offering_ids → 0 < length c.sibling_lecturer_groups
  pub housed : c.room_id ≡ none → (c.is_fixed_room ≡ false) × (0 < length (room_pool c))

-- The candidate's own room, or one of its pool if it is flexible.
abbrev pub IsRoom : PreGaCandidate → ℕ → Type 0
IsRoom c r = (c.room_id ≡ some r) ⊎ ((c.is_fixed_room ≡ false) × Memᴰ r (room_pool c))

-- At most `sessionDuration` of the possible slots.
abbrev pub IsSlots : PreGaCandidate → List ℕ → Type 0
IsSlots c slots = Within slots c.possible_time_slot_ids × (length slots ≤ c.session_duration)

pub record IsSession (c : PreGaCandidate) (s : GeneSession) : Type 0 where
  pub room : IsRoom c s.room_id
  pub slots : IsSlots c s.time_slot_ids
  pub taught : Within s.lecturer_ids c.lecturer_pool

pub record IsGene (c : PreGaCandidate) (g : Gene) : Type 0 where
  pub offering : g.offering_id ≡ c.offering_id
  pub kind : is_fixed_gene g ≡ c.is_fixed_room
  pub count : length g.sessions ≡ c.parallel_session_count
  pub sessions : All (IsSession c) g.sessions

-- A gene for each candidate, in order.
abbrev pub IsChromosome : List PreGaCandidate → Chromosome → Type 0
IsChromosome [] [] = Unit
IsChromosome [] (g ∷ gs) = ⊥
IsChromosome (c ∷ cs) [] = ⊥
IsChromosome (c ∷ cs) (g ∷ gs) = IsGene c g × IsChromosome cs gs

-- A lookup finds a slot under its own id, as buildSlotLookup fills it.
abbrev pub IsLookup : Option SlotLookup → Type 0
IsLookup none = Unit
IsLookup (some lookup) = (i : ℕ) (t : TimeSlot) → Map.get i lookup ≡ some t → t.id ≡ i
