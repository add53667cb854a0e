-- ===== src/Ga/Repair/Whole.antt =====
-- ga/repair.ts, repairChromosome. The genes before the one at hand are repaired already when its
-- conflict index is built.
use ga_scheduler_v.Base.{ℕ, suc, Option, none, some, List, [], ◌∷◌, ◌++◌, map, nat_eq}
use ga_scheduler_v.Base.Map
use ga_scheduler_v.Base.Map.{Map}
use ga_scheduler_v.Base.Set
use ga_scheduler_v.Base.Set.{Set}
use ga_scheduler_v.Types.{
  Room, PreGaCandidate, GeneSession, GeneKind, fixed, flexible, Gene, Chromosome,
}
use ga_scheduler_v.Slots.{SlotLookup}
use ga_scheduler_v.Ga.Draws.{Draws, part}
use ga_scheduler_v.Ga.Fitness.{candidate_map}
use ga_scheduler_v.Ga.Repair.{ConflictIndex, build_conflict_index}
use ga_scheduler_v.Ga.Repair.Block.{repair_session_as_block}
use ga_scheduler_v.Ga.Repair.Greedy.{repair_session_greedy}
use ga_scheduler_v.Ga.Repair.Capacity.{repair_capacity_shortfall}

-- `for (const s of newSessions) s.roomId = originalRoom;`
abbrev pub set_rooms : ℕ → List GeneSession → List GeneSession
set_rooms room = map (λ (s : GeneSession). record s { room_id = room })

abbrev pub keep_room : GeneKind → List GeneSession → List GeneSession → List GeneSession
keep_room flexible before after = after
keep_room fixed [] after = after
keep_room fixed (s ∷ _) after = set_rooms s.room_id after

module _ (c : PreGaCandidate) (index : ConflictIndex) where
  -- The loop over the sessions, from index `i` on, with `usedSlotsInGene`.
  unfoldable pub repair_sessions :
      Draws → ℕ → GeneKind → SlotLookup → Set ℕ → List GeneSession → List GeneSession
  unfolding repair_session_as_block
  repair_sessions d i kind lookup used [] = []
  repair_sessions d i kind lookup used (s ∷ rest) =
      let repaired = repair_session_as_block c index used s (part i d) kind lookup in
      repaired
      ∷ repair_sessions d (suc i) kind lookup (Set.add_all used repaired.time_slot_ids) rest

  unfoldable pub repair_sessions_greedily : Draws → ℕ → List GeneSession → List GeneSession
  unfolding repair_session_greedy
  repair_sessions_greedily d i [] = []
  repair_sessions_greedily d i (s ∷ rest) =
      repair_session_greedy s index (part i d) c.session_duration c
      ∷ repair_sessions_greedily d (suc i) rest

  -- The repair of the collisions, with and without a lookup.
  unfoldable pub repair_collisions :
      Draws → Option SlotLookup → GeneKind → List GeneSession → List GeneSession
  unfolding repair_sessions repair_sessions_greedily
  repair_collisions d none fixed sessions = sessions
  repair_collisions d none flexible sessions = repair_sessions_greedily d 0 sessions
  repair_collisions d (some lookup) kind sessions =
      keep_room kind sessions (repair_sessions d 0 kind lookup [] sessions)

  unfoldable pub repair_gene_sessions :
      Draws
      → Option SlotLookup
      → Option (Map ℕ Room)
      → GeneKind
      → List GeneSession
      → List GeneSession
  unfolding repair_collisions repair_capacity_shortfall
  repair_gene_sessions d lookup none kind sessions = repair_collisions d lookup kind sessions
  repair_gene_sessions d lookup (some rooms) kind sessions =
      repair_capacity_shortfall kind c index rooms (repair_collisions d lookup kind sessions)

-- The body of the loop, for the gene `g` between the genes `done` and `rest`.
unfoldable pub repair_gene :
    Draws
    → List PreGaCandidate
    → Option SlotLookup
    → Option (Map ℕ Room)
    → Chromosome
    → Gene
    → Chromosome
    → Gene
unfolding repair_gene_sessions
repair_gene d candidates lookup rooms done g rest =
    elim (Map.get g.offering_id (candidate_map candidates)) [
      | none ↦ g
      | some c ↦ record g {
        sessions =
            repair_gene_sessions c (build_conflict_index (done ++ g ∷ rest) g.offering_id) d lookup
              rooms g.kind g.sessions;
      }
    ]

-- The loop over the genes: `done` are repaired, and `i` is the locus of the next.
unfoldable pub repair_from :
    Draws
    → ℕ
    → List PreGaCandidate
    → Option SlotLookup
    → Option (Map ℕ Room)
    → Chromosome
    → Chromosome
    → Chromosome
unfolding repair_gene
repair_from d i candidates lookup rooms done [] = done
repair_from d i candidates lookup rooms done (g ∷ rest) =
    repair_from d (suc i) candidates lookup rooms
      (done ++ repair_gene (part i d) candidates lookup rooms done g rest ∷ []) rest

unfoldable pub repair_chromosome :
    Draws → List PreGaCandidate → Option SlotLookup → Option (Map ℕ Room) → Chromosome → Chromosome
unfolding repair_from
repair_chromosome d candidates lookup rooms chromosome =
    repair_from d 0 candidates lookup rooms [] chromosome
