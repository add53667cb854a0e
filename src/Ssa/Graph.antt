-- ===== src/Ssa/Graph.antt =====
-- ssa/bipartiteGraph.ts, and the node types of types.ts that it fills.
pub mod Sessions
use ga_scheduler_v.Base.{
  ℕ, zero, suc, ◌+◌, ◌*◌, ◌<◌, ◌≡◌, Bool, true, false, Option, none, some, List, [], ◌∷◌, ◌++◌, map,
  length, ltb, if◌then◌else◌, ◌==◌, nat_eq,
}
use ga_scheduler_v.Base.Map
use ga_scheduler_v.Base.Map.{Map}
use ga_scheduler_v.Base.Set
use ga_scheduler_v.Base.Set.{Set}
use ga_scheduler_v.Types.{TimeSlot, PreGaCandidate}
use ga_scheduler_v.Slots.{SlotLookup, build_slot_lookup, find_contiguous_slots}

pub record SessionNode : Type 0 where
  pub session_id : ℕ
  pub offering_id : ℕ
  pub session_index : ℕ
  pub room_id : Option ℕ
  pub lecturer_ids : List ℕ

pub record SlotNode : Type 0 where
  pub slot_id : ℕ

abbrev pub Adjacency : Type 0
Adjacency = Map ℕ (Set ℕ)

pub record BipartiteGraph : Type 0 where
  pub sessions : List SessionNode
  pub slots : List SlotNode
  pub adjacency : Adjacency
  pub degraded_offerings : List ℕ

pub record BlockStarts : Type 0 where
  pub block_starts : List ℕ
  pub degraded : Bool

-- `blocks.map(b => b[0]!)`. A block holds `sessionDuration` ids and is not empty.
heads : List (List ℕ) → List ℕ
heads [] = []
heads ([] ∷ blocks) = heads blocks
heads ((slot ∷ rest) ∷ blocks) = slot ∷ heads blocks

compute_block_starts : PreGaCandidate → Option SlotLookup → BlockStarts
unfolding heads
compute_block_starts c none = record { block_starts = c.possible_time_slot_ids; degraded = false }
compute_block_starts c (some lookup) =
    elim (find_contiguous_slots c.possible_time_slot_ids c.session_duration lookup) [
      | [] ↦ record {
        block_starts = c.possible_time_slot_ids;
        degraded = ltb 0 (length c.possible_time_slot_ids);
      }
      | block ∷ blocks ↦ record { block_starts = heads (block ∷ blocks); degraded = false }
    ]

-- `candidate.siblingOfferingIds.length > 1 ? candidate.lecturerPool : candidate.lecturerIds`
abbrev pub lecturer_ids_for_ssa : PreGaCandidate → List ℕ
lecturer_ids_for_ssa c =
    if ltb 1 (length c.sibling_offering_ids) then c.lecturer_pool else c.lecturer_ids

-- The node of the session with index `i`.
abbrev pub session_node : PreGaCandidate → ℕ → SessionNode
session_node c i = record {
  session_id = c.offering_id * 100 + i;
  offering_id = c.offering_id;
  session_index = i;
  room_id = c.room_id;
  lecturer_ids = lecturer_ids_for_ssa c;
}

-- The four collections that `buildBipartiteGraph` fills.
record Building : Type 0 where
  sessions : List SessionNode
  slot_id_set : Set ℕ
  adjacency : Adjacency
  degraded_offerings : Set ℕ

add_session : PreGaCandidate → List ℕ → ℕ → Building → Building
add_session c starts i b = record {
  sessions = b.sessions ++ session_node c i ∷ [];
  slot_id_set = Set.add_all b.slot_id_set starts;
  adjacency = Map.set (c.offering_id * 100 + i) (Set.from_list starts) b.adjacency;
  degraded_offerings = b.degraded_offerings;
}

-- `for (let i = …; i < candidate.parallelSessionCount; i++)`, with `left` rounds to go.
add_sessions : PreGaCandidate → List ℕ → ℕ → ℕ → Building → Building
unfolding add_session
add_sessions c starts zero i b = b
add_sessions c starts (suc left) i b = add_sessions c starts left (i + 1) (add_session c starts i b)

add_candidate : Option SlotLookup → PreGaCandidate → Building → Building
unfolding add_sessions compute_block_starts
add_candidate lookup c b =
    let found = compute_block_starts c lookup in
    let marked =
      if found.degraded then Set.add c.offering_id b.degraded_offerings else b.degraded_offerings in
    add_sessions c found.block_starts c.parallel_session_count 0
      (record b { degraded_offerings = marked })

add_candidates : Option SlotLookup → List PreGaCandidate → Building → Building
unfolding add_candidate
add_candidates lookup [] b = b
add_candidates lookup (c ∷ cs) b = add_candidates lookup cs (add_candidate lookup c b)

unfoldable pub build_bipartite_graph : List PreGaCandidate → Option (List TimeSlot) → BipartiteGraph
unfolding add_candidates
build_bipartite_graph candidates all_time_slots =
    let lookup : Option SlotLookup = elim all_time_slots [
      | none ↦ none
      | some slots ↦ some (build_slot_lookup slots)
    ] in
    let b =
      add_candidates lookup candidates
        (record { sessions = []; slot_id_set = []; adjacency = []; degraded_offerings = [] }) in
    record {
      sessions = b.sessions;
      slots = map (λ id. record { slot_id = id }) b.slot_id_set;
      adjacency = b.adjacency;
      degraded_offerings = b.degraded_offerings;
    }
