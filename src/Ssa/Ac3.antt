-- ===== src/Ssa/Ac3.antt =====
-- ssa/ac3.ts, runAC3. The `Set`s that the source shrinks in place are the entries of `adjacency`,
-- which is a state here. The worklist is a stack: its head is the pair that `pop` returns. The text
-- of `reason` is left out.
pub mod Steps
pub mod Termination
pub mod Soundness
pub mod Initial
use ga_scheduler_v.Base.{
  ℕ, zero, suc, ◌+◌, ◌*◌, Bool, true, false, not, ◌&&◌, ◌||◌, Option, none, some, List, [], ◌∷◌,
  ◌++◌, map, filter, includes, flat_map, sum_by, max_by, length, ltb, if◌then◌else◌, ◌==◌, nat_eq,
  pair_eq,
}
use ga_scheduler_v.Base.Map
use ga_scheduler_v.Base.Map.{Map}
use ga_scheduler_v.Base.Set
use ga_scheduler_v.Base.Set.{Set}
use ga_scheduler_v.Ssa.Graph.{SessionNode, Adjacency, BipartiteGraph}

pub data Ac3Result : Type 0 where
  consistent : Ac3Result
  empty_domain : (session_id offering_id : ℕ) → Ac3Result

abbrev pub Index : Type 0
Index = Map ℕ (List SessionNode)

abbrev pub Arc : Type 0
Arc = ℕ × ℕ

-- `index.get(key)!.push(session)`, after the entry was made if there was none.
push_session : ℕ → SessionNode → Index → Index
push_session key s index = Map.set key (Map.get_or key [] index ++ s ∷ []) index

index_rooms : Index → List SessionNode → Index
unfolding push_session
index_rooms index [] = index
index_rooms index (s ∷ rest) =
    index_rooms (elim s.room_id [ none ↦ index | some r ↦ push_session r s index ]) rest

pub room_to_sessions : List SessionNode → Index
unfolding index_rooms
room_to_sessions = index_rooms []

push_for_all : List ℕ → SessionNode → Index → Index
unfolding push_session
push_for_all [] s index = index
push_for_all (l ∷ ls) s index = push_for_all ls s (push_session l s index)

index_lecturers : Index → List SessionNode → Index
unfolding push_for_all
index_lecturers index [] = index
index_lecturers index (s ∷ rest) = index_lecturers (push_for_all s.lecturer_ids s index) rest

pub lecturer_to_sessions : List SessionNode → Index
unfolding index_lecturers
lecturer_to_sessions = index_lecturers []

-- isSiblingSessionPair
abbrev pub is_sibling_session_pair : SessionNode → SessionNode → Bool
is_sibling_session_pair a b =
    a.offering_id == b.offering_id && not (a.session_index == b.session_index)

-- `addedPairs` (its keys `${a}-${b}` are pairs here) and `worklist`.
pub record Pairs : Type 0 where
  pub added_pairs : Set Arc
  pub worklist : List Arc

-- addPair
add_pair : ℕ → ℕ → Pairs → Pairs
add_pair a b p =
    if Set.has (a, b) p.added_pairs
    then p
    else record { added_pairs = Set.add (a, b) p.added_pairs; worklist = (a, b) ∷ p.worklist }

-- The bodies of the loops over `i < j`: both arcs, and for lecturers not between siblings.
room_pair : SessionNode → SessionNode → Pairs → Pairs
unfolding add_pair
room_pair a b p = add_pair b.session_id a.session_id (add_pair a.session_id b.session_id p)

lecturer_pair : SessionNode → SessionNode → Pairs → Pairs
unfolding room_pair
lecturer_pair a b p = if is_sibling_session_pair a b then p else room_pair a b p

module _ (pair : SessionNode → SessionNode → Pairs → Pairs) where
  pair_with : SessionNode → List SessionNode → Pairs → Pairs
  pair_with a [] p = p
  pair_with a (b ∷ rest) p = pair_with a rest (pair a b p)

  pair_all : List SessionNode → Pairs → Pairs
  unfolding pair_with
  pair_all [] p = p
  pair_all (a ∷ rest) p = pair_all rest (pair_with a rest p)

  pair_buckets : Index → Pairs → Pairs
  unfolding pair_all
  pair_buckets [] p = p
  pair_buckets ((key, bucket) ∷ index) p = pair_buckets index (pair_all bucket p)

pub initial_worklist : List SessionNode → List Arc
unfolding pair_buckets room_pair lecturer_pair room_to_sessions lecturer_to_sessions
initial_worklist sessions =
    (pair_buckets lecturer_pair (lecturer_to_sessions sessions) (
      pair_buckets room_pair (room_to_sessions sessions)
        (record { added_pairs = []; worklist = [] }))).worklist

-- shareRoom: both rooms are known and equal.
abbrev pub share_room : SessionNode → SessionNode → Bool
share_room a b = elim a.room_id [
  | none ↦ false
  | some r ↦ elim b.room_id [ none ↦ false | some q ↦ r == q ]
]

-- `sharedLecturers.length > 0`
abbrev pub share_lecturer : SessionNode → SessionNode → Bool
share_lecturer a b =
    not (is_sibling_session_pair a b)
    && ltb 0 (length (filter (λ id. includes b.lecturer_ids id) a.lecturer_ids))

abbrev pub has_constraint : SessionNode → SessionNode → Bool
has_constraint a b = share_room a b || share_lecturer a b

-- The body of the loop over `domainI`: whether `slot` goes to `toRemove`.
pub is_removed : Set ℕ → ℕ → Bool
is_removed domain_j slot =
    let has_consistent_value =
      ltb 1 (length domain_j) || (length domain_j == 1 && not (Set.has slot domain_j)) in
    not has_consistent_value && (length domain_j == 1 && Set.has slot domain_j)

pub delete_all : List ℕ → Set ℕ → Set ℕ
delete_all [] domain = domain
delete_all (slot ∷ slots) domain = delete_all slots (Set.delete slot domain)

-- What one round of the loop does after `pop`.
pub data Revision : Type 0 where
  unchanged : Revision
  emptied : SessionNode → Adjacency → Revision
  revised : Adjacency → List Arc → Revision

module _ (sessions : List SessionNode) where
  -- sessionMap
  pub session_map : Map ℕ SessionNode
  session_map = Map.from_list (map (λ s. (s.session_id, s)) sessions)

  -- relatedSessions
  pub related_sessions : ℕ → SessionNode → List SessionNode
  unfolding room_to_sessions lecturer_to_sessions
  related_sessions xi s =
      filter (λ t. not (t.session_id == xi))
        (elim s.room_id [ none ↦ [] | some r ↦ Map.get_or r [] (room_to_sessions sessions) ]
          ++ filter (λ t. not (is_sibling_session_pair s t))
              (flat_map (λ id. Map.get_or id [] (lecturer_to_sessions sessions)) s.lecturer_ids))

  -- The removal from `domainI`, and what follows it.
  pub shrink : ℕ → SessionNode → Set ℕ → Set ℕ → Adjacency → Revision
  unfolding is_removed delete_all related_sessions
  shrink xi s domain_i domain_j adjacency =
      let to_remove = filter (is_removed domain_j) domain_i in
      elim to_remove [
        | [] ↦ unchanged
        | slot ∷ slots ↦
            let rest = delete_all (slot ∷ slots) domain_i in
            let after = Map.set xi rest adjacency in
            elim rest [
              | [] ↦ emptied s after
              | _ ∷ _ ↦ revised after (map (λ t. (t.session_id, xi)) (related_sessions xi s))
            ]
      ]

  -- The arcs are ids of sessions, so that `sessionMap.get` finds both.
  pub revise : Arc → Adjacency → Revision
  unfolding shrink session_map
  revise (xi, xj) adjacency = elim (Map.get xi adjacency) [
    | none ↦ unchanged
    | some domain_i ↦ elim (Map.get xj adjacency) [
      | none ↦ unchanged
      | some domain_j ↦ elim (Map.get xi session_map) [
        | none ↦ unchanged
        | some session_i ↦ elim (Map.get xj session_map) [
          | none ↦ unchanged
          | some session_j ↦
              if has_constraint session_i session_j
              then shrink xi session_i domain_i domain_j adjacency
              else unchanged
        ]
      ]
    ]
  ]

-- The arcs are pushed in order, so that the last of them is popped first.
pub push_arcs : List Arc → List Arc → List Arc
push_arcs [] worklist = worklist
push_arcs (arc ∷ arcs) worklist = push_arcs arcs (arc ∷ worklist)

pub data Outcome : Type 0 where
  finished : Ac3Result → Adjacency → Outcome
  out_of_fuel : Outcome

module _ (sessions : List SessionNode) where
  pub process : ℕ → List Arc → Adjacency → Outcome
  unfolding revise push_arcs
  process fuel [] adjacency = finished consistent adjacency
  process zero (arc ∷ rest) adjacency = out_of_fuel
  process (suc fuel) (arc ∷ rest) adjacency = elim (revise sessions arc adjacency) [
    | unchanged ↦ process fuel rest adjacency
    | emptied s after ↦ finished (empty_domain arc.0 s.offering_id) after
    | revised after arcs ↦ process fuel (push_arcs arcs rest) after
  ]

-- All slots of all domains, and the most arcs that one revision can push.
abbrev pub domain_total : Adjacency → ℕ
domain_total = sum_by (λ entry. length entry.1)

pub most_related : List SessionNode → ℕ
unfolding related_sessions
most_related sessions = max_by (λ s. length (related_sessions sessions s.session_id s)) sessions

-- Each revision that pushes arcs removes a slot, so that this many rounds are enough.
pub enough_fuel : List SessionNode → Adjacency → ℕ
unfolding initial_worklist most_related
enough_fuel sessions adjacency =
    length (initial_worklist sessions) + domain_total adjacency * (most_related sessions + 1)

unfoldable pub run_ac3 : BipartiteGraph → Outcome
unfolding process enough_fuel
run_ac3 graph =
    process graph.sessions (enough_fuel graph.sessions graph.adjacency)
      (initial_worklist graph.sessions) graph.adjacency
