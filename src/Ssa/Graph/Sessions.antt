-- ===== src/Ssa/Graph/Sessions.antt =====
-- The session nodes of the graph: how many, whose, and under which ids.

use ga_scheduler_v.Base.{
  ℕ, zero, suc, ◌+◌, ◌*◌, ◌≤◌, ◌<◌, ◌≡◌, ◌≢◌, refl, Option, List, [], ◌∷◌, ◌++◌, append-nil,
  append_assoc, length, length-append, sum_by, flat_map, All, Distinct, Apart, Distinct-append,
  All-append, All-tabulate, All_get, Memᴰ, Memᴰ-flat_map, ap, arith,
}
use ga_scheduler_v.Types.{TimeSlot, PreGaCandidate}
use ga_scheduler_v.Slots.{SlotLookup}
use ga_scheduler_v.Ssa.Graph.{
  SessionNode, session_node, Building, add_sessions, compute_block_starts, add_candidate,
  add_candidates, build_bipartite_graph,
}

-- The nodes with the indices from `i` on, `left` of them.
abbrev pub nodes_from : PreGaCandidate → ℕ → ℕ → List SessionNode
nodes_from c zero i = []
nodes_from c (suc left) i = session_node c i ∷ nodes_from c left (i + 1)

-- The nodes of a candidate: one for each parallel session.
abbrev pub nodes_of : PreGaCandidate → List SessionNode
nodes_of c = nodes_from c c.parallel_session_count 0

sessions-add_sessions :
    (c : PreGaCandidate) (starts : List ℕ) (left i : ℕ) (b : Building)
    → (add_sessions c starts left i b).sessions ≡ b.sessions ++ nodes_from c left i
unfolding add_sessions
sessions-add_sessions c starts zero i b = simp append-nil
sessions-add_sessions c starts (suc left) i b =
    simp (sessions-add_sessions c starts left (i + 1), append_assoc)

sessions-add_candidate :
    (lookup : Option SlotLookup) (c : PreGaCandidate) (b : Building)
    → (add_candidate lookup c b).sessions ≡ b.sessions ++ nodes_of c
unfolding add_candidate
sessions-add_candidate lookup c b =
    sessions-add_sessions c (compute_block_starts c lookup).block_starts c.parallel_session_count 0
      _

sessions-add_candidates :
    (lookup : Option SlotLookup) (cs : List PreGaCandidate) (b : Building)
    → (add_candidates lookup cs b).sessions ≡ b.sessions ++ flat_map nodes_of cs
unfolding add_candidates
sessions-add_candidates lookup [] b = simp append-nil
sessions-add_candidates lookup (c ∷ cs) b = simp (
  sessions-add_candidates lookup cs (add_candidate lookup c b),
  sessions-add_candidate,
  append_assoc,
)

-- The graph has, candidate by candidate, one node for each parallel session.
pub sessions_lem :
    (cs : List PreGaCandidate) (slots : Option (List TimeSlot))
    → (build_bipartite_graph cs slots).sessions ≡ flat_map nodes_of cs
unfolding build_bipartite_graph
sessions_lem cs slots = sessions-add_candidates _ cs _

length-nodes_from : (c : PreGaCandidate) (left i : ℕ) → length (nodes_from c left i) ≡ left
length-nodes_from c zero i = refl
length-nodes_from c (suc left) i = omega (arith, length-nodes_from c left (i + 1))

length-nodes :
    (cs : List PreGaCandidate)
    → length (flat_map nodes_of cs) ≡ sum_by (λ (c : PreGaCandidate). c.parallel_session_count) cs
length-nodes [] = refl
length-nodes (c ∷ cs) = omega (
  arith,
  length-append (nodes_of c) (flat_map nodes_of cs),
  length-nodes_from c c.parallel_session_count 0,
  length-nodes cs,
)

-- The graph has as many session nodes as the candidates have parallel sessions together.
pub length-sessions :
    (cs : List PreGaCandidate) (slots : Option (List TimeSlot))
    → length (build_bipartite_graph cs slots).sessions
      ≡ sum_by (λ (c : PreGaCandidate). c.parallel_session_count) cs
length-sessions cs slots = rw (sessions_lem cs slots) (length-nodes cs)

abbrev id_of : SessionNode → ℕ
id_of s = s.session_id

-- A node of the candidate, by its index.
abbrev IsNodeOf : PreGaCandidate → ℕ → SessionNode → Type 0
IsNodeOf c i s =
    (i ≤ s.session_index)
    × (s.session_index < c.parallel_session_count)
    × (s ≡ session_node c s.session_index)

nodes_from-IsNodeOf :
    (c : PreGaCandidate) (left i low : ℕ)
    → low ≤ i
    → i + left ≡ c.parallel_session_count
    → All (IsNodeOf c low) (nodes_from c left i)
nodes_from-IsNodeOf c zero i low le e = tt
nodes_from-IsNodeOf c (suc left) i low le e = (
  (omega arith, omega arith, refl),
  nodes_from-IsNodeOf c left (i + 1) low (omega arith) (omega arith),
)

nodes_from-Distinct : (c : PreGaCandidate) (left i : ℕ) → Distinct id_of (nodes_from c left i)
nodes_from-Distinct c zero i = tt
nodes_from-Distinct c (suc left) i =
    (apart left (i + 1) (omega arith), nodes_from-Distinct c left (i + 1))
  where
    apart : (n k : ℕ) → i < k → All (λ y. c.offering_id * 100 + i ≢ y.session_id) (nodes_from c n k)
    apart zero k lt = tt
    apart (suc n) k lt = (omega arith, apart n (k + 1) (omega arith))

abbrev IsSmall : PreGaCandidate → Type 0
IsSmall c = c.parallel_session_count ≤ 100

-- The ids of two offerings' sessions differ while both have at most a hundred.
nodes_of-Apart :
    (c d : PreGaCandidate) (s : SessionNode)
    → c.offering_id ≢ d.offering_id
    → IsSmall c
    → IsSmall d
    → IsNodeOf c 0 s
    → All (λ y. s.session_id ≢ y.session_id) (nodes_of d)
nodes_of-Apart c d s ne small_c small_d (_, lt, e) =
    go (nodes_of d) (nodes_from-IsNodeOf d d.parallel_session_count 0 0 (omega arith) (omega arith))
  where
    named : s.session_id ≡ c.offering_id * 100 + s.session_index
    named = ap id_of e

    go : (l : List SessionNode) → All (IsNodeOf d 0) l → All (λ y. s.session_id ≢ y.session_id) l
    go [] h = tt
    go (y ∷ l) h = (
      let e' : y.session_id ≡ d.offering_id * 100 + y.session_index = ap id_of h.0.2 in
          λ same. ne (omega (arith, h.0.1, named)),
      go l h.1,
    )

nodes_of-Apart-All :
    (c : PreGaCandidate) (cs : List PreGaCandidate) (s : SessionNode)
    → Apart (λ (d : PreGaCandidate). d.offering_id) c cs
    → IsSmall c
    → All IsSmall cs
    → IsNodeOf c 0 s
    → All (λ y. s.session_id ≢ y.session_id) (flat_map nodes_of cs)
nodes_of-Apart-All c [] s ne small smalls own = tt
nodes_of-Apart-All c (d ∷ cs) s ne small smalls own =
    All-append (λ y. s.session_id ≢ y.session_id) (nodes_of d) (flat_map nodes_of cs)
      (nodes_of-Apart c d s ne.0 small smalls.0 own)
      (nodes_of-Apart-All c cs s ne.1 small smalls.1 own)

nodes-Distinct :
    (cs : List PreGaCandidate)
    → Distinct (λ (c : PreGaCandidate). c.offering_id) cs
    → All IsSmall cs
    → Distinct id_of (flat_map nodes_of cs)
nodes-Distinct [] distinct small = tt
nodes-Distinct (c ∷ cs) distinct small =
    Distinct-append id_of (nodes_of c) (flat_map nodes_of cs)
      (nodes_from-Distinct c c.parallel_session_count 0) (nodes-Distinct cs distinct.1 small.1)
      (All-tabulate (λ x. Apart id_of x (flat_map nodes_of cs)) (nodes_of c)
        (λ s m. nodes_of-Apart-All c cs s distinct.0 small.0 small.1 (
          All_get (IsNodeOf c 0) (nodes_of c)
            (nodes_from-IsNodeOf c c.parallel_session_count 0 0 (omega arith) (omega arith)) s m)))

-- The session ids of the graph, `offeringId * 100 + sessionIndex`, are pairwise different if the
-- candidates have pairwise different offering ids and at most a hundred parallel sessions each.
pub sessions-Distinct :
    (cs : List PreGaCandidate) (slots : Option (List TimeSlot))
    → Distinct (λ (c : PreGaCandidate). c.offering_id) cs
    → All (λ (c : PreGaCandidate). c.parallel_session_count ≤ 100) cs
    → Distinct (λ (s : SessionNode). s.session_id) (build_bipartite_graph cs slots).sessions
sessions-Distinct cs slots distinct small =
    rw (sessions_lem cs slots) (nodes-Distinct cs distinct small)

mem-nodes_from :
    (c : PreGaCandidate) (left i k : ℕ)
    → k < left
    → Memᴰ (session_node c (i + k)) (nodes_from c left i)
mem-nodes_from c zero i k lt = absurd (omega arith)
mem-nodes_from c (suc left) i zero lt =
    let e : i + 0 ≡ i = omega arith in Memᴰ.head (ap (session_node c) e)
mem-nodes_from c (suc left) i (suc k) lt =
    let e : i + suc k ≡ (i + 1) + k = omega arith in
    Memᴰ.tail (rw e (mem-nodes_from c left (i + 1) k (omega arith)))

-- Two candidates with neighbouring offering ids of which the first has more than a hundred parallel
-- sessions give two sessions of different offerings the same session id.
pub session_ids_collide :
    (cs : List PreGaCandidate) (slots : Option (List TimeSlot)) (c d : PreGaCandidate)
    → Memᴰ c cs
    → Memᴰ d cs
    → d.offering_id ≡ c.offering_id + 1
    → 100 < c.parallel_session_count
    → 0 < d.parallel_session_count
    → (s t : SessionNode) × Memᴰ s (build_bipartite_graph cs slots).sessions
      × Memᴰ t (build_bipartite_graph cs slots).sessions
      × (s.session_id ≡ t.session_id)
      × (s.offering_id ≢ t.offering_id)
session_ids_collide cs slots c d mc md next many some_session = (
  session_node c (0 + 100),
  session_node d (0 + 0),
  listed c (0 + 100) mc (mem-nodes_from c c.parallel_session_count 0 100 many),
  listed d (0 + 0) md (mem-nodes_from d d.parallel_session_count 0 0 some_session),
  omega arith,
  omega arith,
)
  where
    listed :
        (e : PreGaCandidate) (i : ℕ)
        → Memᴰ e cs
        → Memᴰ (session_node e i) (nodes_of e)
        → Memᴰ (session_node e i) (build_bipartite_graph cs slots).sessions
    listed e i me mi =
        rw (sessions_lem cs slots) ((Memᴰ-flat_map nodes_of cs (session_node e i)).1 (e, me, mi))
