-- ===== src/Tests/Ssa.antt =====
-- Two offerings in one room, one of them locked, and their graph.
use mathlib.Core.List.Memᴰ
use ga_scheduler_v.Base.{
  ℕ, ◌≡◌, ◌≢◌, ◌⊎◌, ap, refl, Bool, true, false, none, some, List, [], ◌∷◌, Memᴰ, All, Distinct,
  length, sum_by, if◌then◌else◌, ◌==◌, nat_eq, arith, inl, inr,
}
use ga_scheduler_v.Base.Map
use ga_scheduler_v.Types.{PreGaCandidate}
use ga_scheduler_v.Ssa.Exclusion.{
  Survives, Descends, run_static_exclusion, run_static_exclusion-Pruned,
  run_static_exclusion_starves,
}
use ga_scheduler_v.Ssa.Graph.{SessionNode, Adjacency, BipartiteGraph, build_bipartite_graph}
use ga_scheduler_v.Ssa.Graph.Sessions.{length-sessions, sessions-Distinct, session_ids_collide}
use ga_scheduler_v.Ssa.Ac3.{Ac3Result, consistent, finished, run_ac3}
use ga_scheduler_v.Ssa.Ac3.Termination.{run_ac3-Finishes}
use ga_scheduler_v.Ssa.Ac3.Soundness.{Fits, Respects, run_ac3_sound}

abbrev candidate : ℕ → Bool → List ℕ → ℕ → PreGaCandidate
candidate offering locked slots count = record {
  offering_id = offering;
  course_id = offering;
  room_id = some 5;
  lecturer_ids = offering ∷ [];
  effective_student_count = 30;
  parallel_session_count = count;
  session_duration = 1;
  possible_time_slot_ids = slots;
  possible_room_ids = none;
  is_fixed_room = locked;
  fixed_time_slot_ids = none;
  parent_offering_id = none;
  sibling_offering_ids = offering ∷ [];
  lecturer_pool = offering ∷ [];
  sibling_lecturer_groups = (offering ∷ []) ∷ [];
  longest_contiguous_run = 1;
  fragmentation_required = false;
}

abbrev locked : PreGaCandidate
locked = candidate 1 true (1 ∷ 2 ∷ []) 1

abbrev free : PreGaCandidate
free = candidate 2 false (1 ∷ 2 ∷ 3 ∷ []) 1

abbrev narrow : PreGaCandidate
narrow = candidate 2 false (1 ∷ 2 ∷ []) 1

abbrev pruned_free : PreGaCandidate
pruned_free = candidate 2 false (3 ∷ []) 1

pruned : (run_static_exclusion (free ∷ locked ∷ [])).pruned_candidates ≡ locked ∷ pruned_free ∷ []
unfolding run_static_exclusion
pruned = refl

run_static_exclusion-Pruned_example :
    (length (run_static_exclusion (free ∷ locked ∷ [])).pruned_candidates ≡ 2)
    × All
        (Survives
          (free ∷ locked ∷ [])
          (run_static_exclusion (free ∷ locked ∷ [])).pruned_candidates)
        (free ∷ locked ∷ [])
    × All
        (Descends (free ∷ locked ∷ []))
        (run_static_exclusion (free ∷ locked ∷ [])).pruned_candidates
run_static_exclusion-Pruned_example = run_static_exclusion-Pruned (free ∷ locked ∷ [])

-- One slot would be enough for the locked candidate, and the other one is blocked all the same.
run_static_exclusion_starves_example :
    Memᴰ
      (record narrow { possible_time_slot_ids = [] })
      (run_static_exclusion (locked ∷ narrow ∷ [])).pruned_candidates
run_static_exclusion_starves_example =
    run_static_exclusion_starves (locked ∷ narrow ∷ []) locked narrow (Memᴰ.head refl) refl refl
      (λ slot m. m) (Memᴰ.tail (Memᴰ.head refl)) refl

length-sessions_example :
    length (build_bipartite_graph (locked ∷ free ∷ []) none).sessions
    ≡ sum_by (λ (c : PreGaCandidate). c.parallel_session_count) (locked ∷ free ∷ [])
length-sessions_example = length-sessions (locked ∷ free ∷ []) none

sessions-Distinct_example :
    Distinct
      (λ (s : SessionNode). s.session_id)
      (build_bipartite_graph (locked ∷ free ∷ []) none).sessions
sessions-Distinct_example = sessions-Distinct (locked ∷ free ∷ []) none (omega arith) (omega arith)

abbrev huge : PreGaCandidate
huge = candidate 1 false (1 ∷ []) 101

session_ids_collide_example :
    (s t : SessionNode) × Memᴰ s (build_bipartite_graph (huge ∷ free ∷ []) none).sessions
    × Memᴰ t (build_bipartite_graph (huge ∷ free ∷ []) none).sessions
    × (s.session_id ≡ t.session_id)
    × (s.offering_id ≢ t.offering_id)
session_ids_collide_example =
    session_ids_collide (huge ∷ free ∷ []) none huge free (Memᴰ.head refl)
      (Memᴰ.tail (Memᴰ.head refl)) (omega arith) (omega arith) (omega arith)

abbrev node : ℕ → SessionNode
node offering = record {
  session_id = offering;
  offering_id = offering;
  session_index = 0;
  room_id = some 5;
  lecturer_ids = offering ∷ [];
}

-- Session 1 has one slot, which AC-3 takes from session 2.
abbrev graph : BipartiteGraph
graph = record {
  sessions = node 1 ∷ node 2 ∷ [];
  slots = record { slot_id = 1 } ∷ record { slot_id = 2 } ∷ [];
  adjacency = (1, 1 ∷ []) ∷ (2, 1 ∷ 2 ∷ []) ∷ [];
  degraded_offerings = [];
}

abbrev solution : ℕ → ℕ
solution id = if id == 1 then 1 else 2

filtered : run_ac3 graph ≡ finished consistent ((1, 1 ∷ []) ∷ (2, 2 ∷ []) ∷ [])
unfolding run_ac3
filtered = refl

solution-Fits : Fits solution graph.adjacency
solution-Fits id domain h = elim (Memᴰ.cases_cons (Map.mem_of_get id graph.adjacency domain h)) [
  | inl e ↦ rw (ap first e, ap second e) (Memᴰ.head refl)
  | inr t ↦
      rw (ap first (Memᴰ.eq_of_singleton t), ap second (Memᴰ.eq_of_singleton t))
        (Memᴰ.tail (Memᴰ.head refl))
]
  where
    first : ℕ × List ℕ → ℕ
    first p = p.0

    second : ℕ × List ℕ → List ℕ
    second p = p.1

solution-Respects : Respects solution graph.sessions
solution-Respects s t ms mt ne c = elim (named s ms) [
  | inl a ↦ elim (named t mt) [
    | inl b ↦ absurd (ne (omega arith))
    | inr b ↦ rw (a, b) (λ e. omega arith)
  ]
  | inr a ↦ elim (named t mt) [
    | inl b ↦ rw (a, b) (λ e. omega arith)
    | inr b ↦ absurd (ne (omega arith))
  ]
]
  where
    id : SessionNode → ℕ
    id u = u.session_id

    named : (u : SessionNode) → Memᴰ u graph.sessions → (u.session_id ≡ 1) ⊎ (u.session_id ≡ 2)
    named u m = elim (Memᴰ.cases_cons m) [
      | inl e ↦ inl (ap id e)
      | inr r ↦ inr (ap id (Memᴰ.eq_of_singleton r))
    ]

run_ac3_sound_example :
    (after : Adjacency) × (run_ac3 graph ≡ finished consistent after) × Fits solution after
run_ac3_sound_example =
    run_ac3_sound graph solution (omega arith) (omega arith) solution-Respects solution-Fits

run_ac3-Finishes_example :
    (r : Ac3Result) × (after : Adjacency) × (run_ac3 graph ≡ finished r after)
run_ac3-Finishes_example = run_ac3-Finishes graph
