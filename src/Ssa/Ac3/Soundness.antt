-- ===== src/Ssa/Ac3/Soundness.antt =====
-- AC-3 removes no slot that some solution uses.
use mathlib.Core.List.Memᴰ
use ga_scheduler_v.Base.{
  Distinct, ℕ, zero, suc, ◌≡◌, ◌≢◌, refl, sym, subst, true, not, some, List, [], ◌∷◌, map, Memᴰ,
  List-cases, filter, Memᴰ-filter, All, All-map, Bool-cases, ◌==◌, nat_eq, nat_beq_iff, inl, inr,
  arith,
}
use ga_scheduler_v.Base.Map
use ga_scheduler_v.Base.Set
use ga_scheduler_v.Base.Set.{Set}
use ga_scheduler_v.Ssa.Graph.{SessionNode, Adjacency, BipartiteGraph}
use ga_scheduler_v.Ssa.Ac3.{
  consistent, Arc, has_constraint, is_removed, delete_all, Revision, unchanged, emptied, revised,
  related_sessions, shrink, revise, push_arcs, Outcome, finished, out_of_fuel, process, enough_fuel,
  initial_worklist, run_ac3,
}
use ga_scheduler_v.Ssa.Ac3.Initial.{IsArc, id_of, initial_worklist-IsArc}
use ga_scheduler_v.Ssa.Ac3.Termination.{run_ac3-Finishes}
use ga_scheduler_v.Ssa.Ac3.Steps.{Revision-cases, revise_ind}

-- `solution` gives each session a slot of its domain.
abbrev pub Fits : (ℕ → ℕ) → Adjacency → Type 0
Fits solution adjacency =
    (id : ℕ) (domain : Set ℕ) → Map.get id adjacency ≡ some domain → Memᴰ (solution id) domain

-- Two different sessions that share a room or a lecturer have different slots.
abbrev pub Respects : (ℕ → ℕ) → List SessionNode → Type 0
Respects solution sessions =
    (s t : SessionNode)
    → Memᴰ s sessions
    → Memᴰ t sessions
    → s.session_id ≢ t.session_id
    → has_constraint s t ≡ true
    → solution s.session_id ≢ solution t.session_id

mem-delete_all :
    (xs : List ℕ) (d : Set ℕ) (a : ℕ) → Memᴰ a d → ¬ Memᴰ a xs → Memᴰ a (delete_all xs d)
unfolding delete_all
mem-delete_all [] d a m n = m
mem-delete_all (x ∷ xs) d a m n =
    mem-delete_all xs (Set.delete x d) a
      ((Set.Memᴰ-delete x d a).1 (
        m,
        elim (Bool-cases (a == x)) [
          | inl same ↦ absurd (n (Memᴰ.head ((nat_beq_iff a x).0 same)))
          | inr other ↦ other
        ],
      ))
      (λ t. n (Memᴰ.tail t))

-- A slot is removed only if it is the one slot of the other domain.
is_removed-only :
    (dj : Set ℕ) (slot other : ℕ) → is_removed dj slot ≡ true → Memᴰ other dj → other ≡ slot
unfolding is_removed
is_removed-only [] slot other h m = absurd (Memᴰ.not-nil m)
is_removed-only (x ∷ []) slot other h m =
    let only : other ≡ x = Memᴰ.eq_of_singleton m in let e : x ≡ slot = ground arith in cc
is_removed-only (x ∷ y ∷ dj) slot other h m = ground arith

push_arcs-All :
    (arcs worklist : List Arc)
    → All IsArc arcs
    → All IsArc worklist
    → All IsArc (push_arcs arcs worklist)
unfolding push_arcs
push_arcs-All [] worklist h k = k
push_arcs-All (arc ∷ arcs) worklist h k = push_arcs-All arcs (arc ∷ worklist) h.1 (h.0, k)

abbrev Succeeds : (ℕ → ℕ) → Outcome → Type 0
Succeeds solution (finished r after) = (r ≡ consistent) × Fits solution after
Succeeds solution out_of_fuel = Unit

module _ (sessions : List SessionNode) (solution : ℕ → ℕ)
    (respects : Respects solution sessions) where
  -- A revision leaves the solution in the domains, and empties none of them.
  abbrev Keeps : Revision → Type 0
  Keeps unchanged = Unit
  Keeps (emptied s after) = ⊥
  Keeps (revised after arcs) = Fits solution after × All IsArc arcs

  related-IsArc :
      (xi : ℕ) (s : SessionNode)
      → All IsArc (map (λ t. (t.session_id, xi)) (related_sessions sessions xi s))
  unfolding related_sessions
  related-IsArc xi s =
      All-map IsArc (λ (t : SessionNode). (t.session_id, xi)) (related_sessions sessions xi s)
        (λ t m e.
          let kept = ((Memᴰ-filter (λ (u : SessionNode). not (u.session_id == xi)) _ t).0 m).1 in
          let same = (nat_beq_iff t.session_id xi).1 e in
          let kept' : not true ≡ true = rw same at kept in cc)

  Fits-set :
      (xi : ℕ) (rest : Set ℕ) (adjacency : Adjacency)
      → Fits solution adjacency
      → Memᴰ (solution xi) rest
      → Fits solution (Map.set xi rest adjacency)
  Fits-set xi rest adjacency fits m id domain h = elim (Bool-cases (xi == id)) [
    | inl same ↦
        let e : some rest ≡ some domain = rw same at (rw (Map.get-set xi id rest adjacency) at h) in
        let e' : rest ≡ domain = cc in
        rw (← (nat_beq_iff xi id).0 same) (subst (Memᴰ (solution xi)) e' m)
    | inr other ↦ fits id domain (rw other at (rw (Map.get-set xi id rest adjacency) at h))
  ]

  shrink-Keeps :
      (xi xj : ℕ) (s t : SessionNode) (di dj : Set ℕ) (adjacency : Adjacency)
      → xi ≢ xj
      → Fits solution adjacency
      → Memᴰ s sessions × (s.session_id ≡ xi)
      → Memᴰ t sessions × (t.session_id ≡ xj)
      → Map.get xi adjacency ≡ some di
      → Map.get xj adjacency ≡ some dj
      → has_constraint s t ≡ true
      → Keeps (shrink sessions xi s di dj adjacency)
  unfolding shrink
  shrink-Keeps xi xj s t di dj adjacency ne fits (ms, es) (mt, et) hi hj c =
      elim (List-cases (filter (is_removed dj) di)) [
        | inl none_removed ↦ rw (none_removed, shrink) tt
        | inr (slot, slots, e) ↦
            let stays : Memᴰ (solution xi) (delete_all (slot ∷ slots) di) =
              mem-delete_all (slot ∷ slots) di (solution xi) (fits xi di hi) (λ m.
                let removed : Memᴰ (solution xi) (filter (is_removed dj) di) = rw e m in
                let only =
                  is_removed-only dj (solution xi) (solution xj)
                    ((Memᴰ-filter (is_removed dj) di (solution xi)).0 removed).1 (fits xj dj hj) in
                let apart = respects s t ms mt (rw (es, et) ne) c in
                apart (rw (es, et) (sym only))) in
            elim (List-cases (delete_all (slot ∷ slots) di)) [
              | inl empty ↦ absurd (Memᴰ.not-nil (rw empty at stays))
              | inr (x, xs, e') ↦
                  rw (e, e', shrink)
                    (
                      Fits-set xi (delete_all (slot ∷ slots) di) adjacency fits stays,
                      related-IsArc xi s,
                    )
            ]
      ]

  revise-Keeps :
      (xi xj : ℕ) (adjacency : Adjacency)
      → xi ≢ xj
      → Fits solution adjacency
      → Keeps (revise sessions (xi, xj) adjacency)
  revise-Keeps xi xj adjacency ne fits =
      revise_ind sessions Keeps xi xj adjacency tt
        (λ s t di dj hs ht hi hj c. shrink-Keeps xi xj s t di dj adjacency ne fits hs ht hi hj c)

  process-Succeeds :
      (fuel : ℕ) (worklist : List Arc) (adjacency : Adjacency)
      → All IsArc worklist
      → Fits solution adjacency
      → Succeeds solution (process sessions fuel worklist adjacency)
  unfolding process
  process-Succeeds fuel [] adjacency arcs fits = (refl, fits)
  process-Succeeds zero (arc ∷ rest) adjacency arcs fits = tt
  process-Succeeds (suc fuel) ((xi, xj) ∷ rest) adjacency arcs fits =
      let keeps = revise-Keeps xi xj adjacency arcs.0 fits in
      elim (Revision-cases (revise sessions (xi, xj) adjacency)) [
        | inl e ↦ rw (e, process) (process-Succeeds fuel rest adjacency arcs.1 fits)
        | inr (inl (s, after, e)) ↦ absurd (rw e at keeps)
        | inr (inr (after, more, e)) ↦
            let (fits', more_arcs) = rw e at keeps in
            rw (e, process)
              (process-Succeeds fuel (push_arcs more rest) after
                (push_arcs-All more rest more_arcs arcs.1) fits')
      ]

run_ac3-Succeeds :
    (graph : BipartiteGraph) (solution : ℕ → ℕ)
    → Respects solution graph.sessions
    → All IsArc (initial_worklist graph.sessions)
    → Fits solution graph.adjacency
    → Succeeds solution (run_ac3 graph)
unfolding run_ac3
run_ac3-Succeeds graph solution respects arcs fits =
    process-Succeeds graph.sessions solution respects (enough_fuel graph.sessions graph.adjacency)
      (initial_worklist graph.sessions) graph.adjacency arcs fits

-- If the sessions can be given slots of their domains so that any two sessions that share a room or
-- a lecturer have different slots, then AC-3 reports the graph consistent, and every session keeps
-- its slot of that solution in its domain: the filter rejects no graph that has a solution. The
-- session ids are pairwise different, and no session lists a lecturer twice.
pub run_ac3_sound :
    (graph : BipartiteGraph) (solution : ℕ → ℕ)
    → Distinct id_of graph.sessions
    → All (λ (s : SessionNode). Distinct (λ (l : ℕ). l) s.lecturer_ids) graph.sessions
    → Respects solution graph.sessions
    → Fits solution graph.adjacency
    → (after : Adjacency) × (run_ac3 graph ≡ finished consistent after) × Fits solution after
run_ac3_sound graph solution distinct lecturers respects fits =
    let (r, after, e) = run_ac3-Finishes graph in
    let (ok, kept) = subst (Succeeds solution) e (
      run_ac3-Succeeds graph solution respects
        (initial_worklist-IsArc graph.sessions distinct lecturers) fits) in
    (after, rw ok at e, kept)
