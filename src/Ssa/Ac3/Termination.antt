-- ===== src/Ssa/Ac3/Termination.antt =====
-- The worklist loop of AC-3 ends: a revision that pushes arcs takes a slot out of some domain.

use ga_scheduler_v.Base.{
  ℕ, zero, suc, ◌+◌, ◌*◌, ◌≤◌, ◌<◌, ◌≡◌, refl, some, List, [], ◌∷◌, Memᴰ, List-cases, filter,
  Memᴰ-filter, max_by-get, length, length-map, nat_eq, inl, inr, arith,
}
use ga_scheduler_v.Base.Map
use ga_scheduler_v.Base.Set.{Set}
use ga_scheduler_v.Ssa.Graph.{SessionNode, Adjacency, BipartiteGraph}
use ga_scheduler_v.Ssa.Ac3.{
  Ac3Result, consistent, empty_domain, Arc, is_removed, delete_all, Revision, unchanged, emptied,
  revised, related_sessions, shrink, revise, push_arcs, Outcome, finished, process, domain_total,
  most_related, enough_fuel, initial_worklist, run_ac3,
}
use ga_scheduler_v.Ssa.Ac3.Steps.{
  Revision-cases, length-delete_all-lt, domain_total-set, length-push_arcs, revise_ind,
}

less-work :
    (t t' m arcs rest pushed fuel : ℕ)
    → pushed ≡ arcs + rest
    → t < t'
    → arcs ≤ m
    → suc rest + t' * (m + 1) ≤ suc fuel
    → pushed + t * (m + 1) ≤ fuel
less-work t t' m arcs rest pushed fuel e lt few le =
    let steps : suc t * (m + 1) ≤ t' * (m + 1) = grind arith in omega arith

module _ (sessions : List SessionNode) where
  -- A revision that goes on shrinks the domains and pushes no more arcs than the bound.
  abbrev Shrinks : Adjacency → Revision → Type 0
  Shrinks adjacency unchanged = Unit
  Shrinks adjacency (emptied s after) = Unit
  Shrinks adjacency (revised after arcs) =
      (domain_total after < domain_total adjacency) × (length arcs ≤ most_related sessions)

  related-le :
      (xi : ℕ) (s : SessionNode)
      → Memᴰ s sessions
      → s.session_id ≡ xi
      → length (related_sessions sessions xi s) ≤ most_related sessions
  unfolding most_related
  related-le xi s listed named =
      rw (← named)
        (max_by-get (λ t. length (related_sessions sessions t.session_id t)) sessions s listed)

  shrink-Shrinks :
      (xi : ℕ) (s : SessionNode) (di dj : Set ℕ) (adjacency : Adjacency)
      → Map.get xi adjacency ≡ some di
      → Memᴰ s sessions
      → s.session_id ≡ xi
      → Shrinks adjacency (shrink sessions xi s di dj adjacency)
  unfolding shrink
  shrink-Shrinks xi s di dj adjacency found listed named =
      elim (List-cases (filter (is_removed dj) di)) [
        | inl none_removed ↦ rw (none_removed, shrink) tt
        | inr (slot, slots, e) ↦
            let rest = delete_all (slot ∷ slots) di in
            let first : Memᴰ slot (filter (is_removed dj) di) = rw e (Memᴰ.head refl) in
            let smaller =
              length-delete_all-lt slot slots di
                ((Memᴰ-filter (is_removed dj) di slot).0 first).0 in
            elim (List-cases rest) [
              | inl empty ↦ rw (e, empty, shrink) tt
              | inr (x, xs, e') ↦
                  rw (e, e', shrink)
                    (
                      omega (arith, domain_total-set xi di rest adjacency found),
                      omega (
                        arith,
                        related-le xi s listed named,
                        length-map {B = Arc} (λ (t : SessionNode). (t.session_id, xi))
                            (related_sessions sessions xi s),
                      ),
                    )
            ]
      ]

  revise-Shrinks :
      (arc : Arc) (adjacency : Adjacency) → Shrinks adjacency (revise sessions arc adjacency)
  revise-Shrinks (xi, xj) adjacency =
      revise_ind sessions (Shrinks adjacency) xi xj adjacency tt
        (λ s t di dj (listed, named) _ found _ _.
          shrink-Shrinks xi s di dj adjacency found listed named)

  -- What is left to do: the arcs on the stack, and those that the slots left can still push.
  abbrev work : List Arc → Adjacency → ℕ
  work worklist adjacency = length worklist + domain_total adjacency * (most_related sessions + 1)

  abbrev Finishes : Outcome → Type 0
  Finishes o = (r : Ac3Result) × (after : Adjacency) × (o ≡ finished r after)

  process-Finishes :
      (fuel : ℕ) (worklist : List Arc) (adjacency : Adjacency)
      → work worklist adjacency ≤ fuel
      → Finishes (process sessions fuel worklist adjacency)
  unfolding process
  process-Finishes fuel [] adjacency le = (consistent, adjacency, refl)
  process-Finishes zero (arc ∷ rest) adjacency le = absurd (omega arith)
  process-Finishes (suc fuel) (arc ∷ rest) adjacency le =
      elim (Revision-cases (revise sessions arc adjacency)) [
        | inl e ↦ rw (e, process) (process-Finishes fuel rest adjacency (omega arith))
        | inr (inl (s, after, e)) ↦ rw (e, process) (empty_domain arc.0 s.offering_id, after, refl)
        | inr (inr (after, arcs, e)) ↦
            let (fewer, few) = rw e at (revise-Shrinks arc adjacency) in
            rw (e, process)
              (process-Finishes fuel (push_arcs arcs rest) after (
                less-work (domain_total after) (domain_total adjacency) (most_related sessions)
                  (length arcs) (length rest) (length (push_arcs arcs rest)) fuel
                  (length-push_arcs arcs rest) fewer few le))
      ]

-- AC-3 ends on every graph: the worklist runs empty, or a domain does, within the fuel given.
pub run_ac3-Finishes :
    (graph : BipartiteGraph)
    → (r : Ac3Result) × (after : Adjacency) × (run_ac3 graph ≡ finished r after)
unfolding run_ac3
run_ac3-Finishes graph =
    process-Finishes graph.sessions (enough_fuel graph.sessions graph.adjacency)
      (initial_worklist graph.sessions) graph.adjacency (unfold enough_fuel in omega arith)
