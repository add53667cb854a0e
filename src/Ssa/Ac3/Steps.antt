-- ===== src/Ssa/Ac3/Steps.antt =====
-- One revision: when it removes slots, and which cases a property of its result has.
use mathlib.Core.List.Memᴰ
use ga_scheduler_v.Base.{
  ℕ, ◌+◌, ◌≤◌, ◌<◌, ◌≡◌, refl, ◌⊎◌, true, not, some, Option-cases, List, [], ◌∷◌, map, Memᴰ,
  length-filter-le, length-filter-lt, length, Bool-cases, ◌==◌, nat_eq, beq_refl, inl, inr, arith,
}
use ga_scheduler_v.Base.Map
use ga_scheduler_v.Base.Set
use ga_scheduler_v.Base.Set.{Set}
use ga_scheduler_v.Ssa.Graph.{SessionNode, Adjacency}
use ga_scheduler_v.Ssa.Ac3.{
  Arc, has_constraint, delete_all, Revision, unchanged, emptied, revised, session_map, shrink,
  revise, push_arcs, domain_total,
}

pub length-delete_all-le : (xs : List ℕ) (d : Set ℕ) → length (delete_all xs d) ≤ length d
unfolding delete_all
length-delete_all-le [] d = omega arith
length-delete_all-le (x ∷ xs) d =
    omega (
      arith,
      length-delete_all-le xs (Set.delete x d),
      length-filter-le (λ (y : ℕ). not (y == x)) d,
    )

pub length-delete_all-lt :
    (x : ℕ) (xs : List ℕ) (d : Set ℕ) → Memᴰ x d → length (delete_all (x ∷ xs) d) < length d
unfolding delete_all
length-delete_all-lt x xs d m = omega (
  arith,
  length-delete_all-le xs (Set.delete x d),
  length-filter-lt (λ (y : ℕ). not (y == x)) d x m (rw (beq_refl x)),
)

pub domain_total-set :
    (k : ℕ) (d d' : Set ℕ) (adjacency : Adjacency)
    → Map.get k adjacency ≡ some d
    → domain_total (Map.set k d' adjacency) + length d ≡ domain_total adjacency + length d'
domain_total-set k d d' [] h = cc
domain_total-set k d d' ((j, w) ∷ rest) h = elim (Bool-cases (j == k)) [
  | inl same ↦
      let e : some w ≡ some d = rw same at h in
      let e' : length w ≡ length d = cc in rw same (omega arith)
  | inr other ↦ let ih = domain_total-set k d d' rest (rw other at h) in rw other (omega arith)
]

pub length-push_arcs :
    (arcs worklist : List Arc) → length (push_arcs arcs worklist) ≡ length arcs + length worklist
unfolding push_arcs
length-push_arcs [] worklist = omega arith
length-push_arcs (arc ∷ arcs) worklist = omega (arith, length-push_arcs arcs (arc ∷ worklist))

module _ (sessions : List SessionNode) where
  pub session_map-mem :
      (k : ℕ) (s : SessionNode)
      → Map.get k (session_map sessions) ≡ some s
      → Memᴰ s sessions × (s.session_id ≡ k)
  unfolding session_map
  session_map-mem k s h =
      let (t, m, e) =
        Memᴰ.of_map (λ (u : SessionNode). (u.session_id, u)) sessions
          (Map.mem_of_get-from_list (map (λ u. (u.session_id, u)) sessions) k s h) in
      let same : t ≡ s = cc in (Memᴰ.cast (cc) m, cc)

  -- A property holds of a revision if it holds where nothing changes, and where a constrained pair
  -- of sessions is revised.
  pub revise_ind {ℓ} :
      (Q : Revision → Type ℓ) (xi xj : ℕ) (adjacency : Adjacency)
      → Q unchanged
      → ((s t : SessionNode) (di dj : Set ℕ)
          → Memᴰ s sessions × (s.session_id ≡ xi)
          → Memᴰ t sessions × (t.session_id ≡ xj)
          → Map.get xi adjacency ≡ some di
          → Map.get xj adjacency ≡ some dj
          → has_constraint s t ≡ true
          → Q (shrink sessions xi s di dj adjacency))
      → Q (revise sessions (xi, xj) adjacency)
  unfolding revise
  revise_ind Q xi xj adjacency same constrained = elim (Option-cases (Map.get xi adjacency)) [
    | inl n ↦ rw (n, revise) same
    | inr (di, hi) ↦ elim (Option-cases (Map.get xj adjacency)) [
      | inl n ↦ rw (hi, n, revise) same
      | inr (dj, hj) ↦ elim (Option-cases (Map.get xi (session_map sessions))) [
        | inl n ↦ rw (hi, hj, n, revise) same
        | inr (s, hs) ↦ elim (Option-cases (Map.get xj (session_map sessions))) [
          | inl n ↦ rw (hi, hj, hs, n, revise) same
          | inr (t, ht) ↦ elim (Bool-cases (has_constraint s t)) [
            | inl c ↦
                rw (hi, hj, hs, ht, c, revise)
                  (constrained s t di dj (session_map-mem xi s hs) (session_map-mem xj t ht) hi hj
                    c)
            | inr c ↦ rw (hi, hj, hs, ht, c, revise) same
          ]
        ]
      ]
    ]
  ]

pub Revision-cases :
    (r : Revision)
    → (r ≡ unchanged)
      ⊎ ((s : SessionNode) × (after : Adjacency) × (r ≡ emptied s after))
      ⊎ ((after : Adjacency) × (arcs : List Arc) × (r ≡ revised after arcs))
Revision-cases unchanged = inl refl
Revision-cases (emptied s after) = inr (inl (s, after, refl))
Revision-cases (revised after arcs) = inr (inr (after, arcs, refl))
