-- ===== src/Ga/Crossover/Masking.antt =====
-- ga/crossover.ts: the children of two masked parents are masked.
use ga_scheduler_v.Base.{
  ℕ, zero, suc, ◌+◌, ◌≡◌, refl, ap, Bool, ◌&&◌, inl, inr, List, [], ◌∷◌, map, none, some, Option,
  ◌<◌, lt→ltb, length, leb, ltb, nat_eq, Bool-cases, arith,
}
use ga_scheduler_v.Base.Map.{Map}
use ga_scheduler_v.Types.{PreGaCandidate, GeneSession, Gene, Chromosome}
use ga_scheduler_v.Ga.Crossover.{
  clone_sessions, clone_gene, single_point_crossover, uniform_from, uniform_crossover, swap_from,
  swap_segment, pmx_crossover, Crossover, single_point, uniform, pmx, cross, IsDrawn,
  assert_masking_invariant,
}
use ga_scheduler_v.Ga.Crossover.Passing.{
  IsMasked, IsMasked-sessions, Passes, assert_masking_invariant-Passes,
  Passes-assert_masking_invariant,
}

pub clone_sessions_lem : (ss : List GeneSession) → clone_sessions ss ≡ ss
clone_sessions_lem [] = refl
clone_sessions_lem (s ∷ ss) = ap (λ rest. s ∷ rest) (clone_sessions_lem ss)

pub clone_gene_lem : (g : Gene) → clone_gene g ≡ g
clone_gene_lem g i = record g { sessions = clone_sessions_lem g.sessions i }

module _ (candidates : Map ℕ PreGaCandidate) where
  -- Every gene of both parents may stand for every gene at its locus.
  abbrev Compatible : Chromosome → Chromosome → Type 0
  Compatible [] [] = Unit
  Compatible [] (h ∷ p2) = ⊥
  Compatible (g ∷ p1) [] = ⊥
  Compatible (g ∷ p1) (h ∷ p2) =
      (IsMasked candidates g g
        × IsMasked candidates g h
        × IsMasked candidates h g
        × IsMasked candidates h h)
      × Compatible p1 p2

  -- A child whose every gene may stand for the genes of both parents at its locus.
  abbrev IsChild : Chromosome → Chromosome → Chromosome → Type 0
  IsChild p1 p2 child = Passes candidates p1 child × Passes candidates p2 child

  Passes-clone :
      (parent child : Chromosome)
      → Passes candidates parent child
      → Passes candidates parent (map clone_gene child)
  Passes-clone [] [] h = tt
  Passes-clone [] (c ∷ child) h = absurd h
  Passes-clone (p ∷ parent) [] h = absurd h
  Passes-clone (p ∷ parent) (c ∷ child) h =
      (rw (clone_gene_lem c) h.0, Passes-clone parent child h.1)

  -- A crossover that returns two children.
  abbrev Children : Chromosome → Chromosome → Option (Chromosome × Chromosome) → Type 0
  Children p1 p2 result =
      (children : Chromosome × Chromosome) × (result ≡ some children)
      × IsChild p1 p2 children.0
      × IsChild p1 p2 children.1

  Compatible-length : (p1 p2 : Chromosome) → Compatible p1 p2 → length p1 ≡ length p2
  Compatible-length [] [] h = refl
  Compatible-length [] (k ∷ p2) h = absurd h
  Compatible-length (g ∷ p1) [] h = absurd h
  Compatible-length (g ∷ p1) (k ∷ p2) h = ap suc (Compatible-length p1 p2 h.1)

  parents-IsChild : (p1 p2 : Chromosome) → Compatible p1 p2 → IsChild p1 p2 p1 × IsChild p1 p2 p2
  parents-IsChild [] [] h = ((tt, tt), (tt, tt))
  parents-IsChild [] (h' ∷ p2) h = absurd h
  parents-IsChild (g ∷ p1) [] h = absurd h
  parents-IsChild (g ∷ p1) (k ∷ p2) ((gg, gk, kg, kk), h) =
      let ((a, b), (c, d)) = parents-IsChild p1 p2 h in (((gg, a), (kg, b)), ((gk, c), (kk, d)))

  single_point-IsChild :
      (point : ℕ) (p1 p2 : Chromosome)
      → Compatible p1 p2
      → IsChild p1 p2 (single_point_crossover point p1 p2).0
        × IsChild p1 p2 (single_point_crossover point p1 p2).1
  unfolding single_point_crossover
  single_point-IsChild zero p1 p2 h =
      let ((a, b), (c, d)) = parents-IsChild p1 p2 h in
      ((Passes-clone p1 p2 c, Passes-clone p2 p2 d), (Passes-clone p1 p1 a, Passes-clone p2 p1 b))
  single_point-IsChild (suc n) [] [] h = ((tt, tt), (tt, tt))
  single_point-IsChild (suc n) [] (k ∷ p2) h = absurd h
  single_point-IsChild (suc n) (g ∷ p1) [] h = absurd h
  single_point-IsChild (suc n) (g ∷ p1) (k ∷ p2) ((gg, gk, kg, kk), h) =
      let ((a, b), (c, d)) = single_point-IsChild n p1 p2 h in
      rw (clone_gene_lem g, clone_gene_lem k) (((gg, a), (kg, b)), ((gk, c), (kk, d)))

  uniform-IsChild :
      (i : ℕ) (coin : ℕ → Bool) (p1 p2 : Chromosome)
      → Compatible p1 p2
      → Children p1 p2 (uniform_from i coin p1 p2)
  unfolding uniform_from
  uniform-IsChild i coin [] [] h = (([], []), refl, (tt, tt), (tt, tt))
  uniform-IsChild i coin [] (k ∷ p2) h = absurd h
  uniform-IsChild i coin (g ∷ p1) [] h = absurd h
  uniform-IsChild i coin (g ∷ p1) (k ∷ p2) ((gg, gk, kg, kk), h) =
      let ((child1, child2), e, (a, b), (c, d)) = uniform-IsChild (i + 1) coin p1 p2 h in
      elim (Bool-cases (coin i)) [
        | inl heads ↦ (
          (g ∷ child1, k ∷ child2),
          rw (uniform_from, e, heads, clone_gene_lem g, clone_gene_lem k) refl,
          ((gg, a), (kg, b)),
          ((gk, c), (kk, d)),
        )
        | inr tails ↦ (
          (k ∷ child1, g ∷ child2),
          rw (uniform_from, e, tails, clone_gene_lem g, clone_gene_lem k) refl,
          ((gk, a), (kk, b)),
          ((gg, c), (kg, d)),
        )
      ]

  swap-IsChild :
      (i start last : ℕ) (p1 p2 : Chromosome)
      → Compatible p1 p2
      → IsChild p1 p2 (swap_from i start last p1 p2).0
        × IsChild p1 p2 (swap_from i start last p1 p2).1
  unfolding swap_from
  swap-IsChild i start last [] [] h = ((tt, tt), (tt, tt))
  swap-IsChild i start last [] (k ∷ p2) h = absurd h
  swap-IsChild i start last (g ∷ p1) [] h = absurd h
  swap-IsChild i start last (g ∷ p1) (k ∷ p2) ((gg, gk, kg, kk), h) =
      let ((a, b), (c, d)) = swap-IsChild (i + 1) start last p1 p2 h in
      elim (Bool-cases (leb start i && leb i last)) [
        | inl inside ↦
            rw (swap_from, inside, clone_sessions_lem g.sessions, clone_sessions_lem k.sessions)
              (
                (
                  (IsMasked-sessions candidates g g k gg gk, a),
                  (IsMasked-sessions candidates k g k kg kk, b),
                ),
                (
                  (IsMasked-sessions candidates g k g gk gg, c),
                  (IsMasked-sessions candidates k k g kk kg, d),
                ),
              )
        | inr outside ↦
            rw (swap_from, outside, clone_gene_lem g, clone_gene_lem k)
              (((gg, a), (kg, b)), ((gk, c), (kk, d)))
      ]

  segment-IsChild :
      (start last : ℕ) (p1 p2 : Chromosome)
      → last < length p1
      → Compatible p1 p2
      → Children p1 p2 (swap_segment start last p1 p2)
  unfolding swap_segment
  segment-IsChild start last p1 p2 inside h =
      let same = Compatible-length p1 p2 h in
      let in1 = lt→ltb last (length p1) inside in
      let in2 = lt→ltb last (length p2) (omega arith) in
      let (a, b) = swap-IsChild 0 start last p1 p2 h in
      (swap_from 0 start last p1 p2, rw (swap_segment, in1, in2) refl, a, b)

  cross-IsChild :
      (x : Crossover) (p1 p2 : Chromosome)
      → IsDrawn x (length p1)
      → Compatible p1 p2
      → Children p1 p2 (cross x p1 p2)
  unfolding cross uniform_crossover pmx_crossover
  cross-IsChild (single_point point) p1 p2 drawn h =
      let (a, b) = single_point-IsChild point p1 p2 h in
      (single_point_crossover point p1 p2, refl, a, b)
  cross-IsChild (uniform coin) p1 p2 drawn h = uniform-IsChild 0 coin p1 p2 h
  cross-IsChild (pmx a b) p1 p2 drawn h = elim (Bool-cases (ltb b a)) [
    | inl down ↦ rw (cross, pmx_crossover, down) (segment-IsChild b a p1 p2 drawn.0 h)
    | inr up ↦ rw (cross, pmx_crossover, up) (segment-IsChild a b p1 p2 drawn.1 h)
  ]

  Passes-Compatible :
      (p1 p2 : Chromosome)
      → Passes candidates p1 p1
      → Passes candidates p1 p2
      → Passes candidates p2 p1
      → Passes candidates p2 p2
      → Compatible p1 p2
  Passes-Compatible [] [] a b c d = tt
  Passes-Compatible [] (k ∷ p2) a b c d = b
  Passes-Compatible (g ∷ p1) [] a b c d = b
  Passes-Compatible (g ∷ p1) (k ∷ p2) a b c d =
      ((a.0, b.0, c.0, d.0), Passes-Compatible p1 p2 a.1 b.1 c.1 d.1)

-- The assertion of the masking invariant returns for two chromosomes, under either parent.
abbrev pub IsHeir : Map ℕ PreGaCandidate → Chromosome → Chromosome → Chromosome → Type 0
IsHeir candidates p1 p2 child =
    (assert_masking_invariant candidates p1 child ≡ none)
    × (assert_masking_invariant candidates p2 child ≡ none)

-- If the assertion of the masking invariant returns for each of two parents under itself and under
-- the other, then every crossover returns two children, and the assertion returns for both of them
-- under both parents, whatever is drawn; for pmxCrossover the numbers drawn are loci of the parents,
-- which have genes then.
pub cross-IsHeir :
    (candidates : Map ℕ PreGaCandidate) (x : Crossover) (p1 p2 : Chromosome)
    → IsDrawn x (length p1)
    → IsHeir candidates p1 p2 p1
    → IsHeir candidates p1 p2 p2
    → (children : Chromosome × Chromosome) × (cross x p1 p2 ≡ some children)
      × IsHeir candidates p1 p2 children.0
      × IsHeir candidates p1 p2 children.1
cross-IsHeir candidates x p1 p2 drawn (aa, ba) (ab, bb) =
    let passes = assert_masking_invariant-Passes candidates in
    let asserted = Passes-assert_masking_invariant candidates in
    let ((child1, child2), e, (a, b), (c, d)) = cross-IsChild candidates x p1 p2 drawn (
      Passes-Compatible candidates p1 p2 (passes p1 p1 aa) (passes p1 p2 ab) (passes p2 p1 ba)
        (passes p2 p2 bb)) in
    (
      (child1, child2),
      e,
      (asserted p1 child1 a, asserted p2 child1 b),
      (asserted p1 child2 c, asserted p2 child2 d),
    )
