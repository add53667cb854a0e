-- ===== src/Ga/Schedule/Crossed.antt =====
-- ga/crossover.ts: the children of two schedules are schedules.
use ga_scheduler_v.Base.{
  ℕ, zero, suc, ◌+◌, ◌≡◌, refl, sym, subst, ap, ◌∙◌, inl, inr, Bool, ◌&&◌, some, Option, arith, ◌<◌,
  lt→ltb, length, Bool-cases, List, [], ◌∷◌, ◌++◌, map, take, drop, All, cons≢nil, leb, ltb, nat_eq,
}
use ga_scheduler_v.Base.Map
use ga_scheduler_v.Types.{PreGaCandidate, Gene, Chromosome}
use ga_scheduler_v.Ga.Fitness.{candidate_map}
use ga_scheduler_v.Ga.Valid.{IsGene}
use ga_scheduler_v.Ga.Crossover.{
  clone_sessions, clone_gene, single_point_crossover, uniform_from, uniform_crossover, swap_from,
  swap_segment, pmx_crossover, Crossover, single_point, uniform, pmx, cross, IsDrawn,
}
use ga_scheduler_v.Ga.Crossover.Masking.{clone_sessions_lem, clone_gene_lem}
use ga_scheduler_v.Ga.Schedule.{offering_of, IsKnown, IsSchedule}

clones_same : (gs : Chromosome) → map clone_gene gs ≡ gs
clones_same [] = refl
clones_same (g ∷ gs) = λ i. clone_gene_lem g i ∷ clones_same gs i

module _ (candidates : List PreGaCandidate) where
  -- At a locus of two schedules the offering is the same, and so is what is owed.
  record Paired (g h : Gene) : Type 0 where
    same : g.offering_id ≡ h.offering_id
    left : IsKnown candidates g
    right : IsKnown candidates h

  Pairs : Chromosome → Chromosome → Type 0
  Pairs [] [] = Unit
  Pairs [] (h ∷ hs) = ⊥
  Pairs (g ∷ gs) [] = ⊥
  Pairs (g ∷ gs) (h ∷ hs) = Paired g h × Pairs gs hs

  -- The genes of a chromosome with the offerings of another.
  record Takes (parent child : Chromosome) : Type 0 where
    loci : map offering_of child ≡ map offering_of parent
    genes : All (IsKnown candidates) child

  abbrev Brood : Chromosome → Chromosome × Chromosome → Type 0
  Brood parent children = Takes parent children.0 × Takes parent children.1

  -- A crossover that returns two children.
  abbrev Bred : Chromosome → Option (Chromosome × Chromosome) → Type 0
  Bred parent result =
      (children : Chromosome × Chromosome) × (result ≡ some children)
      × Takes parent children.0
      × Takes parent children.1

  Paired-sym : (g h : Gene) → Paired g h → Paired h g
  Paired-sym g h p = record { same = sym p.same; left = p.right; right = p.left }

  Paired-clones : (g h : Gene) → Paired g h → Paired (clone_gene g) (clone_gene h)
  Paired-clones g h p =
      subst (λ k. Paired k (clone_gene h)) (sym (clone_gene_lem g))
        (subst (λ k. Paired g k) (sym (clone_gene_lem h)) p)

  -- A gene with the sessions of the other gene at its locus.
  swapped-IsKnown :
      (g h : Gene)
      → Paired g h
      → IsKnown candidates (record g { sessions = clone_sessions h.sessions })
  swapped-IsKnown g h p =
      let a = p.left in
      let b = p.right in
      let one : some b.candidate ≡ some a.candidate =
        sym b.found ∙ ap (λ i. Map.get i (candidate_map candidates)) (sym p.same) ∙ a.found in
      let both : b.candidate ≡ a.candidate = cc in
      let fit : IsGene a.candidate h = subst (λ c. IsGene c h) both b.fine in
      record {
        candidate = a.candidate;
        found = a.found;
        fine =
            subst (λ ss. IsGene a.candidate (record g { sessions = ss }))
              (sym (clone_sessions_lem h.sessions))
              (record {
                offering = a.fine.offering;
                kind = a.fine.kind;
                count = fit.count;
                sessions = fit.sessions;
              });
      }

  cons-Takes :
      (g h : Gene) (gs hs : Chromosome)
      → h.offering_id ≡ g.offering_id
      → IsKnown candidates h
      → Takes gs hs
      → Takes (g ∷ gs) (h ∷ hs)
  cons-Takes g h gs hs e k t = record { loci = λ i. e i ∷ t.loci i; genes = (k, t.genes) }

  Pairs-left : (gs hs : Chromosome) → Pairs gs hs → Takes gs gs
  unfolding Pairs
  Pairs-left [] [] p = record { loci = refl; genes = tt }
  Pairs-left [] (h ∷ hs) p = absurd p
  Pairs-left (g ∷ gs) [] p = absurd p
  Pairs-left (g ∷ gs) (h ∷ hs) p = cons-Takes g g gs gs refl p.0.left (Pairs-left gs hs p.1)

  Pairs-right : (gs hs : Chromosome) → Pairs gs hs → Takes gs hs
  unfolding Pairs
  Pairs-right [] [] p = record { loci = refl; genes = tt }
  Pairs-right [] (h ∷ hs) p = absurd p
  Pairs-right (g ∷ gs) [] p = absurd p
  Pairs-right (g ∷ gs) (h ∷ hs) p =
      cons-Takes g h gs hs (sym p.0.same) p.0.right (Pairs-right gs hs p.1)

  single_point-Brood :
      (point : ℕ) (gs hs : Chromosome)
      → Pairs gs hs
      → Takes gs (take point gs ++ drop point hs) × Takes gs (take point hs ++ drop point gs)
  unfolding Pairs
  single_point-Brood zero gs hs p = (Pairs-right gs hs p, Pairs-left gs hs p)
  single_point-Brood (suc point) [] [] p =
      (record { loci = refl; genes = tt }, record { loci = refl; genes = tt })
  single_point-Brood (suc point) [] (h ∷ hs) p = absurd p
  single_point-Brood (suc point) (g ∷ gs) [] p = absurd p
  single_point-Brood (suc point) (g ∷ gs) (h ∷ hs) p =
      let (l, r) = single_point-Brood point gs hs p.1 in
      (
        cons-Takes g g gs (take point gs ++ drop point hs) refl p.0.left l,
        cons-Takes g h gs (take point hs ++ drop point gs) (sym p.0.same) p.0.right r,
      )

  uniform-Brood :
      (i : ℕ) (coin : ℕ → Bool) (gs hs : Chromosome)
      → Pairs gs hs
      → Bred gs (uniform_from i coin gs hs)
  unfolding Pairs uniform_from
  uniform-Brood i coin [] [] p =
      (([], []), refl, record { loci = refl; genes = tt }, record { loci = refl; genes = tt })
  uniform-Brood i coin [] (h ∷ hs) p = absurd p
  uniform-Brood i coin (g ∷ gs) [] p = absurd p
  uniform-Brood i coin (g ∷ gs) (h ∷ hs) p =
      let ((child1, child2), e, l, r) = uniform-Brood (i + 1) coin gs hs p.1 in
      let q = Paired-clones g h p.0 in
      elim (Bool-cases (coin i)) [
        | inl keeps ↦ (
          (clone_gene g ∷ child1, clone_gene h ∷ child2),
          rw (uniform_from, e, keeps) refl,
          cons-Takes g (clone_gene g) gs child1 refl q.left l,
          cons-Takes g (clone_gene h) gs child2 (sym q.same) q.right r,
        )
        | inr swaps ↦ (
          (clone_gene h ∷ child1, clone_gene g ∷ child2),
          rw (uniform_from, e, swaps) refl,
          cons-Takes g (clone_gene h) gs child1 (sym q.same) q.right l,
          cons-Takes g (clone_gene g) gs child2 refl q.left r,
        )
      ]

  swap-Brood :
      (i start last : ℕ) (gs hs : Chromosome)
      → Pairs gs hs
      → Brood gs (swap_from i start last gs hs)
  unfolding Pairs swap_from
  swap-Brood i start last [] [] p =
      (record { loci = refl; genes = tt }, record { loci = refl; genes = tt })
  swap-Brood i start last [] (h ∷ hs) p = absurd p
  swap-Brood i start last (g ∷ gs) [] p = absurd p
  swap-Brood i start last (g ∷ gs) (h ∷ hs) p =
      let (l, r) = swap-Brood (i + 1) start last gs hs p.1 in
      let (child1, child2) = swap_from (i + 1) start last gs hs in
      let q = Paired-clones g h p.0 in
      let new1 : Gene = record g { sessions = clone_sessions h.sessions } in
      let new2 : Gene = record h { sessions = clone_sessions g.sessions } in
      elim (Bool-cases (leb start i && leb i last)) [
        | inl inside ↦
            rw (swap_from, inside)
              (
                cons-Takes g new1 gs child1 refl (swapped-IsKnown g h p.0) l,
                cons-Takes g new2 gs child2 (sym p.0.same)
                    (swapped-IsKnown h g (Paired-sym g h p.0)) r,
              )
        | inr outside ↦
            rw (swap_from, outside)
              (
                cons-Takes g (clone_gene g) gs child1 refl q.left l,
                cons-Takes g (clone_gene h) gs child2 (sym q.same) q.right r,
              )
      ]

  Pairs-length : (gs hs : Chromosome) → Pairs gs hs → length gs ≡ length hs
  unfolding Pairs
  Pairs-length [] [] p = refl
  Pairs-length [] (h ∷ hs) p = absurd p
  Pairs-length (g ∷ gs) [] p = absurd p
  Pairs-length (g ∷ gs) (h ∷ hs) p = ap suc (Pairs-length gs hs p.1)

  segment-Brood :
      (start last : ℕ) (gs hs : Chromosome)
      → last < length gs
      → Pairs gs hs
      → Bred gs (swap_segment start last gs hs)
  unfolding swap_segment
  segment-Brood start last gs hs inside p =
      let same = Pairs-length gs hs p in
      let in1 = lt→ltb last (length gs) inside in
      let in2 = lt→ltb last (length hs) (omega arith) in
      let (l, r) = swap-Brood 0 start last gs hs p in
      (swap_from 0 start last gs hs, rw (swap_segment, in1, in2) refl, l, r)

  cross-Brood :
      (kind : Crossover) (gs hs : Chromosome)
      → IsDrawn kind (length gs)
      → Pairs gs hs
      → Bred gs (cross kind gs hs)
  unfolding cross single_point_crossover uniform_crossover pmx_crossover
  cross-Brood (single_point point) gs hs drawn p = (
    single_point_crossover point gs hs,
    refl,
    rw (clones_same (take point gs), clones_same (drop point hs))
        (single_point-Brood point gs hs p).0,
    rw (clones_same (take point hs), clones_same (drop point gs))
        (single_point-Brood point gs hs p).1,
  )
  cross-Brood (uniform coin) gs hs drawn p = uniform-Brood 0 coin gs hs p
  cross-Brood (pmx a b) gs hs drawn p = elim (Bool-cases (ltb b a)) [
    | inl down ↦ rw (cross, pmx_crossover, down) (segment-Brood b a gs hs drawn.0 p)
    | inr up ↦ rw (cross, pmx_crossover, up) (segment-Brood a b gs hs drawn.1 p)
  ]

  Pairs_of_schedules :
      (gs hs : Chromosome)
      → map offering_of gs ≡ map offering_of hs
      → All (IsKnown candidates) gs
      → All (IsKnown candidates) hs
      → Pairs gs hs
  unfolding Pairs
  Pairs_of_schedules [] [] e a b = tt
  Pairs_of_schedules [] (h ∷ hs) e a b = absurd (cons≢nil (sym e))
  Pairs_of_schedules (g ∷ gs) [] e a b = absurd (cons≢nil e)
  Pairs_of_schedules (g ∷ gs) (h ∷ hs) e a b =
      let first : g.offering_id ≡ h.offering_id = cc in
      let rest : map offering_of gs ≡ map offering_of hs = cc in
      (record { same = first; left = a.0; right = b.0 }, Pairs_of_schedules gs hs rest a.1 b.1)

  -- Whatever is drawn, each crossover of two schedules returns two schedules; for pmxCrossover the
  -- numbers drawn are loci of the parents, which have genes then.
  pub cross-IsSchedule :
      (kind : Crossover) (parent1 parent2 : Chromosome)
      → IsDrawn kind (length parent1)
      → IsSchedule candidates parent1
      → IsSchedule candidates parent2
      → (children : Chromosome × Chromosome) × (cross kind parent1 parent2 ≡ some children)
        × IsSchedule candidates children.0
        × IsSchedule candidates children.1
  cross-IsSchedule kind parent1 parent2 drawn a b =
      let (children, e, l, r) =
        cross-Brood kind parent1 parent2 drawn
          (Pairs_of_schedules parent1 parent2 (a.loci ∙ sym b.loci) a.genes b.genes) in
      (
        children,
        e,
        record { loci = l.loci ∙ a.loci; genes = l.genes },
        record { loci = r.loci ∙ a.loci; genes = r.genes },
      )
