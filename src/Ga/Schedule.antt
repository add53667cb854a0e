-- ===== src/Ga/Schedule.antt =====
-- ga/: a chromosome as the operators see it, which find the candidate of a gene by its offering; and
-- the seeder, the crossover and the mutation keep it whole.
pub mod Repaired
pub mod Crossed
use mathlib.Core.List.Memᴰ
use ga_scheduler_v.Base.{
  ℕ, zero, suc, ◌+◌, ◌≡◌, ◌≢◌, refl, sym, subst, ap, ◌∙◌, inl, inr, Bool, true, false, ◌&&◌, Option,
  none, some, Option-cases, Bool-cases, List, [], ◌∷◌, ◌++◌, map, Memᴰ, take, drop, length, All,
  All_get, All-append, Distinct, leb, ltb, if◌then◌else◌, nat_eq,
}
use ga_scheduler_v.Base.Map
use ga_scheduler_v.Types.{PreGaCandidate, Gene, Chromosome}
use ga_scheduler_v.Slots.{SlotLookup}
use ga_scheduler_v.Ga.Fitness.{candidate_map}
use ga_scheduler_v.Ga.Draws.{Draws, part, coin}
use ga_scheduler_v.Ga.Valid.{IsCandidate, IsGene, IsChromosome, IsLookup}
use ga_scheduler_v.Ga.Mutation.{mutate_locus, mutate_from, mutate_chromosome}
use ga_scheduler_v.Ga.Mutation.Valid.{mutate_gene-IsGene}

abbrev pub offering_of : Gene → ℕ
offering_of g = g.offering_id

abbrev pub offering_of_candidate : PreGaCandidate → ℕ
offering_of_candidate c = c.offering_id

-- A gene that owes nothing to the candidate that is found for its offering.
pub record IsKnown (candidates : List PreGaCandidate) (g : Gene) : Type 0 where
  pub candidate : PreGaCandidate
  pub found : Map.get g.offering_id (candidate_map candidates) ≡ some candidate
  pub fine : IsGene candidate g

-- The offerings of the candidates at their loci, and no gene that owes its candidate anything.
pub record IsSchedule (candidates : List PreGaCandidate) (gs : Chromosome) : Type 0 where
  pub loci : map offering_of gs ≡ map offering_of_candidate candidates
  pub genes : All (IsKnown candidates) gs

module _ (candidates : List PreGaCandidate) where
  pub candidate_map-mem :
      (i : ℕ) (c : PreGaCandidate)
      → Map.get i (candidate_map candidates) ≡ some c
      → Memᴰ c candidates
  unfolding candidate_map
  candidate_map-mem i c h =
      let (k, m, e) =
        Memᴰ.of_map (λ (k : PreGaCandidate). (k.offering_id, k)) candidates
          (Map.mem_of_get-from_list (map (λ k. (k.offering_id, k)) candidates) i c h) in
      Memᴰ.cast (cc) m

IsUnique-map :
    (cs : List PreGaCandidate)
    → Distinct offering_of_candidate cs
    → Map.IsUnique (map (λ (c : PreGaCandidate). (c.offering_id, c)) cs)
IsUnique-map [] d = tt
IsUnique-map (c ∷ cs) d = (apart cs d.0, IsUnique-map cs d.1)
  where
    apart :
        (ks : List PreGaCandidate)
        → All (λ (k : PreGaCandidate). c.offering_id ≢ k.offering_id) ks
        → All
            (λ (p : ℕ × PreGaCandidate). ¬ (c.offering_id ≡ p.0))
            (map (λ (k : PreGaCandidate). (k.offering_id, k)) ks)
    apart [] h = tt
    apart (k ∷ ks) h = (h.0, apart ks h.1)

pub candidate_map-get :
    (candidates : List PreGaCandidate) (c : PreGaCandidate)
    → Distinct offering_of_candidate candidates
    → Memᴰ c candidates
    → Map.get c.offering_id (candidate_map candidates) ≡ some c
unfolding candidate_map
candidate_map-get candidates c d m =
    Map.get-from_list (map (λ (k : PreGaCandidate). (k.offering_id, k)) candidates) c.offering_id c
      (IsUnique-map candidates d) (Memᴰ.map (λ (k : PreGaCandidate). (k.offering_id, k)) m)

-- Where the offerings are pairwise different, a gene for each candidate is a schedule.
pub IsChromosome-IsSchedule :
    (candidates : List PreGaCandidate) (gs : Chromosome)
    → Distinct offering_of_candidate candidates
    → IsChromosome candidates gs
    → IsSchedule candidates gs
IsChromosome-IsSchedule candidates gs d h =
    let (loci, genes) = from candidates gs (λ c m. m) h in record { loci = loci; genes = genes }
  where
    from :
        (cs : List PreGaCandidate) (gs : Chromosome)
        → ((c : PreGaCandidate) → Memᴰ c cs → Memᴰ c candidates)
        → IsChromosome cs gs
        → (map offering_of gs ≡ map offering_of_candidate cs) × All (IsKnown candidates) gs
    from [] [] sub h = (refl, tt)
    from [] (g ∷ gs) sub h = absurd h
    from (c ∷ cs) [] sub h = absurd h
    from (c ∷ cs) (g ∷ gs) sub h =
        let (loci, genes) = from cs gs (λ k m. sub k (Memᴰ.tail m)) h.1 in
        let same = h.0.offering in
        (
          λ i. same i ∷ loci i,
          (
            record {
              candidate = c;
              found =
                  ap (λ k. Map.get k (candidate_map candidates)) same
                  ∙ candidate_map-get candidates c d (sub c (Memᴰ.head refl));
              fine = h.0;
            },
            genes,
          ),
        )

module _ (candidates : List PreGaCandidate) (ok : All IsCandidate candidates) where
  module _ (lookup : Option SlotLookup) (known : IsLookup lookup) where
    mutate_locus-IsKnown :
        (d : Draws) (g : Gene)
        → IsKnown candidates g
        → (g' : Gene) × (mutate_locus d candidates lookup g ≡ some g')
          × (g'.offering_id ≡ g.offering_id)
          × IsKnown candidates g'
    unfolding mutate_locus
    mutate_locus-IsKnown d g k = elim (Bool-cases (coin (part 0 d))) [
      | inr kept ↦ (g, rw (mutate_locus, kept) refl, refl, k)
      | inl tossed ↦
          let c = k.candidate in
          let fit =
            All_get IsCandidate candidates ok c
              (candidate_map-mem candidates g.offering_id c k.found) in
          let (g', e, fine) = mutate_gene-IsGene c fit (part 1 d) lookup g known k.fine in
          let same : g'.offering_id ≡ g.offering_id = fine.offering ∙ sym k.fine.offering in
          (
            g',
            rw (mutate_locus, tossed, k.found) e,
            same,
            record {
              candidate = c;
              found = ap (λ i. Map.get i (candidate_map candidates)) same ∙ k.found;
              fine = fine;
            },
          )
    ]

    mutate_from-IsKnown :
        (d : Draws) (i : ℕ) (gs : Chromosome)
        → All (IsKnown candidates) gs
        → (gs' : Chromosome) × (mutate_from d i candidates lookup gs ≡ some gs')
          × (map offering_of gs' ≡ map offering_of gs)
          × All (IsKnown candidates) gs'
    unfolding mutate_from
    mutate_from-IsKnown d i [] h = ([], refl, refl, tt)
    mutate_from-IsKnown d i (g ∷ gs) h =
        let (g', e, same, k) = mutate_locus-IsKnown (part i d) g h.0 in
        let (gs', es, sames, ks) = mutate_from-IsKnown d (suc i) gs h.1 in
        (g' ∷ gs', rw (mutate_from, e, es) refl, (λ j. same j ∷ sames j), (k, ks))

    -- Where all candidates are valid, and the lookup of slots, if there is one, finds each slot under
    -- its own id, mutation throws no error on a schedule, and what it returns is a schedule.
    pub mutate_chromosome-IsSchedule :
        (d : Draws) (gs : Chromosome)
        → IsSchedule candidates gs
        → (gs' : Chromosome) × (mutate_chromosome d candidates lookup gs ≡ some gs')
          × IsSchedule candidates gs'
    unfolding mutate_chromosome
    mutate_chromosome-IsSchedule d gs s =
        let (gs', e, same, genes) = mutate_from-IsKnown d 0 gs s.genes in
        (gs', e, record { loci = same ∙ s.loci; genes = genes })
