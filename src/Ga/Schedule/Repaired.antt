-- ===== src/Ga/Schedule/Repaired.antt =====
-- ga/repair.ts: a repaired schedule is a schedule.

use ga_scheduler_v.Base.{
  ℕ, suc, ◌≡◌, refl, sym, ap, ◌∙◌, Bool, true, false, Option, List, [], ◌∷◌, ◌++◌, map, All,
  All-append, append-nil, append_assoc, map-append, nat_eq,
}
use ga_scheduler_v.Base.Map.{Map}
use ga_scheduler_v.Types.{Room, PreGaCandidate, GeneKind, fixed, flexible, Gene, Chromosome}
use ga_scheduler_v.Slots.{SlotLookup}
use ga_scheduler_v.Ga.Draws.{Draws, part}
use ga_scheduler_v.Ga.Valid.{IsLookup}
use ga_scheduler_v.Ga.Repair.{build_conflict_index}
use ga_scheduler_v.Ga.Repair.Whole.{repair_gene, repair_from, repair_chromosome}
use ga_scheduler_v.Ga.Repair.Sessions.{repair_gene_sessions-Keep}
use ga_scheduler_v.Ga.Schedule.{offering_of, IsKnown, IsSchedule}

module _ (candidates : List PreGaCandidate) (lookup : Option SlotLookup)
    (known : IsLookup lookup) where
  module _ (rooms : Option (Map ℕ Room)) where
    repair_gene-IsKnown :
        (d : Draws) (done : Chromosome) (g : Gene) (rest : Chromosome)
        → IsKnown candidates g
        → ((repair_gene d candidates lookup rooms done g rest).offering_id ≡ g.offering_id)
          × IsKnown candidates (repair_gene d candidates lookup rooms done g rest)
    unfolding repair_gene
    repair_gene-IsKnown d done g rest k =
        let c = k.candidate in
        let index = build_conflict_index (done ++ g ∷ rest) g.offering_id in
        let flex : g.kind ≡ flexible → c.is_fixed_room ≡ false =
          λ e. sym k.fine.kind ∙ ap kind_is_fixed e in
        let (n, all) =
          repair_gene_sessions-Keep c index d lookup rooms g.kind g.sessions flex known
            k.fine.sessions in
        rw (repair_gene, k.found)
          (
            refl,
            record {
              candidate = c;
              found = k.found;
              fine = record {
                offering = k.fine.offering;
                kind = k.fine.kind;
                count = n ∙ k.fine.count;
                sessions = all;
              };
            },
          )
      where
        kind_is_fixed : GeneKind → Bool
        kind_is_fixed k = elim k [ fixed ↦ true | flexible ↦ false ]

    repair_from-IsKnown :
        (d : Draws) (i : ℕ) (done gs : Chromosome)
        → All (IsKnown candidates) done
        → All (IsKnown candidates) gs
        → (map offering_of (repair_from d i candidates lookup rooms done gs)
            ≡ map offering_of done ++ map offering_of gs)
          × All (IsKnown candidates) (repair_from d i candidates lookup rooms done gs)
    unfolding repair_from
    repair_from-IsKnown d i done [] h k = (sym (append-nil (map offering_of done)), h)
    repair_from-IsKnown d i done (g ∷ gs) h k =
        let g' = repair_gene (part i d) candidates lookup rooms done g gs in
        let (same, fine) = repair_gene-IsKnown (part i d) done g gs k.0 in
        let (e, all) =
          repair_from-IsKnown d (suc i) (done ++ g' ∷ []) gs
            (All-append (IsKnown candidates) done (g' ∷ []) h (fine, tt)) k.1 in
        (
          e
              ∙ ap (λ os. os ++ map offering_of gs) (map-append offering_of done (g' ∷ []))
              ∙ append_assoc (map offering_of done) (g'.offering_id ∷ []) (map offering_of gs)
              ∙ ap (λ o. map offering_of done ++ o ∷ map offering_of gs) same,
          all,
        )

    -- Repair keeps a schedule a schedule, with or without a slot lookup and the rooms, if the lookup
    -- finds each slot under its own id.
    pub repair_chromosome-IsSchedule :
        (d : Draws) (gs : Chromosome)
        → IsSchedule candidates gs
        → IsSchedule candidates (repair_chromosome d candidates lookup rooms gs)
    unfolding repair_chromosome
    repair_chromosome-IsSchedule d gs s =
        let (same, genes) = repair_from-IsKnown d 0 [] gs tt s.genes in
        record { loci = same ∙ s.loci; genes = genes }
