-- ===== src/Repo/ScheduleAssignment/RoundTrip.antt =====
-- repo/mappers/scheduleAssignmentMapper.ts: a chromosome that is written and read back.
use ga_scheduler_v.Base.{
  subst, leb, ℕ, suc, ◌<◌, ◌≡◌, ◌≢◌, refl, sym, ap, ◌∙◌, Bool, true, false, ◌&&◌, String, some,
  List, [], ◌∷◌, ◌++◌, map, map-append, all, sort, insert_sorted, length, All, All-append, Distinct,
  append_assoc, append-nil, ◌==◌, nat_eq, arith,
}
use ga_scheduler_v.Base.Map.{Map}
use ga_scheduler_v.Types.{GeneSession, GeneKind, fixed, flexible, Gene, Chromosome}
use ga_scheduler_v.Ga.Crossover.{is_fixed_gene}
use ga_scheduler_v.Ga.Schedule.{offering_of}
use ga_scheduler_v.Repo.ScheduleAssignment.{
  ScheduleAssignmentRow, ScheduleAssignmentRecord, ScheduleAssignmentWriteInput, gene_writes,
  chromosome_to_writes, by_offering, index_no_later, contiguous, same_bool, session_of_record,
  kind_of, gene_of_records, genes_of_buckets, records_to_chromosome,
}
use ga_scheduler_v.Repo.ScheduleAssignment.Rows.{read_back, load_schedule_assignments}
use ga_scheduler_v.Repo.ScheduleAssignment.Ordering.{
  HasSessions, gene_no_later, All-sort, Distinct-sort, written, sort-chromosome_to_writes,
}
use ga_scheduler_v.Repo.ScheduleAssignment.Store.{
  IsStorable, Keeps, StorableSession, StorableGene, Pairwise, ReadSession, ReadGene,
}
use ga_scheduler_v.Repo.ScheduleAssignment.Grouping.{
  Lacks, IsOf, by_offering_new, by_offering-append,
}

seconds :
    (run : String) (ls : List ℕ) → map (λ (p : String × ℕ). p.1) (map (λ (l : ℕ). (run, l)) ls) ≡ ls
seconds run [] = refl
seconds run (l ∷ ls) = ap (λ ks. l ∷ ks) (seconds run ls)

both_true : {x y : Bool} → x ≡ true → y ≡ true → (x && y) ≡ true
both_true h k = ground arith

same_bool_refl : (b : Bool) → same_bool b b ≡ true
same_bool_refl true = refl
same_bool_refl false = refl

kind_back : (k : GeneKind) → kind_of (elim k [ fixed ↦ true | flexible ↦ false ]) ≡ k
kind_back fixed = refl
kind_back flexible = refl

module _ (stored : ScheduleAssignmentWriteInput → ScheduleAssignmentRow)
    (store : (w : ScheduleAssignmentWriteInput) → IsStorable w → Keeps w (stored w))
    (run : String) where
  abbrev pub records : Gene → ℕ → List GeneSession → List ScheduleAssignmentRecord
  records g i ss = map (read_back stored) (gene_writes run g i ss)

  kept :
      (g : Gene) (i : ℕ) (s : GeneSession)
      → StorableSession s
      → Keeps (written run g i s) (stored (written run g i s))
  kept g i s h = store (written run g i s) (record {
    slots = h.0;
    lecturers = subst (λ ls. Distinct (λ (k : ℕ). k) ls) (sym (seconds run s.lecturer_ids)) h.1;
  })

  records-IsOf :
      (g : Gene) (i : ℕ) (ss : List GeneSession)
      → All StorableSession ss
      → All (IsOf g.offering_id) (records g i ss)
  unfolding gene_writes
  records-IsOf g i [] h = tt
  records-IsOf g i (s ∷ ss) h = ((kept g i s h.0).offering, records-IsOf g (suc i) ss h.1)

  -- The records of a gene are in order, and their indices are as they are checked.
  records_sorted :
      (g : Gene) (i : ℕ) (ss : List GeneSession)
      → All StorableSession ss
      → sort index_no_later (records g i ss) ≡ records g i ss
  unfolding gene_writes
  records_sorted g i [] h = refl
  records_sorted g i (s ∷ []) h = refl
  records_sorted g i (s ∷ t ∷ ss) h =
      let a = (kept g i s h.0).index in
      let b = (kept g (suc i) t h.1.0).index in
      let first : index_no_later (read_back stored (written run g i s))
            (read_back stored (written run g (suc i) t))
          ≡ true =
        ground arith in
      ap (insert_sorted index_no_later (read_back stored (written run g i s)))
        (records_sorted g (suc i) (t ∷ ss) h.1)
      ∙ rw first refl

  contiguous-records :
      (g : Gene) (i : ℕ) (ss : List GeneSession)
      → All StorableSession ss
      → contiguous i (records g i ss) ≡ true
  unfolding gene_writes contiguous
  contiguous-records g i [] h = refl
  contiguous-records g i (s ∷ ss) h =
      let e = (kept g i s h.0).index in
      let here : ((stored (written run g i s)).session_index == i) ≡ true = ground arith in
      both_true here (contiguous-records g (suc i) ss h.1)

  records_agree :
      (g : Gene) (i : ℕ) (ss : List GeneSession) (b : Bool)
      → All StorableSession ss
      → is_fixed_gene g ≡ b
      → all (λ (s : ScheduleAssignmentRecord). same_bool s.is_fixed_room b) (records g i ss) ≡ true
  unfolding gene_writes
  records_agree g i [] b h e = refl
  records_agree g i (s ∷ ss) b h e =
      let same = ap (λ k. same_bool k b) ((kept g i s h.0).pinned ∙ e) ∙ same_bool_refl b in
      both_true same (records_agree g (suc i) ss b h.1 e)

  sessions_back :
      (g : Gene) (i : ℕ) (ss : List GeneSession)
      → All StorableSession ss
      → Pairwise ReadSession ss (map session_of_record (records g i ss))
  unfolding gene_writes
  sessions_back g i [] h = tt
  sessions_back g i (s ∷ ss) h =
      let k = kept g i s h.0 in
      (
        record {
          room = k.room;
          slots = k.slots;
          lecturers = k.lecturers ∙ ap (sort leb) (seconds run s.lecturer_ids);
        },
        sessions_back g (suc i) ss h.1,
      )

  -- The gene that is read.
  abbrev read_gene : Gene → Gene
  read_gene g = record g { sessions = map session_of_record (records g 0 g.sessions) }

  gene_back :
      (g : Gene) (ss : List GeneSession)
      → 0 < length ss
      → All StorableSession ss
      → gene_of_records g.offering_id (records g 0 ss)
        ≡ some (record g { sessions = map session_of_record (records g 0 ss) })
  unfolding gene_of_records gene_writes
  gene_back g [] some_session h = let never : ⊥ = omega arith in absurd never
  gene_back g (s ∷ ss) some_session h =
      let pinned = (kept g 0 s h.0).pinned in
      let kind = ap kind_of pinned ∙ kind_back g.kind in
      let agree =
        records_agree g 0 (s ∷ ss) (stored (written run g 0 s)).is_fixed_room h (sym pinned) in
      let back = map session_of_record (records g 0 (s ∷ ss)) in
      rw (gene_of_records, contiguous-records g 0 (s ∷ ss) h, agree)
        (λ j. some (record { kind = kind j; offering_id = g.offering_id; sessions = back }))

  abbrev bucket : Gene → ℕ × List ScheduleAssignmentRecord
  bucket g = (g.offering_id, records g 0 g.sessions)

  genes_back :
      (gs : Chromosome)
      → All StorableGene gs
      → genes_of_buckets (map bucket gs) ≡ some (map read_gene gs)
  unfolding genes_of_buckets
  genes_back [] h = refl
  genes_back (g ∷ gs) h =
      let sorted = records_sorted g 0 g.sessions h.0.1 in
      rw (sorted, gene_back g g.sessions h.0.0 h.0.1, genes_back gs h.1) refl

  read_genes : (gs : Chromosome) → All StorableGene gs → Pairwise ReadGene gs (map read_gene gs)
  read_genes [] h = tt
  read_genes (g ∷ gs) h = (
    record { kind = refl; offering = refl; sessions = sessions_back g 0 g.sessions h.0.1 },
    read_genes gs h.1,
  )

  bucket_new :
      (g : Gene) (ss : List GeneSession) (m : Map ℕ (List ScheduleAssignmentRecord))
      → 0 < length ss
      → All StorableSession ss
      → Lacks g.offering_id m
      → by_offering m (records g 0 ss) ≡ m ++ (g.offering_id, records g 0 ss) ∷ []
  unfolding gene_writes
  bucket_new g [] m some_session h new = let never : ⊥ = omega arith in absurd never
  bucket_new g (s ∷ ss) m some_session h new =
      by_offering_new g.offering_id (read_back stored (written run g 0 s)) (records g 1 ss) m new
        (records-IsOf g 0 (s ∷ ss) h)

  extend :
      (g : Gene) (m : Map ℕ (List ScheduleAssignmentRecord)) (gs : Chromosome)
      → All (λ (h : Gene). Lacks h.offering_id m) gs
      → All (λ (h : Gene). g.offering_id ≢ h.offering_id) gs
      → All (λ (h : Gene). Lacks h.offering_id (m ++ bucket g ∷ [])) gs
  extend g m [] new apart = tt
  extend g m (h ∷ gs) new apart = (
    All-append (λ (p : ℕ × List ScheduleAssignmentRecord). ¬ (p.0 ≡ h.offering_id)) m
        (bucket g ∷ []) new.0 (apart.0, tt),
    extend g m gs new.1 apart.1,
  )

  buckets_back :
      (gs : Chromosome) (m : Map ℕ (List ScheduleAssignmentRecord))
      → Distinct offering_of gs
      → All StorableGene gs
      → All (λ (h : Gene). Lacks h.offering_id m) gs
      → by_offering m (map (read_back stored) (chromosome_to_writes run gs)) ≡ m ++ map bucket gs
  unfolding chromosome_to_writes by_offering
  buckets_back [] m d h new = sym (append-nil m)
  buckets_back (g ∷ gs) m d h new =
      let rest = map (read_back stored) (chromosome_to_writes run gs) in
      ap (by_offering m) (
        map-append (read_back stored) (gene_writes run g 0 g.sessions)
          (chromosome_to_writes run gs))
      ∙ by_offering-append m (records g 0 g.sessions) rest
      ∙ ap (λ n. by_offering n rest) (bucket_new g g.sessions m h.0.0 h.0.1 new.0)
      ∙ buckets_back gs (m ++ bucket g ∷ []) d.1 h.1 (extend g m gs new.1 d.0)
      ∙ append_assoc m (bucket g ∷ []) (map bucket gs)

  all_new : (gs : Chromosome) → All (λ (h : Gene). Lacks h.offering_id []) gs
  all_new [] = tt
  all_new (g ∷ gs) = (tt, all_new gs)

  All-HasSessions : (gs : Chromosome) → All StorableGene gs → All HasSessions gs
  All-HasSessions [] h = tt
  All-HasSessions (g ∷ gs) h = (h.0.0, All-HasSessions gs h.1)

  -- A chromosome whose genes have sessions and different offerings, and whose sessions have no slot
  -- and no lecturer twice, is written to the database and read back without an error, for any run, if
  -- the rows keep what was created, each with its slots in any order and its lecturers in the order of
  -- their ids. What is read are the genes in the order of their offerings, each with its kind and, in
  -- their order, its sessions: every session has its room, its slots in some order, and its lecturers
  -- in the order of their ids.
  pub records_to_chromosome-chromosome_to_writes :
      (gs : Chromosome)
      → Distinct offering_of gs
      → All StorableGene gs
      → (hs : Chromosome) × (records_to_chromosome
            (load_schedule_assignments stored (chromosome_to_writes run gs))
          ≡ some hs)
        × Pairwise ReadGene (sort gene_no_later gs) hs
  unfolding records_to_chromosome
  records_to_chromosome-chromosome_to_writes gs d h =
      let ordered = sort gene_no_later gs in
      let d' = Distinct-sort gene_no_later offering_of gs d in
      let h' = All-sort gene_no_later StorableGene gs h in
      (
        map read_gene ordered,
        ap (λ ws. records_to_chromosome (map (read_back stored) ws))
              (sort-chromosome_to_writes run gs d (All-HasSessions gs h))
            ∙ ap genes_of_buckets (buckets_back ordered [] d' h' (all_new ordered))
            ∙ genes_back ordered h',
        read_genes ordered h',
      )
