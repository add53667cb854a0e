-- ===== src/Repo/ScheduleAssignment/Ordering.antt =====
-- repo/scheduleAssignmentRepo.ts: the rows in the order of the database are those of the genes in the
-- order of their offerings.
use ga_scheduler_v.Base.{
  ℕ, suc, ◌<◌, ◌≡◌, ◌≢◌, refl, sym, ap, ◌∙◌, inl, inr, Bool, true, false, ◌&&◌, ◌||◌, Bool-cases,
  String, List, [], ◌∷◌, ◌++◌, map, sort, insert_sorted, length, All, Distinct, leb, ltb, ◌==◌,
  nat_eq, arith, if◌then◌else◌,
}
use ga_scheduler_v.Types.{GeneSession, Gene, Chromosome}
use ga_scheduler_v.Ga.Crossover.{is_fixed_gene}
use ga_scheduler_v.Ga.Schedule.{offering_of}
use ga_scheduler_v.Repo.ScheduleAssignment.{
  ScheduleAssignmentWriteInput, gene_writes, chromosome_to_writes,
}
use ga_scheduler_v.Repo.ScheduleAssignment.Rows.{row_no_later}

abbrev pub HasSessions : Gene → Type 0
HasSessions g = 0 < length g.sessions

abbrev pub gene_no_later : Gene → Gene → Bool
gene_no_later g h = leb g.offering_id h.offering_id

module _ {ℓ} {A : Type ℓ} (le : A → A → Bool) where
  pub All-insert_sorted {κ} :
      (P : A → Type κ) (x : A) (ys : List A) → P x → All P ys → All P (insert_sorted le x ys)
  All-insert_sorted P x [] h hs = (h, tt)
  All-insert_sorted P x (y ∷ ys) h hs = elim (Bool-cases (le x y)) [
    | inl first ↦ rw first (h, hs)
    | inr later ↦ rw later (hs.0, All-insert_sorted P x ys h hs.1)
  ]

  pub All-sort {κ} : (P : A → Type κ) (xs : List A) → All P xs → All P (sort le xs)
  All-sort P [] h = tt
  All-sort P (x ∷ xs) h = All-insert_sorted P x (sort le xs) h.0 (All-sort P xs h.1)

  Distinct-insert_sorted :
      (key : A → ℕ) (x : A) (ys : List A)
      → All (λ (y : A). key x ≢ key y) ys
      → Distinct key ys
      → Distinct key (insert_sorted le x ys)
  Distinct-insert_sorted key x [] new d = (tt, tt)
  Distinct-insert_sorted key x (y ∷ ys) new d = elim (Bool-cases (le x y)) [
    | inl first ↦ rw first (new, d)
    | inr later ↦ rw later (
      All-insert_sorted (λ (z : A). key y ≢ key z) x ys (λ e. new.0 (sym e)) d.0,
      Distinct-insert_sorted key x ys new.1 d.1,
    )
  ]

  pub Distinct-sort : (key : A → ℕ) (xs : List A) → Distinct key xs → Distinct key (sort le xs)
  Distinct-sort key [] d = tt
  Distinct-sort key (x ∷ xs) d =
      Distinct-insert_sorted key x (sort le xs) (All-sort (λ (y : A). key x ≢ key y) xs d.0)
        (Distinct-sort key xs d.1)

  -- Every element of the first list, inserted from the last one on.
  abbrev insert_each : List A → List A → List A
  insert_each [] ys = ys
  insert_each (x ∷ xs) ys = insert_sorted le x (insert_each xs ys)

  sort-append : (xs ys : List A) → sort le (xs ++ ys) ≡ insert_each xs (sort le ys)
  sort-append [] ys = refl
  sort-append (x ∷ xs) ys = ap (insert_sorted le x) (sort-append xs ys)

  insert_sorted_first :
      (x y : A) (ys : List A) → le x y ≡ true → insert_sorted le x (y ∷ ys) ≡ x ∷ y ∷ ys
  insert_sorted_first x y ys h = rw h refl

module _ (run : String) where
  -- The row of a session of a gene.
  abbrev pub written : Gene → ℕ → GeneSession → ScheduleAssignmentWriteInput
  written g i s = record {
    run_id = run;
    offering_id = g.offering_id;
    session_index = i;
    room_id = s.room_id;
    is_fixed_room = is_fixed_gene g;
    slots = s.time_slot_ids;
    lecturers = map (λ l. (run, l)) s.lecturer_ids;
  }

  abbrev Rows : Type 0
  Rows = List ScheduleAssignmentWriteInput

  abbrev rows_of : Gene → Rows
  rows_of g = gene_writes run g 0 g.sessions

  abbrev writes : Chromosome → Rows
  writes = chromosome_to_writes run

  -- Rows of a gene among those of the genes in order.
  splice : Gene → Rows → Chromosome → Rows
  splice g ws [] = ws ++ []
  splice g ws (h ∷ hs) =
      let rest = splice g ws hs in
      if gene_no_later g h then ws ++ writes (h ∷ hs) else rows_of h ++ rest

  splice-nil : (g : Gene) (hs : Chromosome) → splice g [] hs ≡ writes hs
  unfolding splice chromosome_to_writes
  splice-nil g [] = refl
  splice-nil g (h ∷ hs) = elim (Bool-cases (gene_no_later g h)) [
    | inl first ↦ rw (splice, first) refl
    | inr later ↦ rw (splice, later) (ap (λ ws. rows_of h ++ ws) (splice-nil g hs))
  ]

  splice_whole :
      (g : Gene) (hs : Chromosome)
      → splice g (rows_of g) hs ≡ writes (insert_sorted gene_no_later g hs)
  unfolding splice chromosome_to_writes
  splice_whole g [] = refl
  splice_whole g (h ∷ hs) = elim (Bool-cases (gene_no_later g h)) [
    | inl first ↦ rw (splice, first) refl
    | inr later ↦ rw (splice, later) (ap (λ ws. rows_of h ++ ws) (splice_whole g hs))
  ]

  -- A row goes after all rows of a gene of a smaller offering.
  insert_after :
      (w : ScheduleAssignmentWriteInput) (h : Gene) (i : ℕ) (ss : List GeneSession) (rest : Rows)
      → h.offering_id < w.offering_id
      → insert_sorted row_no_later w (gene_writes run h i ss ++ rest)
        ≡ gene_writes run h i ss ++ insert_sorted row_no_later w rest
  unfolding gene_writes
  insert_after w h i [] rest below = refl
  insert_after w h i (s ∷ ss) rest below =
      let later : (ltb w.offering_id h.offering_id
            || w.offering_id == h.offering_id && leb w.session_index i)
          ≡ false =
        ground arith in
      rw later (ap (λ ws. written h i s ∷ ws) (insert_after w h (suc i) ss rest below))

  -- A row goes before the other rows of its gene and before a list that it starts.
  insert_own :
      (g : Gene) (i : ℕ) (s : GeneSession) (ss : List GeneSession) (rest : Rows)
      → insert_sorted row_no_later (written g i s) rest ≡ written g i s ∷ rest
      → insert_sorted row_no_later (written g i s) (gene_writes run g (suc i) ss ++ rest)
        ≡ gene_writes run g i (s ∷ ss) ++ rest
  unfolding gene_writes
  insert_own g i s [] rest start = start
  insert_own g i s (t ∷ ss) rest start =
      insert_sorted_first row_no_later (written g i s) (written g (suc i) t)
        (gene_writes run g (suc (suc i)) ss ++ rest) (ground arith)

  insert_before :
      (w : ScheduleAssignmentWriteInput) (h : Gene) (ss : List GeneSession) (rest : Rows)
      → 0 < length ss
      → w.offering_id < h.offering_id
      → insert_sorted row_no_later w (gene_writes run h 0 ss ++ rest)
        ≡ w ∷ gene_writes run h 0 ss ++ rest
  unfolding gene_writes
  insert_before w h [] rest some_session above = let never : ⊥ = omega arith in absurd never
  insert_before w h (s ∷ ss) rest some_session above =
      insert_sorted_first row_no_later w (written h 0 s) (gene_writes run h 1 ss ++ rest)
        (ground arith)

  insert_splice :
      (g : Gene) (i : ℕ) (s : GeneSession) (ss : List GeneSession) (hs : Chromosome)
      → All HasSessions hs
      → All (λ (h : Gene). g.offering_id ≢ h.offering_id) hs
      → insert_sorted row_no_later (written g i s) (splice g (gene_writes run g (suc i) ss) hs)
        ≡ splice g (gene_writes run g i (s ∷ ss)) hs
  unfolding splice chromosome_to_writes
  insert_splice g i s ss [] some_sessions apart = insert_own g i s ss [] refl
  insert_splice g i s ss (h ∷ hs) some_sessions apart = elim (Bool-cases (gene_no_later g h)) [
    | inl first ↦
        let neq = apart.0 in
        let above : g.offering_id < h.offering_id = ground arith in
        rw (splice, first)
          (insert_own g i s ss (writes (h ∷ hs))
            (insert_before (written g i s) h h.sessions (writes hs) some_sessions.0 above))
    | inr later ↦
        let below : h.offering_id < g.offering_id = ground arith in
        rw (splice, later)
          (insert_after (written g i s) h 0 h.sessions (splice g (gene_writes run g (suc i) ss) hs)
              below
            ∙ ap (λ ws. rows_of h ++ ws) (insert_splice g i s ss hs some_sessions.1 apart.1))
  ]

  insert_rows :
      (g : Gene) (i : ℕ) (ss : List GeneSession) (hs : Chromosome)
      → All HasSessions hs
      → All (λ (h : Gene). g.offering_id ≢ h.offering_id) hs
      → insert_each row_no_later (gene_writes run g i ss) (writes hs)
        ≡ splice g (gene_writes run g i ss) hs
  unfolding gene_writes
  insert_rows g i [] hs some_sessions apart = sym (splice-nil g hs)
  insert_rows g i (s ∷ ss) hs some_sessions apart =
      ap (insert_sorted row_no_later (written g i s))
        (insert_rows g (suc i) ss hs some_sessions apart)
      ∙ insert_splice g i s ss hs some_sessions apart

  -- Of genes with sessions and different offerings, the rows in order are those of the genes in order.
  pub sort-chromosome_to_writes :
      (gs : Chromosome)
      → Distinct offering_of gs
      → All HasSessions gs
      → sort row_no_later (chromosome_to_writes run gs)
        ≡ chromosome_to_writes run (sort gene_no_later gs)
  unfolding chromosome_to_writes
  sort-chromosome_to_writes [] d h = refl
  sort-chromosome_to_writes (g ∷ gs) d h =
      sort-append row_no_later (rows_of g) (writes gs)
      ∙ ap (insert_each row_no_later (rows_of g)) (sort-chromosome_to_writes gs d.1 h.1)
      ∙ insert_rows g 0 g.sessions (sort gene_no_later gs)
          (All-sort gene_no_later HasSessions gs h.1)
          (All-sort gene_no_later (λ (k : Gene). g.offering_id ≢ k.offering_id) gs d.0)
      ∙ splice_whole g (sort gene_no_later gs)
