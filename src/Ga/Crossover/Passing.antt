-- ===== src/Ga/Crossover/Passing.antt =====
-- ga/crossover.ts: what assertMaskingInvariant asks of a gene at a locus and of two chromosomes.
use ga_scheduler_v.Base.{
  ℕ, suc, ◌≡◌, ◌↔◌, refl, sym, ap, ◌∙◌, Bool, true, not, ◌&&◌, inl, inr, [], ◌∷◌, none, some,
  length, if◌then◌else◌, ◌==◌, nat_eq, Bool-cases, Option-cases, arith,
}
use ga_scheduler_v.Base.Map
use ga_scheduler_v.Base.Map.{Map}
use ga_scheduler_v.Types.{PreGaCandidate, Gene, Chromosome}
use ga_scheduler_v.Ga.Crossover.{
  same_rooms, lecturers_within_pool, is_fixed_gene, assert_gene, assert_locus, assert_loci, or_else,
  kind_changed, room_changed, outside_pool, assert_masking_invariant,
}

module _ (candidates : Map ℕ PreGaCandidate) where
  -- A gene may stand for another at its locus.
  abbrev pub IsMasked : Gene → Gene → Type 0
  IsMasked p c = assert_locus candidates p c ≡ none

  -- What a gene must share with the gene of a parent: the offering, for a fixed one the kind and the
  -- rooms, and lecturers of the candidate's pool.
  record Masks (p c : Gene) : Type 0 where
    offering : p.offering_id ≡ c.offering_id
    candidate : PreGaCandidate
    found : Map.get p.offering_id candidates ≡ some candidate
    kind : is_fixed_gene p ≡ true → is_fixed_gene c ≡ true
    rooms : is_fixed_gene p ≡ true → same_rooms p.sessions c.sessions ≡ true
    pool : lecturers_within_pool c candidate ≡ true

  module _ (p c : Gene) (k : PreGaCandidate) where
    assert_gene_iff : (assert_gene p c (some k) ≡ none) ↔ (
        (is_fixed_gene p ≡ true → is_fixed_gene c ≡ true)
        × (is_fixed_gene p ≡ true → same_rooms p.sessions c.sessions ≡ true)
        × (lecturers_within_pool c k ≡ true))
    unfolding assert_gene
    assert_gene_iff =
        by_tests (is_fixed_gene p) (is_fixed_gene c) (same_rooms p.sessions c.sessions)
          (lecturers_within_pool c k)
      where
        by_tests :
            (fp fc rooms pool : Bool)
            → ((if fp && not fc
                  then some kind_changed
                  else if fp && not rooms
                  then some room_changed
                  else if pool
                  then none
                  else some outside_pool)
                ≡ none)
              ↔ ((fp ≡ true → fc ≡ true) × (fp ≡ true → rooms ≡ true) × (pool ≡ true))
        by_tests fp fc rooms pool = ground arith

  IsMasked-iff : (p c : Gene) → IsMasked p c ↔ Masks p c
  unfolding assert_locus
  IsMasked-iff p c = (
    λ h. elim (Bool-cases (p.offering_id == c.offering_id)) [
      | inr other ↦ let bad = rw (assert_locus, other) at h in cc
      | inl same ↦
          let eq : p.offering_id ≡ c.offering_id = ground arith in
          elim (Option-cases (Map.get c.offering_id candidates)) [
            | inl unknown ↦ let bad = rw (assert_locus, same, unknown) at h in cc
            | inr (k, found) ↦
                let (kind, rooms, pool) =
                  (assert_gene_iff p c k).0 (rw (assert_locus, same, found) at h) in
                record {
                  offering = eq;
                  candidate = k;
                  found = rw eq found;
                  kind = kind;
                  rooms = rooms;
                  pool = pool;
                }
          ]
    ],
    λ m.
        let same : (p.offering_id == c.offering_id) ≡ true = let eq = m.offering in ground arith in
        let found : Map.get c.offering_id candidates ≡ some m.candidate =
          sym (ap (λ i. Map.get i candidates) m.offering) ∙ m.found in
        rw (assert_locus, same, found)
          ((assert_gene_iff p c m.candidate).1 (m.kind, m.rooms, m.pool)),
  )

  -- A gene with the id and the kind of one gene and the sessions of another.
  pub IsMasked-sessions :
      (p g h : Gene) → IsMasked p g → IsMasked p h → IsMasked p (record g { sessions = h.sessions })
  unfolding lecturers_within_pool
  IsMasked-sessions p g h mg mh =
      let a = (IsMasked-iff p g).0 mg in
      let b = (IsMasked-iff p h).0 mh in
      (IsMasked-iff p (record g { sessions = h.sessions })).1 (record {
        offering = a.offering;
        candidate = b.candidate;
        found = b.found;
        kind = a.kind;
        rooms = b.rooms;
        pool = b.pool;
      })

  abbrev pub Passes : Chromosome → Chromosome → Type 0
  Passes [] [] = Unit
  Passes [] (c ∷ child) = ⊥
  Passes (p ∷ parent) [] = ⊥
  Passes (p ∷ parent) (c ∷ child) = IsMasked p c × Passes parent child

  assert_loci-Passes :
      (parent child : Chromosome)
      → length parent ≡ length child
      → assert_loci candidates parent child ≡ none
      → Passes parent child
  unfolding assert_loci
  assert_loci-Passes [] [] n h = tt
  assert_loci-Passes [] (c ∷ child) n h = let no : ⊥ = omega arith in absurd no
  assert_loci-Passes (p ∷ parent) [] n h = let no : ⊥ = omega arith in absurd no
  assert_loci-Passes (p ∷ parent) (c ∷ child) n h =
      elim (Option-cases (assert_locus candidates p c)) [
        | inl ok ↦ (ok, assert_loci-Passes parent child (omega arith) (rw (assert_loci, ok) at h))
        | inr (v, bad) ↦
            let e : or_else (some v) (assert_loci candidates parent child) ≡ none =
              rw (assert_loci, bad) at h in
            cc
      ]

  pub assert_masking_invariant-Passes :
      (parent child : Chromosome)
      → assert_masking_invariant candidates parent child ≡ none
      → Passes parent child
  unfolding assert_masking_invariant
  assert_masking_invariant-Passes parent child h =
      elim (Bool-cases (length parent == length child)) [
        | inl same ↦ assert_loci-Passes parent child (ground arith) (rw same at h)
        | inr other ↦ let bad = rw other at h in cc
      ]

  Passes-assert_loci :
      (parent child : Chromosome)
      → Passes parent child
      → (length parent ≡ length child) × (assert_loci candidates parent child ≡ none)
  unfolding assert_loci
  Passes-assert_loci [] [] h = (refl, refl)
  Passes-assert_loci [] (c ∷ child) h = absurd h
  Passes-assert_loci (p ∷ parent) [] h = absurd h
  Passes-assert_loci (p ∷ parent) (c ∷ child) h =
      let (n, e) = Passes-assert_loci parent child h.1 in (ap suc n, rw (assert_loci, h.0) e)

  pub Passes-assert_masking_invariant :
      (parent child : Chromosome)
      → Passes parent child
      → assert_masking_invariant candidates parent child ≡ none
  unfolding assert_masking_invariant
  Passes-assert_masking_invariant parent child h =
      let (n, e) = Passes-assert_loci parent child h in
      let same : (length parent == length child) ≡ true = ground arith in rw same e
