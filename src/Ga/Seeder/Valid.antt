-- ===== src/Ga/Seeder/Valid.antt =====
-- ga/chromosome.ts: the seeder gives every candidate a gene that owes it nothing.
use mathlib.Core.List.Memᴰ
use native.Mathlib.Nat.{mod-lt}
use ga_scheduler_v.Base.{
  ℕ, zero, suc, ◌*◌, ◌%◌, ◌<◌, ◌≡◌, refl, sym, subst, ap, ◌∙◌, inl, inr, Bool, true, false, Option,
  none, some, Option-cases, Bool-cases, List, [], ◌∷◌, map, Memᴰ, length, drop, length-take,
  Memᴰ-take, Memᴰ-drop, All, All_get, All-tabulate, ltb, ltb→lt, if◌then◌else◌, nat_eq, arith,
}
use ga_scheduler_v.Base.Map
use ga_scheduler_v.Types.{TimeSlot, PreGaCandidate, GeneSession, fixed, flexible, Gene, Chromosome}
use ga_scheduler_v.Slots.{SlotLookup, find_contiguous_slots}
use ga_scheduler_v.Slots.Blocks.{find_contiguous_slots-IsBlock}
use ga_scheduler_v.Slots.SameDay.{pick_same_day_session_slots}
use ga_scheduler_v.Slots.SameDay.OneDay.{IsListed, pick_same_day_session_slots-IsOneDay}
use ga_scheduler_v.Ga.Draws.{Draws, part, number, stream}
use ga_scheduler_v.Ga.Shuffle.{fisher_yates_shuffle, pick_distinct_blocks}
use ga_scheduler_v.Ga.Shuffle.Picks.{pick_distinct_blocks_lem, get-below}
use ga_scheduler_v.Ga.Shuffle.Members.{
  mem_of_get, fisher_yates_shuffle-mem, pick_distinct_blocks-mem,
}
use ga_scheduler_v.Ga.Valid.{
  Within, IsCandidate, IsRoom, IsSlots, IsSession, IsGene, IsChromosome, IsLookup,
}
use ga_scheduler_v.Ga.Seeder.{
  pick_one, room_pool, is_multi_room_split, seed_room, pick_room_for_session,
  pick_lecturers_for_session, same_day_blocks, slice_at, slices, blocks_or_same_day, session_slots,
  sessions_over, create_gene_from_candidate, create_from, create_random_chromosome,
}

-- A draw from a pool that is not empty is one of the pool.
pub pick_one-mem :
    (d : Draws) (pool : List ℕ)
    → 0 < length pool
    → (x : ℕ) × (pick_one d pool ≡ some x) × Memᴰ x pool
pick_one-mem d pool h =
    let (x, found) = get-below (number d % length pool) pool (mod-lt (number d) h) in
    (x, found, mem_of_get pool (number d % length pool) found)

module _ (c : PreGaCandidate) where
  -- The ids of resolved slots are possible ones.
  named-Within :
      (lookup : SlotLookup) (slots : List TimeSlot) (P : TimeSlot → Type 0)
      → ((t : TimeSlot) → P t → Memᴰ t.id c.possible_time_slot_ids)
      → All P slots
      → Within (map (λ (t : TimeSlot). t.id) slots) c.possible_time_slot_ids
  named-Within lookup slots P of_P all x m =
      let (t, mt, e) = Memᴰ.of_map (λ (t : TimeSlot). t.id) slots m in
      subst (λ i. Memᴰ i c.possible_time_slot_ids) e (of_P t (All_get P slots all t mt))

  module _ (lookup : SlotLookup) (known : IsLookup (some lookup)) where
    abbrev IsPossible : TimeSlot → Type 0
    IsPossible t = Memᴰ t.id c.possible_time_slot_ids

    possible :
        (i : ℕ) (t : TimeSlot)
        → Memᴰ i c.possible_time_slot_ids
        → Map.get i lookup ≡ some t
        → IsPossible t
    possible i t m found = subst (λ k. Memᴰ k c.possible_time_slot_ids) (sym (known i t found)) m

    pub find_contiguous_slots-IsSlots :
        (block : List ℕ)
        → Memᴰ block (find_contiguous_slots c.possible_time_slot_ids c.session_duration lookup)
        → IsSlots c block
    find_contiguous_slots-IsSlots block m =
        let b =
          find_contiguous_slots-IsBlock IsPossible c.possible_time_slot_ids c.session_duration
            lookup block possible m in
        (
          subst (λ k. Within k c.possible_time_slot_ids) (sym b.named)
              (named-Within lookup b.slots (λ t. (t.day ≡ b.day) × IsPossible t) (λ t p. p.1)
                b.same_day),
          (let long = b.long in omega arith),
        )

    pub same_day-IsSlots :
        (draw1 draw2 : ℕ)
        → IsSlots c (
            pick_same_day_session_slots draw1 draw2 c.possible_time_slot_ids c.session_duration
              lookup)
    same_day-IsSlots draw1 draw2 =
        let b =
          pick_same_day_session_slots-IsOneDay draw1 draw2 c.possible_time_slot_ids
            c.session_duration lookup in
        (
          subst (λ k. Within k c.possible_time_slot_ids) (sym b.named)
              (named-Within lookup b.slots
                (λ t. (t.day ≡ b.day) × IsListed lookup c.possible_time_slot_ids t)
                (λ t p. let (i, m, found) = p.1 in possible i t m found) b.same_day),
          b.short,
        )

    same_day_blocks-IsSlots :
        (d : Draws) (i count : ℕ)
        → (length (same_day_blocks d c lookup i count) ≡ count)
          × All (IsSlots c) (same_day_blocks d c lookup i count)
    unfolding same_day_blocks
    same_day_blocks-IsSlots d i zero = (refl, tt)
    same_day_blocks-IsSlots d i (suc count) =
        let (n, all) = same_day_blocks-IsSlots d (suc i) count in
        (
          ap suc n,
          (same_day-IsSlots (number (part 0 (part i d))) (number (part 1 (part i d))), all),
        )

    blocks_or_same_day-IsSlots :
        (d : Draws) (count : ℕ) (blocks : List (List ℕ))
        → ((block : List ℕ) → Memᴰ block blocks → IsSlots c block)
        → (length (blocks_or_same_day d c lookup count blocks) ≡ count)
          × All (IsSlots c) (blocks_or_same_day d c lookup count blocks)
    unfolding blocks_or_same_day
    blocks_or_same_day-IsSlots d count [] h = same_day_blocks-IsSlots d 0 count
    blocks_or_same_day-IsSlots d count (b ∷ blocks) h = (
      (pick_distinct_blocks_lem (λ _. 0) (stream d) (b ∷ blocks) count).0 (omega arith),
      All-tabulate (IsSlots c) (pick_distinct_blocks (stream d) (b ∷ blocks) count)
          (λ k m. h k (pick_distinct_blocks-mem (stream d) (b ∷ blocks) count m)),
    )

  pub slice_at-IsSlots :
      (shuffled : List ℕ) (i : ℕ)
      → Within shuffled c.possible_time_slot_ids
      → IsSlots c (slice_at c shuffled i)
  slice_at-IsSlots shuffled i h = (
    λ x m. h x (Memᴰ-drop (i * c.session_duration) shuffled (Memᴰ-take c.session_duration _ m)),
    omega (arith, length-take c.session_duration (drop (i * c.session_duration) shuffled)),
  )

  slices-IsSlots :
      (shuffled : List ℕ) (i count : ℕ)
      → Within shuffled c.possible_time_slot_ids
      → (length (slices c shuffled i count) ≡ count) × All (IsSlots c) (slices c shuffled i count)
  unfolding slices
  slices-IsSlots shuffled i zero h = (refl, tt)
  slices-IsSlots shuffled i (suc count) h =
      let (n, all) = slices-IsSlots shuffled (suc i) count h in
      (ap suc n, (slice_at-IsSlots shuffled i h, all))

  pub session_slots-IsSlots :
      (d : Draws) (lookup : Option SlotLookup) (count : ℕ)
      → IsLookup lookup
      → (length (session_slots d c lookup count) ≡ count)
        × All (IsSlots c) (session_slots d c lookup count)
  unfolding session_slots
  session_slots-IsSlots d none count known =
      slices-IsSlots (fisher_yates_shuffle (stream d) c.possible_time_slot_ids) 0 count
        (λ x m. fisher_yates_shuffle-mem (stream d) c.possible_time_slot_ids m)
  session_slots-IsSlots d (some lookup) count known =
      blocks_or_same_day-IsSlots lookup known d count
        (find_contiguous_slots c.possible_time_slot_ids c.session_duration lookup)
        (find_contiguous_slots-IsSlots lookup known)

  module _ (ok : IsCandidate c) where
    pub pick_room_for_session-IsRoom :
        (d : Draws) (seed : ℕ)
        → IsRoom c seed
        → (r : ℕ) × (pick_room_for_session d c seed ≡ some r) × IsRoom c r
    unfolding pick_room_for_session
    pick_room_for_session-IsRoom d seed h = elim (Bool-cases (is_multi_room_split c)) [
      | inr whole ↦ (seed, rw (pick_room_for_session, whole) refl, h)
      | inl split ↦ elim (Option-cases c.room_id) [
        | inr (r, own) ↦
            let whole : is_multi_room_split c ≡ false =
              ap
                (λ o. elim o as (λ _. Bool) [
                  | none ↦ ltb 1 c.parallel_session_count
                  | some _ ↦ false
                ])
                own in
            let never : ⊥ = cc in absurd never
        | inl free ↦
            let (flex, some_room) = ok.housed free in
            let (r, e, m) = pick_one-mem d (room_pool c) some_room in
            (r, rw (pick_room_for_session, split) e, inr (flex, m))
      ]
    ]

    pub pick_lecturers-Within :
        (i : ℕ)
        → (ids : List ℕ) × (pick_lecturers_for_session c i ≡ some ids) × Within ids c.lecturer_pool
    unfolding pick_lecturers_for_session
    pick_lecturers-Within i = elim (Bool-cases (ltb 1 (length c.sibling_offering_ids))) [
      | inr single ↦ (c.lecturer_ids, rw (pick_lecturers_for_session, single) refl, ok.assigned)
      | inl cohort ↦
          let groups = c.sibling_lecturer_groups in
          let some_group = ok.owned (ltb→lt 1 (length c.sibling_offering_ids) cohort) in
          let (group, found) = get-below (i % length groups) groups (mod-lt i some_group) in
          (
            group,
            rw (pick_lecturers_for_session, cohort) found,
            All_get (λ g. Within g c.lecturer_pool) groups ok.grouped group
                (mem_of_get groups (i % length groups) found),
          )
    ]

    pub sessions_over-IsSession :
        (d : Draws) (seed : ℕ) (lecturers : ℕ → Option (List ℕ)) (i : ℕ) (blocks : List (List ℕ))
        → IsRoom c seed
        → ((j : ℕ) → (ids : List ℕ) × (lecturers j ≡ some ids) × Within ids c.lecturer_pool)
        → All (IsSlots c) blocks
        → (sessions : List GeneSession) × (sessions_over d c seed lecturers i blocks
            ≡ some sessions)
          × (length sessions ≡ length blocks)
          × All (IsSession c) sessions
    unfolding sessions_over
    sessions_over-IsSession d seed lecturers i [] h taught all = ([], refl, refl, tt)
    sessions_over-IsSession d seed lecturers i (block ∷ blocks) h taught all =
        let (r, er, room) = pick_room_for_session-IsRoom (part i d) seed h in
        let (ids, el, within) = taught i in
        let (rest, e, n, ok_rest) =
          sessions_over-IsSession d seed lecturers (suc i) blocks h taught all.1 in
        (
          record { room_id = r; time_slot_ids = block; lecturer_ids = ids } ∷ rest,
          rw (sessions_over, er, el, e) refl,
          ap suc n,
          (record { room = room; slots = all.0; taught = within }, ok_rest),
        )

    seed_room-IsRoom : (d : Draws) → (r : ℕ) × (seed_room d c ≡ some r) × IsRoom c r
    unfolding seed_room
    seed_room-IsRoom d =
        let by_own : Option ℕ → Option ℕ =
          λ o. elim o [ some own ↦ some own | none ↦ pick_one d (room_pool c) ] in
        elim (Option-cases c.room_id) [
          | inr (r, own) ↦ (r, ap by_own own, inl own)
          | inl free ↦
              let (flex, some_room) = ok.housed free in
              let (r, e, m) = pick_one-mem d (room_pool c) some_room in
              (r, ap by_own free ∙ e, inr (flex, m))
        ]

    pub create_gene-IsGene :
        (d : Draws) (lookup : Option SlotLookup)
        → IsLookup lookup
        → (g : Gene) × (create_gene_from_candidate d c lookup ≡ some g) × IsGene c g
    unfolding create_gene_from_candidate
    create_gene-IsGene d lookup known =
        let (seed, es, room) = seed_room-IsRoom (part 0 d) in
        let (n, all) = session_slots-IsSlots (part 2 d) lookup c.parallel_session_count known in
        let (sessions, e, m, fine) =
          sessions_over-IsSession (part 1 d) seed (pick_lecturers_for_session c) 0
            (session_slots (part 2 d) c lookup c.parallel_session_count) room pick_lecturers-Within
            all in
        (
          record {
            kind = if c.is_fixed_room then fixed else flexible;
            offering_id = c.offering_id;
            sessions = sessions;
          },
          rw (create_gene_from_candidate, es, e) refl,
          record {
            offering = refl;
            kind = kind_of c.is_fixed_room;
            count = m ∙ n;
            sessions = fine;
          },
        )
      where
        kind_of :
            (b : Bool)
            → elim (if b then fixed else flexible) as (λ _. Bool) [
              | fixed ↦ true
              | flexible ↦ false
            ]
              ≡ b
        kind_of true = refl
        kind_of false = refl

create_from-IsChromosome :
    (lookup : Option SlotLookup) (known : IsLookup lookup) (d : Draws) (i : ℕ)
    (cs : List PreGaCandidate)
    → All IsCandidate cs
    → (gs : Chromosome) × (create_from d i cs lookup ≡ some gs) × IsChromosome cs gs
unfolding create_from
create_from-IsChromosome lookup known d i [] ok = ([], refl, tt)
create_from-IsChromosome lookup known d i (c ∷ cs) ok =
    let (g, e, fine) = create_gene-IsGene c ok.0 (part i d) lookup known in
    let (gs, es, all) = create_from-IsChromosome lookup known d (suc i) cs ok.1 in
    (g ∷ gs, rw (create_from, e, es) refl, (fine, all))

-- If every candidate is as the validator makes it, the seeder throws no error, whatever is drawn, and
-- its chromosome has a gene for each candidate, in order, that owes it nothing: its offering and kind,
-- its number of sessions, and for each session an allowed room, at most `sessionDuration` of the
-- possible slots, and lecturers of the pool. A lookup that is given finds slots under their own ids.
pub create_random_chromosome-IsChromosome :
    (d : Draws) (candidates : List PreGaCandidate) (lookup : Option SlotLookup)
    → All IsCandidate candidates
    → IsLookup lookup
    → (chromosome : Chromosome) × (create_random_chromosome d candidates lookup ≡ some chromosome)
      × IsChromosome candidates chromosome
unfolding create_random_chromosome
create_random_chromosome-IsChromosome d candidates lookup ok known =
    create_from-IsChromosome lookup known d 0 candidates ok
