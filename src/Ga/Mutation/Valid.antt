-- ===== src/Ga/Mutation/Valid.antt =====
-- ga/mutation.ts: a mutated gene owes its candidate nothing either.
use mathlib.Core.List.Memᴰ
use ga_scheduler_v.Base.{
  ℕ, zero, suc, ◌%◌, ◌≡◌, refl, sym, subst, ap, ◌∙◌, inl, inr, Bool, true, false, Option, none,
  some, min, max, Option-cases, Bool-cases, List, [], ◌∷◌, Memᴰ, length, take, Memᴰ-sort, Memᴰ-take,
  get_elem?, All, All_get, All-tabulate, leb, ◌==◌, nat_eq, arith,
}
use ga_scheduler_v.Types.{PreGaCandidate, GeneSession, GeneKind, fixed, flexible, Gene}
use ga_scheduler_v.Slots.{SlotLookup}
use ga_scheduler_v.Ga.Draws.{Draws, part, number, stream}
use ga_scheduler_v.Ga.Shuffle.{set_elem, fisher_yates_shuffle}
use ga_scheduler_v.Ga.Shuffle.Picks.{length-set_elem}
use ga_scheduler_v.Ga.Shuffle.Members.{mem_of_get, set_elem-mem, fisher_yates_shuffle-mem}
use ga_scheduler_v.Ga.Valid.{Within, IsCandidate, IsRoom, IsSlots, IsSession, IsGene, IsLookup}
use ga_scheduler_v.Ga.Seeder.{pick_one, room_pool, session_slots}
use ga_scheduler_v.Ga.Seeder.Valid.{
  pick_one-mem, same_day-IsSlots, slice_at-IsSlots, session_slots-IsSlots, pick_lecturers-Within,
  sessions_over-IsSession,
}
use ga_scheduler_v.Ga.Mutation.{
  carry_lecturers_for_session, new_lecturer_ids, mutate_lecturer, own_slots, fixed_slots,
  with_slots, room_or_first, mutation_room, mutate_sessions, mutate_gene,
}

new_lecturer_ids-Within :
    (d : Draws) (pool : List ℕ) (size : ℕ) → Within (new_lecturer_ids d pool size) pool
unfolding new_lecturer_ids
new_lecturer_ids-Within d pool size x m = elim (Bool-cases (size == 1)) [
  | inl one ↦ elim (Option-cases (pick_one (part 0 d) pool)) [
    | inl n ↦ absurd (Memᴰ.not-nil (rw (new_lecturer_ids, one, n) at m))
    | inr (l, found) ↦
        let e = Memᴰ.eq_of_singleton (rw (new_lecturer_ids, one, found) at m) in
        subst (λ k. Memᴰ k pool) (sym e) (mem_of_get pool (number (part 0 d) % length pool) found)
  ]
  | inr team ↦
      let shuffled = fisher_yates_shuffle (stream (part 1 d)) pool in
      let m' = (Memᴰ-sort leb (take size shuffled) x).0 (rw (new_lecturer_ids, team) at m) in
      fisher_yates_shuffle-mem (stream (part 1 d)) pool (Memᴰ-take size shuffled m')
]

module _ (c : PreGaCandidate) where
  mutate_lecturer-IsSession :
      (d : Draws) (sessions : List GeneSession)
      → All (IsSession c) sessions
      → (length (mutate_lecturer d sessions c) ≡ length sessions)
        × All (IsSession c) (mutate_lecturer d sessions c)
  unfolding mutate_lecturer
  mutate_lecturer-IsSession d sessions all =
      elim (Bool-cases (leb (length c.sibling_offering_ids) 1)) [
        | inl single ↦ rw (mutate_lecturer, single) (refl, all)
        | inr cohort ↦ elim (Bool-cases (length c.lecturer_pool == 0)) [
          | inl empty ↦ rw (mutate_lecturer, cohort, empty) (refl, all)
          | inr pooled ↦
              let idx = number (part 0 d) % length sessions in
              elim (Option-cases (get_elem? sessions idx)) [
                | inl n ↦ rw (mutate_lecturer, cohort, pooled, n) (refl, all)
                | inr (target, found) ↦
                    let size = min (max 1 (length target.lecturer_ids)) (length c.lecturer_pool) in
                    let ids = new_lecturer_ids (part 1 d) c.lecturer_pool size in
                    let fresh : GeneSession = record target { lecturer_ids = ids } in
                    let old =
                      All_get (IsSession c) sessions all target (mem_of_get sessions idx found) in
                    let fine : IsSession c fresh = record {
                      room = old.room;
                      slots = old.slots;
                      taught = new_lecturer_ids-Within (part 1 d) c.lecturer_pool size;
                    } in
                    rw (mutate_lecturer, cohort, pooled, found)
                      (
                        length-set_elem idx fresh sessions,
                        All-tabulate (IsSession c) (set_elem idx fresh sessions) (λ s m.
                            elim (set_elem-mem idx fresh sessions m) [
                              | inl e ↦ subst (IsSession c) (sym e) fine
                              | inr t ↦ All_get (IsSession c) sessions all s t
                            ]),
                      )
              ]
        ]
      ]

  own_slots-IsSlots :
      (d : Draws) (lookup : Option SlotLookup) (i count : ℕ)
      → IsLookup lookup
      → (length (own_slots d c lookup i count) ≡ count)
        × All (IsSlots c) (own_slots d c lookup i count)
  unfolding own_slots
  own_slots-IsSlots d lookup i zero known = (refl, tt)
  own_slots-IsSlots d none i (suc count) known =
      let (n, all) = own_slots-IsSlots d none (suc i) count known in
      let shuffled = fisher_yates_shuffle (stream (part i d)) c.possible_time_slot_ids in
      (
        ap suc n,
        (
          slice_at-IsSlots c shuffled i
              (λ x m. fisher_yates_shuffle-mem (stream (part i d)) c.possible_time_slot_ids m),
          all,
        ),
      )
  own_slots-IsSlots d (some lookup) i (suc count) known =
      let (n, all) = own_slots-IsSlots d (some lookup) (suc i) count known in
      (
        ap suc n,
        (
          same_day-IsSlots c lookup known (number (part 0 (part i d))) (number (part 1 (part i d))),
          all,
        ),
      )

  fixed_slots-IsSlots :
      (d : Draws) (lookup : Option SlotLookup) (count : ℕ)
      → IsLookup lookup
      → (length (fixed_slots d c lookup count) ≡ count)
        × All (IsSlots c) (fixed_slots d c lookup count)
  unfolding fixed_slots
  fixed_slots-IsSlots d none count known = own_slots-IsSlots d none 0 count known
  fixed_slots-IsSlots d (some lookup) count known =
      session_slots-IsSlots c d (some lookup) count known

  with_slots-IsSession :
      (sessions : List GeneSession) (blocks : List (List ℕ))
      → length blocks ≡ length sessions
      → All (IsSession c) sessions
      → All (IsSlots c) blocks
      → (length (with_slots sessions blocks) ≡ length sessions)
        × All (IsSession c) (with_slots sessions blocks)
  with_slots-IsSession [] blocks n all slots = (refl, tt)
  with_slots-IsSession (s ∷ sessions) [] n all slots = let never : ⊥ = omega arith in absurd never
  with_slots-IsSession (s ∷ sessions) (block ∷ blocks) n all slots =
      let (m, rest) = with_slots-IsSession sessions blocks (omega arith) all.1 slots.1 in
      (ap suc m, (record { room = all.0.room; slots = slots.0; taught = all.0.taught }, rest))

  module _ (ok : IsCandidate c) where
    carry_lecturers-Within :
        (prior : List GeneSession) (i : ℕ)
        → All (IsSession c) prior
        → (ids : List ℕ) × (carry_lecturers_for_session c prior i ≡ some ids)
          × Within ids c.lecturer_pool
    unfolding carry_lecturers_for_session
    carry_lecturers-Within prior i all = elim (Option-cases (get_elem? prior i)) [
      | inr (s, found) ↦ (
        s.lecturer_ids,
        rw (carry_lecturers_for_session, found) refl,
        (All_get (IsSession c) prior all s (mem_of_get prior i found)).taught,
      )
      | inl new ↦
          let (ids, e, within) = pick_lecturers-Within c ok i in
          (ids, rw (carry_lecturers_for_session, new) e, within)
    ]

    room_or_first-IsRoom :
        (d : Draws) (prior : List GeneSession)
        → All (IsSession c) prior
        → pick_one d (room_pool c) ≡ none
        → IsRoom c (room_or_first prior c)
    room_or_first-IsRoom d (s ∷ prior) all drawn = all.0.room
    room_or_first-IsRoom d [] all drawn =
        let own_or_0 : Option ℕ → ℕ = λ o. elim o [ none ↦ 0 | some r ↦ r ] in
        elim (Option-cases c.room_id) [
          | inr (r, own) ↦ subst (IsRoom c) (sym (ap own_or_0 own)) (inl own)
          | inl free ↦
              let (r, e, m) = pick_one-mem d (room_pool c) (ok.housed free).1 in
              let never : none ≡ some r = sym drawn ∙ e in cc
        ]

    mutation_room-IsRoom :
        (d : Draws) (prior : List GeneSession)
        → c.is_fixed_room ≡ false
        → All (IsSession c) prior
        → IsRoom c (mutation_room d c prior)
    unfolding mutation_room
    mutation_room-IsRoom d prior flex all = elim (Option-cases (pick_one d (room_pool c))) [
      | inr (r, found) ↦
          rw (mutation_room, found)
            (inr (flex, mem_of_get (room_pool c) (number d % length (room_pool c)) found))
      | inl n ↦ rw (mutation_room, n) (room_or_first-IsRoom d prior all n)
    ]

    mutate_sessions-IsSession :
        (d : Draws) (lookup : Option SlotLookup) (kind : GeneKind) (prior : List GeneSession)
        → IsLookup lookup
        → (kind ≡ flexible → c.is_fixed_room ≡ false)
        → length prior ≡ c.parallel_session_count
        → All (IsSession c) prior
        → (sessions : List GeneSession) × (mutate_sessions d c lookup kind prior ≡ some sessions)
          × (length sessions ≡ c.parallel_session_count)
          × All (IsSession c) sessions
    unfolding mutate_sessions
    mutate_sessions-IsSession d lookup fixed prior known flex n all =
        let (m, slots) = fixed_slots-IsSlots (part 0 d) lookup (length prior) known in
        let (k, fine) =
          with_slots-IsSession prior (fixed_slots (part 0 d) c lookup (length prior)) m all slots in
        (with_slots prior (fixed_slots (part 0 d) c lookup (length prior)), refl, k ∙ n, fine)
    mutate_sessions-IsSession d lookup flexible prior known flex n all =
        let (m, slots) = session_slots-IsSlots c (part 0 d) lookup c.parallel_session_count known in
        let (sessions, e, k, fine) =
          sessions_over-IsSession c ok (part 1 d) (mutation_room (part 2 d) c prior)
            (carry_lecturers_for_session c prior) 0
            (session_slots (part 0 d) c lookup c.parallel_session_count)
            (mutation_room-IsRoom (part 2 d) prior (flex refl) all)
            (λ i. carry_lecturers-Within prior i all) slots in
        (sessions, e, k ∙ m, fine)

    pub mutate_gene-IsGene :
        (d : Draws) (lookup : Option SlotLookup) (g : Gene)
        → IsLookup lookup
        → IsGene c g
        → (g' : Gene) × (mutate_gene d c lookup g ≡ some g') × IsGene c g'
    unfolding mutate_gene
    mutate_gene-IsGene d lookup g known fine =
        let flex : g.kind ≡ flexible → c.is_fixed_room ≡ false =
          λ e. sym fine.kind ∙ ap kind_is_fixed e in
        let (sessions, e, n, all) =
          mutate_sessions-IsSession (part 0 d) lookup g.kind g.sessions known flex fine.count
            fine.sessions in
        let (m, all') = mutate_lecturer-IsSession (part 1 d) sessions all in
        (
          record g { sessions = mutate_lecturer (part 1 d) sessions c },
          rw (mutate_gene, e) refl,
          record { offering = fine.offering; kind = fine.kind; count = m ∙ n; sessions = all' },
        )
      where
        kind_is_fixed : GeneKind → Bool
        kind_is_fixed k = elim k [ fixed ↦ true | flexible ↦ false ]
