-- ===== src/Ga/Repair/Valid.antt =====
-- ga/repair.ts: the repair of a session or of a gene, seen against what the candidate allows.
use mathlib.Core.List.Memᴰ
use ga_scheduler_v.Base.{
  ℕ, zero, suc, ◌%◌, ◌≡◌, refl, sym, subst, ap, ◌∙◌, inl, inr, Bool, true, false, not, ◌&&◌, Option,
  none, some, Option-cases, Bool-cases, List, [], ◌∷◌, Memᴰ, Memᴰ-sort, Memᴰ-cons, length, min, max,
  sort, get_elem?, All, All_get, All-tabulate, leb, ◌==◌, nat_eq, pair_eq, list_eq,
}
use ga_scheduler_v.Base.Set
use ga_scheduler_v.Base.Set.{Set}
use ga_scheduler_v.Types.{PreGaCandidate, GeneSession, GeneKind, fixed, flexible}
use ga_scheduler_v.Slots.{SlotLookup, find_contiguous_slots}
use ga_scheduler_v.Slots.SameDay.{pick_same_day_session_slots}
use ga_scheduler_v.Ga.Draws.{Draws, part, number, stream}
use ga_scheduler_v.Ga.Shuffle.{fisher_yates_shuffle}
use ga_scheduler_v.Ga.Shuffle.Members.{mem_of_get, fisher_yates_shuffle-mem}
use ga_scheduler_v.Ga.Seeder.{room_pool}
use ga_scheduler_v.Ga.Seeder.Valid.{find_contiguous_slots-IsSlots, same_day-IsSlots}
use ga_scheduler_v.Ga.Valid.{Within, IsRoom, IsSlots, IsSession, IsLookup}
use ga_scheduler_v.Ga.Repair.{
  ConflictIndex, room_or_gene_slot_conflicts, lecturer_conflicts, same_lecturer_set, window_from,
  alternatives_from, lecturer_alternatives, find_first, pick_lecturer_swap_for_block,
}
use ga_scheduler_v.Ga.Repair.Block.{
  session_at, or_try, or_session, place_at, place_first, place_elsewhere, last_resort, other_rooms,
  move_to, move_to_slots, relocate, swap_lecturers, is_clean, repair_session_as_block,
}

window_from-Within :
    (shuffled : List ℕ) (i left : ℕ) → Within (window_from shuffled i left) shuffled
unfolding window_from
window_from-Within shuffled i zero x m = absurd (Memᴰ.not-nil m)
window_from-Within shuffled i (suc left) x m =
    elim (Option-cases (get_elem? shuffled (i % length shuffled))) [
      | inl n ↦ window_from-Within shuffled (suc i) left x (rw (window_from, n) at m)
      | inr (l, found) ↦
          elim ((Memᴰ-cons x l (window_from shuffled (suc i) left)).0
            (rw (window_from, found) at m)) [
              | inl e ↦
                  subst (λ k. Memᴰ k shuffled) (sym e)
                    (mem_of_get shuffled (i % length shuffled) found)
              | inr t ↦ window_from-Within shuffled (suc i) left x t
            ]
    ]

alternatives_from-Within :
    (shuffled : List ℕ) (size start left : ℕ) (seen : Set (List ℕ))
    → ((ids : List ℕ) → Memᴰ ids seen → Within ids shuffled)
    → (ids : List ℕ) → Memᴰ ids (alternatives_from shuffled size start left seen)
    → Within ids shuffled
unfolding alternatives_from
alternatives_from-Within shuffled size start zero seen h = h
alternatives_from-Within shuffled size start (suc left) seen h =
    let next = sort leb (window_from shuffled start size) in
    alternatives_from-Within shuffled size (suc start) left (Set.add next seen) (λ ids m.
      elim ((Set.Memᴰ-add next seen ids).0 m) [
        | inl old ↦ h ids old
        | inr e ↦
            subst (λ k. Within k shuffled) (sym e)
              (λ x n.
                window_from-Within shuffled start size x
                  ((Memᴰ-sort leb (window_from shuffled start size) x).0 n))
      ])

module _ (c : PreGaCandidate) where
  lecturer_alternatives-Within :
      (d : Draws) (current ids : List ℕ)
      → Memᴰ ids (lecturer_alternatives d c current)
      → Within ids c.lecturer_pool
  unfolding lecturer_alternatives
  lecturer_alternatives-Within d current ids m = elim (Bool-cases (length c.lecturer_pool == 0)) [
    | inl empty ↦ absurd (Memᴰ.not-nil (rw (lecturer_alternatives, empty) at m))
    | inr pooled ↦
        let size = min (max 1 (length current)) (length c.lecturer_pool) in
        let shuffled = fisher_yates_shuffle (stream d) c.lecturer_pool in
        elim (Bool-cases (size == 1)) [
          | inl one ↦
              let (l, n, e) =
                Memᴰ.of_map (λ (l : ℕ). l ∷ []) shuffled
                  (rw (lecturer_alternatives, pooled, one) at m) in
              subst (λ k. Within k c.lecturer_pool) e
                (λ x k.
                  fisher_yates_shuffle-mem (stream d) c.lecturer_pool
                    (subst (λ y. Memᴰ y shuffled) (sym (Memᴰ.eq_of_singleton k)) n))
          | inr team ↦ λ x k. fisher_yates_shuffle-mem (stream d) c.lecturer_pool (
              alternatives_from-Within shuffled size 0 (length shuffled) []
                (λ js n. absurd (Memᴰ.not-nil n)) ids
                (rw (lecturer_alternatives, pooled, team) at m) x k)
        ]
  ]

-- What find_first returns is listed and passes the test.
pub find_first-mem :
    (p : List ℕ → Bool) (xs : List (List ℕ)) (x : List ℕ)
    → find_first p xs ≡ some x
    → Memᴰ x xs × (p x ≡ true)
find_first-mem p [] x e = cc
find_first-mem p (y ∷ ys) x e = elim (Bool-cases (p y)) [
  | inl passed ↦
      let same : y ≡ x = (let got = rw (passed) at e in cc) in
      (Memᴰ.head (sym same), sym (ap p same) ∙ passed)
  | inr other ↦ let (m, q) = find_first-mem p ys x (rw (other) at e) in (Memᴰ.tail m, q)
]

module _ (c : PreGaCandidate) where
  pub swap-Within :
      (d : Draws) (block : List ℕ) (current : List ℕ) (index : ConflictIndex) (ids : List ℕ)
      → pick_lecturer_swap_for_block d block c current index ≡ some ids
      → Within ids c.lecturer_pool
  unfolding pick_lecturer_swap_for_block
  swap-Within d block current index ids e =
      lecturer_alternatives-Within c d current ids
        (find_first-mem
          (λ js. not (same_lecturer_set js current) && not (lecturer_conflicts block js index))
          (lecturer_alternatives d c current) ids e).0

  -- What a search for a place returns is a session that the candidate allows.
  abbrev pub Allowed : Option GeneSession → Type 0
  Allowed none = Unit
  Allowed (some t) = IsSession c t

  pub session_at-Allowed :
      (room : ℕ) (block : List ℕ) (ids : Option (List ℕ))
      → IsRoom c room
      → IsSlots c block
      → ((js : List ℕ) → ids ≡ some js → Within js c.lecturer_pool)
      → Allowed (session_at room block ids)
  session_at-Allowed room block none r b h = tt
  session_at-Allowed room block (some js) r b h = record { room = r; slots = b; taught = h js refl }

  or_try-Allowed :
      (o other : Option GeneSession) → Allowed o → Allowed other → Allowed (or_try o other)
  or_try-Allowed none other h k = k
  or_try-Allowed (some t) other h k = h

  pub or_session-IsSession :
      (o : Option GeneSession) (t : GeneSession)
      → Allowed o
      → IsSession c t
      → IsSession c (or_session o t)
  or_session-IsSession none t h k = k
  or_session-IsSession (some u) t h k = h

  module _ (index : ConflictIndex) (used : Set ℕ) (s : GeneSession) (old : IsSession c s) where
    place_at-Allowed :
        (d : Draws) (block : List ℕ) (room : ℕ)
        → IsSlots c block
        → IsRoom c room
        → Allowed (place_at c index used s d block room)
    unfolding place_at
    place_at-Allowed d block room b r =
        elim (Bool-cases (room_or_gene_slot_conflicts block room index used)) [
          | inl held ↦ rw (place_at, held) tt
          | inr free ↦ elim (Bool-cases (lecturer_conflicts block s.lecturer_ids index)) [
            | inr idle ↦
                rw (place_at, free, idle) (record { room = r; slots = b; taught = old.taught })
            | inl busy ↦
                rw (place_at, free, busy)
                  (session_at-Allowed room block
                    (pick_lecturer_swap_for_block d block c s.lecturer_ids index) r b
                    (swap-Within d block s.lecturer_ids index))
          ]
        ]

    place_first-Allowed :
        (d : Draws) (i : ℕ) (blocks : List (List ℕ)) (room : ℕ)
        → All (IsSlots c) blocks
        → IsRoom c room
        → Allowed (place_first c index used s d i blocks room)
    unfolding place_first
    place_first-Allowed d i [] room b r = tt
    place_first-Allowed d i (block ∷ blocks) room b r =
        or_try-Allowed (place_at c index used s (part i d) block room)
          (place_first c index used s d (suc i) blocks room)
          (place_at-Allowed (part i d) block room b.0 r)
          (place_first-Allowed d (suc i) blocks room b.1 r)

    place_elsewhere-Allowed :
        (d : Draws) (i : ℕ) (rooms : List ℕ) (blocks : List (List ℕ))
        → All (IsRoom c) rooms
        → All (IsSlots c) blocks
        → Allowed (place_elsewhere c index used s d i rooms blocks)
    unfolding place_elsewhere
    place_elsewhere-Allowed d i [] blocks r b = tt
    place_elsewhere-Allowed d i (room ∷ rooms) blocks r b =
        let rest = place_elsewhere-Allowed d (suc i) rooms blocks r.1 b in
        elim (Bool-cases (room == s.room_id)) [
          | inl own ↦ rw (place_elsewhere, own) rest
          | inr other ↦
              rw (place_elsewhere, other)
                (or_try-Allowed (place_first c index used s (part i d) 0 blocks room)
                  (place_elsewhere c index used s d (suc i) rooms blocks)
                  (place_first-Allowed (part i d) 0 blocks room b r.0) rest)
        ]

    last_resort-IsSession :
        (d : Draws) (block : List ℕ)
        → IsSlots c block
        → IsSession c (last_resort c index used s d block)
    unfolding last_resort
    last_resort-IsSession d block b =
        let swapped = pick_lecturer_swap_for_block d block c s.lecturer_ids index in
        or_session-IsSession (session_at s.room_id block swapped)
          (record { room_id = s.room_id; time_slot_ids = block; lecturer_ids = s.lecturer_ids })
          (session_at-Allowed s.room_id block swapped old.room b
            (swap-Within d block s.lecturer_ids index))
          (record { room = old.room; slots = b; taught = old.taught })

    other_rooms-IsRoom :
        (d : Draws) (kind : GeneKind)
        → (kind ≡ flexible → c.is_fixed_room ≡ false)
        → All (IsRoom c) (other_rooms c index used s d kind)
    unfolding other_rooms
    other_rooms-IsRoom d fixed flex = tt
    other_rooms-IsRoom d flexible flex =
        All-tabulate (IsRoom c) (fisher_yates_shuffle (stream d) (room_pool c))
          (λ r m. inr (flex refl, fisher_yates_shuffle-mem (stream d) (room_pool c) m))

    module _ (kind : GeneKind) (flex : kind ≡ flexible → c.is_fixed_room ≡ false) where
      move_to-IsSession :
          (d : Draws) (blocks : List (List ℕ))
          → All (IsSlots c) blocks
          → IsSession c (move_to c index used s d kind blocks)
      unfolding move_to
      move_to-IsSession d [] b = old
      move_to-IsSession d (block ∷ blocks) b =
          let here = place_first c index used s (part 0 d) 0 (block ∷ blocks) s.room_id in
          let rooms = other_rooms c index used s (part 2 d) kind in
          let there = place_elsewhere c index used s (part 1 d) 0 rooms (block ∷ blocks) in
          or_session-IsSession (or_try here there) (last_resort c index used s (part 3 d) block)
            (or_try-Allowed here there
              (place_first-Allowed (part 0 d) 0 (block ∷ blocks) s.room_id b old.room)
              (place_elsewhere-Allowed (part 1 d) 0 rooms (block ∷ blocks)
                (other_rooms-IsRoom (part 2 d) kind flex) b))
            (last_resort-IsSession (part 3 d) block b.0)

      move_to_slots-IsSession :
          (d : Draws) (slots : List ℕ)
          → IsSlots c slots
          → IsSession c (move_to_slots c index used s d kind slots)
      unfolding move_to_slots
      move_to_slots-IsSession d [] b = old
      move_to_slots-IsSession d (slot ∷ slots) b = move_to-IsSession d ((slot ∷ slots) ∷ []) (b, tt)

      module _ (lookup : SlotLookup) (known : IsLookup (some lookup)) where
        relocate-IsSession :
            (d : Draws) (blocks : List (List ℕ))
            → All (IsSlots c) blocks
            → IsSession c (relocate c index used s d kind lookup blocks)
        unfolding relocate
        relocate-IsSession d [] b =
            move_to_slots-IsSession (part 0 d)
              (pick_same_day_session_slots (number (part 1 d)) (number (part 2 d))
                c.possible_time_slot_ids c.session_duration lookup)
              (same_day-IsSlots c lookup known (number (part 1 d)) (number (part 2 d)))
        relocate-IsSession d (block ∷ blocks) b =
            let shuffled = fisher_yates_shuffle (stream (part 1 d)) (block ∷ blocks) in
            move_to-IsSession (part 0 d) shuffled (
              All-tabulate (IsSlots c) shuffled (λ k m.
                All_get (IsSlots c) (block ∷ blocks) b k
                  (fisher_yates_shuffle-mem (stream (part 1 d)) (block ∷ blocks) m)))

        swap_lecturers-Allowed : (d : Draws) → Allowed (swap_lecturers c index used s d)
        unfolding swap_lecturers
        swap_lecturers-Allowed d =
            let block = s.time_slot_ids in
            elim (Bool-cases (
              length block == c.session_duration
              && lecturer_conflicts block s.lecturer_ids index
              && not (room_or_gene_slot_conflicts block s.room_id index used))) [
                | inr other ↦ rw (swap_lecturers, other) tt
                | inl only ↦
                    rw (swap_lecturers, only)
                      (session_at-Allowed s.room_id block
                        (pick_lecturer_swap_for_block d block c s.lecturer_ids index) old.room
                        old.slots (swap-Within d block s.lecturer_ids index))
              ]

        pub repair_session_as_block-IsSession :
            (d : Draws) → IsSession c (repair_session_as_block c index used s d kind lookup)
        unfolding repair_session_as_block
        repair_session_as_block-IsSession d =
            let blocks = find_contiguous_slots c.possible_time_slot_ids c.session_duration lookup in
            elim (Bool-cases
              (is_clean c index used s s && length s.time_slot_ids == c.session_duration)) [
                | inl clean ↦ rw (repair_session_as_block, clean) old
                | inr other ↦
                    rw (repair_session_as_block, other)
                      (or_session-IsSession (swap_lecturers c index used s (part 0 d))
                        (relocate c index used s (part 1 d) kind lookup blocks)
                        (swap_lecturers-Allowed (part 0 d))
                        (relocate-IsSession (part 1 d) blocks (
                          All-tabulate (IsSlots c) blocks
                            (find_contiguous_slots-IsSlots c lookup known))))
              ]
