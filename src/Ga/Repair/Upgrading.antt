-- ===== src/Ga/Repair/Upgrading.antt =====
-- ga/repair.ts: the changes of rooms, seen against what the candidate allows.

use ga_scheduler_v.Base.{
  ℕ, zero, suc, ◌≡◌, refl, sym, subst, ap, ◌∙◌, inl, inr, false, not, ◌&&◌, ◌||◌, Option, none,
  some, Option-cases, Bool-cases, List, [], ◌∷◌, filter, Memᴰ, Memᴰ-sort, Memᴰ-filter, length, sort,
  get_elem?, any, includes, All, All_get, All-tabulate, leb, ltb, ◌==◌, nat_eq, pair_eq,
}
use ga_scheduler_v.Base.Map
use ga_scheduler_v.Base.Map.{Map}
use ga_scheduler_v.Types.{Room, PreGaCandidate, GeneSession, GeneKind, fixed, flexible}
use ga_scheduler_v.Ga.Shuffle.{set_elem}
use ga_scheduler_v.Ga.Shuffle.Picks.{length-set_elem}
use ga_scheduler_v.Ga.Shuffle.Members.{mem_of_get, set_elem-mem}
use ga_scheduler_v.Ga.Fitness.{Use, capacity_of}
use ga_scheduler_v.Ga.Seeder.{room_pool}
use ga_scheduler_v.Ga.Valid.{Within, IsRoom, IsSession}
use ga_scheduler_v.Ga.Repair.{ConflictIndex}
use ga_scheduler_v.Ga.Repair.Capacity.{
  indices_from, sibling_room_slots, capacity_at, total_capacity, alternatives, free_room, upgrade,
  upgrade_any, upgrade_loop, has_own_room, repair_capacity_shortfall,
}
use ga_scheduler_v.Ga.Repair.Whole.{set_rooms, keep_room}

-- The rooms: a change of the room of one session, or of all.
module _ (c : PreGaCandidate) where
  in_room-IsSession :
      (s : GeneSession) (room : ℕ)
      → IsSession c s
      → IsRoom c room
      → IsSession c (record s { room_id = room })
  in_room-IsSession s room old r = record { room = r; slots = old.slots; taught = old.taught }

  -- As many sessions as before, that the candidate allows.
  abbrev pub Keep : List GeneSession → List GeneSession → Type 0
  Keep before after = (length after ≡ length before) × All (IsSession c) after

  set_rooms-Keep :
      (room : ℕ) (sessions : List GeneSession)
      → IsRoom c room
      → All (IsSession c) sessions
      → Keep sessions (set_rooms room sessions)
  set_rooms-Keep room [] r all = (refl, tt)
  set_rooms-Keep room (s ∷ rest) r all =
      let (n, more) = set_rooms-Keep room rest r all.1 in
      (ap suc n, (in_room-IsSession s room all.0 r, more))

  pub keep_room-Keep :
      (kind : GeneKind) (before after : List GeneSession)
      → All (IsSession c) before
      → Keep before after
      → Keep before (keep_room kind before after)
  keep_room-Keep flexible before after old k = k
  keep_room-Keep fixed [] after old k = k
  keep_room-Keep fixed (s ∷ rest) after old k =
      let (n, all) = set_rooms-Keep s.room_id after old.0.room k.1 in (n ∙ k.0, all)

  module _ (rooms : Map ℕ Room) (index : ConflictIndex) (flex : c.is_fixed_room ≡ false) where
    free_room-mem :
        (siblings : List Use) (slots candidates : List ℕ) (room : ℕ)
        → free_room rooms index (room_pool c) siblings slots candidates ≡ some room
        → Memᴰ room candidates
    unfolding free_room
    free_room-mem siblings slots [] room e = cc
    free_room-mem siblings slots (r ∷ rest) room e =
        elim (Bool-cases (
          any (λ slot. Map.has (r, slot) index.room_time_used || includes siblings (r, slot))
            slots)) [
              | inl held ↦
                  Memᴰ.tail (free_room-mem siblings slots rest room (rw (free_room, held) at e))
              | inr free ↦
                  let same : r ≡ room = (let got = rw (free_room, free) at e in cc) in
                  Memᴰ.head (sym same)
            ]

    alternatives-Within :
        (s : GeneSession) → Within (alternatives rooms index (room_pool c) s) (room_pool c)
    unfolding alternatives
    alternatives-Within s x m =
        let larger =
          filter
            (λ r. not (r == s.room_id) && ltb (capacity_of rooms s.room_id) (capacity_of rooms r))
            (room_pool c) in
        ((Memᴰ-filter
            (λ r. not (r == s.room_id) && ltb (capacity_of rooms s.room_id) (capacity_of rooms r))
            (room_pool c) x).0
          ((Memᴰ-sort (λ a b. leb (capacity_of rooms b) (capacity_of rooms a)) larger x).0 m)).0

    abbrev Kept : List GeneSession → Option (List GeneSession) → Type 0
    Kept before none = Unit
    Kept before (some after) = Keep before after

    upgrade-Kept :
        (sessions : List GeneSession) (idx : ℕ)
        → All (IsSession c) sessions
        → Kept sessions (upgrade rooms index (room_pool c) sessions idx)
    unfolding upgrade
    upgrade-Kept sessions idx all = elim (Option-cases (get_elem? sessions idx)) [
      | inl missing ↦ rw (upgrade, missing) tt
      | inr (s, found) ↦
          let others = alternatives rooms index (room_pool c) s in
          let siblings = sibling_room_slots idx 0 sessions in
          elim (Option-cases
            (free_room rooms index (room_pool c) siblings s.time_slot_ids others)) [
              | inl full ↦ rw (upgrade, found, full) tt
              | inr (room, free) ↦
                  let moved : GeneSession = record s { room_id = room } in
                  let fine =
                    in_room-IsSession s room
                      (All_get (IsSession c) sessions all s (mem_of_get sessions idx found))
                      (inr (
                        flex,
                        alternatives-Within s room
                            (free_room-mem siblings s.time_slot_ids others room free),
                      )) in
                  rw (upgrade, found, free)
                    (
                      length-set_elem idx moved sessions,
                      All-tabulate (IsSession c) (set_elem idx moved sessions) (λ t m.
                          elim (set_elem-mem idx moved sessions m) [
                            | inl e ↦ subst (IsSession c) (sym e) fine
                            | inr k ↦ All_get (IsSession c) sessions all t k
                          ]),
                    )
            ]
    ]

    upgrade_any-Kept :
        (sessions : List GeneSession) (order : List ℕ)
        → All (IsSession c) sessions
        → Kept sessions (upgrade_any rooms index (room_pool c) sessions order)
    unfolding upgrade_any
    upgrade_any-Kept sessions [] all = tt
    upgrade_any-Kept sessions (idx ∷ order) all =
        elim (Option-cases (upgrade rooms index (room_pool c) sessions idx)) [
          | inl stuck ↦ rw (upgrade_any, stuck) (upgrade_any-Kept sessions order all)
          | inr (after, moved) ↦
              rw (upgrade_any, moved) (subst (Kept sessions) moved (upgrade-Kept sessions idx all))
        ]

    upgrade_loop-Keep :
        (required left : ℕ) (sessions : List GeneSession)
        → All (IsSession c) sessions
        → Keep sessions (upgrade_loop rooms index (room_pool c) required left sessions)
    unfolding upgrade_loop
    upgrade_loop-Keep required zero sessions all = (refl, all)
    upgrade_loop-Keep required (suc left) sessions all =
        let order =
          sort
            (λ a b.
              leb (capacity_at rooms index (room_pool c) sessions a)
                (capacity_at rooms index (room_pool c) sessions b))
            (indices_from 0 sessions) in
        elim (Bool-cases (leb required (total_capacity rooms index (room_pool c) sessions))) [
          | inl enough ↦ rw (upgrade_loop, enough) (refl, all)
          | inr short ↦ elim (Option-cases (upgrade_any rooms index (room_pool c) sessions order)) [
            | inl stuck ↦ rw (upgrade_loop, short, stuck) (refl, all)
            | inr (after, moved) ↦
                let (n, fine) = subst (Kept sessions) moved (upgrade_any-Kept sessions order all) in
                let (m, more) = upgrade_loop-Keep required left after fine in
                rw (upgrade_loop, short, moved) (m ∙ n, more)
          ]
        ]

  pub repair_capacity_shortfall-Keep :
      (kind : GeneKind) (index : ConflictIndex) (rooms : Map ℕ Room) (sessions : List GeneSession)
      → (kind ≡ flexible → c.is_fixed_room ≡ false)
      → All (IsSession c) sessions
      → Keep sessions (repair_capacity_shortfall kind c index rooms sessions)
  unfolding repair_capacity_shortfall
  repair_capacity_shortfall-Keep fixed index rooms sessions flex all = (refl, all)
  repair_capacity_shortfall-Keep flexible index rooms sessions flex all =
      elim (Bool-cases (has_own_room c || leb (length sessions) 1)) [
        | inl settled ↦ rw (repair_capacity_shortfall, settled) (refl, all)
        | inr pooled ↦
            rw (repair_capacity_shortfall, pooled)
              (upgrade_loop-Keep rooms index (flex refl) c.effective_student_count (length sessions)
                sessions all)
      ]
