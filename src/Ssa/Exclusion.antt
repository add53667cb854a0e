-- ===== src/Ssa/Exclusion.antt =====
-- ssa/staticExclusion.ts. A coordinate, the text `${roomId}:${slotId}` of the source, is the pair of
-- the room id (which may be null) and the slot id.
use mathlib.Core.List.Memᴰ
use ga_scheduler_v.Base.{
  ℕ, ◌≡◌, ◌↔◌, refl, Bool, true, false, not, Option, List, [], subst, filter-eq-nil, ◌++◌, map,
  Memᴰ, filter, Memᴰ-filter, flat_map, Memᴰ-flat_map, Bool-cases, inl, inr, option_eq, nat_eq,
  pair_eq, ◌∙◌, ◌∷◌, ◌+◌, All, All-tabulate, length, length-append, length-map, arith,
}
use ga_scheduler_v.Base.Set
use ga_scheduler_v.Base.Set.{Set}
use ga_scheduler_v.Types.{PreGaCandidate}

abbrev pub Coordinate : Type 0
Coordinate = Option ℕ × ℕ

pub record StaticExclusionResult : Type 0 where
  pub locked_coordinates : Set Coordinate
  pub pruned_candidates : List PreGaCandidate

-- The coordinates of one fixed candidate.
coordinates : PreGaCandidate → List Coordinate
coordinates c = map (λ slot. (c.room_id, slot)) c.possible_time_slot_ids

-- The loop that fills `lockedCoordinates`.
lock_all : List PreGaCandidate → Set Coordinate
unfolding coordinates
lock_all fixed = Set.from_list (flat_map coordinates fixed)

-- The slots of a flexible candidate that are not locked in its room.
prune : Set Coordinate → PreGaCandidate → PreGaCandidate
prune locked c = record c {
  possible_time_slot_ids =
      filter (λ slot. not (Set.has (c.room_id, slot) locked)) c.possible_time_slot_ids;
}

unfoldable pub run_static_exclusion : List PreGaCandidate → StaticExclusionResult
unfolding lock_all prune
run_static_exclusion candidates =
    let fixed = filter (λ (c : PreGaCandidate). c.is_fixed_room) candidates in
    let flexible = filter (λ (c : PreGaCandidate). not c.is_fixed_room) candidates in
    let locked = lock_all fixed in
    record { locked_coordinates = locked; pruned_candidates = fixed ++ map (prune locked) flexible }

-- Some fixed candidate of the list may occupy the slot in the room.
pub record IsLocked (candidates : List PreGaCandidate) (room : Option ℕ) (slot : ℕ) : Type 0 where
  pub owner : PreGaCandidate
  pub listed : Memᴰ owner candidates
  pub fixed : owner.is_fixed_room ≡ true
  pub in_room : room ≡ owner.room_id
  pub in_slot : Memᴰ slot owner.possible_time_slot_ids

-- The locked coordinates are exactly those that some fixed candidate may occupy.
has-locked_coordinates :
    (candidates : List PreGaCandidate) (room : Option ℕ) (slot : ℕ)
    → (Set.has (room, slot) (run_static_exclusion candidates).locked_coordinates ≡ true)
      ↔ IsLocked candidates room slot
unfolding run_static_exclusion
has-locked_coordinates candidates room slot = (
  λ h.
      let m = (Set.has-from_list (flat_map coordinates fixed) (room, slot)).0 h in
      let (c, mc, mk) = (Memᴰ-flat_map coordinates fixed (room, slot)).0 m in
      let (s, ms, e) = Memᴰ.of_map (λ (i : ℕ). (c.room_id, i)) c.possible_time_slot_ids mk in
      let (listed, is_fixed) = (Memᴰ-filter (λ k. k.is_fixed_room) candidates c).0 mc in
      record {
        owner = c;
        listed = listed;
        fixed = is_fixed;
        in_room = cc;
        in_slot = Memᴰ.cast (cc) ms;
      },
  λ l. (Set.has-from_list (flat_map coordinates fixed) (room, slot)).1 (
      (Memᴰ-flat_map coordinates fixed (room, slot)).1 (
        l.owner,
        (Memᴰ-filter (λ k. k.is_fixed_room) candidates l.owner).1 (l.listed, l.fixed),
        Memᴰ.cast (rw l.in_room) (Memᴰ.map (λ (i : ℕ). (l.owner.room_id, i)) l.in_slot),
      )),
)
  where
    fixed : List PreGaCandidate
    fixed = filter (λ c. c.is_fixed_room) candidates

-- What becomes of a candidate `o`: a fixed one stays, and a flexible one keeps the slots not locked.
pub data Becomes (candidates : List PreGaCandidate) (o c : PreGaCandidate) : Type 0 where
  kept : o.is_fixed_room ≡ true → c ≡ o → Becomes candidates o c
  filtered :
      o.is_fixed_room ≡ false
      → c ≡ record o { possible_time_slot_ids = c.possible_time_slot_ids }
      → ((slot : ℕ)
          → Memᴰ slot c.possible_time_slot_ids
            ↔ (Memᴰ slot o.possible_time_slot_ids × ¬ IsLocked candidates o.room_id slot))
      → Becomes candidates o c

-- A candidate of the list is in the pruned list, as what becomes of it.
abbrev pub Survives : List PreGaCandidate → List PreGaCandidate → PreGaCandidate → Type 0
Survives candidates pruned o = (c : PreGaCandidate) × Memᴰ c pruned × Becomes candidates o c

-- A candidate of the pruned list is what becomes of one of the list.
abbrev pub Descends : List PreGaCandidate → PreGaCandidate → Type 0
Descends candidates c = (o : PreGaCandidate) × Memᴰ o candidates × Becomes candidates o c

mem-prune :
    (candidates : List PreGaCandidate) (o : PreGaCandidate) (slot : ℕ)
    → Memᴰ slot
        (prune (run_static_exclusion candidates).locked_coordinates o).possible_time_slot_ids
      ↔ (Memᴰ slot o.possible_time_slot_ids × ¬ IsLocked candidates o.room_id slot)
unfolding prune
mem-prune candidates o slot =
    let locked = (run_static_exclusion candidates).locked_coordinates in
    let free = λ (s : ℕ). not (Set.has (o.room_id, s) locked) in
    let iff = has-locked_coordinates candidates o.room_id slot in
    let stays = Memᴰ-filter free o.possible_time_slot_ids slot in
    (
      λ m. let (mo, open') = stays.0 m in (mo, λ l. let e = iff.1 l in absurd' open' e),
      λ (mo, none_locks). stays.1 (
        mo,
        elim (Bool-cases (Set.has (o.room_id, slot) locked)) [
          | inl h ↦ absurd (none_locks (iff.0 h))
          | inr h ↦ rw h
        ],
      ),
    )
  where
    absurd' : {b : Bool} → not b ≡ true → b ≡ true → ⊥
    absurd' {b} p q = let r : not b ≡ false = rw q in cc

prune-Becomes :
    (candidates : List PreGaCandidate) (o : PreGaCandidate)
    → o.is_fixed_room ≡ false
    → Becomes candidates o (prune (run_static_exclusion candidates).locked_coordinates o)
prune-Becomes candidates o flex =
    filtered flex (unfold prune in refl) (λ slot. mem-prune candidates o slot)

run_static_exclusion-Survives :
    (candidates : List PreGaCandidate) (o : PreGaCandidate)
    → Memᴰ o candidates
    → Survives candidates (run_static_exclusion candidates).pruned_candidates o
unfolding run_static_exclusion
run_static_exclusion-Survives candidates o m =
    let is_fixed = λ (k : PreGaCandidate). k.is_fixed_room in
    let is_flexible = λ (k : PreGaCandidate). not k.is_fixed_room in
    let locked = (run_static_exclusion candidates).locked_coordinates in
    elim (Bool-cases o.is_fixed_room) [
      | inl pinned ↦ (
        o,
        Memᴰ.append_left (map (prune locked) (filter is_flexible candidates))
            ((Memᴰ-filter is_fixed candidates o).1 (m, pinned)),
        kept pinned refl,
      )
      | inr flex ↦ (
        prune locked o,
        Memᴰ.append_right (filter is_fixed candidates)
            (Memᴰ.map (prune locked) ((Memᴰ-filter is_flexible candidates o).1 (m, rw flex))),
        prune-Becomes candidates o flex,
      )
    ]

run_static_exclusion-Descends :
    (candidates : List PreGaCandidate) (c : PreGaCandidate)
    → Memᴰ c (run_static_exclusion candidates).pruned_candidates
    → Descends candidates c
unfolding run_static_exclusion
run_static_exclusion-Descends candidates c m =
    let is_fixed = λ (k : PreGaCandidate). k.is_fixed_room in
    let is_flexible = λ (k : PreGaCandidate). not k.is_fixed_room in
    elim (Memᴰ.append_cases (filter is_fixed candidates) m) [
      | inl f ↦
          let (mc, pinned) = (Memᴰ-filter is_fixed candidates c).0 f in (c, mc, kept pinned refl)
      | inr f ↦
          let locked = (run_static_exclusion candidates).locked_coordinates in
          let (o, mo, e) = Memᴰ.of_map (prune locked) (filter is_flexible candidates) f in
          let (listed, flex) = (Memᴰ-filter is_flexible candidates o).0 mo in
          (o, listed, subst (Becomes candidates o) e (prune-Becomes candidates o (ground arith)))
    ]

length-partition :
    (candidates : List PreGaCandidate)
    → length (filter (λ (c : PreGaCandidate). c.is_fixed_room) candidates)
        + length (filter (λ (c : PreGaCandidate). not c.is_fixed_room) candidates)
      ≡ length candidates
length-partition [] = refl
length-partition (c ∷ cs) = ground (arith, length-partition cs)

length-pruned_candidates :
    (candidates : List PreGaCandidate)
    → length (run_static_exclusion candidates).pruned_candidates ≡ length candidates
unfolding run_static_exclusion
length-pruned_candidates candidates =
    let flexible = filter (λ (c : PreGaCandidate). not c.is_fixed_room) candidates in
    let locked = (run_static_exclusion candidates).locked_coordinates in
    length-append (filter (λ (c : PreGaCandidate). c.is_fixed_room) candidates)
      (map (prune locked) flexible)
    ∙ rw (length-map (prune locked) flexible) (length-partition candidates)

-- Static exclusion returns as many candidates as it takes. Every fixed candidate is in the result as
-- it is; every flexible one is in the result with exactly those of its slots that no fixed candidate
-- may use in the same room; and the result has no other candidates.
pub run_static_exclusion-Pruned :
    (candidates : List PreGaCandidate)
    → (length (run_static_exclusion candidates).pruned_candidates ≡ length candidates)
      × All (Survives candidates (run_static_exclusion candidates).pruned_candidates) candidates
      × All (Descends candidates) (run_static_exclusion candidates).pruned_candidates
run_static_exclusion-Pruned candidates =
    let pruned = (run_static_exclusion candidates).pruned_candidates in
    (
      length-pruned_candidates candidates,
      All-tabulate (Survives candidates pruned) candidates
          (run_static_exclusion-Survives candidates),
      All-tabulate (Descends candidates) pruned (run_static_exclusion-Descends candidates),
    )

-- A flexible candidate whose slots a fixed candidate may all use in the same room is left without
-- any slot: a fixed candidate blocks its room at every slot that it may use, not only at those that
-- it will use.
pub run_static_exclusion_starves :
    (candidates : List PreGaCandidate) (owner o : PreGaCandidate)
    → Memᴰ owner candidates
    → owner.is_fixed_room ≡ true
    → o.room_id ≡ owner.room_id
    → ((slot : ℕ) → Memᴰ slot o.possible_time_slot_ids → Memᴰ slot owner.possible_time_slot_ids)
    → Memᴰ o candidates
    → o.is_fixed_room ≡ false
    → Memᴰ
        (record o { possible_time_slot_ids = [] })
        (run_static_exclusion candidates).pruned_candidates
unfolding run_static_exclusion
run_static_exclusion_starves candidates owner o listed locks same covers mo flex =
    let locked = (run_static_exclusion candidates).locked_coordinates in
    let is_flexible = λ (k : PreGaCandidate). not k.is_fixed_room in
    let starved : prune locked o ≡ record o { possible_time_slot_ids = [] } =
      unfold prune in
      λ i. record o {
        possible_time_slot_ids =
            filter-eq-nil (λ slot. not (Set.has (o.room_id, slot) locked)) o.possible_time_slot_ids
              (λ slot m. rw (
                (has-locked_coordinates candidates o.room_id slot).1 (record {
                  owner = owner;
                  listed = listed;
                  fixed = locks;
                  in_room = same;
                  in_slot = covers slot m;
                })))
              i;
      } in
    Memᴰ.append_right (filter (λ (k : PreGaCandidate). k.is_fixed_room) candidates) (
      subst (λ c. Memᴰ c (map (prune locked) (filter is_flexible candidates))) starved
        (Memᴰ.map (prune locked) ((Memᴰ-filter is_flexible candidates o).1 (mo, rw flex))))
