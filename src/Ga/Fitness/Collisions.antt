-- ===== src/Ga/Fitness/Collisions.antt =====
-- evaluateHardFitness counts the uses of a room or a lecturer that repeat an earlier use.
use mathlib.Core.List.Memᴰ
use ga_scheduler_v.Base.{
  ℕ, ◌+◌, ◌≡◌, ◌↔◌, inl, inr, refl, List, [], ◌∷◌, ◌++◌, map, Memᴰ, includes, includes_iff,
  flat_map, ltb, if◌then◌else◌, Bool-cases, nat_eq, pair_eq, pair_beq, ◌∙◌, arith,
}
use ga_scheduler_v.Base.Map
use ga_scheduler_v.Base.Map.{Map}
use ga_scheduler_v.Types.{PreGaCandidate, GeneSession, Chromosome}
use ga_scheduler_v.Ga.Fitness.{
  Use, Tally, count_room, count_lecturer, tally_lecturers, tally_slots, tally_sessions, tally_genes,
  empty_tally, known_genes, evaluate_hard_fitness,
}

-- The uses of rooms and of lecturers by a session, by a gene, and by a chromosome, in order.
abbrev pub room_uses : Chromosome → List Use
room_uses =
    flat_map (λ g. flat_map (λ s. map (λ slot. (s.room_id, slot)) s.time_slot_ids) g.sessions)

abbrev pub lecturer_uses : Chromosome → List Use
lecturer_uses = flat_map (λ g.
    flat_map (λ s. flat_map (λ slot. map (λ l. (l, slot)) s.lecturer_ids) s.time_slot_ids)
      g.sessions)

-- How many elements stand behind an equal one, or are among those seen before.
repeats : List Use → List Use → ℕ
repeats seen [] = 0
repeats seen (k ∷ ks) = (if includes seen k then 1 else 0) + repeats (k ∷ seen) ks

-- The elements seen after a list.
abbrev seen_after : List Use → List Use → List Use
seen_after seen [] = seen
seen_after seen (k ∷ ks) = seen_after (k ∷ seen) ks

repeats-append :
    (seen xs ys : List Use)
    → repeats seen (xs ++ ys) ≡ repeats seen xs + repeats (seen_after seen xs) ys
unfolding repeats
repeats-append seen [] ys = omega arith
repeats-append seen (x ∷ xs) ys = omega (arith, repeats-append (x ∷ seen) xs ys)

seen_after-append :
    (seen xs ys : List Use) → seen_after seen (xs ++ ys) ≡ seen_after (seen_after seen xs) ys
seen_after-append seen [] ys = refl
seen_after-append seen (x ∷ xs) ys = seen_after-append (x ∷ seen) xs ys

-- The map counts at least one use exactly of what was seen.
abbrev Counts : Map Use ℕ → List Use → Type 0
Counts m seen = (k : Use) → ltb 0 (Map.get_or k 0 m) ≡ includes seen k

Counts-set :
    (m : Map Use ℕ) (seen : List Use) (k : Use) (n : ℕ)
    → Counts m seen
    → Counts (Map.set k (n + 1) m) (k ∷ seen)
Counts-set m seen k n h j = elim (Bool-cases (pair_beq k j)) [
  | inl same ↦ rw (Map.get_or-set k j 0 (n + 1) m, same) (ground arith)
  | inr other ↦ rw (Map.get_or-set k j 0 (n + 1) m, other) (h j)
]

-- The tally has seen these uses and counted so many violations.
record Seen (t : Tally) (rooms lecturers : List Use) (violations : ℕ) : Type 0 where
  rooms_counted : Counts t.room_time_map rooms
  lecturers_counted : Counts t.lecturer_time_map lecturers
  total : t.violations ≡ violations

-- `f` goes through these uses of rooms and of lecturers.
abbrev Adds : (Tally → Tally) → List Use → List Use → Type 0
Adds f rooms lecturers =
    (t : Tally) (r l : List Use) (v : ℕ)
    → Seen t r l v
    → Seen (f t) (seen_after r rooms) (seen_after l lecturers)
        (v + repeats r rooms + repeats l lecturers)

Adds-nil : Adds (λ t. t) [] []
unfolding repeats
Adds-nil t r l v h = record {
  rooms_counted = h.rooms_counted;
  lecturers_counted = h.lecturers_counted;
  total = omega (arith, h.total);
}

Adds-append :
    (f g : Tally → Tally) (rs ls rs' ls' : List Use)
    → Adds f rs ls
    → Adds g rs' ls'
    → Adds (λ t. g (f t)) (rs ++ rs') (ls ++ ls')
Adds-append f g rs ls rs' ls' hf hg t r l v h =
    let s = hg (f t) (seen_after r rs) (seen_after l ls) _ (hf t r l v h) in
    record {
      rooms_counted = rw (seen_after-append r rs rs') s.rooms_counted;
      lecturers_counted = rw (seen_after-append l ls ls') s.lecturers_counted;
      total = omega (arith, s.total, repeats-append r rs rs', repeats-append l ls ls');
    }

bump_lem :
    (m : Map Use ℕ) (seen : List Use) (k : Use) (v : ℕ)
    → Counts m seen
    → (if ltb 1 (Map.get_or k 0 m + 1) then v + 1 else v) ≡ v + (if includes seen k then 1 else 0)
bump_lem m seen k v h = elim (Bool-cases (includes seen k)) [
  | inl old ↦ let e = h k ∙ old in rw old (ground arith)
  | inr new ↦ let e = h k ∙ new in rw new (ground arith)
]

count_room-Adds : (k : Use) → Adds (count_room k) (k ∷ []) []
unfolding count_room repeats
count_room-Adds k t r l v h = record {
  rooms_counted = Counts-set t.room_time_map r k (Map.get_or k 0 t.room_time_map) h.rooms_counted;
  lecturers_counted = h.lecturers_counted;
  total = omega (arith, bump_lem t.room_time_map r k t.violations h.rooms_counted, h.total);
}

count_lecturer-Adds : (k : Use) → Adds (count_lecturer k) [] (k ∷ [])
unfolding count_lecturer repeats
count_lecturer-Adds k t r l v h = record {
  rooms_counted = h.rooms_counted;
  lecturers_counted =
      Counts-set t.lecturer_time_map l k (Map.get_or k 0 t.lecturer_time_map) h.lecturers_counted;
  total = omega (arith, bump_lem t.lecturer_time_map l k t.violations h.lecturers_counted, h.total);
}

tally_lecturers-Adds :
    (ls : List ℕ) (slot : ℕ) → Adds (tally_lecturers ls slot) [] (map (λ l. (l, slot)) ls)
unfolding tally_lecturers
tally_lecturers-Adds [] slot = Adds-nil
tally_lecturers-Adds (l ∷ ls) slot =
    Adds-append (count_lecturer (l, slot)) (tally_lecturers ls slot) [] ((l, slot) ∷ []) []
      (map (λ k. (k, slot)) ls) (count_lecturer-Adds (l, slot)) (tally_lecturers-Adds ls slot)

tally_slots-Adds :
    (s : GeneSession) (slots : List ℕ)
    → Adds
        (tally_slots s slots)
        (map (λ slot. (s.room_id, slot)) slots)
        (flat_map (λ slot. map (λ l. (l, slot)) s.lecturer_ids) slots)
unfolding tally_slots
tally_slots-Adds s [] = Adds-nil
tally_slots-Adds s (slot ∷ slots) =
    Adds-append (λ t. tally_lecturers s.lecturer_ids slot (count_room (s.room_id, slot) t))
      (tally_slots s slots) ((s.room_id, slot) ∷ []) (map (λ l. (l, slot)) s.lecturer_ids)
      (map (λ slot'. (s.room_id, slot')) slots)
      (flat_map (λ slot'. map (λ l. (l, slot')) s.lecturer_ids) slots)
      (Adds-append (count_room (s.room_id, slot)) (tally_lecturers s.lecturer_ids slot)
        ((s.room_id, slot) ∷ []) [] [] (map (λ l. (l, slot)) s.lecturer_ids)
        (count_room-Adds (s.room_id, slot)) (tally_lecturers-Adds s.lecturer_ids slot))
      (tally_slots-Adds s slots)

abbrev session_rooms : GeneSession → List Use
session_rooms s = map (λ slot. (s.room_id, slot)) s.time_slot_ids

abbrev session_lecturers : GeneSession → List Use
session_lecturers s = flat_map (λ slot. map (λ l. (l, slot)) s.lecturer_ids) s.time_slot_ids

tally_sessions-Adds :
    (ss : List GeneSession)
    → Adds (tally_sessions ss) (flat_map session_rooms ss) (flat_map session_lecturers ss)
unfolding tally_sessions
tally_sessions-Adds [] = Adds-nil
tally_sessions-Adds (s ∷ ss) =
    Adds-append (tally_slots s s.time_slot_ids) (tally_sessions ss) (session_rooms s)
      (session_lecturers s) (flat_map session_rooms ss) (flat_map session_lecturers ss)
      (tally_slots-Adds s s.time_slot_ids) (tally_sessions-Adds ss)

tally_genes-Adds : (gs : Chromosome) → Adds (tally_genes gs) (room_uses gs) (lecturer_uses gs)
unfolding tally_genes
tally_genes-Adds [] = Adds-nil
tally_genes-Adds (g ∷ gs) =
    Adds-append (tally_sessions g.sessions) (tally_genes gs) (flat_map session_rooms g.sessions)
      (flat_map session_lecturers g.sessions) (room_uses gs) (lecturer_uses gs)
      (tally_sessions-Adds g.sessions) (tally_genes-Adds gs)

-- The violations are the repeated uses of a room at a slot and of a lecturer at a slot.
evaluate_hard_fitness-repeats :
    (chromosome : Chromosome) (candidates : List PreGaCandidate)
    → evaluate_hard_fitness chromosome candidates
      ≡ repeats [] (room_uses (known_genes candidates chromosome))
        + repeats [] (lecturer_uses (known_genes candidates chromosome))
unfolding evaluate_hard_fitness
evaluate_hard_fitness-repeats chromosome candidates =
    let known = known_genes candidates chromosome in
    omega (
      arith,
      (tally_genes-Adds known empty_tally [] [] 0 (record {
        rooms_counted = λ k. refl;
        lecturers_counted = λ k. refl;
        total = refl;
      })).total,
    )

-- No element stands twice in the list.
abbrev pub Unique : List Use → Type 0
Unique [] = Unit
Unique (k ∷ ks) = ¬ Memᴰ k ks × Unique ks

repeats-zero :
    (seen ks : List Use)
    → (repeats seen ks ≡ 0) ↔ (((k : Use) → Memᴰ k ks → ¬ Memᴰ k seen) × Unique ks)
unfolding repeats
repeats-zero seen [] = (λ _. (λ k m. absurd (Memᴰ.not-nil m), tt), λ _. refl)
repeats-zero seen (k ∷ ks) = elim (Bool-cases (includes seen k)) [
  | inl old ↦ rw old (
    λ h. absurd (omega arith),
    λ (fresh, _). absurd (fresh k (Memᴰ.head refl) ((includes_iff seen k).0 old)),
  )
  | inr new ↦
      let ih = repeats-zero (k ∷ seen) ks in
      rw new (
        λ h.
            let (fresh, unique) = ih.0 (omega arith) in
            (
              λ j m. elim (Memᴰ.cases_cons m) [
                | inl e ↦ λ old. let e' = (includes_iff seen k).1 (Memᴰ.cast (cc) old) in cc
                | inr t ↦ λ old. fresh j t (Memᴰ.tail old)
              ],
              (λ t. fresh k t (Memᴰ.head refl), unique),
            ),
        λ (fresh, (alone, unique)).
            let e = ih.1 (
              λ j m old. elim (Memᴰ.cases_cons old) [
                | inl same ↦ alone (Memᴰ.cast (cc) m)
                | inr o ↦ fresh j (Memᴰ.tail m) o
              ],
              unique,
            ) in
            omega arith,
      )
]

-- The hard fitness is 0 exactly if the timetable has no collision: over the sessions of all genes
-- whose offering has a candidate, no room is used twice in a slot, and no lecturer teaches twice in
-- a slot, be it within one gene or in two.
pub evaluate_hard_fitness-zero :
    (chromosome : Chromosome) (candidates : List PreGaCandidate)
    → (evaluate_hard_fitness chromosome candidates ≡ 0) ↔ (
        Unique (room_uses (known_genes candidates chromosome))
        × Unique (lecturer_uses (known_genes candidates chromosome)))
evaluate_hard_fitness-zero chromosome candidates =
    let known = known_genes candidates chromosome in
    let e = evaluate_hard_fitness-repeats chromosome candidates in
    let rooms = repeats-zero [] (room_uses known) in
    let lecturers = repeats-zero [] (lecturer_uses known) in
    (
      λ h. ((rooms.0 (omega arith)).1, (lecturers.0 (omega arith)).1),
      λ (r, l).
          let er = rooms.1 (λ k _ m. Memᴰ.not-nil m, r) in
          let el = lecturers.1 (λ k _ m. Memᴰ.not-nil m, l) in omega arith,
    )
