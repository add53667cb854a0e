-- ===== src/Ga/Repair/Index.antt =====
-- ga/repair.ts, buildConflictIndex: the keys of the index are the rooms and the lecturers of the other
-- genes, at the slots of their sessions.
use mathlib.Core.List.Memᴰ
use ga_scheduler_v.Base.{
  ℕ, ◌≡◌, ◌≢◌, ◌↔◌, ◌⊎◌, refl, ap, ◌∙◌, subst, inl, inr, Bool, true, Bool-cases, List, [], ◌∷◌,
  Memᴰ, Memᴰ-cons, ◌==◌, nat_eq, pair_eq, arith,
}
use ga_scheduler_v.Base.Map
use ga_scheduler_v.Base.Map.{Map}
use ga_scheduler_v.Types.{GeneSession, Gene, Chromosome}
use ga_scheduler_v.Ga.Fitness.{Use}
use ga_scheduler_v.Ga.Repair.{
  ConflictIndex, note_lecturers, note_slots, note_sessions, note_genes, build_conflict_index,
}

-- A session of a gene of another offering.
abbrev pub Others : Chromosome → ℕ → GeneSession → Type 0
Others chromosome offering t =
    (g : Gene) × Memᴰ g chromosome × (g.offering_id ≢ offering) × Memᴰ t g.sessions

-- The session holds the room at the slot.
abbrev pub HoldsRoom : Use → GeneSession → Type 0
HoldsRoom (room, slot) t = (room ≡ t.room_id) × Memᴰ slot t.time_slot_ids

-- The session holds the lecturer at the slot.
abbrev pub HoldsLecturer : Use → GeneSession → Type 0
HoldsLecturer (l, slot) t = Memᴰ l t.lecturer_ids × Memᴰ slot t.time_slot_ids

has-set_iff :
    (i slot : ℕ) (k : Use) (v : ℕ) (m : Map Use ℕ)
    → (Map.has k (Map.set (i, slot) v m) ≡ true)
      ↔ ((Map.has k m ≡ true) ⊎ ((k.0 ≡ i) × (k.1 ≡ slot)))
has-set_iff i slot k v m = rw (Map.has-set (i, slot) k v m) (ground arith)

has-note_lecturers :
    (offering slot : ℕ) (ls : List ℕ) (m : Map Use ℕ) (k : Use)
    → (Map.has k (note_lecturers offering slot ls m) ≡ true)
      ↔ ((Map.has k m ≡ true) ⊎ (Memᴰ k.0 ls × (k.1 ≡ slot)))
unfolding note_lecturers
has-note_lecturers offering slot [] m k =
    (inl, λ h. elim h [ inl old ↦ old | inr n ↦ absurd (Memᴰ.not-nil n.0) ])
has-note_lecturers offering slot (l ∷ ls) m k =
    let later = has-note_lecturers offering slot ls (Map.set (l, slot) offering m) k in
    let first = has-set_iff l slot k offering m in
    let split = Memᴰ-cons k.0 l ls in (ground (arith, later, first, split))

-- A test of an index that a session adds to, when its slots are noted.
module _ (probe : ConflictIndex → Bool) (Holds : GeneSession → Type 0)
    (noted : (offering : ℕ) (s : GeneSession) (index : ConflictIndex)
      → (probe (note_slots offering s s.time_slot_ids index) ≡ true)
        ↔ ((probe index ≡ true) ⊎ Holds s)) where
  abbrev Among : List GeneSession → Type 0
  Among ss = (t : GeneSession) × Memᴰ t ss × Holds t

  probe-note_sessions :
      (offering : ℕ) (ss : List GeneSession) (index : ConflictIndex)
      → (probe (note_sessions offering ss index) ≡ true) ↔ ((probe index ≡ true) ⊎ Among ss)
  unfolding note_sessions
  probe-note_sessions offering [] index =
      (inl, λ h. elim h [ inl old ↦ old | inr n ↦ absurd (Memᴰ.not-nil n.1) ])
  probe-note_sessions offering (s ∷ ss) index =
      let later = probe-note_sessions offering ss (note_slots offering s s.time_slot_ids index) in
      let first = noted offering s index in
      (
        λ h. elim (later.0 h) [
          | inr (t, m, held) ↦ inr (t, Memᴰ.tail m, held)
          | inl early ↦ elim (first.0 early) [
            | inl old ↦ inl old
            | inr held ↦ inr (s, Memᴰ.head refl, held)
          ]
        ],
        λ h. elim h [
          | inl old ↦ later.1 (inl (first.1 (inl old)))
          | inr (t, m, held) ↦ elim (Memᴰ.cases_cons m) [
            | inl same ↦ later.1 (inl (first.1 (inr (subst Holds same held))))
            | inr rest ↦ later.1 (inr (t, rest, held))
          ]
        ],
      )

  probe-note_genes :
      (excluded : ℕ) (gs : Chromosome) (index : ConflictIndex)
      → (probe (note_genes excluded gs index) ≡ true)
        ↔ ((probe index ≡ true) ⊎ ((t : GeneSession) × Others gs excluded t × Holds t))
  unfolding note_genes
  probe-note_genes excluded [] index =
      (inl, λ h. elim h [ inl old ↦ old | inr (t, o, held) ↦ absurd (Memᴰ.not-nil o.1) ])
  probe-note_genes excluded (g ∷ gs) index = elim (Bool-cases (g.offering_id == excluded)) [
    | inl same ↦
        let later = probe-note_genes excluded gs index in
        let eq : g.offering_id ≡ excluded = ground arith in
        rw (note_genes, same)
          (
            λ h. elim (later.0 h) [
              | inl old ↦ inl old
              | inr (t, (k, m, apart, n), held) ↦ inr (t, (k, Memᴰ.tail m, apart, n), held)
            ],
            λ h. elim h [
              | inl old ↦ later.1 (inl old)
              | inr (t, (k, m, apart, n), held) ↦ elim (Memᴰ.cases_cons m) [
                | inl here ↦ absurd (apart (ap (λ (j : Gene). j.offering_id) here ∙ eq))
                | inr rest ↦ later.1 (inr (t, (k, rest, apart, n), held))
              ]
            ],
          )
    | inr other ↦
        let next = note_sessions g.offering_id g.sessions index in
        let later = probe-note_genes excluded gs next in
        let first = probe-note_sessions g.offering_id g.sessions index in
        let neq : g.offering_id ≢ excluded = λ e. ground arith in
        rw (note_genes, other)
          (
            λ h. elim (later.0 h) [
              | inr (t, (k, m, apart, n), held) ↦ inr (t, (k, Memᴰ.tail m, apart, n), held)
              | inl early ↦ elim (first.0 early) [
                | inl old ↦ inl old
                | inr (t, n, held) ↦ inr (t, (g, Memᴰ.head refl, neq, n), held)
              ]
            ],
            λ h. elim h [
              | inl old ↦ later.1 (inl (first.1 (inl old)))
              | inr (t, (k, m, apart, n), held) ↦ elim (Memᴰ.cases_cons m) [
                | inl here ↦
                    later.1 (
                      inl (first.1 (inr (t, subst (λ (j : Gene). Memᴰ t j.sessions) here n, held))))
                | inr rest ↦ later.1 (inr (t, (k, rest, apart, n), held))
              ]
            ],
          )
  ]

has_room-note_slots :
    (k : Use) (offering : ℕ) (s : GeneSession) (slots : List ℕ) (index : ConflictIndex)
    → (Map.has k (note_slots offering s slots index).room_time_used ≡ true)
      ↔ ((Map.has k index.room_time_used ≡ true) ⊎ ((k.0 ≡ s.room_id) × Memᴰ k.1 slots))
unfolding note_slots
has_room-note_slots k offering s [] index =
    (inl, λ h. elim h [ inl old ↦ old | inr n ↦ absurd (Memᴰ.not-nil n.1) ])
has_room-note_slots k offering s (slot ∷ slots) index =
    let next : ConflictIndex = record {
      room_time_used = Map.set (s.room_id, slot) offering index.room_time_used;
      lecturer_time_used = note_lecturers offering slot s.lecturer_ids index.lecturer_time_used;
    } in
    let later = has_room-note_slots k offering s slots next in
    let first = has-set_iff s.room_id slot k offering index.room_time_used in
    let split = Memᴰ-cons k.1 slot slots in ground (arith, later, first, split)

has_lecturer-note_slots :
    (k : Use) (offering : ℕ) (s : GeneSession) (slots : List ℕ) (index : ConflictIndex)
    → (Map.has k (note_slots offering s slots index).lecturer_time_used ≡ true)
      ↔ ((Map.has k index.lecturer_time_used ≡ true) ⊎ (Memᴰ k.0 s.lecturer_ids × Memᴰ k.1 slots))
unfolding note_slots
has_lecturer-note_slots k offering s [] index =
    (inl, λ h. elim h [ inl old ↦ old | inr n ↦ absurd (Memᴰ.not-nil n.1) ])
has_lecturer-note_slots k offering s (slot ∷ slots) index =
    let next : ConflictIndex = record {
      room_time_used = Map.set (s.room_id, slot) offering index.room_time_used;
      lecturer_time_used = note_lecturers offering slot s.lecturer_ids index.lecturer_time_used;
    } in
    let later = has_lecturer-note_slots k offering s slots next in
    let first = has-note_lecturers offering slot s.lecturer_ids index.lecturer_time_used k in
    let split = Memᴰ-cons k.1 slot slots in ground (arith, later, first, split)

-- The room of a key is held at its slot by a session of another gene.
pub has_room-build_conflict_index :
    (chromosome : Chromosome) (offering : ℕ) (k : Use)
    → (Map.has k (build_conflict_index chromosome offering).room_time_used ≡ true)
      ↔ ((t : GeneSession) × Others chromosome offering t × HoldsRoom k t)
unfolding build_conflict_index
has_room-build_conflict_index chromosome offering k =
    let iff =
      probe-note_genes (λ (index : ConflictIndex). Map.has k index.room_time_used) (HoldsRoom k)
        (λ o s index. has_room-note_slots k o s s.time_slot_ids index) offering chromosome
        (record { room_time_used = []; lecturer_time_used = [] }) in
    (λ h. elim (iff.0 h) [ inl empty ↦ cc | inr held ↦ held ], λ held. iff.1 (inr held))

-- The lecturer of a key is held at its slot by a session of another gene.
pub has_lecturer-build_conflict_index :
    (chromosome : Chromosome) (offering : ℕ) (k : Use)
    → (Map.has k (build_conflict_index chromosome offering).lecturer_time_used ≡ true)
      ↔ ((t : GeneSession) × Others chromosome offering t × HoldsLecturer k t)
unfolding build_conflict_index
has_lecturer-build_conflict_index chromosome offering k =
    let iff =
      probe-note_genes (λ (index : ConflictIndex). Map.has k index.lecturer_time_used)
        (HoldsLecturer k) (λ o s index. has_lecturer-note_slots k o s s.time_slot_ids index)
        offering chromosome (record { room_time_used = []; lecturer_time_used = [] }) in
    (λ h. elim (iff.0 h) [ inl empty ↦ cc | inr held ↦ held ], λ held. iff.1 (inr held))
