-- ===== src/Repo/ScheduleAssignment/Store.antt =====
-- repo/scheduleAssignmentRepo.ts and the schema of the database: what may be stored, and what the row of
-- it keeps. A session and a gene as they are read back.
use mathlib.Core.List.{Perm}
use ga_scheduler_v.Base.{ℕ, ◌≡◌, String, List, [], ◌∷◌, map, sort, All, Distinct, leb, nat_eq}
use ga_scheduler_v.Types.{GeneSession, Gene}
use ga_scheduler_v.Repo.ScheduleAssignment.{ScheduleAssignmentRow, ScheduleAssignmentWriteInput}
use ga_scheduler_v.Repo.ScheduleAssignment.Ordering.{HasSessions}

-- What the keys of the join tables admit: no slot and no lecturer twice.
pub record IsStorable (w : ScheduleAssignmentWriteInput) : Type 0 where
  pub slots : Distinct (λ (k : ℕ). k) w.slots
  pub lecturers : Distinct (λ (k : ℕ). k) (map (λ (p : String × ℕ). p.1) w.lecturers)

-- The row that is read for what was created: the same fields, the slots in any order, and the lecturers
-- in the order of their ids, as the query orders them.
pub record Keeps (w : ScheduleAssignmentWriteInput) (row : ScheduleAssignmentRow) : Type 0 where
  pub offering : row.offering_id ≡ w.offering_id
  pub index : row.session_index ≡ w.session_index
  pub room : row.room_id ≡ w.room_id
  pub pinned : row.is_fixed_room ≡ w.is_fixed_room
  pub slots : Perm row.slots w.slots
  pub lecturers : row.lecturers ≡ sort leb (map (λ (p : String × ℕ). p.1) w.lecturers)

-- A session that may be stored.
abbrev pub StorableSession : GeneSession → Type 0
StorableSession s = Distinct (λ (k : ℕ). k) s.time_slot_ids × Distinct (λ (k : ℕ). k) s.lecturer_ids

-- A gene that may be stored: it has sessions, and they may be stored.
abbrev pub StorableGene : Gene → Type 0
StorableGene g = HasSessions g × All StorableSession g.sessions

-- The same lists up to a relation of their elements.
abbrev pub Pairwise {ℓ} : {A : Type ℓ} → (A → A → Type 0) → List A → List A → Type 0
Pairwise R [] [] = Unit
Pairwise R [] (y ∷ ys) = ⊥
Pairwise R (x ∷ xs) [] = ⊥
Pairwise R (x ∷ xs) (y ∷ ys) = R x y × Pairwise R xs ys

-- A session as it is read back.
pub record ReadSession (s t : GeneSession) : Type 0 where
  pub room : t.room_id ≡ s.room_id
  pub slots : Perm t.time_slot_ids s.time_slot_ids
  pub lecturers : t.lecturer_ids ≡ sort leb s.lecturer_ids

-- A gene as it is read back.
pub record ReadGene (g h : Gene) : Type 0 where
  pub kind : h.kind ≡ g.kind
  pub offering : h.offering_id ≡ g.offering_id
  pub sessions : Pairwise ReadSession g.sessions h.sessions
