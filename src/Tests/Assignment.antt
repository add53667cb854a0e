-- ===== src/Tests/Assignment.antt =====
-- A chromosome of two genes through a store that numbers every row alike and turns the first two slots around.
use mathlib.Core.List.Perm
use mathlib.Core.List.{Perm}
use ga_scheduler_v.Base.{
  ℕ, ◌≡◌, refl, String, false, none, some, [], ◌∷◌, map, sort, leb, nat_eq, ◌+◌, List, Distinct,
  arith,
}
use ga_scheduler_v.Types.{GeneSession, GeneKind, Chromosome}
use ga_scheduler_v.Ga.Schedule.{offering_of}
use ga_scheduler_v.Repo.ScheduleAssignment.{
  ScheduleAssignmentRow, map_schedule_assignment_row, ScheduleAssignmentWriteInput, gene_writes,
  chromosome_to_writes, by_offering, contiguous, gene_of_records, genes_of_buckets,
  records_to_chromosome,
}
use ga_scheduler_v.Repo.ScheduleAssignment.Rows.{load_schedule_assignments}
use ga_scheduler_v.Repo.ScheduleAssignment.Ordering.{gene_no_later}
use ga_scheduler_v.Repo.ScheduleAssignment.Store.{
  IsStorable, Keeps, StorableSession, Pairwise, ReadGene,
}
use ga_scheduler_v.Repo.ScheduleAssignment.RoundTrip.{records_to_chromosome-chromosome_to_writes}

abbrev turn : List ℕ → List ℕ
turn [] = []
turn (x ∷ []) = x ∷ []
turn (x ∷ y ∷ rest) = y ∷ x ∷ rest

turn-Perm : (slots : List ℕ) → Perm (turn slots) slots
turn-Perm [] = Perm.refl []
turn-Perm (x ∷ []) = Perm.refl (x ∷ [])
turn-Perm (x ∷ y ∷ rest) = Perm.swap x y rest

abbrev stored : ScheduleAssignmentWriteInput → ScheduleAssignmentRow
stored w = record {
  id = 1;
  run_id = w.run_id;
  offering_id = w.offering_id;
  session_index = w.session_index;
  room_id = w.room_id;
  is_fixed_room = w.is_fixed_room;
  manual_override = false;
  overridden_by_id = none;
  overridden_at = none;
  notes = none;
  slots = turn w.slots;
  lecturers = sort leb (map (λ (p : String × ℕ). p.1) w.lecturers);
}

store : (w : ScheduleAssignmentWriteInput) → IsStorable w → Keeps w (stored w)
store w storable = record {
  offering = refl;
  index = refl;
  room = refl;
  pinned = refl;
  slots = turn-Perm w.slots;
  lecturers = refl;
}

abbrev session : ℕ → ℕ → GeneSession
session room slot = record {
  room_id = room;
  time_slot_ids = slot ∷ (slot + 1) ∷ [];
  lecturer_ids = 200 ∷ 100 ∷ [];
}

abbrev winner : Chromosome
winner =
    record { kind = GeneKind.flexible; offering_id = 7; sessions = session 5 1 ∷ session 6 2 ∷ [] }
    ∷ record { kind = GeneKind.fixed; offering_id = 3; sessions = session 5 2 ∷ [] }
    ∷ []

winner-Distinct : Distinct offering_of winner
winner-Distinct = ((λ e. omega arith, tt), (tt, tt))

program : Unit {0}
unfolding gene_writes chromosome_to_writes by_offering contiguous gene_of_records genes_of_buckets
    records_to_chromosome
program = tt

-- A missing index is an error.
gap :
    records_to_chromosome (
      map
        (λ w. map_schedule_assignment_row (record (stored w) { session_index = 1 }))
        (chromosome_to_writes "run" winner))
    ≡ none
unfolding program
gap = refl

session-Storable : (room slot : ℕ) → StorableSession (session room slot)
session-Storable room slot =
    (((λ e. omega arith, tt), (tt, tt)), ((λ e. omega arith, tt), (tt, tt)))

records_to_chromosome-chromosome_to_writes_example :
    (hs : Chromosome) × (records_to_chromosome
        (load_schedule_assignments stored (chromosome_to_writes "run" winner))
      ≡ some hs)
    × Pairwise ReadGene (sort gene_no_later winner) hs
records_to_chromosome-chromosome_to_writes_example =
    records_to_chromosome-chromosome_to_writes stored store "run" winner winner-Distinct (
      (omega arith, (session-Storable 5 1, (session-Storable 6 2, tt))),
      ((omega arith, (session-Storable 5 2, tt)), tt),
    )
