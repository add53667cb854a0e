-- ===== src/Repo/ScheduleAssignment.antt =====
-- repo/mappers/scheduleAssignmentMapper.ts. An object of one field is that field, a date is a number, and
-- `none` is a thrown error.
pub mod Rows
pub mod Ordering
pub mod Store
pub mod Grouping
pub mod RoundTrip
use ga_scheduler_v.Base.{
  ℕ, suc, Bool, true, false, ◌&&◌, String, Option, none, some, List, [], ◌∷◌, ◌++◌, map, all, sort,
  leb, if◌then◌else◌, ◌==◌, nat_eq,
}
use ga_scheduler_v.Base.Map
use ga_scheduler_v.Base.Map.{Map}
use ga_scheduler_v.Types.{GeneSession, GeneKind, fixed, flexible, Gene, Chromosome}
use ga_scheduler_v.Ga.Crossover.{is_fixed_gene}
use ga_scheduler_v.Ga.Seeder.{cons_gene}

pub record ScheduleAssignmentRow : Type 0 where
  pub id : ℕ
  pub run_id : String
  pub offering_id : ℕ
  pub session_index : ℕ
  pub room_id : ℕ
  pub is_fixed_room : Bool
  pub manual_override : Bool
  pub overridden_by_id : Option ℕ
  pub overridden_at : Option ℕ
  pub notes : Option String
  pub slots : List ℕ
  pub lecturers : List ℕ

pub record ScheduleAssignmentRecord : Type 0 where
  pub id : ℕ
  pub run_id : String
  pub offering_id : ℕ
  pub session_index : ℕ
  pub room_id : ℕ
  pub is_fixed_room : Bool
  pub manual_override : Bool
  pub overridden_by_id : Option ℕ
  pub overridden_at : Option ℕ
  pub notes : Option String
  pub time_slot_ids : List ℕ
  pub lecturer_ids : List ℕ

-- mapScheduleAssignmentRow
abbrev pub map_schedule_assignment_row : ScheduleAssignmentRow → ScheduleAssignmentRecord
map_schedule_assignment_row row = record {
  id = row.id;
  run_id = row.run_id;
  offering_id = row.offering_id;
  session_index = row.session_index;
  room_id = row.room_id;
  is_fixed_room = row.is_fixed_room;
  manual_override = row.manual_override;
  overridden_by_id = row.overridden_by_id;
  overridden_at = row.overridden_at;
  notes = row.notes;
  time_slot_ids = row.slots;
  lecturer_ids = row.lecturers;
}

pub record ScheduleAssignmentWriteInput : Type 0 where
  pub run_id : String
  pub offering_id : ℕ
  pub session_index : ℕ
  pub room_id : ℕ
  pub is_fixed_room : Bool
  pub slots : List ℕ
  pub lecturers : List (String × ℕ)

-- The loop over the sessions of a gene, from index `i` on.
unfoldable pub gene_writes :
    String → Gene → ℕ → List GeneSession → List ScheduleAssignmentWriteInput
gene_writes run g i [] = []
gene_writes run g i (s ∷ rest) =
    record {
      run_id = run;
      offering_id = g.offering_id;
      session_index = i;
      room_id = s.room_id;
      is_fixed_room = is_fixed_gene g;
      slots = s.time_slot_ids;
      lecturers = map (λ l. (run, l)) s.lecturer_ids;
    }
    ∷ gene_writes run g (suc i) rest

-- chromosomeToScheduleAssignmentWrites
unfoldable pub chromosome_to_writes : String → Chromosome → List ScheduleAssignmentWriteInput
unfolding gene_writes
chromosome_to_writes run [] = []
chromosome_to_writes run (g ∷ gs) = gene_writes run g 0 g.sessions ++ chromosome_to_writes run gs

-- `byOffering`
unfoldable pub by_offering :
    Map ℕ (List ScheduleAssignmentRecord)
    → List ScheduleAssignmentRecord
    → Map ℕ (List ScheduleAssignmentRecord)
by_offering m [] = m
by_offering m (r ∷ rest) =
    by_offering (Map.set r.offering_id (Map.get_or r.offering_id [] m ++ r ∷ []) m) rest

abbrev pub index_no_later : ScheduleAssignmentRecord → ScheduleAssignmentRecord → Bool
index_no_later a b = leb a.session_index b.session_index

-- The check of the indices, from `i` on.
unfoldable pub contiguous : ℕ → List ScheduleAssignmentRecord → Bool
contiguous i [] = true
contiguous i (r ∷ rest) = r.session_index == i && contiguous (suc i) rest

abbrev pub same_bool : Bool → Bool → Bool
same_bool true b = b
same_bool false true = false
same_bool false false = true

abbrev pub session_of_record : ScheduleAssignmentRecord → GeneSession
session_of_record r = record {
  room_id = r.room_id;
  time_slot_ids = r.time_slot_ids;
  lecturer_ids = r.lecturer_ids;
}

abbrev pub kind_of : Bool → GeneKind
kind_of true = fixed
kind_of false = flexible

-- The gene of the records of an offering, in the order of their indices. A bucket is never empty.
unfoldable pub gene_of_records : ℕ → List ScheduleAssignmentRecord → Option Gene
unfolding contiguous
gene_of_records offering [] = none
gene_of_records offering (r ∷ rest) =
    if contiguous 0 (r ∷ rest)
    then if all (λ s. same_bool s.is_fixed_room r.is_fixed_room) (r ∷ rest)
      then some (record {
        kind = kind_of r.is_fixed_room;
        offering_id = offering;
        sessions = map session_of_record (r ∷ rest);
      })
      else none
    else none

unfoldable pub genes_of_buckets : Map ℕ (List ScheduleAssignmentRecord) → Option Chromosome
unfolding gene_of_records
genes_of_buckets [] = some []
genes_of_buckets ((offering, bucket) ∷ rest) =
    cons_gene (gene_of_records offering (sort index_no_later bucket)) (genes_of_buckets rest)

-- scheduleAssignmentRecordsToChromosome
unfoldable pub records_to_chromosome : List ScheduleAssignmentRecord → Option Chromosome
unfolding by_offering genes_of_buckets
records_to_chromosome records = genes_of_buckets (by_offering [] records)
