-- ===== src/Repo/ScheduleAssignment/Rows.antt =====
-- repo/scheduleAssignmentRepo.ts: the rows of a run as the database gives them back. The database is a
-- parameter: the row that it makes of what is created, with the joined slots and lecturers.
use ga_scheduler_v.Base.{Bool, ◌&&◌, ◌||◌, List, map, sort, leb, ltb, ◌==◌, nat_eq}
use ga_scheduler_v.Repo.ScheduleAssignment.{
  ScheduleAssignmentRow, ScheduleAssignmentRecord, map_schedule_assignment_row,
  ScheduleAssignmentWriteInput,
}

-- `orderBy: [{ offeringId: 'asc' }, { sessionIndex: 'asc' }]`
abbrev pub row_no_later : ScheduleAssignmentWriteInput → ScheduleAssignmentWriteInput → Bool
row_no_later v w =
    ltb v.offering_id w.offering_id
    || v.offering_id == w.offering_id && leb v.session_index w.session_index

-- A record that was written and read.
abbrev pub read_back :
    (ScheduleAssignmentWriteInput → ScheduleAssignmentRow)
    → ScheduleAssignmentWriteInput
    → ScheduleAssignmentRecord
read_back stored w = map_schedule_assignment_row (stored w)

-- loadScheduleAssignments, for a run whose rows were created from these inputs.
abbrev pub load_schedule_assignments :
    (ScheduleAssignmentWriteInput → ScheduleAssignmentRow)
    → List ScheduleAssignmentWriteInput
    → List ScheduleAssignmentRecord
load_schedule_assignments stored writes = map (read_back stored) (sort row_no_later writes)
