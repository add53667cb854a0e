-- ===== src/Repo.antt =====
-- src/repo: what stands between the database and the records of Types.
pub mod CompetencyCodec
pub mod ScheduleAssignment
pub mod CourseOffering
