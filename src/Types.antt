-- ===== src/Types.antt =====
-- The domain types of types.ts: the database entities, the candidates of layer 1, the sessions of
-- layer 2 and the genes of layer 3. Ids, capacities, counts and durations are natural numbers (the
-- request schemas admit no others), and an optional or nullable field is an `Option`.
use ga_scheduler_v.Base.{ℕ, String, Bool, List, Option}

pub record Room : Type 0 where
  pub id : ℕ
  pub name : String
  pub capacity : ℕ
  pub facilities : List String

pub record TimeSlot : Type 0 where
  pub id : ℕ
  pub day : String
  pub start_time : String
  pub end_time : String

pub record Lecturer : Type 0 where
  pub id : ℕ
  pub name : String
  pub is_structural : Bool
  pub max_sks : ℕ
  pub preferred_time_slot_ids : List ℕ
  pub competencies : List String

pub record Course : Type 0 where
  pub id : ℕ
  pub code : String
  pub name : String
  pub sks : ℕ
  pub required_facilities : List String
  pub required_competencies : List String

-- The orphan references that the row mapper records. `undefined` and `null` are both `none`.
pub record MappingDefects : Type 0 where
  pub missing_lecturer_ids : Option (List ℕ)
  pub missing_room_id : Option ℕ
  pub missing_course_id : Option ℕ

pub record CourseOffering : Type 0 where
  pub id : ℕ
  pub course_id : ℕ
  pub course : Course
  pub room_id : Option ℕ
  pub room : Option Room
  pub lecturers : List Lecturer
  pub effective_student_count : ℕ
  pub is_fixed : Bool
  pub fixed_time_slot_ids : Option (List ℕ)
  pub parent_offering_id : Option ℕ
  pub mapping_defects : Option MappingDefects

-- A cohort of sibling offerings that layers 2 and 3 schedule as one. The optional flag
-- `fragmentationRequired` is a `Bool`: absent is false.
pub record PreGaCandidate : Type 0 where
  pub offering_id : ℕ
  pub course_id : ℕ
  pub room_id : Option ℕ
  pub lecturer_ids : List ℕ
  pub effective_student_count : ℕ
  pub parallel_session_count : ℕ
  pub session_duration : ℕ
  pub possible_time_slot_ids : List ℕ
  pub possible_room_ids : Option (List ℕ)
  pub is_fixed_room : Bool
  pub fixed_time_slot_ids : Option (List ℕ)
  pub parent_offering_id : Option ℕ
  pub sibling_offering_ids : List ℕ
  pub lecturer_pool : List ℕ
  pub sibling_lecturer_groups : List (List ℕ)
  pub longest_contiguous_run : ℕ
  pub fragmentation_required : Bool

pub record GeneSession : Type 0 where
  pub room_id : ℕ
  pub time_slot_ids : List ℕ
  pub lecturer_ids : List ℕ

pub data GeneKind : Type 0 where
  fixed flexible : GeneKind

-- The two members of the union `Gene` have the same fields, and differ in `kind`.
pub record Gene : Type 0 where
  pub kind : GeneKind
  pub offering_id : ℕ
  pub sessions : List GeneSession

abbrev pub Chromosome : Type 0
Chromosome = List Gene
