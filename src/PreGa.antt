-- ===== src/PreGa.antt =====
-- Layer 1, pre-ga/: the checks of one offering, the tagging of locked rooms and the validator.
pub mod Checks
pub mod Rooms
pub mod Cohorts
pub mod Validator
