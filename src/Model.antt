-- ===== src/Model.antt =====
-- internal/model/model.go: the schedule of a permit and what it asks for.
pub mod Cycle
pub mod Plate
pub mod Best
pub mod Schedule
pub mod Displaced
pub mod Expiry
