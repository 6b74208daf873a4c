-- ===== src/Resources.antt =====
-- libensemble/resources: resource sets, their assignment to workers and their scheduling.
mod Tests
mod LocalTests
pub mod RSets
pub mod Assignment
pub mod Scheduler
pub mod Local
