-- ===== src/Journal.antt =====
-- jamsys-daemon/src/journal.rs.
pub mod Dedup
pub mod Classify
pub mod Lines
pub mod Entry
mod Tests
