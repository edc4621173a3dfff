-- ===== src/Store.antt =====
-- jamsys-daemon/src/store.rs: what the daemon keeps in SQLite.
pub mod Suppressions
pub mod Inventory
pub mod Alerts
pub mod Metrics
pub mod History
