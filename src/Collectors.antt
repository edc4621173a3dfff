-- ===== src/Collectors.antt =====
-- jamsys-daemon/src/collectors: the sources of readings.
pub mod Registry
pub mod Bluetooth
pub mod Memory
pub mod Snapshot
