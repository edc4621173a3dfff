-- ===== src/Ipc.antt =====
-- jamsys-daemon/src/ipc.rs.
pub mod Client
pub mod Server
