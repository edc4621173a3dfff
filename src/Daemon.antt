-- ===== src/Daemon.antt =====
-- jamsys-daemon/src/daemon.rs: how one tick brings the parts together.
pub mod Judgement
