-- ===== src/Anomaly.antt =====
-- jamsys-daemon/src/anomaly: the judgement layer of the daemon.
pub mod Bucket
pub mod Dwell
pub mod Alerts
pub mod Baseline
pub mod Rules
