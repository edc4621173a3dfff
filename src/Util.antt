-- ===== src/Util.antt =====
-- jamsys-daemon/src/util.rs: the helpers that the other modules share.
pub mod Glob
pub mod Duration
pub mod Sizes
pub mod Stats
