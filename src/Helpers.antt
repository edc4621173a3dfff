-- ===== src/Helpers.antt =====
-- The two programs that run as root: jamsys-kbd and jamsys-power.
pub mod Kbd
pub mod Power
mod Tests
