-- ===== src/DBus.antt =====
-- jamsys-daemon/src/dbus.rs: the wire format. Bytes are numbers below 256.
pub mod Marshal
pub mod Unmarshal
