-- ===== src/Scan.antt =====
-- scan/: the enumeration of local TCP listeners.
pub mod Listener
pub mod Ports
pub mod Unescape
pub mod Lsof
pub mod Ps
pub mod Unix
pub mod Scheme
pub mod Netstat
mod Tests
