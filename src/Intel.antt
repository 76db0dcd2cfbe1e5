-- ===== src/Intel.antt =====
-- intel/: what a listener is, how risky it is to stop, and the way to stop it.
pub mod Profile
pub mod Docker
pub mod Words
pub mod Number
pub mod Managers
pub mod Windows
pub mod AppName
pub mod Tunnel
pub mod Interpreter
pub mod Brew
pub mod System
pub mod Evidence
pub mod Rules
pub mod Advice
pub mod Make
pub mod Tests
