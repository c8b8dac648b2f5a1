-- ===== src/Protocol.antt =====
-- protocol/: bus frames turned into readings and faults, a module for each of its files.
pub mod Values
pub mod Zone
pub mod Idu
pub mod Odu
pub mod Sam
pub mod Decode
pub mod Faults
