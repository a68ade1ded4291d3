-- ===== src/Interp.antt =====
-- bhwi-ffi/src/interp.rs: one interpreter runs one command against one device.
pub mod Session
pub mod Replies
pub mod Fidelity
pub mod World
