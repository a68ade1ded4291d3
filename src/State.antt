-- ===== src/State.antt =====
-- bhwi-ffi/src/state.rs: device state that outlives a single command.
pub mod Leased
pub mod Noise
pub mod Coldcard
pub mod Passphrase
pub mod Specter
