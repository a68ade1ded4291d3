-- ===== src/Types.antt =====
-- bhwi-ffi/src/types.rs: the data that crosses the FFI.
pub mod Device
pub mod Transmit
pub mod Expect
pub mod Errors
pub mod Names
pub mod Descriptors
pub mod Ledger
pub mod Codec
pub mod Response
pub mod Relayed
pub mod Command
pub mod Plan
pub mod Debug
