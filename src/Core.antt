-- ===== src/Core.antt =====
-- The crates that the source calls and does not contain (bhwi, bitcoin, miniscript, base64ct), as
-- parameters: opaque types and functions are fields of records that every component takes as an
-- instance argument; enumerations and structs are data types with what the source reads of them.
pub mod Primitives
pub mod Result
pub mod Bitcoin
pub mod Protocol
pub mod Library
pub mod Device
pub mod Family
