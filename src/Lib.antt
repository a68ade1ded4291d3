-- ===== src/Lib.antt =====
-- bhwi-ffi, the FFI binding through which a host application drives Bitcoin hardware wallets: a
-- model of its Rust code, with the theorems that make it correct.
--
-- The program. A host builds handles (BitBox02 pairing state, a Coldcard link engine, a passphrase, a
-- Specter frame decoder) and, for each command, an interpreter (`Interp`) of one of seven device
-- families. `start` validates the command and returns the first payload to send, `exchange` takes
-- each reply and returns the next payload, and `end` consumes the interpreter and returns the typed
-- result. The host owns every transport. The interpreters of BitBox02 and Coldcard borrow the state
-- of a handle through an unsafe reference, whose exclusivity a lease flag guards.
--
-- Where the code is modelled (paths from the repository's root):
--   Error, Network    bhwi-ffi/src/lib.rs: `HwiError`, `Network`, `AddressFormat`
--   State/Leased      bhwi-ffi/src/state.rs: `Leased`, with the standard library's `Mutex`
--   State/Noise       the same file: `NoiseConfig`, `NoiseHandle`, `pairing_hook`
--   State/Coldcard    the same file: `ColdcardEncryption`
--   State/Passphrase  the same file: `HostPassphraseHandle`
--   State/Specter     the same file: `SpecterFrameDecoder`
--   Types/Transmit    bhwi-ffi/src/types.rs: `Recipient`, `HostRequest`, `Transmit`
--   Types/Device, Types/Expect, Types/Response, Types/Errors, Types/Codec
--                     the same file: `DeviceKind`, `Expect`, `HwiResponse`, `map_error`, the codecs
--   Types/Relayed     the same file: what the host sees of a payload and of a response of the core,
--                     as relations beside the conversions
--   Types/Debug       the same file: the `Debug` instances that redact secrets
--   Types/Names, Types/Descriptors, Types/Ledger
--                     the same file: the validation of names, descriptors, keys and Ledger policies
--   Types/Command, Types/Plan
--                     the same file: `HwiCommand`, `WalletPolicy`, `HwiCommand::plan`
--   Interp/Session    bhwi-ffi/src/interp.rs: `Inner`, `Session::start`; its child Leases has
--                     `StateLease` and the handles
--   Interp/Replies    the same file: `Session::require_running` and `Session::advance`
--   Interp/Fidelity   the same file: the checks of a signed PSBT in `Interp::end`
--   Interp/World      the same file: `Interp`, its constructors and calls, over all the handles and
--                     interpreters of a host; its child Build has the constructors, Calls the
--                     schedules of calls, Phases the abstract protocol of an interpreter, Cells what a
--                     lease gives access to, Isolation the calls of one interpreter alone, and
--                     Conversation the core's side of a whole command
--   Helpers           bhwi-ffi/src/helpers.rs: descriptor building, address derivation, PSBT summaries
-- Their child modules hold the proofs. Prelude and Text have the shared names, lists and Rust's text;
-- Tests has a small concrete core, with an example for each theorem that has conditions; its child
-- Units has the unit tests of bhwi-ffi/src/state.rs and types.rs that rest on their own code.
--
-- How it is modelled. Handles and interpreters are known by number, and `World` maps the numbers to
-- their state. A function returns an `Outcome`: a value, an `HwiError`, or a panic, which a slice
-- out of range or an `unwrap` would raise; a panic under a lock poisons it. Every call on an
-- interpreter holds its lock from beginning to end, so concurrent calls are a sequence of steps. A
-- `String` is its list of code points, and its length is counted in UTF-8 bytes. Lengths that Rust
-- keeps in a `usize` are compared with the parameter `usize_max`. All recursion is on the structure of
-- the data; no function runs on fuel but the printing of a number, whose fuel is above the number.
--
-- Parameters. What bhwi, bitcoin, miniscript and base64ct provide is in Core: opaque types
-- (`Primitives`), functions (`Library`, `Device`) and the interpreters of the families (`Families`).
-- A theorem holds for all of them. They are functions, so a panic inside a crate is not in the model.
-- Where one needs what the core documents of pairing material, it names `NoiseLaws`; for bitcoin's
-- checked amounts it names `AmountLaws`, for the hash types of a PSBT input `SighashLaws`, and for
-- the text of a descriptor `DescriptorLaws`.
--
-- Not modelled: derived `Debug` instances; the wiping of memory; the identity type `Ready` and its
-- macro in bhwi-ffi/src/interp.rs, which carry no behaviour; the binding generator, the Android host
-- layer, tools and fixtures; the unit tests that rest on what bhwi, bitcoin and miniscript compute.
mod Prelude
pub mod Text
pub mod Error
pub mod Core
pub mod Network
pub mod Types
pub mod State
pub mod Interp
pub mod Helpers
pub mod Tests
