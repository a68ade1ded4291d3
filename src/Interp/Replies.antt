-- ===== src/Interp/Replies.antt =====
-- bhwi-ffi/src/interp.rs: `Session::require_running` and `Session::advance`. A slice or an `unwrap`
-- that fails is a panic.
pub mod Framing
pub mod Registration
pub mod Answers
use bhwi_ffi.Prelude.{
  ℕ, ◌+◌, ◌-◌, ◌*◌, ◌^◌, Bool, true, false, not, ◌&&◌, ◌||◌, Option, none, some, List, [], ◌∷◌, ltb,
  leb, eqb, length, slice, if◌then◌else◌, ◌==◌, option_eq, list_eq, nat_eq,
}
use bhwi_ffi.Text.{Bytes}
use bhwi_ffi.Error.{
  HwiError, Outcome, ok, err, panicked, device, bad_state, reject_if, require, ◌>>=◌, ◌>>◌,
}
use bhwi_ffi.Core.Primitives.{Primitives}
use bhwi_ffi.Core.Result.{CoreResult, success, failure}
use bhwi_ffi.Core.Library.{Library}
use bhwi_ffi.Core.Protocol
use bhwi_ffi.Core.Family.{Families}
use bhwi_ffi.Types.Device.{DeviceKind, trezor, keepkey, kind_eq}
use bhwi_ffi.Types.Errors.{map_error}
use bhwi_ffi.Types.Transmit.{Transmit, to_transmit}
use bhwi_ffi.Interp.Session.{Session, Called, Devices, Ran, exchange_inner}

-- `unwrap`, or an index expression
abbrev pub unwrap {ℓ} : {A : Type ℓ} → Option A → Outcome A
unwrap none = panicked
unwrap (some a) = ok a

-- `u32::from_be_bytes(bytes.try_into().unwrap())` and its 16-bit counterpart
unfoldable pub be32 : Bytes → Option ℕ
be32 (a ∷ b ∷ c ∷ d ∷ []) = some (a * 2 ^ 24 + b * 2 ^ 16 + c * 2 ^ 8 + d)
be32 _ = none

unfoldable pub be16 : Bytes → Option ℕ
be16 (a ∷ b ∷ []) = some (a * 2 ^ 8 + b)
be16 _ = none

-- `usize::try_from(n).ok().and_then(|len| len.checked_add(8))`
unfoldable pub add_header : ℕ → ℕ → Option ℕ
add_header usize_max n =
    if leb n usize_max then (if leb (n + 8) usize_max then some (n + 8) else none) else none

-- the test of a Trezor or KeepKey reply, whose `||` stops at the first part that holds
unfoldable pub malformed_frame : ℕ → Bytes → Outcome Bool
unfolding be32 add_header
malformed_frame usize_max reply = if ltb (length reply) 8 then ok true else do
  magic ← unwrap (slice reply 0 2)
  if not (magic == (b'#' ∷ b'#' ∷ [])) then ok true else do
    field ← unwrap (slice reply 4 8)
    size ← unwrap (be32 field)
    ok (not (add_header usize_max size == some (length reply)))

-- the test of a reply while a Ledger registration is under way
unfoldable pub bad_registration : (ℕ → Bool) → Bytes → Bytes → Outcome Bool
unfolding be16
bad_registration status_ok expected_id reply = if ltb (length reply) 2 then ok false else do
  field ← unwrap (slice reply (length reply - 2) (length reply))
  word ← unwrap (be16 field)
  if not (status_ok word)
      then ok false
      else (if not (eqb (length reply) 66)
          then ok true
          else do id ← unwrap (slice reply 0 32); ok (not (id == expected_id)))

module _ ⦃P : Primitives⦄ ⦃F : Families⦄ where
  -- `Session::require_running`
  unfoldable pub require_running : Session → Outcome (Unit {0})
  require_running s = do
    require s.started (bad_state "command has not started")
    reject_if s.finished (bad_state "command is finished")
    ok tt

  unfoldable pub check_registration : Option Bytes → Bytes → Outcome (Unit {0})
  check_registration none reply = ok tt
  check_registration (some expected_id) reply = do
    bad ← bad_registration F.status_ok expected_id reply
    reject_if bad (device "invalid Ledger wallet registration response")

  unfoldable pub check_frame : ℕ → DeviceKind → Bytes → Outcome (Unit {0})
  check_frame usize_max kind reply =
      if kind == trezor || kind == keepkey
      then (do
        bad ← malformed_frame usize_max reply
        reject_if bad (device "malformed device protocol reply"))
      else ok tt

  -- the match on the interpreter's result
  unfoldable pub deliver : Session → Ran (Option Protocol.Transmit) → Called (Option Transmit)
  deliver s r = elim r.result [
    | success t ↦ elim t [
      | some transmit ↦ record {
        outcome = ok (some (to_transmit transmit));
        session = record s { inner = r.inner };
        devices = r.devices;
      }
      | none ↦ record {
        outcome = ok none;
        session = record s { inner = r.inner; finished = true };
        devices = r.devices;
      }
    ]
    | failure error ↦ record {
      outcome = err (map_error error s.kind);
      session = record s { inner = r.inner };
      devices = r.devices;
    }
  ]

  module _ ⦃L : Library⦄ where
    unfoldable pub check_reply : Session → Bytes → Outcome (Unit {0})
    check_reply s reply = do
      check_frame L.usize_max s.kind reply
      check_registration s.ledger_registration_id reply

    -- `Session::advance`
    unfoldable pub advance : Bytes → Session → Devices → Called (Option Transmit)
    advance reply s d = elim (check_reply s reply) [
      | ok u ↦ deliver s (exchange_inner s.inner reply d)
      | err e ↦ record { outcome = err e; session = s; devices = d }
      | panicked ↦ record { outcome = panicked; session = s; devices = d }
    ]
