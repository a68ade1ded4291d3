-- ===== src/Types/Errors.antt =====
-- bhwi-ffi/src/types.rs: `map_error`, from the core's errors to the FFI's.
use bhwi_ffi.Prelude.{String, some, ◌≡◌, ◌↔◌, arith}
use bhwi_ffi.Text.{Bytes, concat, show_int}
use bhwi_ffi.Error.{
  HwiError, device, user_refused, auth_refused, device_already_unlocked, invalid_input,
}
use bhwi_ffi.Core.Primitives.{Primitives}
use bhwi_ffi.Core.Protocol.{
  Error, authentication_refused, user_cancelled, no_error_or_result, already_unlocked,
  missing_command_info, encryption, request, invalid_command, unsupported_display_address,
  device_error, serialization, unexpected_result, rpc,
}
use bhwi_ffi.Types.Device.{DeviceKind, debug_kind}

module _ ⦃P : Primitives⦄ where
  unfoldable pub map_error : Error → DeviceKind → HwiError
  map_error authentication_refused kind = auth_refused
  map_error user_cancelled kind = user_refused
  map_error (already_unlocked context) kind = device_already_unlocked
  map_error (missing_command_info context) kind = invalid_input context
  map_error (invalid_command d) kind =
      invalid_input (concat (debug_kind kind) ": invalid command input")
  map_error (device_error d) kind = device (concat (debug_kind kind) ": device reported an error")
  map_error (unexpected_result bytes d) kind =
      device (concat (debug_kind kind) ": unexpected response")
  map_error (rpc code d) kind =
      device (concat (debug_kind kind) (concat ": rpc error " (show_int code)))
  map_error (serialization d) kind =
      device (concat (debug_kind kind) ": protocol serialization failed")
  map_error (unsupported_display_address d) kind =
      device (concat (debug_kind kind) ": unsupported address display")
  map_error (encryption context) kind = device (concat "encryption error: " context)
  map_error (request context) kind = device (concat "request error: " context)
  map_error no_error_or_result kind = device "no error or result returned"

  -- The error with what a device or a user put into it replaced.
  abbrev pub redact : Bytes → String → Error → Error
  redact bytes text (invalid_command d) = invalid_command text
  redact bytes text (device_error d) = device_error text
  redact bytes text (unexpected_result b d) = unexpected_result bytes text
  redact bytes text (serialization d) = serialization text
  redact bytes text (unsupported_display_address d) = unsupported_display_address text
  redact bytes text (rpc code d) = rpc code (some text)
  redact bytes text (already_unlocked context) = already_unlocked text
  redact bytes text e = e

  -- The FFI error does not depend on any payload that came from a device or from the input: put
  -- any bytes and any text in the place of the payload, and it is the same. It depends on the
  -- error's kind, its static context and the RPC code only.
  pub map_error-redact :
      (bytes : Bytes) (text : String) (e : Error) (kind : DeviceKind)
      → map_error (redact bytes text e) kind ≡ map_error e kind
  unfolding map_error
  map_error-redact bytes text e kind = ground arith

  -- A refusal is reported exactly when the core reports that refusal, for every family.
  pub map_error_refusals :
      (e : Error) (kind : DeviceKind)
      → ((map_error e kind ≡ user_refused) ↔ (e ≡ user_cancelled))
        × ((map_error e kind ≡ auth_refused) ↔ (e ≡ authentication_refused))
  unfolding map_error
  map_error_refusals authentication_refused kind = ground arith
  map_error_refusals _ kind = ground arith
