-- ===== src/Tests/Units.antt =====
-- The unit tests that bhwi-ffi/src/state.rs and types.rs have in their `tests` modules, on the
-- model: an `assert!` is a Boolean, an `assert_eq!` an equation, and `unwrap` a result that there is.
pub mod State
pub mod Types
use bhwi_ffi.Prelude.{Bool, true, false}
use bhwi_ffi.Error.{
  HwiError, Outcome, ok, err, panicked, user_refused, auth_refused, device, invalid_input,
  bad_state,
}

abbrev pub is_ok {ℓ} : {A : Type ℓ} → Outcome A → Bool
is_ok (ok a) = true
is_ok _ = false

abbrev pub is_invalid_input {ℓ} : {A : Type ℓ} → Outcome A → Bool
is_invalid_input (err (invalid_input msg)) = true
is_invalid_input _ = false

abbrev pub is_refused_state {ℓ} : {A : Type ℓ} → Outcome A → Bool
is_refused_state (err (bad_state msg)) = true
is_refused_state _ = false

abbrev pub is_user_refused : HwiError → Bool
is_user_refused user_refused = true
is_user_refused _ = false

abbrev pub is_auth_refused : HwiError → Bool
is_auth_refused auth_refused = true
is_auth_refused _ = false

abbrev pub is_device : HwiError → Bool
is_device (device msg) = true
is_device _ = false
