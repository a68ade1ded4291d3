-- ===== src/Types/Names.antt =====
-- bhwi-ffi/src/types.rs: `validate_policy_name`, the rules for a wallet policy's name by family.
pub mod Ascii
pub mod Exact
use bhwi_ffi.Prelude.{
  ℕ, ◌+◌, ◌/◌, ◌%◌, ◌≤◌, ◌<◌, ◌≡◌, refl, sym, ap, ◌⊎◌, inl, inr, Bool, true, false, not, ◌&&◌, ◌||◌,
  List, [], ◌∷◌, ◌++◌, arith, ltb, leb, eqb, length, all, any, All, is_empty, if◌then◌else◌, ◌↔◌,
  length-append,
}
use bhwi_ffi.Text.{Text, Bytes, bytes, encode_utf8, len, is_control, starts_with, ends_with}
use bhwi_ffi.Error.{Outcome, ok, invalid_input, require}
use bhwi_ffi.Types.Device.{DeviceKind, ledger, coldcard, bitbox, jade, trezor, keepkey, specter}

in_range : ℕ → ℕ → ℕ → Bool
in_range lo hi n = leb lo n && leb n hi

-- the closure `printable_name`
unfoldable pub printable_name : ℕ → Text → Bool
unfolding in_range
printable_name max_len name =
    in_range 1 max_len (len name)
    && all (in_range b' ' b'~') (bytes name)
    && not (starts_with b' ' name)
    && not (ends_with b' ' name)

-- `byte.is_ascii_alphanumeric() || byte == b'_'`
is_word_byte : ℕ → Bool
unfolding in_range
is_word_byte b = in_range b'0' b'9' b || in_range b'A' b'Z' b || in_range b'a' b'z' b || eqb b b'_'

-- `byte.is_ascii_graphic() || byte == b' '`
is_graphic_or_space : ℕ → Bool
unfolding in_range
is_graphic_or_space b = in_range 33 126 b || eqb b b' '

unfoldable pub valid_name : Text → DeviceKind → Bool → Bool
unfolding printable_name is_word_byte is_graphic_or_space in_range is_control
valid_name name ledger registration = (not registration && is_empty name) || printable_name 64 name
valid_name name jade registration =
    not (is_empty name) && leb (len name) 16 && all is_word_byte (bytes name)
valid_name name coldcard registration =
    in_range 2 20 (len name) && all is_graphic_or_space (bytes name)
valid_name name bitbox registration = printable_name 30 name
valid_name name specter registration =
    not (is_empty name) && not (any (λ c. eqb c b'&') name) && not (any is_control name)
valid_name name trezor registration = not (any is_control name)
valid_name name keepkey registration = not (any is_control name)

unfoldable pub validate_policy_name : Text → DeviceKind → Bool → Outcome (Unit {0})
unfolding valid_name
validate_policy_name name kind registration =
    require (valid_name name kind registration)
      (invalid_input "invalid wallet policy name for this device")
