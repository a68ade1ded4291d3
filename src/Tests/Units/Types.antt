-- ===== src/Tests/Units/Types.antt =====
-- The unit tests of bhwi-ffi/src/types.rs that rest on its own code.
use bhwi_ffi.Prelude.{
  Bool, true, false, not, ◌&&◌, none, some, List, [], ◌∷◌, all, replicate, ◌≡◌, refl, arith,
}
use bhwi_ffi.Error.{Outcome}
use bhwi_ffi.Text.{negsuc, chars, bytes, trim}
use bhwi_ffi.Network.{Network, to_core_network, from_core_network}
use bhwi_ffi.Core.Primitives.{Primitives}
use bhwi_ffi.Core.Library.{Library}
use bhwi_ffi.Core.Protocol
use bhwi_ffi.Core.Protocol.{
  authentication_refused, user_cancelled, no_error_or_result, unexpected_result, rpc,
}
use bhwi_ffi.Types.Device.{DeviceKind, ledger, coldcard, bitbox, jade, trezor, keepkey, specter}
use bhwi_ffi.Types.Codec.{decode_psbt}
use bhwi_ffi.Types.Command
use bhwi_ffi.Types.Descriptors.{parse_path}
use bhwi_ffi.Types.Errors.{map_error}
use bhwi_ffi.Types.Names.{validate_policy_name, valid_name, printable_name}
use bhwi_ffi.Types.Plan.{plan}
use bhwi_ffi.Types.Response.{info, to_response}
use bhwi_ffi.Tests.Units.{is_ok, is_invalid_input, is_user_refused, is_auth_refused, is_device}

abbrev all_kinds : List DeviceKind
all_kinds = ledger ∷ coldcard ∷ bitbox ∷ jade ∷ trezor ∷ keepkey ∷ specter ∷ []

abbrev is_err {ℓ} : {A : Type ℓ} → Outcome A → Bool
is_err o = not (is_ok o)

-- `policy_names_enforce_family_boundaries_and_default_name_semantics`
abbrev pub policy_names_enforce_family_boundaries : Bool
policy_names_enforce_family_boundaries =
    is_ok (validate_policy_name [] ledger false)
    && is_err (validate_policy_name [] ledger true)
    && is_ok (validate_policy_name (replicate 64 b'a') ledger true)
    && is_err (validate_policy_name (replicate 65 b'a') ledger true)
    && is_ok (validate_policy_name (replicate 30 b'a') bitbox true)
    && is_err (validate_policy_name (replicate 31 b'a') bitbox true)
    && is_err (validate_policy_name [] bitbox false)
    && all
        (λ kind.
          all
            (λ name.
              is_err (validate_policy_name name kind true)
              && is_err (validate_policy_name name kind false))
            (chars " leading" ∷ chars "trailing " ∷ chars "café" ∷ chars "bad\nname" ∷ [])
          && is_ok (validate_policy_name (chars "valid middle space") kind true))
        (ledger ∷ bitbox ∷ [])
    && is_err (validate_policy_name (chars "x") coldcard true)
    && is_err (validate_policy_name (replicate 21 b'x') coldcard false)

policy_names_enforce_family_boundaries_holds : policy_names_enforce_family_boundaries ≡ true
unfolding validate_policy_name valid_name printable_name bytes
policy_names_enforce_family_boundaries_holds = refl

module _ ⦃P : Primitives⦄ where
  abbrev pub refusal_mapping_uses_only_typed_errors : Bool
  refusal_mapping_uses_only_typed_errors =
      all
        (λ kind.
          is_user_refused (map_error user_cancelled kind)
          && is_auth_refused (map_error authentication_refused kind)
          && all (λ source. is_device (map_error source kind))
              (no_error_or_result ∷ rpc (negsuc 31999) none ∷ unexpected_result [] "got Refu" ∷ []))
        all_kinds

  refusal_mapping_uses_only_typed_errors_holds : refusal_mapping_uses_only_typed_errors ≡ true
  unfolding map_error
  refusal_mapping_uses_only_typed_errors_holds = refl

  module _ ⦃L : Library⦄ where
    -- the first half of `info_preserves_model_networks_and_optional_capabilities`
    abbrev pub InfoPreservesModelNetworks : Type 0
    InfoPreservesModelNetworks =
        to_response (
          Protocol.info (record {
            version = chars "1.2.3";
            firmware = some (chars "T");
            initialized = some false;
            networks = to_core_network Network.bitcoin ∷ to_core_network Network.testnet ∷ [];
            label = some (chars "wallet");
            on_device_passphrase_entry = some true;
            needs_pin_sent = some true;
            needs_passphrase_sent = some false;
          }))
        ≡ info (record {
          version = chars "1.2.3";
          firmware = some (chars "T");
          initialized = some false;
          networks = Network.bitcoin ∷ Network.testnet ∷ [];
          label = some (chars "wallet");
          on_device_passphrase_entry = some true;
          needs_pin_sent = some true;
          needs_passphrase_sent = some false;
        })

    InfoPreservesModelNetworks_holds : InfoPreservesModelNetworks
    unfolding to_response to_core_network from_core_network
    InfoPreservesModelNetworks_holds = refl

    -- `bad_input_is_rejected_before_the_device`
    abbrev pub bad_input_is_rejected_before_the_device : Bool
    bad_input_is_rejected_before_the_device =
        is_invalid_input (plan (Command.get_xpub (chars "not a path") false) ledger)
        && is_invalid_input (plan (Command.sign_psbt (chars "!!!") none) ledger)

    bad_input_is_rejected_before_the_device_holds :
        L.parse_derivation_path (trim (chars "not a path")) ≡ none
        → L.base64_decode (trim (chars "!!!")) ≡ none
        → bad_input_is_rejected_before_the_device ≡ true
    unfolding plan parse_path decode_psbt
    bad_input_is_rejected_before_the_device_holds no_path no_bytes = ground arith
