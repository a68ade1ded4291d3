-- ===== src/Types/Descriptors.antt =====
-- bhwi-ffi/src/types.rs: `parse_public_policy`, `parse_concrete_key` and `parse_path`.
pub mod Public
pub mod Concrete
use bhwi_ffi.Prelude.{
  Bool, true, false, not, ◌&&◌, ◌||◌, Option, none, some, List, String, any, all, is_empty, ◌==◌,
}
use bhwi_ffi.Text.{Text, trim}
use bhwi_ffi.Error.{Outcome, ok, err, invalid_input, or_err, reject_if, ◌>>=◌, ◌>>◌}
use bhwi_ffi.Core.Primitives.{Primitives}
use bhwi_ffi.Core.Bitcoin.{
  DerivationPath, DescriptorPublicKey, single, xpub, multi_xpub, SinglePubKey, full_key, x_only,
  Wildcard, no_wildcard, hardened_wildcard, wildcard_beq, is_hardened, Origin,
}
use bhwi_ffi.Core.Library.{Library}
use bhwi_ffi.Types.Device.{
  DeviceKind, ledger, coldcard, bitbox, jade, trezor, keepkey, specter, kind_eq,
}

abbrev is_none {ℓ} : {A : Type ℓ} → Option A → Bool
is_none none = true
is_none (some a) = false

module _ ⦃P : Primitives⦄ where
  -- the closure that `parse_public_policy` gives to `iter_pk().any`
  unfoldable pub unfit_account_key : DescriptorPublicKey → Bool
  unfit_account_key (xpub key) =
      is_none key.origin
      || wildcard_beq key.wildcard hardened_wildcard
      || any is_hardened key.derivation_path
  unfit_account_key (multi_xpub key) =
      is_none key.origin
      || wildcard_beq key.wildcard hardened_wildcard
      || any (any is_hardened) key.derivation_paths
  unfit_account_key (single key) = true

  compressed_full_key : SinglePubKey → Bool
  compressed_full_key (full_key key compressed) = compressed
  compressed_full_key (x_only key) = false

  -- the match `valid` of `parse_concrete_key`
  unfoldable pub valid_concrete_key : DeviceKind → DescriptorPublicKey → Bool
  unfolding compressed_full_key
  valid_concrete_key kind (single key) =
      not (kind == jade) && not (is_none key.origin) && compressed_full_key key.key
  valid_concrete_key kind (xpub key) =
      (kind == jade || kind == trezor)
      && not (is_none key.origin)
      && wildcard_beq key.wildcard no_wildcard
      && all (λ child. not (is_hardened child)) key.derivation_path
  valid_concrete_key kind (multi_xpub key) = false

  concrete_key_message : DeviceKind → String
  concrete_key_message jade =
      "Jade multisig requires origin-bearing xpubs with concrete unhardened suffixes"
  concrete_key_message trezor =
      "Trezor multisig requires origin-bearing compressed public keys or concrete unhardened xpubs"
  concrete_key_message _ = "multisig requires origin-bearing concrete compressed public keys"

  module _ ⦃L : Library⦄ where
    open P use {CorePolicy}
    open L use {parse_descriptor, is_bare, iter_pk, policy_from_descriptor, parse_key}
    open L use {parse_derivation_path}

    unfoldable pub parse_public_policy : Text → Outcome CorePolicy
    unfolding unfit_account_key
    parse_public_policy text = do
      descriptor ← or_err (parse_descriptor text) (invalid_input "invalid public wallet descriptor")
      reject_if
          (is_bare descriptor
            || is_empty (iter_pk descriptor)
            || any unfit_account_key (iter_pk descriptor))
          (invalid_input
            "wallet descriptor requires origin-bearing public account xpubs with unhardened suffixes")
      or_err (policy_from_descriptor descriptor)
          (invalid_input "unsupported public wallet descriptor")

    unfoldable pub parse_concrete_key : Text → DeviceKind → Outcome DescriptorPublicKey
    unfolding valid_concrete_key concrete_key_message
    parse_concrete_key text kind = do
      key ← or_err (parse_key text) (invalid_input "invalid concrete multisig key")
      reject_if (not (valid_concrete_key kind key)) (invalid_input (concrete_key_message kind))
      ok key

    unfoldable pub parse_path : Text → Outcome DerivationPath
    parse_path path =
        or_err (parse_derivation_path (trim path)) (invalid_input "invalid derivation path")
