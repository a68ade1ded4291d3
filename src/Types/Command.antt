-- ===== src/Types/Command.antt =====
-- bhwi-ffi/src/types.rs: `HwiCommand`, `WalletPolicy` with its `context`, `MultisigAddressFormat`.
use bhwi_ffi.Prelude.{ℕ, Bool, false, Option, none, some, List, eqb, length, if◌then◌else◌, ◌==◌}
use bhwi_ffi.Text.{Text, Bytes}
use bhwi_ffi.Error.{Outcome, ok, err, invalid_input, ◌>>=◌, ◌>>◌}
use bhwi_ffi.Network.{Network, AddressFormat}
use bhwi_ffi.Core.Primitives.{Primitives}
use bhwi_ffi.Core.Protocol.{MultisigAddressType, DeviceContext}
use bhwi_ffi.Core.Protocol
use bhwi_ffi.Core.Library.{Library}
use bhwi_ffi.Types.Device.{DeviceKind, ledger, bitbox, specter, kind_eq}
use bhwi_ffi.Types.Names.{validate_policy_name}
use bhwi_ffi.Types.Descriptors.{parse_public_policy}

pub data MultisigAddressFormat : Type 0 where
  legacy sh_wit wit : MultisigAddressFormat

-- `From<MultisigAddressFormat> for bc::MultisigAddressType`
unfoldable pub to_multisig_type : MultisigAddressFormat → MultisigAddressType
to_multisig_type legacy = Protocol.legacy
to_multisig_type sh_wit = Protocol.sh_wit
to_multisig_type wit = Protocol.wit

pub record WalletPolicy : Type 0 where
  pub name : Text
  pub descriptor : Text
  pub ledger_hmac : Option Bytes

pub data HwiCommand : Type 0 where
  unlock : Network → HwiCommand
  get_version prompt_pin get_master_fingerprint : HwiCommand
  send_pin : Text → HwiCommand
  get_xpub : Text → Bool → HwiCommand
  display_address : Text → Bool → Option AddressFormat → HwiCommand
  register_wallet : Text → Text → HwiCommand
  display_descriptor_address : ℕ → Bool → Bool → WalletPolicy → HwiCommand
  display_multisig_address : ℕ → Bool → MultisigAddressFormat → List Text → HwiCommand
  sign_message : Bytes → Text → HwiCommand
  sign_psbt : Text → Option WalletPolicy → HwiCommand

-- the match on `ledger_hmac` in `WalletPolicy::context`
unfoldable pub accept_hmac : Option Bytes → DeviceKind → Outcome (Option Bytes)
accept_hmac (some bytes) kind =
    if kind == ledger
    then (if eqb (length bytes) 32
        then ok (some bytes)
        else err (invalid_input "Ledger HMAC must contain exactly 32 bytes"))
    else err (invalid_input "wallet HMAC is only valid for Ledger")
accept_hmac none kind = ok none

module _ ⦃P : Primitives⦄ where
  -- the match on `kind` there
  unfoldable pub device_context :
      Text → Option Bytes → P.CorePolicy → DeviceKind → Option DeviceContext
  device_context name hmac policy ledger =
      some (Protocol.ledger (record { name = name; policy = policy }) hmac)
  device_context name hmac policy bitbox = some (Protocol.bitbox policy)
  device_context name hmac policy specter = some (Protocol.specter policy)
  device_context name hmac policy _ = none

  module _ ⦃L : Library⦄ where
    -- `WalletPolicy::context`
    unfoldable pub context : WalletPolicy → DeviceKind → Outcome (Option DeviceContext)
    context wallet kind = do
      validate_policy_name wallet.name kind false
      hmac ← accept_hmac wallet.ledger_hmac kind
      policy ← parse_public_policy wallet.descriptor
      ok (device_context wallet.name hmac policy kind)
