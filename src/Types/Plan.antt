-- ===== src/Types/Plan.antt =====
-- bhwi-ffi/src/types.rs: `HwiCommand::plan`, which validates a command and lowers it onto the core.
pub mod Preflight
pub mod Accepts
pub mod Display
pub mod Context
pub mod Signing
pub mod Kinds
pub mod Registration
use bhwi_ffi.Prelude.{
  ℕ, ◌%◌, ◌^◌, Bool, true, false, not, ◌&&◌, ◌||◌, Option, none, some, List, [], ◌∷◌, ltb, leb, eqb,
  any, all, is_empty, length, if◌then◌else◌, ◌==◌,
}
use bhwi_ffi.Text.{Text, bytes, trim}
use bhwi_ffi.Error.{Outcome, ok, err, invalid_input, or_err, reject_if, ◌>>=◌, ◌>>◌}
use bhwi_ffi.Network.{to_core_network, AddressFormat, taproot, to_address_type}
use bhwi_ffi.Core.Primitives.{Primitives}
use bhwi_ffi.Core.Bitcoin.{
  DerivationPath, DescriptorPublicKey, AddressType, child_bits, Input, TxOut,
}
use bhwi_ffi.Core.Protocol
use bhwi_ffi.Core.Protocol.{
  DeviceContext, trezor_management, keepkey_management, by_path, by_descriptor, by_multisig,
  send_pin, sign_tx,
}
use bhwi_ffi.Core.Library.{Library}
use bhwi_ffi.Types.Device.{
  DeviceKind, ledger, coldcard, bitbox, jade, trezor, keepkey, specter, kind_eq,
}
use bhwi_ffi.Types.Expect
use bhwi_ffi.Types.Expect.{Expect}
use bhwi_ffi.Types.Names.{validate_policy_name}
use bhwi_ffi.Types.Descriptors.{parse_public_policy, parse_concrete_key, parse_path}
use bhwi_ffi.Types.Ledger.{validate_ledger_signing_policy}
use bhwi_ffi.Types.Codec.{decode_psbt}
use bhwi_ffi.Types.Command
use bhwi_ffi.Types.Command.{
  HwiCommand, WalletPolicy, MultisigAddressFormat, to_multisig_type, context,
}

-- `positions.is_empty() || !positions.bytes().all(|byte| (b'1'..=b'9').contains(&byte))`
unfoldable pub bad_positions : Text → Bool
bad_positions positions =
    is_empty positions || not (all (λ b. leb b'1' b && leb b b'9') (bytes positions))

abbrev is_taproot : Option AddressFormat → Bool
is_taproot (some taproot) = true
is_taproot _ = false

-- `path.as_ref().first().is_some_and(|child| u32::from(*child) & 0x7fff_ffff == 86)`
unfoldable pub first_is_86 : DerivationPath → Bool
first_is_86 [] = false
first_is_86 (child ∷ rest) = eqb (child_bits child % 2 ^ 31) 86

-- the KeepKey guard of `DisplayAddress`
unfoldable pub keepkey_taproot : DeviceKind → Option AddressFormat → DerivationPath → Bool
unfolding first_is_86
keepkey_taproot kind (some format) path = kind == keepkey && is_taproot (some format)
keepkey_taproot kind none path = kind == keepkey && first_is_86 path

-- the guard of `DisplayMultisigAddress`
unfoldable pub bad_multisig : ℕ → List Text → Bool
bad_multisig threshold keys =
    is_empty keys || ltb 15 (length keys) || eqb threshold 0 || ltb (length keys) threshold

-- `format.map(Into::into)`
abbrev map_format : Option AddressFormat → Option AddressType
map_format none = none
map_format (some format) = some (to_address_type format)

module _ ⦃P : Primitives⦄ where
  open P use {HostPin}

  pub record Plan : Type 0 where
    pub command : Protocol.Command
    pub expect : Expect

  -- the closure `plan`
  abbrev make : Protocol.Command → Expect → Outcome Plan
  make command expect = ok (record { command = command; expect = expect })

  -- the match on `kind` in `SendPin`
  unfoldable pub pin_context : HostPin → DeviceKind → Outcome DeviceContext
  pin_context pin trezor = ok (trezor_management pin)
  pin_context pin keepkey = ok (keepkey_management pin)
  pin_context pin _ = err (invalid_input "host PIN is unsupported for this device")

  module _ ⦃L : Library⦄ where
    open L use {host_pin, is_p2wsh, is_p2wpkh}

    -- `keys.iter().map(|key| parse_concrete_key(key, kind)).collect::<Result<_, _>>()`
    unfoldable pub parse_concrete_keys : List Text → DeviceKind → Outcome (List DescriptorPublicKey)
    parse_concrete_keys [] kind = ok []
    parse_concrete_keys (text ∷ texts) kind = do
      key ← parse_concrete_key text kind
      keys ← parse_concrete_keys texts kind
      ok (key ∷ keys)

    -- `wallet_policy.as_ref().map(|policy| policy.context(kind)).transpose()?.flatten()`
    unfoldable pub signing_context :
        Option WalletPolicy → DeviceKind → Outcome (Option DeviceContext)
    signing_context none kind = ok none
    signing_context (some wallet) kind = context wallet kind

    -- the Ledger branch of `SignPsbt`
    unfoldable pub check_ledger_context : Option DeviceContext → Outcome (Unit {0})
    check_ledger_context (some (Protocol.ledger wallet hmac)) =
        validate_ledger_signing_policy wallet hmac
    check_ledger_context _ = err (invalid_input "Ledger signing requires a wallet policy")

    abbrev present : Option P.Script → Bool
    present none = false
    present (some script) = true

    -- `utxo.script_pubkey.is_p2wsh()`, if there is an output
    abbrev pays_wsh : Option TxOut → Bool
    pays_wsh none = false
    pays_wsh (some utxo) = is_p2wsh utxo.script_pubkey

    -- `!script.is_p2wpkh()`, if there is a script
    abbrev not_plain_wrap : Option P.Script → Bool
    not_plain_wrap none = false
    not_plain_wrap (some script) = not (is_p2wpkh script)

    -- the closure that the BitBox branch of `SignPsbt` gives to `psbt.inputs.iter().any`
    unfoldable pub has_script : Input → Bool
    has_script input =
        present input.witness_script
        || pays_wsh input.witness_utxo
        || not_plain_wrap input.redeem_script

    abbrev absent : Option DeviceContext → Bool
    absent none = true
    absent (some context) = false

    unfoldable pub plan : HwiCommand → DeviceKind → Outcome Plan
    plan (Command.unlock network) kind =
        make (Protocol.unlock (some (to_core_network network))) Expect.anything
    plan Command.get_version kind = make Protocol.get_version Expect.info
    plan Command.prompt_pin kind = make Protocol.prompt_pin Expect.action
    plan (Command.send_pin positions) kind = do
      reject_if (bad_positions positions) (invalid_input "PIN positions must be digits 1 to 9")
      pin ← or_err (host_pin positions) (invalid_input "invalid PIN positions")
      context ← pin_context pin kind
      make (send_pin (some context)) Expect.action
    plan Command.get_master_fingerprint kind =
        make Protocol.get_master_fingerprint Expect.fingerprint
    plan (Command.get_xpub path display) kind = do
      path ← parse_path path
      make (Protocol.get_xpub path display) Expect.xpub
    plan (Command.display_address path display format) kind = do
      path ← parse_path path
      reject_if (keepkey_taproot kind format path)
          (invalid_input "KeepKey does not support Taproot address display")
      make (Protocol.display_address (by_path path display (map_format format)) none) Expect.address
    plan (Command.register_wallet name descriptor) kind = do
      validate_policy_name name kind true
      policy ← parse_public_policy descriptor
      make (Protocol.register_wallet name policy) Expect.registration
    plan (Command.display_descriptor_address index change display wallet_policy) kind = do
      reject_if (leb (2 ^ 31) index) (invalid_input "address index must be unhardened")
      context ← context wallet_policy kind
      reject_if (kind == trezor || kind == keepkey)
          (invalid_input "descriptor address display is unsupported for this device")
      make
          (Protocol.display_address (by_descriptor index change display wallet_policy.name) context)
          Expect.address
    plan (Command.display_multisig_address threshold sorted format keys) kind = do
      reject_if (bad_multisig threshold keys)
          (invalid_input "multisig requires 1 to 15 keys and a valid threshold")
      reject_if (kind == keepkey && not sorted)
          (invalid_input "KeepKey requires sorted multisig address display")
      keys ← parse_concrete_keys keys kind
      make
          (Protocol.display_address
            (by_multisig (record {
              threshold = threshold;
              sorted = sorted;
              address_type = to_multisig_type format;
              keys = keys;
            }))
            none)
          Expect.address
    plan (Command.sign_message message path) kind = do
      path ← parse_path path
      make (Protocol.sign_message message path) Expect.signature
    plan (Command.sign_psbt psbt_base64 wallet_policy) kind = do
      psbt ← decode_psbt psbt_base64
      context ← signing_context wallet_policy kind
      if kind == ledger then check_ledger_context context else ok tt
      reject_if (kind == bitbox && absent context && any has_script psbt.inputs)
          (invalid_input "BitBox script signing requires its registered wallet policy")
      make (sign_tx psbt context) Expect.psbt
