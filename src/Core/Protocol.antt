-- ===== src/Core/Protocol.antt =====
-- bhwi::common: what passes between the binding and the interpreters of the families.
use bhwi_ffi.Prelude.{ℕ, String, Bool, Option, List}
use bhwi_ffi.Text.{Bytes, Text, ℤ}
use bhwi_ffi.Core.Primitives.{Primitives}
use bhwi_ffi.Core.Bitcoin.{
  CoreNetwork, AddressType, DerivationPath, DescriptorPublicKey, Xpub, Psbt,
}

pub data PinMatrixRequestKind : Type 0 where
  current new_first new_second : PinMatrixRequestKind
  unknown : ℤ → PinMatrixRequestKind

pub data HostRequest : Type 0 where
  pin_matrix : PinMatrixRequestKind → HostRequest
  recovery_character : ℕ → ℕ → HostRequest

pub data Recipient : Type 0 where
  to_device : Recipient
  to_pin_server : Text → Recipient
  to_host : HostRequest → Recipient

pub record Transmit : Type 0 where
  pub payload : Bytes
  pub encrypted : Bool
  pub recipient : Recipient

pub data MultisigAddressType : Type 0 where
  legacy sh_wit wit : MultisigAddressType

pub data WalletRegistration : Type 0 where
  complete : Option Bytes → WalletRegistration
  pending_user_confirmation : WalletRegistration

pub record Info : Type 0 where
  pub version : Text
  pub firmware : Option Text
  pub initialized : Option Bool
  pub networks : List CoreNetwork
  pub label : Option Text
  pub on_device_passphrase_entry : Option Bool
  pub needs_pin_sent : Option Bool
  pub needs_passphrase_sent : Option Bool

module _ ⦃P : Primitives⦄ where
  open P use {CorePolicy, HostPin, Fingerprint, MessageSignature, EncryptionKey}
  open P use {OtherResponse}

  -- bhwi::ledger::LedgerWalletPolicy of version V2
  pub record LedgerWalletPolicy : Type 0 where
    pub name : Text
    pub policy : CorePolicy

  pub data DeviceContext : Type 0 where
    trezor_management keepkey_management : HostPin → DeviceContext
    ledger : LedgerWalletPolicy → Option Bytes → DeviceContext
    bitbox specter : CorePolicy → DeviceContext

  pub record MultisigDisplayAddress : Type 0 where
    pub threshold : ℕ
    pub sorted : Bool
    pub address_type : MultisigAddressType
    pub keys : List DescriptorPublicKey

  pub data DisplayAddress : Type 0 where
    by_path : DerivationPath → Bool → Option AddressType → DisplayAddress
    by_descriptor : ℕ → Bool → Bool → Text → DisplayAddress
    by_multisig : MultisigDisplayAddress → DisplayAddress

  pub data Command : Type 0 where
    unlock : Option CoreNetwork → Command
    get_version prompt_pin get_master_fingerprint : Command
    send_pin : Option DeviceContext → Command
    get_xpub : DerivationPath → Bool → Command
    display_address : DisplayAddress → Option DeviceContext → Command
    register_wallet : Text → CorePolicy → Command
    sign_message : Bytes → DerivationPath → Command
    sign_tx : Psbt → Option DeviceContext → Command

  pub data Response : Type 0 where
    task_done : Response
    device_action : Bool → Response
    info : Info → Response
    master_fingerprint : Fingerprint → Response
    xpub_response : Xpub → Response
    address : Text → Response
    signature : ℕ → MessageSignature → Response
    signed_psbt : Psbt → Response
    wallet_registration : WalletRegistration → Response
    encryption_key : EncryptionKey → Response
    other_response : OtherResponse → Response

  -- common::Error; the contexts are `&'static str`s of the core, the rest may come from a device
  pub data Error : Type 0 where
    authentication_refused user_cancelled no_error_or_result : Error
    already_unlocked missing_command_info encryption request : String → Error
    invalid_command unsupported_display_address device_error serialization : String → Error
    unexpected_result : Bytes → String → Error
    rpc : ℤ → Option String → Error
