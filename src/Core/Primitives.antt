-- ===== src/Core/Primitives.antt =====
-- The opaque third-party types, with the `PartialEq` that the source uses.
use bhwi_ffi.Prelude.{Eq}

pub record Primitives : Type 1 where
  -- bitcoin
  pub Script : Type 0
  pub script_eq : Eq Script
  pub Witness : Type 0
  pub witness_eq : Eq Witness
  pub PublicKey : Type 0
  pub public_key_eq : Eq PublicKey
  -- the key of `tap_script_sigs`: an x-only key with a leaf hash
  pub LeafKey : Type 0
  pub leaf_key_eq : Eq LeafKey
  pub EcdsaSignature : Type 0
  pub ecdsa_signature_eq : Eq EcdsaSignature
  pub TaprootSignature : Type 0
  pub taproot_signature_eq : Eq TaprootSignature
  pub EcdsaSighashType : Type 0
  pub ecdsa_sighash_type_eq : Eq EcdsaSighashType
  pub TapSighashType : Type 0
  pub tap_sighash_type_eq : Eq TapSighashType
  pub PsbtSighashType : Type 0
  pub Txid : Type 0
  pub Wtxid : Type 0
  pub wtxid_eq : Eq Wtxid
  pub Fingerprint : Type 0
  pub MessageSignature : Type 0
  -- miniscript
  pub Descriptor : Type 0
  pub CorePolicy : Type 0
  pub SingleDescriptor : Type 0
  -- bhwi
  pub HostPin : Type 0
  pub HostPassphrase : Type 0
  pub NoiseState : Type 0
  pub Engine : Type 0
  pub EncryptionKey : Type 0
  pub ResponseDecoder : Type 0
  -- responses that the source has no name for
  pub OtherResponse : Type 0
