-- ===== src/Core/Library.antt =====
-- The functions of the third-party crates that the source calls.
use bhwi_ffi.Prelude.{ℕ, String, Bool, Option, List, ◌+◌, ◌≤◌, some, ◌≡◌, ◌↔◌}
use bhwi_ffi.Text.{Bytes, Text, trim}
use bhwi_ffi.Core.Primitives.{Primitives}
use bhwi_ffi.Core.Bitcoin.{
  NetworkKind, CoreNetwork, DerivationPath, DescriptorPublicKey, Xpub, Input, Psbt, Transaction,
}
use bhwi_ffi.Core.Result.{CoreResult}
use bhwi_ffi.Core.Protocol.{LedgerWalletPolicy}

module _ ⦃P : Primitives⦄ where
  open P use {Script, Witness, EcdsaSignature, TaprootSignature, EcdsaSighashType}
  open P use {TapSighashType, Txid, Wtxid, Fingerprint, MessageSignature, Descriptor, CorePolicy}
  open P use {SingleDescriptor, HostPin}

  -- A fallible call whose error the source drops is an `Option`.
  pub record Library : Type 0 where
    -- `usize::MAX` of the target
    pub usize_max : ℕ
    -- base64ct, bitcoin::psbt
    pub base64_decode : Text → Option Bytes
    pub base64_encode : Bytes → Text
    pub psbt_deserialize : Bytes → Option Psbt
    pub psbt_serialize : Psbt → Bytes
    pub compute_wtxid : Transaction → Wtxid
    pub ecdsa_serialize : EcdsaSignature → Bytes
    pub ecdsa_sighash : EcdsaSignature → EcdsaSighashType
    pub taproot_serialize : TaprootSignature → Bytes
    pub taproot_sighash : TaprootSignature → TapSighashType
    pub ecdsa_hash_ty : Input → Option EcdsaSighashType
    pub taproot_hash_ty : Input → Option TapSighashType
    pub witness_items : Witness → List Bytes
    -- `script.instructions()`: an item is an error (`none`), an instruction without pushed bytes
    -- (`some none`) or a push
    pub instructions : Script → List (Option (Option Bytes))
    pub is_p2wsh : Script → Bool
    pub is_p2wpkh : Script → Bool
    pub compact_signature : MessageSignature → Bytes
    -- `to_string`
    pub show_txid : Txid → Text
    pub show_fingerprint : Fingerprint → Text
    pub show_xpub : Xpub → Text
    -- `from_str`
    pub parse_xpub : Text → Option Xpub
    pub parse_fingerprint : Text → Option Fingerprint
    pub parse_derivation_path : Text → Option DerivationPath
    pub parse_key : Text → Option DescriptorPublicKey
    pub parse_descriptor : Text → Option Descriptor
    -- miniscript
    pub show_descriptor : Descriptor → Text
    pub is_bare : Descriptor → Bool
    pub iter_pk : Descriptor → List DescriptorPublicKey
    pub policy_from_descriptor : Descriptor → Option CorePolicy
    pub into_single_descriptors : Descriptor → CoreResult String (List SingleDescriptor)
    -- `derive_at_index(index)?.derived_descriptor(&secp).address(network)?`
    pub derive_address : SingleDescriptor → ℕ → CoreNetwork → CoreResult String Text
    pub address_from_script : Script → CoreNetwork → Option Text
    -- bitcoin::Amount, in satoshis
    pub checked_add : ℕ → ℕ → Option ℕ
    pub checked_sub : ℕ → ℕ → Option ℕ
    -- `NetworkKind::from`
    pub network_kind : CoreNetwork → NetworkKind
    -- bhwi
    pub host_pin : Text → Option HostPin
    pub extract_parts : CorePolicy → Option (Text × List DescriptorPublicKey)
    pub policy_id : LedgerWalletPolicy → Option Bytes

  -- What the bitcoin crate documents of its checked arithmetic: a sum is given exactly if it is at
  -- most the largest amount, and a difference exactly if it is not negative.
  pub record AmountLaws (L : Library) : Type 0 where
    pub max : ℕ
    pub add_iff : (a b c : ℕ) → (L.checked_add a b ≡ some c) ↔ ((a + b ≡ c) × (c ≤ max))
    pub sub_iff : (a b c : ℕ) → (L.checked_sub a b ≡ some c) ↔ (b + c ≡ a)

  -- What miniscript and bitcoin document of `Display` and `FromStr`: a descriptor's text parses to the
  -- descriptor, and starts and ends with no white space.
  pub record DescriptorLaws (L : Library) : Type 0 where
    pub parse_show : (d : Descriptor) → L.parse_descriptor (L.show_descriptor d) ≡ some d
    pub trim_show : (d : Descriptor) → trim (L.show_descriptor d) ≡ L.show_descriptor d

  -- What bitcoin documents of `Input::ecdsa_hash_ty` and `Input::taproot_hash_ty`: they read the
  -- sighash type of the input, and no other part of it.
  pub record SighashLaws (L : Library) : Type 0 where
    pub ecdsa :
        (i j : Input) → i.sighash_type ≡ j.sighash_type → L.ecdsa_hash_ty i ≡ L.ecdsa_hash_ty j
    pub taproot :
        (i j : Input) → i.sighash_type ≡ j.sighash_type → L.taproot_hash_ty i ≡ L.taproot_hash_ty j
