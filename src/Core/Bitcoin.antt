-- ===== src/Core/Bitcoin.antt =====
-- The structs and enumerations of the bitcoin and miniscript crates whose parts the source reads.
use bhwi_ffi.Prelude.{ℕ, ◌+◌, ◌^◌, Bool, true, false, Option, List, Eq, ◌≡◌, ◌↔◌, arith, eqb}
use bhwi_ffi.Text.{Bytes, Text}
use bhwi_ffi.Core.Primitives.{Primitives}

-- bitcoin::Network is non-exhaustive: `other_network` stands for Testnet4 and what may follow.
pub data CoreNetwork : Type 0 where
  bitcoin testnet signet regtest : CoreNetwork
  other_network : ℕ → CoreNetwork

pub data NetworkKind : Type 0 where
  main test : NetworkKind

abbrev pub network_kind_beq : NetworkKind → NetworkKind → Bool
network_kind_beq main main = true
network_kind_beq main test = false
network_kind_beq test main = false
network_kind_beq test test = true

pub network_kind_beq_iff : (a b : NetworkKind) → (network_kind_beq a b ≡ true) ↔ (a ≡ b)
network_kind_beq_iff a b = ground arith

instance abbrev pub network_kind_eq : Eq NetworkKind
network_kind_eq = record { beq = network_kind_beq; beq_iff = network_kind_beq_iff }

-- bitcoin::AddressType, as far as the source builds it
pub data AddressType : Type 0 where
  p2pkh p2sh p2wpkh p2tr : AddressType

-- bitcoin::bip32::ChildNumber
pub data ChildNumber : Type 0 where
  normal hardened : ℕ → ChildNumber

abbrev pub is_hardened : ChildNumber → Bool
is_hardened (normal i) = false
is_hardened (hardened i) = true

-- `u32::from(child)`: bit 31 marks a hardened child.
abbrev pub child_bits : ChildNumber → ℕ
child_bits (normal i) = i
child_bits (hardened i) = i + 2 ^ 31

abbrev pub child_beq : ChildNumber → ChildNumber → Bool
child_beq (normal i) (normal j) = eqb i j
child_beq (normal i) (hardened j) = false
child_beq (hardened i) (normal j) = false
child_beq (hardened i) (hardened j) = eqb i j

pub child_beq_iff : (a b : ChildNumber) → (child_beq a b ≡ true) ↔ (a ≡ b)
child_beq_iff (normal i) (normal j) = ground arith
child_beq_iff (normal i) (hardened j) = ground arith
child_beq_iff (hardened i) (normal j) = ground arith
child_beq_iff (hardened i) (hardened j) = ground arith

instance abbrev pub child_eq : Eq ChildNumber
child_eq = record { beq = child_beq; beq_iff = child_beq_iff }

abbrev pub DerivationPath : Type 0
DerivationPath = List ChildNumber

-- miniscript::descriptor::Wildcard
pub data Wildcard : Type 0 where
  no_wildcard unhardened_wildcard hardened_wildcard : Wildcard

abbrev pub wildcard_beq : Wildcard → Wildcard → Bool
wildcard_beq no_wildcard no_wildcard = true
wildcard_beq unhardened_wildcard unhardened_wildcard = true
wildcard_beq hardened_wildcard hardened_wildcard = true
wildcard_beq _ _ = false

module _ ⦃P : Primitives⦄ where
  open P use {Script, Witness, PublicKey, LeafKey, EcdsaSignature, TaprootSignature, Txid}
  open P use {PsbtSighashType, Fingerprint}

  pub record Xpub : Type 0 where
    pub network : NetworkKind
    pub depth : ℕ
    pub child_number : ChildNumber
    pub encoded : Text

  abbrev pub Origin : Type 0
  Origin = Option (Fingerprint × DerivationPath)

  -- miniscript::descriptor::SinglePubKey, with the flag `compressed` of a full key
  pub data SinglePubKey : Type 0 where
    full_key : PublicKey → Bool → SinglePubKey
    x_only : Bytes → SinglePubKey

  pub record SingleKey : Type 0 where
    pub origin : Origin
    pub key : SinglePubKey

  pub record XpubKey : Type 0 where
    pub origin : Origin
    pub xkey : Xpub
    pub derivation_path : DerivationPath
    pub wildcard : Wildcard

  pub record MultiXpubKey : Type 0 where
    pub origin : Origin
    pub xkey : Xpub
    pub derivation_paths : List DerivationPath
    pub wildcard : Wildcard

  -- miniscript::DescriptorPublicKey
  pub data DescriptorPublicKey : Type 0 where
    single : SingleKey → DescriptorPublicKey
    xpub : XpubKey → DescriptorPublicKey
    multi_xpub : MultiXpubKey → DescriptorPublicKey

  pub record TxOut : Type 0 where
    pub value : ℕ
    pub script_pubkey : Script

  pub record OutPoint : Type 0 where
    pub txid : Txid
    pub vout : ℕ

  pub record Transaction : Type 0 where
    pub input : List OutPoint
    pub output : List TxOut

  -- bitcoin::psbt::Input, its fields that the source reads
  pub record Input : Type 0 where
    pub partial_sigs : List (PublicKey × EcdsaSignature)
    pub tap_key_sig : Option TaprootSignature
    pub tap_script_sigs : List (LeafKey × TaprootSignature)
    pub final_script_sig : Option Script
    pub final_script_witness : Option Witness
    pub sighash_type : Option PsbtSighashType
    pub witness_utxo : Option TxOut
    pub non_witness_utxo : Option Transaction
    pub witness_script : Option Script
    pub redeem_script : Option Script

  pub record Psbt : Type 0 where
    pub unsigned_tx : Transaction
    pub inputs : List Input
