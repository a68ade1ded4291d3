-- ===== src/Types/Descriptors/Concrete.antt =====
-- Which keys the multisig address display accepts.
use bhwi_ffi.Prelude.{
  true, not, none, some, [], ◌∷◌, All, all, ◌≡◌, ◌≢◌, ◌↔◌, arith, refl, ap, inl, inr, Option-cases,
  ◌⊎◌,
}
use bhwi_ffi.Text.{Text}
use bhwi_ffi.Error.{ok}
use bhwi_ffi.Core.Primitives.{Primitives}
use bhwi_ffi.Core.Bitcoin.{
  DescriptorPublicKey, single, xpub, multi_xpub, is_hardened, DerivationPath, no_wildcard, full_key,
  x_only, SinglePubKey,
}
use bhwi_ffi.Core.Library.{Library}
use bhwi_ffi.Types.Device.{DeviceKind, jade, trezor}
use bhwi_ffi.Types.Descriptors.{parse_concrete_key, valid_concrete_key, compressed_full_key}
use bhwi_ffi.Types.Descriptors.Public.{IsNormal}

module _ ⦃P : Primitives⦄ where
  -- One public key, with its origin and nothing left to choose.
  abbrev pub IsConcrete : DeviceKind → DescriptorPublicKey → Type 0
  IsConcrete kind (single key) =
      (kind ≢ jade) × (key.origin ≢ none) × ((k : P.PublicKey) × (key.key ≡ full_key k true))
  IsConcrete kind (xpub key) =
      ((kind ≡ jade) ⊎ (kind ≡ trezor))
      × (key.origin ≢ none)
      × (key.wildcard ≡ no_wildcard)
      × All IsNormal key.derivation_path
  IsConcrete kind (multi_xpub key) = ⊥

  all-IsNormal_iff :
      (path : DerivationPath)
      → (all (λ child. not (is_hardened child)) path ≡ true) ↔ All IsNormal path
  all-IsNormal_iff [] = ground arith
  all-IsNormal_iff (c ∷ path) = ground (arith, all-IsNormal_iff path)

  compressed_iff :
      (key : SinglePubKey)
      → (compressed_full_key key ≡ true) ↔ ((k : P.PublicKey) × (key ≡ full_key k true))
  unfolding compressed_full_key
  compressed_iff (full_key k compressed) = (λ h. (k, ap (full_key k) h), λ h. ground (arith, h.1))
  compressed_iff (x_only k) = (λ h. cc, λ h. cc (h.1))

  valid_concrete_key_iff :
      (kind : DeviceKind) (key : DescriptorPublicKey)
      → (valid_concrete_key kind key ≡ true) ↔ IsConcrete kind key
  unfolding valid_concrete_key
  valid_concrete_key_iff kind (single key) = ground (arith, compressed_iff key.key)
  valid_concrete_key_iff kind (xpub key) = ground (arith, all-IsNormal_iff key.derivation_path)
  valid_concrete_key_iff kind (multi_xpub key) = ground arith

  module _ ⦃L : Library⦄ where
    -- A key text is accepted exactly when it parses to a key that is concrete for the family, and
    -- then that key is the result.
    pub parse_concrete_key_iff :
        (text : Text) (kind : DeviceKind) (key : DescriptorPublicKey)
        → (parse_concrete_key text kind ≡ ok key)
          ↔ ((L.parse_key text ≡ some key) × IsConcrete kind key)
    unfolding parse_concrete_key
    parse_concrete_key_iff text kind key = (
      λ h. elim (Option-cases (L.parse_key text)) [
        | inl e ↦ ground arith
        | inr (k, e) ↦
            ground (arith, valid_concrete_key_iff kind k, valid_concrete_key_iff kind key)
      ],
      λ (e, c). let fit = (valid_concrete_key_iff kind key).1 c in rw e (rw fit refl),
    )
