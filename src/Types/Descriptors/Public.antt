-- ===== src/Types/Descriptors/Public.antt =====
-- Which wallet descriptors the binding accepts.
use bhwi_ffi.Prelude.{
  false, none, some, List, [], ◌∷◌, All, any, is_empty, ◌≡◌, ◌≢◌, ◌↔◌, arith, refl, ◌||◌,
}
use bhwi_ffi.Text.{Text}
use bhwi_ffi.Error.{ok, or_err, reject_if, >>=-eq-ok, or_err-eq-ok, reject_if-eq-ok}
use bhwi_ffi.Core.Primitives.{Primitives}
use bhwi_ffi.Core.Bitcoin.{
  DescriptorPublicKey, single, xpub, multi_xpub, hardened_wildcard, ChildNumber, is_hardened,
  DerivationPath,
}
use bhwi_ffi.Core.Library.{Library}
use bhwi_ffi.Types.Descriptors.{parse_public_policy, unfit_account_key}

-- `i`, without a hardening mark
abbrev pub IsNormal : ChildNumber → Type 0
IsNormal child = is_hardened child ≡ false

module _ ⦃P : Primitives⦄ where
  -- An extended public account key with its origin, whose suffix the holder of the public key can
  -- derive: no hardened step, no hardened wildcard.
  abbrev pub IsAccountKey : DescriptorPublicKey → Type 0
  IsAccountKey (single key) = ⊥
  IsAccountKey (xpub key) =
      (key.origin ≢ none) × (key.wildcard ≢ hardened_wildcard) × All IsNormal key.derivation_path
  IsAccountKey (multi_xpub key) =
      (key.origin ≢ none)
      × (key.wildcard ≢ hardened_wildcard)
      × All (All IsNormal) key.derivation_paths

  any_hardened_iff : (path : DerivationPath) → (any is_hardened path ≡ false) ↔ All IsNormal path
  any_hardened_iff [] = ground arith
  any_hardened_iff (c ∷ path) = ground (arith, any_hardened_iff path)

  any-any_hardened_iff :
      (paths : List DerivationPath)
      → (any (any is_hardened) paths ≡ false) ↔ All (All IsNormal) paths
  any-any_hardened_iff [] = ground arith
  any-any_hardened_iff (p ∷ paths) = ground (arith, any_hardened_iff p, any-any_hardened_iff paths)

  unfit_iff : (key : DescriptorPublicKey) → (unfit_account_key key ≡ false) ↔ IsAccountKey key
  unfolding unfit_account_key
  unfit_iff (single key) = ground arith
  unfit_iff (xpub key) = ground (arith, any_hardened_iff key.derivation_path)
  unfit_iff (multi_xpub key) = ground (arith, any-any_hardened_iff key.derivation_paths)

  any_unfit_iff :
      (keys : List DescriptorPublicKey)
      → (any unfit_account_key keys ≡ false) ↔ All IsAccountKey keys
  any_unfit_iff [] = ground arith
  any_unfit_iff (k ∷ keys) = ground (arith, unfit_iff k, any_unfit_iff keys)

  module _ ⦃L : Library⦄ where
    open P use {Descriptor, CorePolicy}
    open L use {parse_descriptor, is_bare, iter_pk, policy_from_descriptor}

    -- The descriptor behind an accepted text.
    pub record IsPublicWallet (descriptor : Descriptor) : Type 0 where
      pub scripted : is_bare descriptor ≡ false
      pub keyed : iter_pk descriptor ≢ []
      pub account_keys : All IsAccountKey (iter_pk descriptor)

    IsPublicWallet-iff :
        (d : Descriptor)
        → ((is_bare d || is_empty (iter_pk d) || any unfit_account_key (iter_pk d)) ≡ false)
          ↔ IsPublicWallet d
    IsPublicWallet-iff d = (
      λ h. record {
        scripted = ground arith;
        keyed = ground arith;
        account_keys = (any_unfit_iff (iter_pk d)).0 (ground arith);
      },
      λ w.
          let fit = (any_unfit_iff (iter_pk d)).1 w.account_keys in
          ground (arith, fit, w.scripted, w.keyed),
    )

    -- A descriptor text is accepted, with the policy `policy`, exactly when it parses to a
    -- descriptor that is not bare, has a key, has public account keys with their origin and an
    -- unhardened suffix only, and that the core turns into `policy`.
    pub parse_public_policy_iff :
        (text : Text) (policy : CorePolicy)
        → (parse_public_policy text ≡ ok policy) ↔ (
            (descriptor : Descriptor) × (parse_descriptor text ≡ some descriptor)
            × IsPublicWallet descriptor
            × (policy_from_descriptor descriptor ≡ some policy))
    unfolding parse_public_policy
    parse_public_policy_iff text policy = (
      λ h.
          let (d, e, rest) = >>=-eq-ok (or_err (parse_descriptor text) _) _ h in
          let (_, fit, known) = >>=-eq-ok (reject_if _ _) _ rest in
          (
            d,
            or_err-eq-ok _ _ e,
            (IsPublicWallet-iff d).0 (reject_if-eq-ok _ _ fit),
            or_err-eq-ok _ _ known,
          ),
      λ (d, e, w, known). let fit = (IsPublicWallet-iff d).1 w in rw e (rw fit (rw known refl)),
    )
