-- ===== src/Interp/Fidelity/Parts.antt =====
-- The parts of `preserved` and `modes_match`, one for each field of `IsFaithful`.
use bhwi_ffi.Prelude.{
  Bool, true, false, not, Option, none, some, All, nat_eq, list_eq, option_eq, ◌≡◌, ◌↔◌, refl,
  arith, all_iff,
}
use bhwi_ffi.Core.Primitives.{Primitives}
use bhwi_ffi.Core.Bitcoin.{Input}
use bhwi_ffi.Core.Library.{Library}
use bhwi_ffi.Interp.Fidelity.{
  get_key, map_or, preserved, ecdsa_mode, taproot_mode, modes_match, partial_preserved,
  leaf_preserved, key_preserved, script_preserved, witness_preserved, partial_modes, leaf_modes,
  key_modes,
}
use bhwi_ffi.Interp.Fidelity.Lookups.{same_iff, none_or_map, filtered_iff, new_key_iff}
use bhwi_ffi.Interp.Fidelity.Faithful.{Kept, IsFaithful, Kept-final_iff}

module _ ⦃P : Primitives⦄ ⦃L : Library⦄ where
  open P use {script_eq, witness_eq, public_key_eq, leaf_key_eq, ecdsa_signature_eq}
  open P use {taproot_signature_eq, ecdsa_sighash_type_eq, tap_sighash_type_eq, wtxid_eq}

  new_entry_iff :
      {V Q : Type 0} (o : Option V) (mode : Bool)
      → (mode ≡ true) ↔ Q
      → (not (map_or false (λ v. true) o) ≡ true → mode ≡ true) ↔ (o ≡ none → Q)
  new_entry_iff none mode q = (λ f _. q.0 (f refl), λ f _. q.1 (f refl))
  new_entry_iff (some v) mode q = (λ f h. cc h, λ f h. cc h)

  ecdsa_mode_iff :
      (original : Input) (sig : P.EcdsaSignature)
      → (ecdsa_mode original sig ≡ true) ↔ (L.ecdsa_hash_ty original ≡ some (L.ecdsa_sighash sig))
  unfolding ecdsa_mode
  ecdsa_mode_iff original sig =
      same_iff ecdsa_sighash_type_eq (L.ecdsa_sighash sig) (L.ecdsa_hash_ty original)

  taproot_mode_iff :
      (original : Input) (sig : P.TaprootSignature)
      → (taproot_mode original sig ≡ true)
        ↔ (L.taproot_hash_ty original ≡ some (L.taproot_sighash sig))
  unfolding taproot_mode
  taproot_mode_iff original sig =
      same_iff tap_sighash_type_eq (L.taproot_sighash sig) (L.taproot_hash_ty original)

  partial_preserved_iff :
      (original returned : Input)
      → (partial_preserved original returned ≡ true)
        ↔ All
            (λ (e : P.PublicKey × P.EcdsaSignature).
              Kept returned L.ecdsa_serialize e.1
                (get_key ⦃e = public_key_eq⦄ e.0 returned.partial_sigs))
            original.partial_sigs
  unfolding partial_preserved
  partial_preserved_iff original returned =
      all_iff _ _ (λ e. Kept-final_iff ecdsa_signature_eq returned L.ecdsa_serialize e.1 _)
        original.partial_sigs

  leaf_preserved_iff :
      (original returned : Input)
      → (leaf_preserved original returned ≡ true)
        ↔ All
            (λ (e : P.LeafKey × P.TaprootSignature).
              Kept returned L.taproot_serialize e.1
                (get_key ⦃e = leaf_key_eq⦄ e.0 returned.tap_script_sigs))
            original.tap_script_sigs
  unfolding leaf_preserved
  leaf_preserved_iff original returned =
      all_iff _ _ (λ e. Kept-final_iff taproot_signature_eq returned L.taproot_serialize e.1 _)
        original.tap_script_sigs

  key_preserved_iff :
      (original returned : Input)
      → (key_preserved original returned ≡ true) ↔ (
          (sig : P.TaprootSignature)
          → original.tap_key_sig ≡ some sig
          → Kept returned L.taproot_serialize sig returned.tap_key_sig)
  unfolding key_preserved
  key_preserved_iff original returned = none_or_map _ _ original.tap_key_sig (λ sig.
      Kept-final_iff taproot_signature_eq returned L.taproot_serialize sig returned.tap_key_sig)

  script_preserved_iff :
      (original returned : Input)
      → (script_preserved original returned ≡ true)
        ↔ ((s : P.Script) → original.final_script_sig ≡ some s → returned.final_script_sig ≡ some s)
  unfolding script_preserved
  script_preserved_iff original returned =
      none_or_map _ _ original.final_script_sig
        (λ s. same_iff script_eq s returned.final_script_sig)

  witness_preserved_iff :
      (original returned : Input)
      → (witness_preserved original returned ≡ true) ↔ (
          (w : P.Witness)
          → original.final_script_witness ≡ some w
          → returned.final_script_witness ≡ some w)
  unfolding witness_preserved
  witness_preserved_iff original returned =
      none_or_map _ _ original.final_script_witness
        (λ w. same_iff witness_eq w returned.final_script_witness)

  partial_modes_iff :
      (original returned : Input)
      → (partial_modes original returned ≡ true)
        ↔ All
            (λ (e : P.PublicKey × P.EcdsaSignature).
              get_key ⦃e = public_key_eq⦄ e.0 original.partial_sigs ≡ none
              → L.ecdsa_hash_ty original ≡ some (L.ecdsa_sighash e.1))
            returned.partial_sigs
  unfolding partial_modes
  partial_modes_iff original returned =
      filtered_iff _ _ _ (λ e. new_entry_iff _ _ (ecdsa_mode_iff original e.1))
        returned.partial_sigs

  leaf_modes_iff :
      (original returned : Input)
      → (leaf_modes original returned ≡ true)
        ↔ All
            (λ (e : P.LeafKey × P.TaprootSignature).
              get_key ⦃e = leaf_key_eq⦄ e.0 original.tap_script_sigs ≡ none
              → L.taproot_hash_ty original ≡ some (L.taproot_sighash e.1))
            returned.tap_script_sigs
  unfolding leaf_modes
  leaf_modes_iff original returned =
      filtered_iff _ _ _ (λ e. new_entry_iff _ _ (taproot_mode_iff original e.1))
        returned.tap_script_sigs

  key_modes_iff :
      (original returned : Input)
      → (key_modes original returned ≡ true) ↔ (
          original.tap_key_sig ≡ none
          → (sig : P.TaprootSignature) → returned.tap_key_sig ≡ some sig
          → L.taproot_hash_ty original ≡ some (L.taproot_sighash sig))
  unfolding key_modes
  key_modes_iff original returned =
      new_key_iff original.tap_key_sig
        (none_or_map _ _ returned.tap_key_sig (taproot_mode_iff original))

  -- An input that comes back passes both tests exactly when it is faithful to the one that was sent.
  pub IsFaithful-iff :
      (original returned : Input)
      → ((preserved original returned ≡ true) × (modes_match original returned ≡ true))
        ↔ IsFaithful original returned
  unfolding preserved modes_match
  IsFaithful-iff original returned = (
    λ (h, m). record {
      partial_kept = (partial_preserved_iff original returned).0 (ground arith);
      leaf_kept = (leaf_preserved_iff original returned).0 (ground arith);
      key_kept = (key_preserved_iff original returned).0 (ground arith);
      script_kept = (script_preserved_iff original returned).0 (ground arith);
      witness_kept = (witness_preserved_iff original returned).0 (ground arith);
      new_partial = (partial_modes_iff original returned).0 (ground arith);
      new_leaf = (leaf_modes_iff original returned).0 (ground arith);
      new_key = (key_modes_iff original returned).0 (ground arith);
    },
    λ f. (
      rw
          (
            (partial_preserved_iff original returned).1 f.partial_kept,
            (leaf_preserved_iff original returned).1 f.leaf_kept,
            (key_preserved_iff original returned).1 f.key_kept,
            (script_preserved_iff original returned).1 f.script_kept,
            (witness_preserved_iff original returned).1 f.witness_kept,
          )
          refl,
      rw
          (
            (partial_modes_iff original returned).1 f.new_partial,
            (leaf_modes_iff original returned).1 f.new_leaf,
            (key_modes_iff original returned).1 f.new_key,
          )
          refl,
    ),
  )
