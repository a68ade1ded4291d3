-- ===== src/Interp/Fidelity.antt =====
-- bhwi-ffi/src/interp.rs: the checks of a signed PSBT in `Interp::end`.
pub mod Lookups
pub mod Faithful
pub mod Parts
pub mod Keeps
use bhwi_ffi.Prelude.{
  Bool, true, false, not, ◌&&◌, ◌||◌, Option, none, some, List, [], ◌∷◌, Eq, ◌==◌, all, any,
  filter_by, eqb, length, if◌then◌else◌, nat_eq, list_eq, option_eq,
}
use bhwi_ffi.Text.{Bytes}
use bhwi_ffi.Error.{Outcome, ok, device, reject_if, ◌>>=◌, ◌>>◌}
use bhwi_ffi.Core.Primitives.{Primitives}
use bhwi_ffi.Core.Bitcoin.{Input, Psbt}
use bhwi_ffi.Core.Library.{Library}

-- `is_none_or`
abbrev pub none_or {ℓ} : {A : Type ℓ} → (A → Bool) → Option A → Bool
none_or p none = true
none_or p (some a) = p a

-- `map_or_else(|| otherwise, p)`
abbrev pub map_or {ℓ} : {A : Type ℓ} → Bool → (A → Bool) → Option A → Bool
map_or otherwise p none = otherwise
map_or otherwise p (some a) = p a

-- `BTreeMap::get` and `contains_key`, over the map's entries
unfoldable pub get_key {ℓ κ} : {K : Type ℓ} {V : Type κ} ⦃e : Eq K⦄ → K → List (K × V) → Option V
get_key k [] = none
get_key k ((j, v) ∷ rest) = if j == k then some v else get_key k rest

abbrev pub contains_key {ℓ κ} : {K : Type ℓ} {V : Type κ} ⦃e : Eq K⦄ → K → List (K × V) → Bool
contains_key k m = map_or false (λ v. true) (get_key k m)

-- the `try_fold` over the instructions of a script, from `found`
unfoldable pub pushes : List (Option (Option Bytes)) → Bytes → Bool → Bool
pushes [] signature found = found
pushes (none ∷ rest) signature found = false
pushes (some none ∷ rest) signature found = pushes rest signature found
pushes (some (some push) ∷ rest) signature found =
    pushes rest signature (found || (push == signature))

module _ ⦃P : Primitives⦄ ⦃L : Library⦄ where
  open P use {script_eq, witness_eq, public_key_eq, leaf_key_eq, ecdsa_signature_eq}
  open P use {taproot_signature_eq, ecdsa_sighash_type_eq, tap_sighash_type_eq, wtxid_eq}

  -- the closure `final_contains`
  unfoldable pub final_contains : Input → Bytes → Bool
  final_contains returned signature =
      map_or false (λ w. any (λ item. item == signature) (L.witness_items w))
        returned.final_script_witness
      || map_or false (λ script. pushes (L.instructions script) signature false)
          returned.final_script_sig

  -- the parts of `preserved`, one for each field that it reads
  unfoldable pub partial_preserved : Input → Input → Bool
  partial_preserved original returned =
      all
        (λ (key, sig).
          map_or (final_contains returned (L.ecdsa_serialize sig))
            (λ r. ◌==◌ ⦃e = ecdsa_signature_eq⦄ r sig)
            (get_key ⦃e = public_key_eq⦄ key returned.partial_sigs))
        original.partial_sigs

  unfoldable pub leaf_preserved : Input → Input → Bool
  leaf_preserved original returned =
      all
        (λ (key, sig).
          map_or (final_contains returned (L.taproot_serialize sig))
            (λ r. ◌==◌ ⦃e = taproot_signature_eq⦄ r sig)
            (get_key ⦃e = leaf_key_eq⦄ key returned.tap_script_sigs))
        original.tap_script_sigs

  unfoldable pub key_preserved : Input → Input → Bool
  key_preserved original returned =
      none_or
        (λ sig.
          map_or (final_contains returned (L.taproot_serialize sig))
            (λ r. ◌==◌ ⦃e = taproot_signature_eq⦄ r sig) returned.tap_key_sig)
        original.tap_key_sig

  unfoldable pub script_preserved : Input → Input → Bool
  script_preserved original returned =
      none_or
        (λ script. map_or false (λ r. ◌==◌ ⦃e = script_eq⦄ r script) returned.final_script_sig)
        original.final_script_sig

  unfoldable pub witness_preserved : Input → Input → Bool
  witness_preserved original returned =
      none_or
        (λ witness.
          map_or false (λ r. ◌==◌ ⦃e = witness_eq⦄ r witness) returned.final_script_witness)
        original.final_script_witness

  unfoldable pub preserved : Input → Input → Bool
  preserved original returned =
      partial_preserved original returned
      && leaf_preserved original returned
      && key_preserved original returned
      && script_preserved original returned
      && witness_preserved original returned

  -- `original.ecdsa_hash_ty().ok() == Some(sig.sighash_type)` and its Taproot counterpart
  unfoldable pub ecdsa_mode : Input → P.EcdsaSignature → Bool
  ecdsa_mode original sig =
      map_or false (λ ty. ◌==◌ ⦃e = ecdsa_sighash_type_eq⦄ ty (L.ecdsa_sighash sig))
        (L.ecdsa_hash_ty original)

  unfoldable pub taproot_mode : Input → P.TaprootSignature → Bool
  taproot_mode original sig =
      map_or false (λ ty. ◌==◌ ⦃e = tap_sighash_type_eq⦄ ty (L.taproot_sighash sig))
        (L.taproot_hash_ty original)

  -- the parts of `modes_match`
  unfoldable pub partial_modes : Input → Input → Bool
  partial_modes original returned =
      all (λ (key, sig). ecdsa_mode original sig)
        (filter_by (λ (key, sig). not (contains_key ⦃e = public_key_eq⦄ key original.partial_sigs))
          returned.partial_sigs)

  unfoldable pub leaf_modes : Input → Input → Bool
  leaf_modes original returned =
      all (λ (key, sig). taproot_mode original sig)
        (filter_by (λ (key, sig). not (contains_key ⦃e = leaf_key_eq⦄ key original.tap_script_sigs))
          returned.tap_script_sigs)

  unfoldable pub key_modes : Input → Input → Bool
  key_modes original returned =
      map_or false (λ sig. true) original.tap_key_sig
      || none_or (taproot_mode original) returned.tap_key_sig

  unfoldable pub modes_match : Input → Input → Bool
  modes_match original returned =
      partial_modes original returned && leaf_modes original returned && key_modes original returned

  -- the loop over `prior_inputs.iter().zip(&psbt.inputs)`
  unfoldable pub check_inputs : List Input → List Input → Outcome (Unit {0})
  check_inputs [] returned = ok tt
  check_inputs (original ∷ originals) [] = ok tt
  check_inputs (original ∷ originals) (returned ∷ rest) = do
    reject_if (not (preserved original returned))
        (device "device changed or removed an existing PSBT signature")
    reject_if (not (modes_match original returned))
        (device "device signature does not match the requested sighash")
    check_inputs originals rest

  unfoldable pub check_psbt : List Input → Option P.Wtxid → Psbt → Outcome (Unit {0})
  check_psbt prior_inputs prior_unsigned_tx psbt = do
    reject_if
        (not (
            map_or false (λ id. ◌==◌ ⦃e = wtxid_eq⦄ id (L.compute_wtxid psbt.unsigned_tx))
              prior_unsigned_tx)
          || not (eqb (length psbt.inputs) (length prior_inputs)))
        (device "device changed the unsigned transaction")
    check_inputs prior_inputs psbt.inputs
