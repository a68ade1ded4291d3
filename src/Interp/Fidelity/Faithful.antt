-- ===== src/Interp/Fidelity/Faithful.antt =====
-- When an input that comes back is faithful to the one that was sent.
use bhwi_ffi.Prelude.{
  true, false, Option, none, some, Eq, ◌==◌, any, All, Any, nat_eq, list_eq, option_eq, ◌≡◌, ◌≢◌,
  ◌↔◌, ◌⊎◌, inl, inr, refl, list_beq_iff, any_iff, subst,
}
use bhwi_ffi.Text.{Bytes}
use bhwi_ffi.Core.Primitives.{Primitives}
use bhwi_ffi.Core.Bitcoin.{Input}
use bhwi_ffi.Core.Library.{Library}
use bhwi_ffi.Interp.Fidelity.{get_key, pushes, map_or, final_contains}
use bhwi_ffi.Interp.Fidelity.Lookups.{pushes_iff, or_iff, kept_iff}

module _ ⦃P : Primitives⦄ ⦃L : Library⦄ where
  open P use {script_eq, witness_eq, public_key_eq, leaf_key_eq, ecdsa_signature_eq}
  open P use {taproot_signature_eq, ecdsa_sighash_type_eq, tap_sighash_type_eq, wtxid_eq}

  -- The signature stands in the final witness, or a script without errors pushes it.
  pub data IsFinal (returned : Input) (sig : Bytes) : Type 0 where
    in_witness :
        (w : P.Witness)
        → returned.final_script_witness ≡ some w
        → Any (λ item. item ≡ sig) (L.witness_items w)
        → IsFinal returned sig
    in_script :
        (s : P.Script)
        → returned.final_script_sig ≡ some s
        → All (λ i. i ≢ none) (L.instructions s)
        → Any (λ i. i ≡ some (some sig)) (L.instructions s)
        → IsFinal returned sig

  -- The signature is there unchanged, or it is not in its place and is part of the final spend.
  abbrev pub Kept : {V : Type 0} → Input → (V → Bytes) → V → Option V → Type 0
  Kept returned serialize sig o = (o ≡ some sig) ⊎ ((o ≡ none) × IsFinal returned (serialize sig))

  -- What the PSBT that was sent may expect of an input that comes back.
  pub record IsFaithful (original returned : Input) : Type 0 where
    pub partial_kept :
        All
          (λ (e : P.PublicKey × P.EcdsaSignature).
            Kept returned L.ecdsa_serialize e.1
              (get_key ⦃e = public_key_eq⦄ e.0 returned.partial_sigs))
          original.partial_sigs
    pub leaf_kept :
        All
          (λ (e : P.LeafKey × P.TaprootSignature).
            Kept returned L.taproot_serialize e.1
              (get_key ⦃e = leaf_key_eq⦄ e.0 returned.tap_script_sigs))
          original.tap_script_sigs
    pub key_kept :
        (sig : P.TaprootSignature)
        → original.tap_key_sig ≡ some sig
        → Kept returned L.taproot_serialize sig returned.tap_key_sig
    pub script_kept :
        (s : P.Script) → original.final_script_sig ≡ some s → returned.final_script_sig ≡ some s
    pub witness_kept :
        (w : P.Witness)
        → original.final_script_witness ≡ some w
        → returned.final_script_witness ≡ some w
    pub new_partial :
        All
          (λ (e : P.PublicKey × P.EcdsaSignature).
            get_key ⦃e = public_key_eq⦄ e.0 original.partial_sigs ≡ none
            → L.ecdsa_hash_ty original ≡ some (L.ecdsa_sighash e.1))
          returned.partial_sigs
    pub new_leaf :
        All
          (λ (e : P.LeafKey × P.TaprootSignature).
            get_key ⦃e = leaf_key_eq⦄ e.0 original.tap_script_sigs ≡ none
            → L.taproot_hash_ty original ≡ some (L.taproot_sighash e.1))
          returned.tap_script_sigs
    pub new_key :
        original.tap_key_sig ≡ none
        → (sig : P.TaprootSignature) → returned.tap_key_sig ≡ some sig
        → L.taproot_hash_ty original ≡ some (L.taproot_sighash sig)

  witness_iff :
      (o : Option P.Witness) (sig : Bytes)
      → (map_or false (λ w. any (λ item. item == sig) (L.witness_items w)) o ≡ true)
        ↔ ((w : P.Witness) × (o ≡ some w) × Any (λ item. item ≡ sig) (L.witness_items w))
  witness_iff none sig = (λ h. cc h, λ (w, e, _). cc e)
  witness_iff (some w) sig =
      let each =
        any_iff (λ item. item == sig) (λ item. item ≡ sig) (λ item. list_beq_iff item sig)
          (L.witness_items w) in
      (
        λ h. (w, refl, each.0 h),
        λ (v, e, a).
            let same : v ≡ w = cc e in
            each.1 (subst (λ u. Any (λ item. item ≡ sig) (L.witness_items u)) same a),
      )

  script_iff :
      (o : Option P.Script) (sig : Bytes)
      → (map_or false (λ script. pushes (L.instructions script) sig false) o ≡ true) ↔ (
          (s : P.Script) × (o ≡ some s)
          × All (λ i. i ≢ none) (L.instructions s)
          × Any (λ i. i ≡ some (some sig)) (L.instructions s))
  script_iff none sig = (λ h. cc h, λ (s, e, _, _). cc e)
  script_iff (some s) sig =
      let each = pushes_iff (L.instructions s) sig false in
      (
        λ h. let (w, c) = each.0 h in (s, refl, w, elim c [ inl e ↦ cc e | inr a ↦ a ]),
        λ (t, e, w, a).
            let same : t ≡ s = cc e in
            each.1 (
              subst (λ u. All (λ i. i ≢ none) (L.instructions u)) same w,
              inr (subst (λ u. Any (λ i. i ≡ some (some sig)) (L.instructions u)) same a),
            ),
      )

  final_contains_iff :
      (returned : Input) (sig : Bytes) → (final_contains returned sig ≡ true) ↔ IsFinal returned sig
  unfolding final_contains
  final_contains_iff returned sig = (
    λ h. elim ((or_iff _ _).0 h) [
      | inl a ↦
          let (w, e, there) = (witness_iff returned.final_script_witness sig).0 a in
          in_witness w e there
      | inr b ↦
          let (s, e, sound, there) = (script_iff returned.final_script_sig sig).0 b in
          in_script s e sound there
    ],
    λ f. (or_iff _ _).1 (elim f [
      | in_witness w e there ↦ inl ((witness_iff returned.final_script_witness sig).1 (w, e, there))
      | in_script s e sound there ↦
          inr ((script_iff returned.final_script_sig sig).1 (s, e, sound, there))
    ]),
  )

  pub Kept-final_iff :
      {V : Type 0} (eq : Eq V) (returned : Input) (serialize : V → Bytes) (sig : V) (o : Option V)
      → (map_or (final_contains returned (serialize sig)) (λ r. ◌==◌ ⦃e = eq⦄ r sig) o ≡ true)
        ↔ Kept returned serialize sig o
  Kept-final_iff eq returned serialize sig o =
      let kept = kept_iff eq (final_contains returned (serialize sig)) sig o in
      let final = final_contains_iff returned (serialize sig) in
      (
        λ h. elim (kept.0 h) [ inl e ↦ inl e | inr (e, f) ↦ inr (e, final.0 f) ],
        λ k. kept.1 (elim k [ inl e ↦ inl e | inr (e, f) ↦ inr (e, final.1 f) ]),
      )
