-- ===== src/Interp/Fidelity/Keeps.antt =====
-- What a signed PSBT that is accepted keeps of the one that was sent.
use bhwi_ffi.Prelude.{
  suc, Bool, true, false, not, Option, some, List, [], ◌∷◌, ◌==◌, length, nat_eq, list_eq,
  option_eq, ◌≡◌, ◌↔◌, refl, arith, ap,
}
use bhwi_ffi.Error.{HwiError, Outcome, ok, reject_if, ◌>>◌}
use bhwi_ffi.Core.Primitives.{Primitives}
use bhwi_ffi.Core.Bitcoin.{Input, Psbt}
use bhwi_ffi.Core.Library.{Library}
use bhwi_ffi.Interp.Fidelity.{map_or, preserved, modes_match, check_inputs, check_psbt}
use bhwi_ffi.Interp.Fidelity.Lookups.{same_iff, tx_guard_iff}
use bhwi_ffi.Interp.Fidelity.Faithful.{IsFaithful}
use bhwi_ffi.Interp.Fidelity.Parts.{IsFaithful-iff}

module _ ⦃P : Primitives⦄ ⦃L : Library⦄ where
  open P use {script_eq, witness_eq, public_key_eq, leaf_key_eq, ecdsa_signature_eq}
  open P use {taproot_signature_eq, ecdsa_sighash_type_eq, tap_sighash_type_eq, wtxid_eq}

  -- Pairwise, over lists of one length.
  abbrev pub Pairwise : (Input → Input → Type 0) → List Input → List Input → Type 0
  Pairwise R [] [] = Unit
  Pairwise R [] (b ∷ bs) = ⊥
  Pairwise R (a ∷ as') [] = ⊥
  Pairwise R (a ∷ as') (b ∷ bs) = R a b × Pairwise R as' bs

  guarded_iff :
      (a b : Bool) (e e' : HwiError) (rest : Outcome (Unit {0}))
      → ((reject_if (not a) e >> (reject_if (not b) e' >> rest)) ≡ ok tt)
        ↔ ((a ≡ true) × (b ≡ true) × (rest ≡ ok tt))
  guarded_iff a b e e' rest = ground arith

  check_inputs_iff :
      (originals returned : List Input)
      → length returned ≡ length originals
      → (check_inputs originals returned ≡ ok tt) ↔ Pairwise IsFaithful originals returned
  unfolding check_inputs
  check_inputs_iff [] [] n = (λ _. tt, λ _. refl)
  check_inputs_iff [] (b ∷ bs) n = absurd (omega arith)
  check_inputs_iff (a ∷ as') [] n = absurd (omega arith)
  check_inputs_iff (a ∷ as') (b ∷ bs) n =
      let rest = check_inputs_iff as' bs (omega arith) in
      let both = guarded_iff (preserved a b) (modes_match a b) _ _ (check_inputs as' bs) in
      (
        λ h. let (p, m, r) = both.0 h in ((IsFaithful-iff a b).0 (p, m), rest.0 r),
        λ (f, r). let (p, m) = (IsFaithful-iff a b).1 f in both.1 (p, m, rest.1 r),
      )

  Pairwise-length :
      (R : Input → Input → Type 0) (as' bs : List Input)
      → Pairwise R as' bs
      → length bs ≡ length as'
  Pairwise-length R [] [] h = refl
  Pairwise-length R [] (b ∷ bs) h = absurd h
  Pairwise-length R (a ∷ as') [] h = absurd h
  Pairwise-length R (a ∷ as') (b ∷ bs) h = ap suc (Pairwise-length R as' bs h.1)

  -- A signed PSBT is accepted exactly when its unsigned transaction is the one that was sent and each
  -- input is faithful to the input that was sent: its signatures, final script and final witness are
  -- kept (a signature may have moved into the final spend), and each new signature has the sighash
  -- type that the request asks for.
  pub check_psbt_iff :
      (priors : List Input) (tx : Option P.Wtxid) (psbt : Psbt)
      → (check_psbt priors tx psbt ≡ ok tt)
        ↔ ((tx ≡ some (L.compute_wtxid psbt.unsigned_tx)) × Pairwise IsFaithful priors psbt.inputs)
  unfolding check_psbt
  check_psbt_iff priors tx psbt =
      let guard =
        tx_guard_iff
          (map_or false (λ id. ◌==◌ ⦃e = wtxid_eq⦄ id (L.compute_wtxid psbt.unsigned_tx)) tx)
          (length psbt.inputs) (length priors) _ (check_inputs priors psbt.inputs) in
      let same = same_iff wtxid_eq (L.compute_wtxid psbt.unsigned_tx) tx in
      (
        λ h. let (t, n, r) = guard.0 h in (same.0 t, (check_inputs_iff priors psbt.inputs n).0 r),
        λ (t, f).
            let n = Pairwise-length IsFaithful priors psbt.inputs f in
            guard.1 (same.1 t, n, (check_inputs_iff priors psbt.inputs n).1 f),
      )
