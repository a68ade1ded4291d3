-- ===== src/Interp/World/Flow.antt =====
-- bhwi-ffi/src/interp.rs: a whole signing command, from `Interp::start` to `Interp::end`, whatever
-- else the host calls in between.
use bhwi_ffi.Prelude.{
  none, [], ◌∷◌, All, ℕ, Option, some, List, map, ◌≡◌, arith, refl, ap, sym, subst, ◌∙◌, inl, inr,
  Option-cases,
}
use bhwi_ffi.Text.{Text}
use bhwi_ffi.Error.{ok}
use bhwi_ffi.Core.Primitives.{Primitives}
use bhwi_ffi.Core.Device.{Device}
use bhwi_ffi.Core.Library.{Library, SighashLaws}
use bhwi_ffi.Core.Bitcoin.{Psbt, Input}
use bhwi_ffi.Core.Protocol
use bhwi_ffi.Core.Family.{Families}
use bhwi_ffi.Types.Codec.{encode_psbt, IsPsbtText}
use bhwi_ffi.Types.Command
use bhwi_ffi.Types.Command.{WalletPolicy}
use bhwi_ffi.Types.Plan.Signing.{plan-sign_psbt_iff}
use bhwi_ffi.Types.Response.{HwiResponse, signed_psbt}
use bhwi_ffi.Types.Transmit.{Transmit}
use bhwi_ffi.Interp.Session.{Session, prior, prior_input}
use bhwi_ffi.Interp.Fidelity.{get_key}
use bhwi_ffi.Interp.Fidelity.Faithful.{IsFaithful}
use bhwi_ffi.Interp.Fidelity.Keeps.{Pairwise}
use bhwi_ffi.Interp.World.{World, start, end}
use bhwi_ffi.Interp.World.Exclusive.{session_at}
use bhwi_ffi.Interp.World.Lifecycle.{IsLive}
use bhwi_ffi.Interp.World.Runs.{fresh-Inv, run-Inv}
use bhwi_ffi.Interp.World.Recorded.{start_call-ok, start-IsKept}
use bhwi_ffi.Interp.World.Kept.{run-IsKept}
use bhwi_ffi.Interp.World.Signed.{end-signed_psbt}
use bhwi_ffi.Interp.World.Calls.{Call, run, IsFresh}

module _ ⦃P : Primitives⦄ ⦃F : Families⦄ ⦃L : Library⦄ ⦃D : Device⦄ where
  -- A result of `end` comes from a live interpreter.
  pub end-IsLive :
      (i : ℕ) (w : World) (r : HwiResponse) → (end i w).0 ≡ ok r → (s : Session) × IsLive w i s
  unfolding end
  end-IsLive i w r h = elim (Option-cases (session_at w i)) [
    | inl gone ↦ absurd (ground arith)
    | inr (s, live) ↦ (s, (live, ground arith))
  ]

  prior-sign_tx :
      (c : Protocol.Command) (sent : Psbt) (context : Option Protocol.DeviceContext)
      → c ≡ Protocol.sign_tx sent context
      → prior c ≡ (map prior_input sent.inputs, some (L.compute_wtxid sent.unsigned_tx))
  unfolding prior
  prior-sign_tx c sent context e = rw e refl

  -- An input that is faithful to the part that the session keeps is faithful to the whole of it.
  prior_input-IsFaithful :
      SighashLaws L
      → (original returned : Input) → IsFaithful (prior_input original) returned
      → IsFaithful original returned
  unfolding prior_input
  prior_input-IsFaithful laws original returned f = record {
    partial_kept = f.partial_kept;
    leaf_kept = f.leaf_kept;
    key_kept = f.key_kept;
    script_kept = f.script_kept;
    witness_kept = f.witness_kept;
    new_partial =
        subst
          (λ o.
            All
              (λ (e : P.PublicKey × P.EcdsaSignature).
                get_key ⦃e = P.public_key_eq⦄ e.0 original.partial_sigs ≡ none
                → o ≡ some (L.ecdsa_sighash e.1))
              returned.partial_sigs)
          (laws.ecdsa (prior_input original) original refl) f.new_partial;
    new_leaf =
        subst
          (λ o.
            All
              (λ (e : P.LeafKey × P.TaprootSignature).
                get_key ⦃e = P.leaf_key_eq⦄ e.0 original.tap_script_sigs ≡ none
                → o ≡ some (L.taproot_sighash e.1))
              returned.tap_script_sigs)
          (laws.taproot (prior_input original) original refl) f.new_leaf;
    new_key = λ absent sig there.
        sym (laws.taproot (prior_input original) original refl) ∙ f.new_key absent sig there;
  }

  prior_inputs-IsFaithful :
      SighashLaws L
      → (originals returned : List Input) → Pairwise IsFaithful (map prior_input originals) returned
      → Pairwise IsFaithful originals returned
  prior_inputs-IsFaithful laws [] [] h = tt
  prior_inputs-IsFaithful laws [] (b ∷ bs) h = h
  prior_inputs-IsFaithful laws (a ∷ as') [] h = h
  prior_inputs-IsFaithful laws (a ∷ as') (b ∷ bs) (f, h) =
      (prior_input-IsFaithful laws a b f, prior_inputs-IsFaithful laws as' bs h)

  -- A host that starts to sign the PSBT of a text and later is handed a signed one by `end`, with any
  -- calls on any handles and interpreters before and in between, gets the text of a PSBT of the
  -- transaction that it asked for: the unsigned transactions have one identity, and each input is
  -- faithful to the one in the PSBT that was sent, so that no signature, final script or final witness
  -- in it was changed or removed, except into the final spend, and each new signature has the sighash
  -- type that the input sent asks for, given that the hash types of an input depend on nothing but its
  -- sighash type.
  pub run-signed_psbt :
      SighashLaws L
      → (before after : List Call) (w : World) → IsFresh w
      → (i : ℕ) (text : Text) (policy : Option WalletPolicy) (t : Transmit) (out : Text)
      → (start i (Command.sign_psbt text policy) (run before w)).0 ≡ ok t
      → (end i (run after (start i (Command.sign_psbt text policy) (run before w)).1)).0
        ≡ ok (signed_psbt out)
      → (sent psbt : Psbt) × IsPsbtText text sent
        × (out ≡ L.base64_encode (L.psbt_serialize psbt))
        × (L.compute_wtxid psbt.unsigned_tx ≡ L.compute_wtxid sent.unsigned_tx)
        × Pairwise IsFaithful sent.inputs psbt.inputs
  unfolding encode_psbt
  run-signed_psbt laws before after w f i text policy t out began ended =
      let command = Command.sign_psbt text policy in
      let w1 = run before w in
      let w2 = run after (start i command w1).1 in
      let (s0, _, began', kept) =
        start-IsKept i command w1 t (run-Inv before w (fresh-Inv w f)) began in
      let (p, planned, first) = start_call-ok command s0 w1.devices t began' in
      let (sent, context, decoded, _, _, _, pe) =
        (plan-sign_psbt_iff text policy s0.kind p).0 planned in
      let recorded = prior-sign_tx p.command sent context (ap (λ p. p.command) pe) in
      let (s, live) = end-IsLive i w2 (signed_psbt out) ended in
      let still = (run-IsKept after (start i command w1).1 i _ kept).1 s live.0 in
      let (psbt, coded, tx, faithful) = end-signed_psbt i w2 s out live ended in
      let inputs : s.prior_inputs ≡ map prior_input sent.inputs =
        still.same_inputs ∙ (first.has_inputs ∙ ap (λ r. r.0) recorded) in
      let same : some (L.compute_wtxid psbt.unsigned_tx) ≡ some (L.compute_wtxid sent.unsigned_tx) =
        sym tx ∙ (still.same_tx ∙ (first.has_tx ∙ ap (λ r. r.1) recorded)) in
      (
        sent,
        psbt,
        decoded,
        coded,
        cc same,
        prior_inputs-IsFaithful laws sent.inputs psbt.inputs
            (subst (λ l. Pairwise IsFaithful l psbt.inputs) inputs faithful),
      )
