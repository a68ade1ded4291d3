-- ===== src/Interp/World/Conversation/Handed.antt =====
-- bhwi-ffi/src/interp.rs: what a command that is done hands to the host, on the side of the core.
use bhwi_ffi.Prelude.{
  ℕ, true, none, some, ◌≡◌, ◌≢◌, ◌↔◌, arith, refl, inl, inr, Option-cases, sym, subst, ap, ◌∙◌,
}
use bhwi_ffi.Error.{ok}
use bhwi_ffi.Core.Primitives.{Primitives}
use bhwi_ffi.Core.Device.{Device}
use bhwi_ffi.Core.Library.{Library}
use bhwi_ffi.Core.Family.{Families}
use bhwi_ffi.Core.Result.{success}
use bhwi_ffi.Core.Bitcoin.{Psbt}
use bhwi_ffi.Core.Protocol
use bhwi_ffi.Core.Protocol.{Response}
use bhwi_ffi.State.Leased.{get_leased}
use bhwi_ffi.Types.Expect.{matches}
use bhwi_ffi.Types.Relayed.{IsResult, to_response_iff}
use bhwi_ffi.Types.Response.{HwiResponse, task_done}
use bhwi_ffi.Interp.Session.Leases.{coldcard}
use bhwi_ffi.Interp.Session.{Session, Devices, end_inner}
use bhwi_ffi.Interp.Fidelity.Faithful.{IsFaithful}
use bhwi_ffi.Interp.Fidelity.Keeps.{Pairwise, check_psbt_iff}
use bhwi_ffi.Interp.World.{end_session, install_key, check_signed, unlocked_key}
use bhwi_ffi.Interp.World.Ending.{
  IsAnswer, response, key_installed, accept-IsAnswer, taken, unlocked_key_inv, installed,
}
use bhwi_ffi.Interp.World.Conversation.Steps.{end_session_accepts}

module _ ⦃P : Primitives⦄ ⦃F : Families⦄ ⦃L : Library⦄ where
  -- A signed PSBT is of the transaction that was recorded, and faithful to the recorded inputs.
  abbrev pub IsSound : Session → Response → Type 0
  IsSound s r =
      (psbt : Psbt)
      → r ≡ Protocol.signed_psbt psbt
      → (s.prior_unsigned_tx ≡ some (L.compute_wtxid psbt.unsigned_tx))
        × Pairwise IsFaithful s.prior_inputs psbt.inputs

  pub check_signed_iff : (s : Session) (r : Response) → (check_signed s r ≡ ok tt) ↔ IsSound s r
  unfolding check_signed
  check_signed_iff s (Protocol.signed_psbt psbt) =
      let same = check_psbt_iff s.prior_inputs s.prior_unsigned_tx psbt in
      (
        λ h q e.
            subst {A = Psbt}
              (λ (p : Psbt).
                (s.prior_unsigned_tx ≡ some (L.compute_wtxid p.unsigned_tx))
                × Pairwise IsFaithful s.prior_inputs p.inputs)
              (ground arith) (same.0 h),
        λ h. same.1 (h psbt refl),
      )
  check_signed_iff s _ = (λ h q e. cc e, λ h. refl)

  -- The response of a Coldcard that unlocks, its session key, is not for the host.
  abbrev pub IsForHost : Session → Response → Type 0
  IsForHost s r =
      (h : ℕ) (key : P.EncryptionKey) → s.lease ≡ coldcard h → r ≢ Protocol.encryption_key key

  module _ ⦃D : Device⦄ where
    unlocked_key_iff :
        (s : Session) (r : Response) → (unlocked_key s.lease (success r) ≡ none) ↔ IsForHost s r
    unlocked_key_iff s r = (
      λ e h key l k. ground arith,
      λ f. elim (Option-cases (unlocked_key s.lease (success r))) [
        | inl no_key ↦ no_key
        | inr ((h, key), at) ↦
            let (l, same) = unlocked_key_inv s.lease (success r) h key at in
            absurd (f h key l (ground arith))
      ],
    )

    -- The core ends with a response of the expected kind, which the result shows, or with the key of
    -- a Coldcard, which its engine takes.
    pub data Hands (s : Session) (d : Devices) (result : HwiResponse) : Type 0 where
      shows :
          (r : Response)
          → (end_inner s.inner d).0 ≡ success r
          → IsForHost s r
          → matches s.expect r ≡ true
          → IsSound s r
          → IsResult r result
          → Hands s d result
      unlocks :
          (h : ℕ) (key : P.EncryptionKey)
          → s.lease ≡ coldcard h
          → (end_inner s.inner d).0 ≡ success (Protocol.encryption_key key)
          → (D.engine_ready (get_leased ((end_inner s.inner d).1.engines h).engine) key).1 ≡ none
          → result ≡ task_done
          → Hands s d result

    end_session_unlocks :
        (s : Session) (d : Devices) (h : ℕ) (key : P.EncryptionKey)
        → s.finished ≡ true
        → s.lease ≡ coldcard h
        → (end_inner s.inner d).0 ≡ success (Protocol.encryption_key key)
        → (D.engine_ready (get_leased ((end_inner s.inner d).1.engines h).engine) key).1 ≡ none
        → (end_session s d).0 ≡ ok task_done
    unfolding end_session install_key
    end_session_unlocks s d h key finished l at took = ground arith

    IsAnswer-Hands :
        (s : Session) (d : Devices) (r : HwiResponse)
        → unlocked_key s.lease (end_inner s.inner d).0 ≡ none
        → IsAnswer s d r
        → Hands s d r
    IsAnswer-Hands s d _ no_key (response x at kind signed) =
        shows x at ((unlocked_key_iff s x).0 (rw at at no_key)) kind
          ((check_signed_iff s x).0 signed) ((to_response_iff x _).1 refl)
    IsAnswer-Hands s d _ no_key (key_installed h key l at took) = unlocks h key l at took refl

    -- `end` succeeds on a command that is done exactly with what the core hands over.
    pub end_session_iff :
        (s : Session) (d : Devices) (r : HwiResponse)
        → s.finished ≡ true
        → ((end_session s d).0 ≡ ok r) ↔ Hands s d r
    end_session_iff s d r finished = (λ h. there h, λ h. back h)
      where
        there : (end_session s d).0 ≡ ok r → Hands s d r
        there h = elim (Option-cases (unlocked_key s.lease (end_inner s.inner d).0)) [
          | inl no_key ↦
              IsAnswer-Hands s d r no_key
                (accept-IsAnswer s d _ r refl (rw no_key at (taken s d r finished h)))
          | inr ((l, k), at) ↦
              let (leased, key) = unlocked_key_inv s.lease (end_inner s.inner d).0 l k at in
              let (e, took) =
                installed l k (end_inner s.inner d).1 r (rw at at (taken s d r finished h)) in
              unlocks l k leased key took (sym e)
        ]

        back : Hands s d r → (end_session s d).0 ≡ ok r
        back (shows x at host kind sound shown) =
            end_session_accepts s d x finished at ((unlocked_key_iff s x).1 host) kind
              ((check_signed_iff s x).1 sound)
            ∙ ap ok (sym ((to_response_iff x r).0 shown))
        back (unlocks h key l at took e) = rw e (end_session_unlocks s d h key finished l at took)
