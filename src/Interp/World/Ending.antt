-- ===== src/Interp/World/Ending.antt =====
-- bhwi-ffi/src/interp.rs: what `Interp::end` accepts.
use bhwi_ffi.Prelude.{
  ℕ, true, not, Option, none, some, ◌≡◌, arith, refl, sym, inl, inr, Bool-cases, ap, subst, ◌∙◌,
}
use bhwi_ffi.Error.{ok, reject_if, >>=-eq-ok, reject_if-eq-ok}
use bhwi_ffi.Core.Primitives.{Primitives}
use bhwi_ffi.Core.Device.{Device}
use bhwi_ffi.Core.Library.{Library}
use bhwi_ffi.Core.Family.{Families}
use bhwi_ffi.Interp.Session.Leases.{coldcard}
use bhwi_ffi.Interp.Session.{StateLease, Session, Devices, end_inner}
use bhwi_ffi.Interp.World.{World, end, end_session, install_key, unlocked_key, accept, check_signed}
use bhwi_ffi.Types.Expect.{matches}
use bhwi_ffi.Types.Response.{HwiResponse, task_done, to_response}
use bhwi_ffi.Core.Result.{CoreResult, success, failure}
use bhwi_ffi.Core.Protocol.{Response}
use bhwi_ffi.Core.Protocol
use bhwi_ffi.State.Leased.{get_leased}
use bhwi_ffi.Interp.World.Lifecycle.{IsLive, end_eq}

module _ ⦃P : Primitives⦄ ⦃F : Families⦄ ⦃L : Library⦄ ⦃D : Device⦄ where
  -- What `end` returns when it succeeds: the device answered with a response of the expected kind
  -- that passed the PSBT checks, or a Coldcard returned its key and the engine took it.
  pub data IsAnswer (s : Session) (d : Devices) : HwiResponse → Type 0 where
    response :
        (r : Response)
        → (end_inner s.inner d).0 ≡ success r
        → matches s.expect r ≡ true
        → check_signed s r ≡ ok tt
        → IsAnswer s d (to_response r)
    key_installed :
        (h : ℕ) (key : P.EncryptionKey)
        → s.lease ≡ coldcard h
        → (end_inner s.inner d).0 ≡ success (Protocol.encryption_key key)
        → (D.engine_ready (get_leased ((end_inner s.inner d).1.engines h).engine) key).1 ≡ none
        → IsAnswer s d task_done

  pub accept-IsAnswer :
      (s : Session) (d : Devices) (o : CoreResult Protocol.Error Response) (r : HwiResponse)
      → (end_inner s.inner d).0 ≡ o
      → accept s o ≡ ok r
      → IsAnswer s d r
  unfolding accept
  accept-IsAnswer s d (failure e) r at h = absurd (ground arith)
  accept-IsAnswer s d (success x) r at h =
      let (u, kind, rest) = >>=-eq-ok (reject_if (not (matches s.expect x)) _) _ h in
      let (v, signed, same) = >>=-eq-ok (check_signed s x) _ rest in
      subst (λ y. IsAnswer s d y) (ground arith)
        (response x at (ground (arith, reject_if-eq-ok _ _ kind)) signed)

  pub unlocked_key_inv :
      (l : StateLease) (o : CoreResult Protocol.Error Response) (h : ℕ) (key : P.EncryptionKey)
      → unlocked_key l o ≡ some (h, key)
      → (l ≡ coldcard h) × (o ≡ success (Protocol.encryption_key key))
  unlocked_key_inv l o h key e = ground arith

  pub installed :
      (h : ℕ) (key : P.EncryptionKey) (d : Devices) (r : HwiResponse)
      → (install_key h key d).0 ≡ ok r
      → (task_done ≡ r) × ((D.engine_ready (get_leased (d.engines h).engine) key).1 ≡ none)
  unfolding install_key
  installed h key d r e = ground arith

  pub accepted :
      (s : Session) (d : Devices) (r : HwiResponse) (key : Option (ℕ × P.EncryptionKey))
      → unlocked_key s.lease (end_inner s.inner d).0 ≡ key
      → (elim key [
        | some (h, k) ↦ (install_key h k (end_inner s.inner d).1).0
        | none ↦ accept s (end_inner s.inner d).0
      ])
        ≡ ok r
      → IsAnswer s d r
  accepted s d r none at h = accept-IsAnswer s d _ r refl h
  accepted s d r (some (h', k)) at h =
      let (l, o) = unlocked_key_inv s.lease (end_inner s.inner d).0 h' k at in
      let (same, took) = installed h' k (end_inner s.inner d).1 r h in
      subst (λ y. IsAnswer s d y) same (key_installed h' k l o took)

  pub taken :
      (s : Session) (d : Devices) (r : HwiResponse)
      → s.finished ≡ true
      → (end_session s d).0 ≡ ok r
      → (elim (unlocked_key s.lease (end_inner s.inner d).0) [
        | some (h, k) ↦ (install_key h k (end_inner s.inner d).1).0
        | none ↦ accept s (end_inner s.inner d).0
      ])
        ≡ ok r
  unfolding end_session
  taken s d r finished h = ground arith

  end_session-IsAnswer :
      (s : Session) (d : Devices) (r : HwiResponse)
      → (end_session s d).0 ≡ ok r
      → (s.finished ≡ true) × IsAnswer s d r
  unfolding end_session
  end_session-IsAnswer s d r h = elim (Bool-cases s.finished) [
    | inr unfinished ↦ absurd (ground arith)
    | inl finished ↦ (finished, accepted s d r _ refl (taken s d r finished h))
  ]

  -- When `end` succeeds, the command had finished, and what it returns is a response of the kind
  -- that the command expects, a signed PSBT among them after it passed the PSBT checks, or the
  -- `TaskDone` of a Coldcard whose key the engine took.
  pub end-IsAnswer :
      (i : ℕ) (w : World) (s : Session) (r : HwiResponse)
      → IsLive w i s
      → (end i w).0 ≡ ok r
      → (s.finished ≡ true) × IsAnswer s w.devices r
  end-IsAnswer i w s r live h =
      let ended = ap (λ x. x.0) (sym (end_eq i w s live.0 live.1)) ∙ h in
      end_session-IsAnswer s w.devices r ended
