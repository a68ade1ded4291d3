-- ===== src/Interp/World/Signed.antt =====
-- bhwi-ffi/src/interp.rs: what a host may rely on when `Interp::end` hands it a signed PSBT.
use bhwi_ffi.Prelude.{ℕ, some, ◌≡◌, refl, arith}
use bhwi_ffi.Text.{Text}
use bhwi_ffi.Error.{ok}
use bhwi_ffi.Core.Primitives.{Primitives}
use bhwi_ffi.Core.Library.{Library}
use bhwi_ffi.Core.Device.{Device}
use bhwi_ffi.Core.Family.{Families}
use bhwi_ffi.Core.Bitcoin.{Psbt}
use bhwi_ffi.Core.Protocol
use bhwi_ffi.Core.Protocol.{Response}
use bhwi_ffi.Types.Codec.{encode_psbt}
use bhwi_ffi.Types.Response.{HwiResponse, signed_psbt, to_response}
use bhwi_ffi.Interp.Session.{Session, Devices}
use bhwi_ffi.Interp.Fidelity.{check_psbt}
use bhwi_ffi.Interp.Fidelity.Faithful.{IsFaithful}
use bhwi_ffi.Interp.Fidelity.Keeps.{Pairwise, check_psbt_iff}
use bhwi_ffi.Interp.World.{World, end, check_signed}
use bhwi_ffi.Interp.World.Lifecycle.{IsLive}
use bhwi_ffi.Interp.World.Ending.{IsAnswer, response, key_installed, end-IsAnswer}

module _ ⦃P : Primitives⦄ ⦃F : Families⦄ ⦃L : Library⦄ ⦃D : Device⦄ where
  signed_inv :
      (r : Response) (text : Text)
      → to_response r ≡ signed_psbt text
      → (psbt : Psbt) × (r ≡ Protocol.signed_psbt psbt) × (text ≡ encode_psbt psbt)
  unfolding to_response
  signed_inv (Protocol.signed_psbt psbt) text e = (psbt, refl, ground arith)
  signed_inv _ text e = absurd (ground arith)

  checked :
      (s : Session) (r : Response) (psbt : Psbt)
      → r ≡ Protocol.signed_psbt psbt
      → check_signed s r ≡ ok tt
      → check_psbt s.prior_inputs s.prior_unsigned_tx psbt ≡ ok tt
  unfolding check_signed
  checked s r psbt e h = ground arith

  answered :
      (s : Session) (d : Devices) (r : HwiResponse) (text : Text)
      → r ≡ signed_psbt text
      → IsAnswer s d r
      → (psbt : Psbt) × (text ≡ encode_psbt psbt)
        × (s.prior_unsigned_tx ≡ some (L.compute_wtxid psbt.unsigned_tx))
        × Pairwise IsFaithful s.prior_inputs psbt.inputs
  answered s d _ text e (response r came kind signed) =
      let (psbt, same, t) = signed_inv r text e in
      let (tx, faithful) =
        (check_psbt_iff s.prior_inputs s.prior_unsigned_tx psbt).0 (checked s r psbt same signed) in
      (psbt, t, tx, faithful)
  answered s d _ text e (key_installed h key l came took) = absurd (ground arith)

  -- When `end` hands the host a signed PSBT, its unsigned transaction is the one that `start`
  -- recorded, and each of its inputs is faithful to the recorded one: no signature, final script or
  -- final witness was changed or removed, except into the final spend, and each new signature has
  -- the sighash type that the recorded input asks for.
  pub end-signed_psbt :
      (i : ℕ) (w : World) (s : Session) (text : Text)
      → IsLive w i s
      → (end i w).0 ≡ ok (signed_psbt text)
      → (psbt : Psbt) × (text ≡ encode_psbt psbt)
        × (s.prior_unsigned_tx ≡ some (L.compute_wtxid psbt.unsigned_tx))
        × Pairwise IsFaithful s.prior_inputs psbt.inputs
  end-signed_psbt i w s text live h =
      answered s w.devices _ text refl (end-IsAnswer i w s _ live h).1
