-- ===== src/Types/Expect.antt =====
-- bhwi-ffi/src/types.rs: `Expect`, the response kind that a command must produce.
use bhwi_ffi.Prelude.{Bool, true, false}
use bhwi_ffi.Core.Primitives.{Primitives}
use bhwi_ffi.Core.Protocol.{
  Response, task_done, device_action, master_fingerprint, xpub_response, signed_psbt,
  wallet_registration, encryption_key, other_response,
}
use bhwi_ffi.Core.Protocol

pub data Expect : Type 0 where
  anything info fingerprint xpub address signature psbt registration action : Expect

module _ ⦃P : Primitives⦄ where
  -- `Expect::matches`
  unfoldable pub matches : Expect → Response → Bool
  matches anything r = true
  matches info (Protocol.info i) = true
  matches fingerprint (master_fingerprint f) = true
  matches xpub (xpub_response x) = true
  matches address (Protocol.address a) = true
  matches signature (Protocol.signature h s) = true
  matches psbt (signed_psbt p) = true
  matches registration (wallet_registration r) = true
  matches action (device_action b) = true
  matches _ _ = false
