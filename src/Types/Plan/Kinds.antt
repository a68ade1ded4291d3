-- ===== src/Types/Plan/Kinds.antt =====
-- bhwi-ffi/src/types.rs: the kind of response that belongs to each command.
use bhwi_ffi.Prelude.{◌≡◌, subst, Bool, true, false, arith}
use bhwi_ffi.Error.{ok}
use bhwi_ffi.Core.Primitives.{Primitives}
use bhwi_ffi.Core.Library.{Library}
use bhwi_ffi.Core.Protocol
use bhwi_ffi.Types.Device.{DeviceKind}
use bhwi_ffi.Types.Expect.{Expect, matches}
use bhwi_ffi.Types.Command
use bhwi_ffi.Types.Command.{HwiCommand}
use bhwi_ffi.Types.Plan.{plan, Plan}
use bhwi_ffi.Types.Response.{
  HwiResponse, to_response, info, device_action, fingerprint, xpub, address, wallet_registration,
  message_signature, signed_psbt,
}

-- the response that a command is for; an unlock may end with any
unfoldable pub fits : HwiCommand → HwiResponse → Bool
fits (Command.unlock network) r = true
fits Command.get_version (info i) = true
fits Command.prompt_pin (device_action done) = true
fits (Command.send_pin positions) (device_action done) = true
fits Command.get_master_fingerprint (fingerprint f) = true
fits (Command.get_xpub path display) (xpub x) = true
fits (Command.display_address path display format) (address a) = true
fits (Command.register_wallet name descriptor) (wallet_registration r) = true
fits (Command.display_descriptor_address index change display wallet) (address a) = true
fits (Command.display_multisig_address threshold sorted format keys) (address a) = true
fits (Command.sign_message message path) (message_signature s) = true
fits (Command.sign_psbt psbt wallet) (signed_psbt p) = true
fits _ _ = false

abbrev expected : HwiCommand → Expect
expected (Command.unlock network) = Expect.anything
expected Command.get_version = Expect.info
expected Command.prompt_pin = Expect.action
expected (Command.send_pin positions) = Expect.action
expected Command.get_master_fingerprint = Expect.fingerprint
expected (Command.get_xpub path display) = Expect.xpub
expected (Command.display_address path display format) = Expect.address
expected (Command.register_wallet name descriptor) = Expect.registration
expected (Command.display_descriptor_address index change display wallet) = Expect.address
expected (Command.display_multisig_address threshold sorted format keys) = Expect.address
expected (Command.sign_message message path) = Expect.signature
expected (Command.sign_psbt psbt wallet) = Expect.psbt

module _ ⦃P : Primitives⦄ where
  module _ ⦃L : Library⦄ where
    expected-fits :
        (c : HwiCommand) (r : Protocol.Response)
        → matches (expected c) r ≡ true
        → fits c (to_response r) ≡ true
    unfolding matches to_response fits
    expected-fits c r h = ground arith

    expects :
        (c : HwiCommand) (kind : DeviceKind) (p : Plan) → plan c kind ≡ ok p → p.expect ≡ expected c
    unfolding plan
    expects c kind p h = ground arith

    -- A response that the plan of a command expects is one that the command is for.
    pub plan-fits :
        (c : HwiCommand) (kind : DeviceKind) (p : Plan) (r : Protocol.Response)
        → plan c kind ≡ ok p
        → matches p.expect r ≡ true
        → fits c (to_response r) ≡ true
    plan-fits c kind p r planned h =
        expected-fits c r (subst (λ x. matches x r ≡ true) (expects c kind p planned) h)
