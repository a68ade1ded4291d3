-- ===== src/Types/Plan/Display.antt =====
-- Which addresses of a wallet policy are planned for display, and as what.
use bhwi_ffi.Prelude.{ℕ, ◌^◌, ◌<◌, ◌≡◌, ◌≢◌, ◌↔◌, refl, Bool, false, ◌||◌, Option, leb, ◌==◌, arith}
use bhwi_ffi.Error.{ok, reject_if, >>=-eq-ok, reject_if-eq-ok}
use bhwi_ffi.Core.Primitives.{Primitives}
use bhwi_ffi.Core.Protocol
use bhwi_ffi.Core.Protocol.{DeviceContext, by_descriptor}
use bhwi_ffi.Core.Library.{Library}
use bhwi_ffi.Types.Device.{DeviceKind, trezor, keepkey, kind_eq}
use bhwi_ffi.Types.Expect
use bhwi_ffi.Types.Command
use bhwi_ffi.Types.Command.{WalletPolicy, accept_hmac, device_context, context}
use bhwi_ffi.Types.Plan.{plan, Plan}
use bhwi_ffi.Types.Plan.Context.{GivesContext, context_iff}

shows_policies_iff :
    (kind : DeviceKind)
    → ((kind == trezor || kind == keepkey) ≡ false) ↔ ((kind ≢ trezor) × (kind ≢ keepkey))
shows_policies_iff kind = ground arith

module _ ⦃P : Primitives⦄ ⦃L : Library⦄ where
  -- An address of a wallet policy is planned for display exactly when its index is not hardened, the
  -- family is not Trezor or KeepKey, the policy has a name that the family takes and the descriptor of
  -- a public wallet, and an HMAC that it has is one of 32 bytes for a Ledger. The plan then carries the
  -- index, the branch, the policy's name and the family's context, and expects an address: the context
  -- is the name, the policy and the HMAC for a Ledger, the policy for BitBox02 and Specter, and none
  -- for the other families.
  pub plan-display_descriptor_iff :
      (index : ℕ) (change display : Bool) (wallet : WalletPolicy) (kind : DeviceKind) (p : Plan)
      → (plan (Command.display_descriptor_address index change display wallet) kind ≡ ok p) ↔ (
          (index < 2 ^ 31)
          × (kind ≢ trezor)
          × (kind ≢ keepkey)
          × ((c : Option DeviceContext) × GivesContext wallet kind c
              × (p ≡ record {
                command =
                    Protocol.display_address (by_descriptor index change display wallet.name) c;
                expect = Expect.address;
              })))
  unfolding plan
  plan-display_descriptor_iff index change display wallet kind p = (
    λ h.
        let (_, low, h1) = >>=-eq-ok (reject_if (leb (2 ^ 31) index) _) _ h in
        let (c, ce, h2) = >>=-eq-ok (context wallet kind) _ h1 in
        let (_, fit, h3) = >>=-eq-ok (reject_if (kind == trezor || kind == keepkey) _) _ h2 in
        let (not_trezor, not_keepkey) = (shows_policies_iff kind).0 (reject_if-eq-ok _ _ fit) in
        (
          ground (arith, reject_if-eq-ok _ _ low),
          not_trezor,
          not_keepkey,
          (c, (context_iff wallet kind c).0 ce, ground arith),
        ),
    λ (low, not_trezor, not_keepkey, (c, given, pe)).
        let bound : leb (2 ^ 31) index ≡ false = ground arith in
        rw
          (
            bound,
            (context_iff wallet kind c).1 given,
            (shows_policies_iff kind).1 (not_trezor, not_keepkey),
            pe,
          )
          refl,
  )
