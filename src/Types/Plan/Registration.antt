-- ===== src/Types/Plan/Registration.antt =====
-- bhwi-ffi/src/types.rs: which wallets are planned for registration, and as what.
use bhwi_ffi.Prelude.{true, some, ◌≡◌, ◌↔◌, refl, arith}
use bhwi_ffi.Text.{Text}
use bhwi_ffi.Error.{ok, >>=-eq-ok}
use bhwi_ffi.Core.Primitives.{Primitives}
use bhwi_ffi.Core.Library.{Library}
use bhwi_ffi.Core.Protocol
use bhwi_ffi.Types.Device.{DeviceKind}
use bhwi_ffi.Types.Expect
use bhwi_ffi.Types.Names.{validate_policy_name}
use bhwi_ffi.Types.Names.Exact.{IsName, validate_policy_name_iff}
use bhwi_ffi.Types.Descriptors.{parse_public_policy}
use bhwi_ffi.Types.Descriptors.Public.{IsPublicWallet, parse_public_policy_iff}
use bhwi_ffi.Types.Command
use bhwi_ffi.Types.Plan.{plan, Plan}

module _ ⦃P : Primitives⦄ ⦃L : Library⦄ where
  -- A wallet is planned for registration exactly when its name is one that the family takes for a
  -- registration, and its descriptor parses to one that is not bare, has a key, has public account
  -- keys with their origin and an unhardened suffix only, and that the core turns into a policy.
  -- The plan then carries the name and that policy, and expects a registration.
  pub plan-register_wallet_iff :
      (name descriptor : Text) (kind : DeviceKind) (p : Plan)
      → (plan (Command.register_wallet name descriptor) kind ≡ ok p) ↔ (
          IsName kind true name
          × (d : P.Descriptor) × (policy : P.CorePolicy) × (L.parse_descriptor descriptor ≡ some d)
          × IsPublicWallet d
          × (L.policy_from_descriptor d ≡ some policy)
          × (p ≡ record {
            command = Protocol.register_wallet name policy;
            expect = Expect.registration;
          }))
  unfolding plan
  plan-register_wallet_iff name descriptor kind p = (
    λ h.
        let (_, named, rest) = >>=-eq-ok (validate_policy_name name kind true) _ h in
        let (policy, parsed, made) = >>=-eq-ok (parse_public_policy descriptor) _ rest in
        let (d, at, fit, known) = (parse_public_policy_iff descriptor policy).0 parsed in
        (
          (validate_policy_name_iff name kind true).0 named,
          d,
          policy,
          at,
          fit,
          known,
          ground arith,
        ),
    λ (named, d, policy, at, fit, known, pe).
        rw
          (
            (validate_policy_name_iff name kind true).1 named,
            (parse_public_policy_iff descriptor policy).1 (d, at, fit, known),
            pe,
          )
          refl,
  )
