-- ===== src/Tests/Commands.antt =====
-- Commands, names, keys and policies on the concrete core, with the theorems about them.
use bhwi_ffi.Prelude.{ℕ, true, none, some, [], ◌∷◌, ◌≡◌, ◌≢◌, ◌↔◌, inl, inr, refl, arith, replicate}
use bhwi_ffi.Text.{Text, bytes, trim}
use bhwi_ffi.Error.{ok}
use bhwi_ffi.Core.Protocol
use bhwi_ffi.Types.Device.{jade, trezor, specter}
use bhwi_ffi.Types.Command
use bhwi_ffi.Types.Command.{HwiCommand, to_multisig_type}
use bhwi_ffi.Types.Errors.{map_error, redact, map_error-redact}
use bhwi_ffi.Types.Names.Exact.{IsName, validate_policy_name_iff}
use bhwi_ffi.Types.Plan.Registration.{plan-register_wallet_iff}
use bhwi_ffi.Types.Names.{validate_policy_name}
use bhwi_ffi.Types.Descriptors.{parse_public_policy, parse_concrete_key, unfit_account_key}
use bhwi_ffi.Types.Descriptors.Public.{IsPublicWallet}
use bhwi_ffi.Types.Descriptors.Concrete.{IsConcrete, parse_concrete_key_iff}
use bhwi_ffi.Types.Ledger.{validate_ledger_signing_policy}
use bhwi_ffi.Types.Ledger.Standard.{IsDefault, validate_ledger_signing_policy_iff}
use bhwi_ffi.Types.Plan.{Plan, plan}
use bhwi_ffi.Types.Plan.Context.{GivesContext, context_iff}
use bhwi_ffi.Types.Plan.Preflight.{Preflight, plan-Preflight}
use bhwi_ffi.Types.Plan.Accepts.{plan-send_pin_iff, plan-display_multisig_iff}
use bhwi_ffi.Types.Plan.Signing.{plan-sign_psbt_iff}
use bhwi_ffi.Types.Plan.Display.{plan-display_descriptor_iff}
use bhwi_ffi.Types.Expect
use bhwi_ffi.Tests.{sample_primitives, sample_library, address_key, unsigned_psbt}

abbrev one_digit : Text
one_digit = b'7' ∷ []

plan-Preflight_example : Preflight (plan (Command.send_pin one_digit) jade)
plan-Preflight_example = plan-Preflight (Command.send_pin one_digit) jade

plan-send_pin_iff_example :
    plan (Command.send_pin one_digit) trezor
    ≡ ok (record {
      command = Protocol.send_pin (some (Protocol.trezor_management 1));
      expect = Expect.action;
    })
plan-send_pin_iff_example =
    (plan-send_pin_iff one_digit trezor (record {
      command = Protocol.send_pin (some (Protocol.trezor_management 1));
      expect = Expect.action;
    })).1
      (ground arith, ground arith, (1, Protocol.trezor_management 1, refl, inl (refl, refl), refl))

abbrev multisig_plan : Plan
multisig_plan = record {
  command =
      Protocol.display_address
        (Protocol.by_multisig (record {
          threshold = 1;
          sorted = true;
          address_type = to_multisig_type Command.wit;
          keys = address_key ∷ [];
        }))
        none;
  expect = Expect.address;
}

plan-display_multisig_iff_example :
    plan (Command.display_multisig_address 1 true Command.wit ([] ∷ [])) trezor ≡ ok multisig_plan
plan-display_multisig_iff_example =
    (plan-display_multisig_iff 1 true Command.wit ([] ∷ []) trezor multisig_plan).1 (
      omega arith,
      omega arith,
      omega arith,
      λ e. refl,
      (address_key ∷ [], (refl, (inr refl, λ e. cc e, refl, (refl, (refl, tt))), tt), refl),
    )

abbrev vault : Text
vault = b'v' ∷ b'0' ∷ []

vault_passes : validate_policy_name vault jade true ≡ ok tt
unfolding validate_policy_name bytes
vault_passes = refl

parse_concrete_key_iff_example :
    (parse_concrete_key vault jade ≡ ok address_key)
    ↔ ((some address_key ≡ some address_key) × IsConcrete jade address_key)
parse_concrete_key_iff_example = parse_concrete_key_iff vault jade address_key

abbrev sample_wallet : Protocol.LedgerWalletPolicy
sample_wallet = record { name = vault; policy = 1 }

validate_ledger_signing_policy_iff_example :
    ((validate_ledger_signing_policy sample_wallet none ≡ ok tt) ↔ IsDefault sample_wallet)
    × ((validate_ledger_signing_policy sample_wallet (some (1 ∷ [])) ≡ ok tt)
        ↔ ((vault ≢ []) × (◌≢◌ {A = Text} (1 ∷ []) (replicate 32 0))))
validate_ledger_signing_policy_iff_example =
    validate_ledger_signing_policy_iff sample_wallet (1 ∷ [])

plan-sign_psbt_iff_example :
    plan (Command.sign_psbt [] none) specter
    ≡ ok (record { command = Protocol.sign_tx unsigned_psbt none; expect = Expect.psbt })
plan-sign_psbt_iff_example =
    (plan-sign_psbt_iff [] none specter
        (record { command = Protocol.sign_tx unsigned_psbt none; expect = Expect.psbt })).1
      (
        unsigned_psbt,
        none,
        (trim [], refl, refl),
        refl,
        λ e. cc e,
        λ e f. absurd (ground arith),
        refl,
      )

abbrev wallet : Command.WalletPolicy
wallet = record { name = vault; descriptor = b'd' ∷ []; ledger_hmac = none }

abbrev display_plan : Plan
display_plan = record {
  command = Protocol.display_address (Protocol.by_descriptor 5 true true vault) none;
  expect = Expect.address;
}

gives_none : Command.context wallet jade ≡ ok none
unfolding Command.context Command.device_context Command.accept_hmac validate_policy_name
    parse_public_policy unfit_account_key bytes
gives_none = refl

no_context : GivesContext wallet jade none
no_context = (context_iff wallet jade none).0 gives_none

plan-display_descriptor_iff_example :
    plan (Command.display_descriptor_address 5 true true wallet) jade ≡ ok display_plan
plan-display_descriptor_iff_example =
    (plan-display_descriptor_iff 5 true true wallet jade display_plan).1
      (omega arith, ground arith, ground arith, (none, no_context, refl))

validate_policy_name_iff_example : IsName jade true vault
validate_policy_name_iff_example = (validate_policy_name_iff vault jade true).0 vault_passes

abbrev registration_plan : Plan
registration_plan = record {
  command = Protocol.register_wallet vault 1;
  expect = Expect.registration;
}

registers_vault : plan (Command.register_wallet vault vault) jade ≡ ok registration_plan
unfolding plan validate_policy_name parse_public_policy unfit_account_key bytes
registers_vault = refl

plan-register_wallet_iff_example :
    IsName jade true vault
    × (d policy : ℕ) × (some 1 ≡ some d)
    × IsPublicWallet d
    × (some d ≡ some policy)
    × (registration_plan
        ≡ record { command = Protocol.register_wallet vault policy; expect = Expect.registration })
plan-register_wallet_iff_example =
    (plan-register_wallet_iff vault vault jade registration_plan).0 registers_vault

map_error-redact_example :
    map_error (redact [] "" (Protocol.device_error "secret")) trezor
    ≡ map_error (Protocol.device_error "secret") trezor
map_error-redact_example = map_error-redact [] "" (Protocol.device_error "secret") trezor
