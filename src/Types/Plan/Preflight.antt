-- ===== src/Types/Plan/Preflight.antt =====
-- bhwi-ffi/src/types.rs: validation as a preflight, and its errors.
use bhwi_ffi.Prelude.{Bool, true, false, Option, none, some, List, [], ◌∷◌, if◌then◌else◌}
use bhwi_ffi.Text.{Text, Bytes}
use bhwi_ffi.Error.{Outcome, ok, err, invalid_input, or_err, reject_if, require, ◌>>=◌}
use bhwi_ffi.Core.Primitives.{Primitives}
use bhwi_ffi.Core.Protocol
use bhwi_ffi.Core.Protocol.{DeviceContext, LedgerWalletPolicy}
use bhwi_ffi.Core.Library.{Library}
use bhwi_ffi.Types.Device.{DeviceKind, trezor, keepkey, kind_eq}
use bhwi_ffi.Types.Names.{validate_policy_name}
use bhwi_ffi.Types.Descriptors.{parse_public_policy, parse_concrete_key, parse_path}
use bhwi_ffi.Types.Ledger.{validate_ledger_signing_policy, default_policy}
use bhwi_ffi.Types.Codec.{decode_psbt}
use bhwi_ffi.Types.Command
use bhwi_ffi.Types.Command.{HwiCommand, WalletPolicy, context, accept_hmac}
use bhwi_ffi.Types.Plan.{
  plan, pin_context, parse_concrete_keys, signing_context, check_ledger_context,
}

pub data Preflight {ℓ} {A : Type ℓ} : Outcome A → Type ℓ where
  passes : (a : A) → Preflight (ok a)
  refuses : (msg : Prim.Native.String.String) → Preflight (err (invalid_input msg))

module _ {ℓ} {A : Type ℓ} where
  Preflight-or_err :
      (o : Option A) (msg : Prim.Native.String.String) → Preflight (or_err o (invalid_input msg))
  Preflight-or_err none msg = refuses msg
  Preflight-or_err (some a) msg = passes a

  Preflight-if :
      (b : Bool) (m n : Outcome A) → Preflight m → Preflight n → Preflight (if b then m else n)
  Preflight-if true m n p q = p
  Preflight-if false m n p q = q

Preflight-reject_if :
    (b : Bool) (msg : Prim.Native.String.String) → Preflight (reject_if b (invalid_input msg))
Preflight-reject_if true msg = refuses msg
Preflight-reject_if false msg = passes tt

Preflight-require :
    (b : Bool) (msg : Prim.Native.String.String) → Preflight (require b (invalid_input msg))
Preflight-require true msg = passes tt
Preflight-require false msg = refuses msg

Preflight-bind {ℓ κ} :
    {A : Type ℓ} {B : Type κ} (m : Outcome A) (f : A → Outcome B)
    → Preflight m
    → ((a : A) → Preflight (f a))
    → Preflight (m >>= f)
Preflight-bind m f (passes a) h = h a
Preflight-bind m f (refuses msg) h = refuses msg

ruleset steps = (
  passes, refuses, Preflight-or_err, Preflight-if, Preflight-reject_if, Preflight-require,
  Preflight-bind,
)

validate_policy_name-Preflight :
    (name : Text) (kind : DeviceKind) (b : Bool) → Preflight (validate_policy_name name kind b)
unfolding validate_policy_name
validate_policy_name-Preflight name kind b = Preflight-require _ _

accept_hmac-Preflight : (h : Option Bytes) (kind : DeviceKind) → Preflight (accept_hmac h kind)
unfolding accept_hmac
accept_hmac-Preflight none kind = passes none
accept_hmac-Preflight (some b) kind = search steps

module _ ⦃P : Primitives⦄ ⦃L : Library⦄ where
  parse_public_policy-Preflight : (text : Text) → Preflight (parse_public_policy text)
  unfolding parse_public_policy
  parse_public_policy-Preflight text = search steps

  parse_concrete_key-Preflight :
      (text : Text) (kind : DeviceKind) → Preflight (parse_concrete_key text kind)
  unfolding parse_concrete_key
  parse_concrete_key-Preflight text kind = search steps

  parse_concrete_keys-Preflight :
      (texts : List Text) (kind : DeviceKind) → Preflight (parse_concrete_keys texts kind)
  unfolding parse_concrete_keys
  parse_concrete_keys-Preflight [] kind = passes []
  parse_concrete_keys-Preflight (t ∷ ts) kind =
      let rest = parse_concrete_keys-Preflight ts kind in
      search (steps, rest, parse_concrete_key-Preflight)

  parse_path-Preflight : (path : Text) → Preflight (parse_path path)
  unfolding parse_path
  parse_path-Preflight path = search steps

  decode_psbt-Preflight : (text : Text) → Preflight (decode_psbt text)
  unfolding decode_psbt
  decode_psbt-Preflight text = search steps

  default_policy-Preflight : (w : LedgerWalletPolicy) → Preflight (default_policy w)
  unfolding default_policy
  default_policy-Preflight w = search steps

  validate_ledger-Preflight :
      (w : LedgerWalletPolicy) (h : Option Bytes) → Preflight (validate_ledger_signing_policy w h)
  unfolding validate_ledger_signing_policy
  validate_ledger-Preflight w none = search (steps, default_policy-Preflight)
  validate_ledger-Preflight w (some h) = search steps

  context-Preflight : (w : WalletPolicy) (kind : DeviceKind) → Preflight (context w kind)
  unfolding context
  context-Preflight w kind =
      search (
        steps, validate_policy_name-Preflight, accept_hmac-Preflight, parse_public_policy-Preflight,
      )

  signing_context-Preflight :
      (w : Option WalletPolicy) (kind : DeviceKind) → Preflight (signing_context w kind)
  unfolding signing_context
  signing_context-Preflight none kind = passes none
  signing_context-Preflight (some w) kind = context-Preflight w kind

  check_ledger_context-Preflight : (c : Option DeviceContext) → Preflight (check_ledger_context c)
  unfolding check_ledger_context
  check_ledger_context-Preflight (some (Protocol.ledger w h)) = validate_ledger-Preflight w h
  check_ledger_context-Preflight _ = refuses _

  pin_context-Preflight : (pin : P.HostPin) (kind : DeviceKind) → Preflight (pin_context pin kind)
  unfolding pin_context
  pin_context-Preflight pin trezor = passes _
  pin_context-Preflight pin keepkey = passes _
  pin_context-Preflight pin _ = refuses _

  ruleset parts = (
    steps, validate_policy_name-Preflight, parse_public_policy-Preflight, parse_path-Preflight,
    parse_concrete_keys-Preflight, decode_psbt-Preflight, context-Preflight,
    signing_context-Preflight, check_ledger_context-Preflight, pin_context-Preflight,
  )

  -- For every command and family, planning returns a plan or an `InvalidInput`: it never panics, and
  -- reports no other kind of error.
  pub plan-Preflight : (command : HwiCommand) (kind : DeviceKind) → Preflight (plan command kind)
  unfolding plan
  plan-Preflight Command.get_version kind = search parts
  plan-Preflight _ kind = search parts
