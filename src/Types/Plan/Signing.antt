-- ===== src/Types/Plan/Signing.antt =====
-- What must hold of a PSBT and its wallet before it is sent, and of an address by path on KeepKey.
use mathlib.Core.Path.{subst₂}
use bhwi_ffi.Prelude.{
  ℕ, ◌≡◌, ◌≢◌, ◌↔◌, ◌⊎◌, inl, inr, refl, Bool, true, false, ◌&&◌, Option, none, some, List, [], ◌∷◌,
  replicate, any, All, if◌then◌else◌, ◌==◌, arith,
}
use bhwi_ffi.Text.{Text, Bytes, trim}
use bhwi_ffi.Error.{ok, reject_if, >>=-eq-ok, or_err-eq-ok, reject_if-eq-ok}
use bhwi_ffi.Network.{AddressFormat, taproot}
use bhwi_ffi.Core.Primitives.{Primitives}
use bhwi_ffi.Core.Bitcoin.{DerivationPath, normal, hardened, Psbt, Input, TxOut}
use bhwi_ffi.Core.Protocol
use bhwi_ffi.Core.Protocol.{DeviceContext, LedgerWalletPolicy, sign_tx, by_path}
use bhwi_ffi.Core.Library.{Library}
use bhwi_ffi.Types.Device.{DeviceKind, ledger, bitbox, keepkey, kind_eq}
use bhwi_ffi.Types.Expect
use bhwi_ffi.Types.Descriptors.{parse_path}
use bhwi_ffi.Types.Ledger.{validate_ledger_signing_policy}
use bhwi_ffi.Types.Ledger.Standard.{IsDefault, validate_ledger_signing_policy_iff}
use bhwi_ffi.Types.Codec.{decode_psbt, IsPsbtText, decode_psbt_iff}
use bhwi_ffi.Types.Plan.Context.{SigningContext, signing_context_iff}
use bhwi_ffi.Types.Command
use bhwi_ffi.Types.Command.{HwiCommand, WalletPolicy}
use bhwi_ffi.Types.Plan.{
  plan, Plan, signing_context, check_ledger_context, has_script, present, pays_wsh, not_plain_wrap,
  absent, keepkey_taproot, first_is_86, map_format,
}

-- The path does not begin with the Taproot purpose 86, hardened or not.
abbrev pub AvoidsTaproot : DerivationPath → Type 0
AvoidsTaproot path =
    (i : ℕ) (rest : DerivationPath)
    → ((path ≡ normal i ∷ rest) ⊎ (path ≡ hardened i ∷ rest))
    → i ≢ 86

first_is_86-AvoidsTaproot : (path : DerivationPath) → first_is_86 path ≡ false → AvoidsTaproot path
unfolding first_is_86
first_is_86-AvoidsTaproot path h i rest (inl e) same = ground arith
first_is_86-AvoidsTaproot path h i rest (inr e) same = ground arith

keepkey_taproot-false :
    (format : Option AddressFormat) (path : DerivationPath)
    → keepkey_taproot keepkey format path ≡ false
    → (format ≢ some taproot) × (format ≡ none → AvoidsTaproot path)
unfolding keepkey_taproot
keepkey_taproot-false none path h = (λ e. cc, λ _. first_is_86-AvoidsTaproot path (ground arith))
keepkey_taproot-false (some format) path h = (λ e. ground arith, λ e. cc)

module _ ⦃P : Primitives⦄ ⦃L : Library⦄ where
  parse_path-eq :
      (t : Text) (path : DerivationPath)
      → parse_path t ≡ ok path
      → L.parse_derivation_path (trim t) ≡ some path
  unfolding parse_path
  parse_path-eq t path e = or_err-eq-ok _ _ e

  -- KeepKey is never asked for a Taproot address by path: neither by the format nor, where no
  -- format is given, by a path of purpose 86.
  pub plan-display_address_keepkey :
      (text : Text) (display : Bool) (format : Option AddressFormat) (p : Plan)
      → plan (Command.display_address text display format) keepkey ≡ ok p
      → (path : DerivationPath) × (L.parse_derivation_path (trim text) ≡ some path)
        × (format ≢ some taproot)
        × (format ≡ none → AvoidsTaproot path)
        × (p.command ≡ Protocol.display_address (by_path path display (map_format format)) none)
  unfolding plan
  plan-display_address_keepkey text display format p h =
      let (path, pe, h1) = >>=-eq-ok (parse_path text) _ h in
      let (_, g, h2) = >>=-eq-ok (reject_if (keepkey_taproot keepkey format path) _) _ h1 in
      let (no_format, no_path) = keepkey_taproot-false format path (reject_if-eq-ok _ _ g) in
      (path, parse_path-eq text path pe, no_format, no_path, ground arith)

  -- What a Ledger signs for: an unnamed standard account, or a named policy with its HMAC.
  abbrev pub MaySign : LedgerWalletPolicy → Option Bytes → Type 0
  MaySign wallet none = IsDefault wallet
  MaySign wallet (some hmac) = (wallet.name ≢ []) × (hmac ≢ replicate 32 0)

  abbrev pub LedgerContext : Option DeviceContext → Type 0
  LedgerContext c =
      (wallet : LedgerWalletPolicy) × (hmac : Option Bytes) × (c
        ≡ some (Protocol.ledger wallet hmac))
      × MaySign wallet hmac

  validate_ledger_iff :
      (w : LedgerWalletPolicy) (h : Option Bytes)
      → (validate_ledger_signing_policy w h ≡ ok tt) ↔ MaySign w h
  validate_ledger_iff w none = (validate_ledger_signing_policy_iff w []).0
  validate_ledger_iff w (some h) = (validate_ledger_signing_policy_iff w h).1

  check_ledger_context_iff :
      (c : Option DeviceContext) → (check_ledger_context c ≡ ok tt) ↔ LedgerContext c
  unfolding check_ledger_context
  check_ledger_context_iff (some (Protocol.ledger w h)) = (
    λ e. (w, h, refl, (validate_ledger_iff w h).0 e),
    λ (w', h', e, m).
        let same : w' ≡ w = cc e in
        let same_hmac : h' ≡ h = cc e in
        (validate_ledger_iff w h).1 (subst₂ MaySign same same_hmac m),
  )
  check_ledger_context_iff _ = (λ e. cc, λ (w', h', e, m). cc e)

  -- A PSBT input that pays no script of a wallet policy.
  pub record IsPlain (input : Input) : Type 0 where
    pub no_witness_script : input.witness_script ≡ none
    pub no_p2wsh : (u : TxOut) → input.witness_utxo ≡ some u → L.is_p2wsh u.script_pubkey ≡ false
    pub plain_wrap : (s : P.Script) → input.redeem_script ≡ some s → L.is_p2wpkh s ≡ true

  present-false : (o : Option P.Script) → (present o ≡ false) ↔ (o ≡ none)
  present-false none = ground arith
  present-false (some s) = ground arith

  pays_wsh-false :
      (o : Option TxOut)
      → (pays_wsh o ≡ false) ↔ ((u : TxOut) → o ≡ some u → L.is_p2wsh u.script_pubkey ≡ false)
  pays_wsh-false none = (λ h u e. cc e, λ f. refl)
  pays_wsh-false (some u) = (λ h v e. ground arith, λ f. f u refl)

  not_plain_wrap-false :
      (o : Option P.Script)
      → (not_plain_wrap o ≡ false) ↔ ((s : P.Script) → o ≡ some s → L.is_p2wpkh s ≡ true)
  not_plain_wrap-false none = (λ h s e. cc e, λ f. refl)
  not_plain_wrap-false (some s) = (λ h t e. ground arith, λ f. ground (arith, f s refl))

  has_script-IsPlain : (input : Input) → (has_script input ≡ false) ↔ IsPlain input
  unfolding has_script
  has_script-IsPlain input = (
    λ h. record {
      no_witness_script = (present-false input.witness_script).0 (ground arith);
      no_p2wsh = (pays_wsh-false input.witness_utxo).0 (ground arith);
      plain_wrap = (not_plain_wrap-false input.redeem_script).0 (ground arith);
    },
    λ p. ground (
      arith,
      (present-false input.witness_script).1 p.no_witness_script,
      (pays_wsh-false input.witness_utxo).1 p.no_p2wsh,
      (not_plain_wrap-false input.redeem_script).1 p.plain_wrap,
    ),
  )

  any_script-IsPlain : (inputs : List Input) → (any has_script inputs ≡ false) ↔ All IsPlain inputs
  any_script-IsPlain [] = ground arith
  any_script-IsPlain (i ∷ inputs) = (
    λ h. ((has_script-IsPlain i).0 (ground arith), (any_script-IsPlain inputs).0 (ground arith)),
    λ a. ground (arith, (has_script-IsPlain i).1 a.0, (any_script-IsPlain inputs).1 a.1),
  )

  -- Without a context, BitBox02 signs for inputs that pay no script only.
  abbrev pub BitBoxPlain : DeviceKind → Option DeviceContext → List Input → Type 0
  BitBoxPlain kind c inputs = kind ≡ bitbox → c ≡ none → All IsPlain inputs

  bitbox_guard_iff :
      (kind : DeviceKind) (c : Option DeviceContext) (inputs : List Input)
      → ((kind == bitbox && absent c && any has_script inputs) ≡ false) ↔ BitBoxPlain kind c inputs
  bitbox_guard_iff bitbox none inputs = (
    λ h _ _. (any_script-IsPlain inputs).0 (ground arith),
    λ f. ground (arith, (any_script-IsPlain inputs).1 (f refl refl)),
  )
  bitbox_guard_iff kind (some c) inputs = (λ h _ e. cc e, λ f. ground arith)
  bitbox_guard_iff _ none inputs = (λ h e _. cc e, λ f. refl)

  ledger_guard_iff :
      (kind : DeviceKind) (c : Option DeviceContext)
      → ((if kind == ledger then check_ledger_context c else ok tt) ≡ ok tt)
        ↔ (kind ≡ ledger → LedgerContext c)
  ledger_guard_iff ledger c =
      (λ h _. (check_ledger_context_iff c).0 h, λ f. (check_ledger_context_iff c).1 (f refl))
  ledger_guard_iff _ c = (λ h e. cc e, λ f. refl)

  -- A PSBT is planned exactly when its text is the base64 of a PSBT, its wallet policy, if it has one,
  -- gives a context for the family, on Ledger that context is one to sign for, and on BitBox02
  -- without a context every input is plain. The plan carries that PSBT and context and expects a
  -- signed PSBT. A policy gives a context if its name is one that the family takes, an HMAC that it
  -- has is one of 32 bytes for a Ledger, and its descriptor is that of a public wallet: the name,
  -- the policy and the HMAC for a Ledger, the policy for BitBox02 and Specter, none for the others.
  pub plan-sign_psbt_iff :
      (text : Text) (wallet : Option WalletPolicy) (kind : DeviceKind) (p : Plan)
      → (plan (Command.sign_psbt text wallet) kind ≡ ok p) ↔ (
          (psbt : Psbt) × (c : Option DeviceContext) × IsPsbtText text psbt
          × SigningContext wallet kind c
          × (kind ≡ ledger → LedgerContext c)
          × BitBoxPlain kind c psbt.inputs
          × (p ≡ record { command = sign_tx psbt c; expect = Expect.psbt }))
  unfolding plan
  plan-sign_psbt_iff text wallet kind p = (
    λ h.
        let (psbt, de, h1) = >>=-eq-ok (decode_psbt text) _ h in
        let (c, ce, h2) = >>=-eq-ok (signing_context wallet kind) _ h1 in
        let (_, le, h3) =
          >>=-eq-ok (if kind == ledger then check_ledger_context c else ok tt) _ h2 in
        let (_, be, h4) =
          >>=-eq-ok (reject_if (kind == bitbox && absent c && any has_script psbt.inputs) _) _ h3 in
        (
          psbt,
          c,
          (decode_psbt_iff text psbt).0 de,
          (signing_context_iff wallet kind c).0 ce,
          (ledger_guard_iff kind c).0 le,
          (bitbox_guard_iff kind c psbt.inputs).0 (reject_if-eq-ok _ _ be),
          ground arith,
        ),
    λ (psbt, c, de, ce, l, b, pe).
        rw
          (
            (decode_psbt_iff text psbt).1 de,
            (signing_context_iff wallet kind c).1 ce,
            (ledger_guard_iff kind c).1 l,
            (bitbox_guard_iff kind c psbt.inputs).1 b,
            pe,
          )
          refl,
  )
