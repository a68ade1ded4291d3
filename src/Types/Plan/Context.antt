-- ===== src/Types/Plan/Context.antt =====
-- bhwi-ffi/src/types.rs: what a wallet policy gives a family to work with.
use bhwi_ffi.Prelude.{◌≡◌, ◌≢◌, ◌↔◌, refl, false, Option, none, some, length, arith}
use bhwi_ffi.Text.{Text, Bytes}
use bhwi_ffi.Error.{ok, >>=-eq-ok}
use bhwi_ffi.Core.Primitives.{Primitives}
use bhwi_ffi.Core.Protocol
use bhwi_ffi.Core.Protocol.{DeviceContext}
use bhwi_ffi.Core.Library.{Library}
use bhwi_ffi.Types.Device.{DeviceKind, ledger, bitbox, specter, kind_eq}
use bhwi_ffi.Types.Names.{validate_policy_name}
use bhwi_ffi.Types.Names.Exact.{IsName, validate_policy_name_iff}
use bhwi_ffi.Types.Descriptors.{parse_public_policy}
use bhwi_ffi.Types.Descriptors.Public.{IsPublicWallet, parse_public_policy_iff}
use bhwi_ffi.Types.Command.{WalletPolicy, accept_hmac, device_context, context}
use bhwi_ffi.Types.Plan.{signing_context}

-- Only a Ledger takes an HMAC, and one of 32 bytes.
abbrev pub FitsHmac : Option Bytes → DeviceKind → Type 0
FitsHmac none kind = Unit
FitsHmac (some hmac) kind = (kind ≡ ledger) × (length hmac ≡ 32)

accept_hmac_iff :
    (hmac h : Option Bytes) (kind : DeviceKind)
    → (accept_hmac hmac kind ≡ ok h) ↔ (FitsHmac hmac kind × (h ≡ hmac))
unfolding accept_hmac
accept_hmac_iff none h kind = ground arith
accept_hmac_iff (some hmac) h ledger = ground arith
accept_hmac_iff (some hmac) h _ = ground arith

module _ ⦃P : Primitives⦄ ⦃L : Library⦄ where
  -- What the family is told of a wallet with this name, HMAC and policy: a Ledger all of it, a BitBox02
  -- and a Specter the policy, the other families nothing.
  pub record IsContext (kind : DeviceKind) (name : Text) (hmac : Option Bytes)
      (policy : P.CorePolicy) (c : Option DeviceContext) : Type 0 where
    pub on_ledger :
        kind ≡ ledger → c ≡ some (Protocol.ledger (record { name = name; policy = policy }) hmac)
    pub on_bitbox : kind ≡ bitbox → c ≡ some (Protocol.bitbox policy)
    pub on_specter : kind ≡ specter → c ≡ some (Protocol.specter policy)
    pub elsewhere : kind ≢ ledger → kind ≢ bitbox → kind ≢ specter → c ≡ none

  device_context_iff :
      (kind : DeviceKind) (name : Text) (hmac : Option Bytes) (policy : P.CorePolicy)
      (c : Option DeviceContext)
      → (c ≡ device_context name hmac policy kind) ↔ IsContext kind name hmac policy c
  unfolding device_context
  device_context_iff kind name hmac policy c = (
    λ h. record {
      on_ledger = λ e. ground arith;
      on_bitbox = λ e. ground arith;
      on_specter = λ e. ground arith;
      elsewhere = λ e f g. ground arith;
    },
    λ h. ground (arith, h.on_ledger, h.on_bitbox, h.on_specter, h.elsewhere),
  )

  -- The context that a wallet policy gives for a family: its name is one that the family takes, its
  -- HMAC, if it has one, is one of 32 bytes for a Ledger, and its descriptor is that of a public wallet
  -- that the core turns into a policy.
  abbrev pub GivesContext : WalletPolicy → DeviceKind → Option DeviceContext → Type 0
  GivesContext wallet kind c =
      (policy : P.CorePolicy) × (d : P.Descriptor) × IsName kind false wallet.name
      × FitsHmac wallet.ledger_hmac kind
      × (L.parse_descriptor wallet.descriptor ≡ some d)
      × IsPublicWallet d
      × (L.policy_from_descriptor d ≡ some policy)
      × IsContext kind wallet.name wallet.ledger_hmac policy c

  pub context_iff :
      (wallet : WalletPolicy) (kind : DeviceKind) (c : Option DeviceContext)
      → (context wallet kind ≡ ok c) ↔ GivesContext wallet kind c
  unfolding context
  context_iff wallet kind c = (
    λ h.
        let (_, named, h1) = >>=-eq-ok (validate_policy_name wallet.name kind false) _ h in
        let (hmac, he, h2) = >>=-eq-ok (accept_hmac wallet.ledger_hmac kind) _ h1 in
        let (policy, pe, h3) = >>=-eq-ok (parse_public_policy wallet.descriptor) _ h2 in
        let (fits, same) = (accept_hmac_iff wallet.ledger_hmac hmac kind).0 he in
        let (d, at, public, known) = (parse_public_policy_iff wallet.descriptor policy).0 pe in
        (
          policy,
          d,
          (validate_policy_name_iff wallet.name kind false).0 named,
          fits,
          at,
          public,
          known,
          (device_context_iff kind wallet.name wallet.ledger_hmac policy c).0 (cc (h3, same)),
        ),
    λ (policy, d, named, fits, at, public, known, given).
        rw
          (
            (validate_policy_name_iff wallet.name kind false).1 named,
            (accept_hmac_iff wallet.ledger_hmac wallet.ledger_hmac kind).1 (fits, refl),
            (parse_public_policy_iff wallet.descriptor policy).1 (d, at, public, known),
            (device_context_iff kind wallet.name wallet.ledger_hmac policy c).1 given,
          )
          refl,
  )

  -- The context of a PSBT that is sent with a wallet policy, or without one.
  abbrev pub SigningContext : Option WalletPolicy → DeviceKind → Option DeviceContext → Type 0
  SigningContext none kind c = c ≡ none
  SigningContext (some wallet) kind c = GivesContext wallet kind c

  pub signing_context_iff :
      (wallet : Option WalletPolicy) (kind : DeviceKind) (c : Option DeviceContext)
      → (signing_context wallet kind ≡ ok c) ↔ SigningContext wallet kind c
  unfolding signing_context
  signing_context_iff none kind c = ground arith
  signing_context_iff (some wallet) kind c = context_iff wallet kind c
