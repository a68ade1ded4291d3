-- ===== src/Types/Ledger.antt =====
-- bhwi-ffi/src/types.rs: `validate_ledger_signing_policy`.
pub mod Standard
use bhwi_ffi.Prelude.{
  ℕ, Bool, true, false, not, ◌&&◌, ◌||◌, Option, none, some, List, [], ◌∷◌, leb, eqb, is_empty,
  replicate, ◌==◌, if◌then◌else◌, list_eq, nat_eq,
}
use bhwi_ffi.Text.{Bytes, Text, chars}
use bhwi_ffi.Error.{Outcome, ok, err, invalid_input, or_err, reject_if, require, ◌>>=◌, ◌>>◌}
use bhwi_ffi.Core.Primitives.{Primitives}
use bhwi_ffi.Core.Bitcoin.{
  DerivationPath, DescriptorPublicKey, single, xpub, multi_xpub, MultiXpubKey, NetworkKind, main,
  Wildcard, unhardened_wildcard, wildcard_beq, normal, hardened, ChildNumber, Xpub, Origin,
  child_eq, network_kind_eq,
}
use bhwi_ffi.Core.Protocol.{LedgerWalletPolicy}
use bhwi_ffi.Core.Library.{Library}

-- the match `purpose` on the template
unfoldable pub template_purpose : Text → Option ℕ
template_purpose template =
    if template == chars "pkh(@0/**)"
    then some 44
    else if template == chars "sh(wpkh(@0/**))"
    then some 49
    else if template == chars "wpkh(@0/**)"
    then some 84
    else if template == chars "tr(@0/**)"
    then some 86
    else none

unfoldable pub coin_type : NetworkKind → ℕ
coin_type network = if network == main then 0 else 1

module _ ⦃P : Primitives⦄ where
  -- the slice pattern `[MultiXPub(key)]`
  unfoldable pub only_multi_xpub : List DescriptorPublicKey → Option MultiXpubKey
  only_multi_xpub (multi_xpub key ∷ []) = some key
  only_multi_xpub _ = none

  -- `matches!(origin.as_ref(), [Hardened p, Hardened c, Hardened account] if …)`
  unfoldable pub valid_origin : ℕ → ℕ → Xpub → DerivationPath → Bool
  valid_origin purpose coin xkey (hardened p ∷ hardened c ∷ hardened account ∷ []) =
      eqb p purpose
      && eqb c coin
      && leb account 100
      && eqb xkey.depth 3
      && (xkey.child_number == hardened account)
  valid_origin purpose coin xkey _ = false

  unfoldable pub valid_branches : MultiXpubKey → Bool
  valid_branches key =
      (key.derivation_paths == ((normal 0 ∷ []) ∷ (normal 1 ∷ []) ∷ []))
      && wildcard_beq key.wildcard unhardened_wildcard

  module _ ⦃L : Library⦄ where
    open L use {extract_parts}

    -- the checks of a policy that is signed for without a registration
    unfoldable pub default_policy : LedgerWalletPolicy → Outcome (Unit {0})
    default_policy wallet = do
      parts ← or_err (extract_parts wallet.policy) (invalid_input "invalid Ledger default policy")
      purpose ←
          or_err (template_purpose parts.0) (invalid_input "Ledger policy requires registration")
      key ←
          or_err (only_multi_xpub parts.1)
            (invalid_input "Ledger default policy requires one account xpub")
      origin ← or_err key.origin (invalid_input "Ledger default policy requires an account origin")
      require
          (valid_origin purpose (coin_type key.xkey.network) key.xkey origin.1
            && valid_branches key)
          (invalid_input
            "Ledger default policy requires a standard hardened account and receive/change branches")

    unfoldable pub validate_ledger_signing_policy :
        LedgerWalletPolicy → Option Bytes → Outcome (Unit {0})
    validate_ledger_signing_policy wallet (some hmac) =
        reject_if (is_empty wallet.name || (hmac == replicate 32 0))
          (invalid_input "registered Ledger signing requires a name and a nonzero HMAC")
    validate_ledger_signing_policy wallet none = do
      reject_if (not (is_empty wallet.name))
          (invalid_input "Ledger signing without a HMAC requires the unnamed default policy")
      default_policy wallet
