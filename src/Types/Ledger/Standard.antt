-- ===== src/Types/Ledger/Standard.antt =====
-- Which policies a Ledger may sign for.
use bhwi_ffi.Prelude.{
  ℕ, true, not, ◌&&◌, ◌||◌, none, some, List, [], ◌∷◌, ◌≡◌, ◌≢◌, ◌↔◌, ◌⊎◌, inl, inr, ◌≤◌, refl,
  is_empty, replicate, ◌==◌, if◌then◌else◌, arith, beq→eq, beq_refl, list_beq_iff, list_eq, nat_eq,
}
use bhwi_ffi.Text.{Bytes, Text, chars}
use bhwi_ffi.Error.{
  HwiError, Outcome, ok, or_err, reject_if, ◌>>◌, >>=-eq-ok, or_err-eq-ok, require-eq-ok,
}
use bhwi_ffi.Core.Primitives.{Primitives}
use bhwi_ffi.Core.Bitcoin.{
  DerivationPath, DescriptorPublicKey, multi_xpub, MultiXpubKey, NetworkKind, main, test,
  unhardened_wildcard, normal, hardened, Xpub, child_eq, network_kind_eq,
}
use bhwi_ffi.Core.Protocol.{LedgerWalletPolicy}
use bhwi_ffi.Core.Library.{Library}
use bhwi_ffi.Types.Ledger.{
  template_purpose, coin_type, only_multi_xpub, valid_origin, valid_branches, default_policy,
  validate_ledger_signing_policy,
}

abbrev OneOf4 : Text → ℕ → (a b c d : Text) → Type 0
OneOf4 t p a b c d =
    ((t ≡ a) × (p ≡ 44)) ⊎ ((t ≡ b) × (p ≡ 49)) ⊎ ((t ≡ c) × (p ≡ 84)) ⊎ ((t ≡ d) × (p ≡ 86))

-- The four singlesig templates with the purpose of BIP 44, 49, 84 and 86.
abbrev pub Standard : Text → ℕ → Type 0
Standard t p =
    OneOf4 t p (chars "pkh(@0/**)") (chars "sh(wpkh(@0/**))") (chars "wpkh(@0/**)")
      (chars "tr(@0/**)")

first_of_four :
    (t a b c d : Text) (p : ℕ)
    → (if t == a
        then some 44
        else if t == b
        then some 49
        else if t == c
        then some 84
        else if t == d
        then some 86
        else none)
      ≡ some p
    → OneOf4 t p a b c d
first_of_four t a b c d p h =
    ground (arith, list_beq_iff t a, list_beq_iff t b, list_beq_iff t c, list_beq_iff t d)

template_purpose_iff : (t : Text) (p : ℕ) → (template_purpose t ≡ some p) ↔ Standard t p
unfolding template_purpose
template_purpose_iff t p = (first_of_four t _ _ _ _ p, back)
  where
    back : Standard t p → template_purpose t ≡ some p
    back (inl (e, q)) = rw (e, q) refl
    back (inr (inl (e, q))) = rw (e, q) refl
    back (inr (inr (inl (e, q)))) = rw (e, q) refl
    back (inr (inr (inr (e, q)))) = rw (e, q) refl

-- SLIP-44: 0 on the main network, 1 on the test networks.
abbrev slip44 : NetworkKind → ℕ
slip44 main = 0
slip44 test = 1

module _ ⦃P : Primitives⦄ where
  -- m/purpose'/coin'/account' with its receive and change branches
  pub record IsAccount (purpose : ℕ) (key : MultiXpubKey) : Type 0 where
    pub fingerprint : P.Fingerprint
    pub account : ℕ
    pub account_bound : account ≤ 100
    pub origin_is :
        key.origin
        ≡ some (
          fingerprint,
          hardened purpose ∷ hardened (slip44 key.xkey.network) ∷ hardened account ∷ [],
        )
    pub depth_is : key.xkey.depth ≡ 3
    pub child_is : key.xkey.child_number ≡ hardened account
    pub branches_are : key.derivation_paths ≡ (normal 0 ∷ []) ∷ (normal 1 ∷ []) ∷ []
    pub wildcard_is : key.wildcard ≡ unhardened_wildcard

  valid_origin-eq :
      (purpose coin : ℕ) (xkey : Xpub) (path : DerivationPath)
      → valid_origin purpose coin xkey path ≡ true
      → (account : ℕ) × (account ≤ 100)
        × (path ≡ hardened purpose ∷ hardened coin ∷ hardened account ∷ [])
        × (xkey.depth ≡ 3)
        × (xkey.child_number ≡ hardened account)
  unfolding valid_origin
  valid_origin-eq purpose coin xkey (hardened p ∷ hardened c ∷ hardened a ∷ []) h =
      (a, ground arith, ground arith, ground arith, beq→eq _ _ (ground arith))
  valid_origin-eq purpose coin xkey _ h = cc

  valid_origin_refl :
      (purpose coin account : ℕ) (xkey : Xpub)
      → account ≤ 100
      → xkey.depth ≡ 3
      → xkey.child_number ≡ hardened account
      → valid_origin purpose coin xkey (hardened purpose ∷ hardened coin ∷ hardened account ∷ [])
        ≡ true
  unfolding valid_origin
  valid_origin_refl purpose coin account xkey h d c = ground (arith, beq_refl (hardened account))

  valid_branches_iff :
      (key : MultiXpubKey)
      → (valid_branches key ≡ true) ↔ (
          (key.derivation_paths ≡ (normal 0 ∷ []) ∷ (normal 1 ∷ []) ∷ [])
          × (key.wildcard ≡ unhardened_wildcard))
  unfolding valid_branches
  valid_branches_iff key =
      ground (arith, list_beq_iff key.derivation_paths ((normal 0 ∷ []) ∷ (normal 1 ∷ []) ∷ []))

  only_multi_xpub-eq :
      (keys : List DescriptorPublicKey) (key : MultiXpubKey)
      → only_multi_xpub keys ≡ some key
      → keys ≡ multi_xpub key ∷ []
  unfolding only_multi_xpub
  only_multi_xpub-eq (multi_xpub k ∷ []) key h = ground arith
  only_multi_xpub-eq _ key h = cc

  coin-slip44 : (n : NetworkKind) → coin_type n ≡ slip44 n
  unfolding coin_type
  coin-slip44 main = refl
  coin-slip44 test = refl

  module _ ⦃L : Library⦄ where
    open L use {extract_parts}

    -- The unnamed policy of one standard singlesig account.
    pub record IsDefault (wallet : LedgerWalletPolicy) : Type 0 where
      pub unnamed : wallet.name ≡ []
      pub template : Text
      pub purpose : ℕ
      pub key : MultiXpubKey
      pub parts_are : extract_parts wallet.policy ≡ some (template, multi_xpub key ∷ [])
      pub standard : Standard template purpose
      pub account : IsAccount purpose key

    default_policy-IsDefault :
        (wallet : LedgerWalletPolicy)
        → wallet.name ≡ []
        → default_policy wallet ≡ ok tt
        → IsDefault wallet
    unfolding default_policy
    default_policy-IsDefault wallet unnamed h =
        let (parts, pe, h1) = >>=-eq-ok (or_err (extract_parts wallet.policy) _) _ h in
        let (purpose, te, h2) = >>=-eq-ok (or_err (template_purpose parts.0) _) _ h1 in
        let (key, ke, h3) = >>=-eq-ok (or_err (only_multi_xpub parts.1) _) _ h2 in
        let (origin, oe, h4) = >>=-eq-ok (or_err key.origin _) _ h3 in
        let fits =
          require-eq-ok
            (valid_origin purpose (coin_type key.xkey.network) key.xkey origin.1
              && valid_branches key)
            _ h4 in
        let (account, bound, path, depth, child) =
          valid_origin-eq purpose (coin_type key.xkey.network) key.xkey origin.1 (ground arith) in
        let (branches, wildcard) = (valid_branches_iff key).0 (ground arith) in
        record {
          unnamed = unnamed;
          template = parts.0;
          purpose = purpose;
          key = key;
          parts_are =
              ground
                (arith, or_err-eq-ok _ _ pe, only_multi_xpub-eq parts.1 key (or_err-eq-ok _ _ ke));
          standard = (template_purpose_iff parts.0 purpose).0 (or_err-eq-ok _ _ te);
          account = record {
            fingerprint = origin.0;
            account = account;
            account_bound = bound;
            origin_is = ground (arith, or_err-eq-ok _ _ oe, path, coin-slip44 key.xkey.network);
            depth_is = depth;
            child_is = child;
            branches_are = branches;
            wildcard_is = wildcard;
          };
        }

    IsDefault-default_policy :
        (wallet : LedgerWalletPolicy) → IsDefault wallet → default_policy wallet ≡ ok tt
    unfolding default_policy only_multi_xpub valid_branches
    IsDefault-default_policy wallet d =
        rw
          (
            d.parts_are,
            (template_purpose_iff d.template d.purpose).1 d.standard,
            d.account.origin_is,
          )
          (rw
            (
              coin-slip44 d.key.xkey.network,
              valid_origin_refl d.purpose (slip44 d.key.xkey.network) d.account.account d.key.xkey
                  d.account.account_bound d.account.depth_is d.account.child_is,
              (valid_branches_iff d.key).1 (d.account.branches_are, d.account.wildcard_is),
            )
            refl)

    unnamed_iff :
        (name : Text) (e : HwiError) (k : Outcome (Unit {0}))
        → ((reject_if (not (is_empty name)) e >> k) ≡ ok tt) ↔ ((name ≡ []) × (k ≡ ok tt))
    unnamed_iff [] e k = ground arith
    unnamed_iff (c ∷ name) e k = ground arith

    registered_iff :
        (name : Text) (hmac zero : Bytes) (e : HwiError)
        → (reject_if (is_empty name || (hmac == zero)) e ≡ ok tt) ↔ ((name ≢ []) × (hmac ≢ zero))
    registered_iff [] hmac zero e = ground arith
    registered_iff (c ∷ name) hmac zero e = ground (arith, list_beq_iff hmac zero)

    -- Without an HMAC a Ledger signs for a policy exactly when it is the unnamed policy of a standard
    -- singlesig account: the template of BIP 44, 49, 84 or 86, one account xpub at the hardened path
    -- of that purpose, its network's coin type and an account up to 100, and its two branches. With an
    -- HMAC it does exactly when the policy has a name and the HMAC is not all zeros.
    pub validate_ledger_signing_policy_iff :
        (wallet : LedgerWalletPolicy) (hmac : Bytes)
        → ((validate_ledger_signing_policy wallet none ≡ ok tt) ↔ IsDefault wallet)
          × ((validate_ledger_signing_policy wallet (some hmac) ≡ ok tt)
              ↔ ((wallet.name ≢ []) × (hmac ≢ replicate 32 0)))
    unfolding validate_ledger_signing_policy
    validate_ledger_signing_policy_iff wallet hmac = (
      (
        λ h.
            let (unnamed, fits) = (unnamed_iff wallet.name _ _).0 h in
            default_policy-IsDefault wallet unnamed fits,
        λ d. (unnamed_iff wallet.name _ _).1 (d.unnamed, IsDefault-default_policy wallet d),
      ),
      registered_iff wallet.name hmac (replicate 32 0) _,
    )
