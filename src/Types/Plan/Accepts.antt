-- ===== src/Types/Plan/Accepts.antt =====
-- Which PIN entries, multisig requests and addresses by path are planned, and as what.
use bhwi_ffi.Prelude.{
  ℕ, ◌≤◌, ◌≡◌, ◌≢◌, ◌↔◌, ◌⊎◌, refl, Bool, true, false, not, ◌&&◌, none, some, List, [], ◌∷◌, ◌++◌,
  leb, all, All, length, ◌==◌, arith,
}
use bhwi_ffi.Text.{Text, Bytes, bytes, encode_utf8}
use bhwi_ffi.Error.{ok, or_err, reject_if, >>=-eq-ok, or_err-eq-ok, reject_if-eq-ok}
use bhwi_ffi.Core.Primitives.{Primitives}
use bhwi_ffi.Core.Bitcoin.{DescriptorPublicKey}
use bhwi_ffi.Core.Protocol
use bhwi_ffi.Core.Protocol.{trezor_management, keepkey_management, by_multisig, send_pin}
use bhwi_ffi.Core.Library.{Library}
use bhwi_ffi.Types.Device.{DeviceKind, trezor, keepkey, kind_eq}
use bhwi_ffi.Types.Expect
use bhwi_ffi.Types.Descriptors.{parse_concrete_key}
use bhwi_ffi.Types.Descriptors.Concrete.{IsConcrete, parse_concrete_key_iff}
use bhwi_ffi.Types.Command
use bhwi_ffi.Types.Command.{HwiCommand, MultisigAddressFormat, to_multisig_type}
use bhwi_ffi.Types.Plan.{plan, Plan, pin_context, parse_concrete_keys, bad_positions, bad_multisig}

abbrev pub IsPosition : ℕ → Type 0
IsPosition c = (b'1' ≤ c) × (c ≤ b'9')

is_position : ℕ → Bool
is_position b = leb b'1' b && leb b b'9'

all_positions-encode :
    (c : ℕ) (rest : Bytes)
    → (all is_position (encode_utf8 c ++ rest) ≡ true)
      ↔ (IsPosition c × (all is_position rest ≡ true))
unfolding encode_utf8 is_position
all_positions-encode c rest = ground arith

all_positions_iff : (s : Text) → (all is_position (bytes s) ≡ true) ↔ All IsPosition s
unfolding bytes
all_positions_iff [] = ground arith
all_positions_iff (c ∷ s) = ground (arith, all_positions-encode c (bytes s), all_positions_iff s)

bad_positions_iff : (s : Text) → (bad_positions s ≡ false) ↔ ((s ≢ []) × All IsPosition s)
unfolding bad_positions is_position
bad_positions_iff [] = ground arith
bad_positions_iff (c ∷ s) = ground (arith, all_positions_iff (c ∷ s))

bad_multisig_iff :
    (threshold : ℕ) (keys : List Text)
    → (bad_multisig threshold keys ≡ false)
      ↔ ((1 ≤ threshold) × (threshold ≤ length keys) × (length keys ≤ 15))
unfolding bad_multisig
bad_multisig_iff threshold [] = ground arith
bad_multisig_iff threshold (k ∷ keys) = ground arith

sorted_iff :
    (kind : DeviceKind) (sorted : Bool)
    → ((kind == keepkey && not sorted) ≡ false) ↔ (kind ≡ keepkey → sorted ≡ true)
sorted_iff kind true = ground arith
sorted_iff keepkey false = ground (arith, λ (f : keepkey ≡ keepkey → false ≡ true). f refl)
sorted_iff _ false = ground arith

module _ ⦃P : Primitives⦄ where
  -- The context of the family that has a PIN matrix.
  abbrev pub PinContext : P.HostPin → DeviceKind → Protocol.DeviceContext → Type 0
  PinContext pin kind c =
      ((kind ≡ trezor) × (c ≡ trezor_management pin))
      ⊎ ((kind ≡ keepkey) × (c ≡ keepkey_management pin))

  pin_context_iff :
      (pin : P.HostPin) (kind : DeviceKind) (c : Protocol.DeviceContext)
      → (pin_context pin kind ≡ ok c) ↔ PinContext pin kind c
  unfolding pin_context
  pin_context_iff pin trezor c = ground arith
  pin_context_iff pin _ c = ground arith

  module _ ⦃L : Library⦄ where
    -- A PIN entry is planned exactly when it is a nonempty text of the digits 1 to 9 that the core
    -- accepts, for Trezor or KeepKey; the plan then carries that PIN for that family and expects the
    -- outcome of a device action.
    pub plan-send_pin_iff :
        (positions : Text) (kind : DeviceKind) (p : Plan)
        → (plan (Command.send_pin positions) kind ≡ ok p) ↔ (
            (positions ≢ [])
            × All IsPosition positions
            × ((pin : P.HostPin) × (c : Protocol.DeviceContext) × (L.host_pin positions ≡ some pin)
                × PinContext pin kind c
                × (p ≡ record { command = send_pin (some c); expect = Expect.action })))
    unfolding plan
    plan-send_pin_iff positions kind p = (
      λ h.
          let (_, good, h1) = >>=-eq-ok (reject_if (bad_positions positions) _) _ h in
          let (pin, pe, h2) = >>=-eq-ok (or_err (L.host_pin positions) _) _ h1 in
          let (c, ce, h3) = >>=-eq-ok (pin_context pin kind) _ h2 in
          let (ne, digits) = (bad_positions_iff positions).0 (reject_if-eq-ok _ _ good) in
          (
            ne,
            digits,
            (pin, c, or_err-eq-ok _ _ pe, (pin_context_iff pin kind c).0 ce, ground arith),
          ),
      λ (ne, digits, (pin, c, e, pc, pe)).
          rw
            ((bad_positions_iff positions).1 (ne, digits), e, (pin_context_iff pin kind c).1 pc, pe)
            refl,
    )

    -- The keys are those of the texts, in order, each concrete for the family.
    abbrev pub Parsed : DeviceKind → List Text → List DescriptorPublicKey → Type 0
    Parsed kind [] [] = Unit
    Parsed kind [] (key ∷ keys) = ⊥
    Parsed kind (text ∷ texts) [] = ⊥
    Parsed kind (text ∷ texts) (key ∷ keys) =
        (L.parse_key text ≡ some key) × IsConcrete kind key × Parsed kind texts keys

    parse_concrete_keys_iff :
        (kind : DeviceKind) (texts : List Text) (keys : List DescriptorPublicKey)
        → (parse_concrete_keys texts kind ≡ ok keys) ↔ Parsed kind texts keys
    unfolding parse_concrete_keys
    parse_concrete_keys_iff kind [] [] = ground arith
    parse_concrete_keys_iff kind [] (key ∷ keys) = ground arith
    parse_concrete_keys_iff kind (text ∷ texts) [] = (
      λ h.
          let (k, ke, h1) = >>=-eq-ok (parse_concrete_key text kind) _ h in
          let (ks, kse, h2) = >>=-eq-ok (parse_concrete_keys texts kind) _ h1 in cc h2,
      λ h. absurd h,
    )
    parse_concrete_keys_iff kind (text ∷ texts) (key ∷ keys) = (
      λ h.
          let (k, ke, h1) = >>=-eq-ok (parse_concrete_key text kind) _ h in
          let (ks, kse, h2) = >>=-eq-ok (parse_concrete_keys texts kind) _ h1 in
          let (parsed, concrete) = (parse_concrete_key_iff text kind key).0 (ground arith) in
          (parsed, concrete, (parse_concrete_keys_iff kind texts keys).0 (ground arith)),
      λ (parsed, concrete, rest).
          rw
            (
              (parse_concrete_key_iff text kind key).1 (parsed, concrete),
              (parse_concrete_keys_iff kind texts keys).1 rest,
            )
            refl,
    )

    -- A multisig address is planned exactly when there are 1 to 15 keys, a threshold between 1 and
    -- their number, sorted keys on KeepKey, and every key text parses to a concrete key for the
    -- family; the plan then shows those keys in that order.
    pub plan-display_multisig_iff :
        (threshold : ℕ) (sorted : Bool) (format : MultisigAddressFormat) (texts : List Text)
        (kind : DeviceKind) (p : Plan)
        → (plan (Command.display_multisig_address threshold sorted format texts) kind ≡ ok p) ↔ (
            (1 ≤ threshold)
            × (threshold ≤ length texts)
            × (length texts ≤ 15)
            × (kind ≡ keepkey → sorted ≡ true)
            × ((keys : List DescriptorPublicKey) × Parsed kind texts keys
                × (p ≡ record {
                  command =
                      Protocol.display_address
                        (by_multisig (record {
                          threshold = threshold;
                          sorted = sorted;
                          address_type = to_multisig_type format;
                          keys = keys;
                        }))
                        none;
                  expect = Expect.address;
                })))
    unfolding plan
    plan-display_multisig_iff threshold sorted format texts kind p = (
      λ h.
          let (_, g1, h1) = >>=-eq-ok (reject_if (bad_multisig threshold texts) _) _ h in
          let (_, g2, h2) = >>=-eq-ok (reject_if (kind == keepkey && not sorted) _) _ h1 in
          let (keys, ke, h3) = >>=-eq-ok (parse_concrete_keys texts kind) _ h2 in
          let (low, high, few) = (bad_multisig_iff threshold texts).0 (reject_if-eq-ok _ _ g1) in
          (
            low,
            high,
            few,
            (sorted_iff kind sorted).0 (reject_if-eq-ok _ _ g2),
            (keys, (parse_concrete_keys_iff kind texts keys).0 ke, ground arith),
          ),
      λ (low, high, few, s, (keys, parsed, pe)).
          rw
            (
              (bad_multisig_iff threshold texts).1 (low, high, few),
              (sorted_iff kind sorted).1 s,
              (parse_concrete_keys_iff kind texts keys).1 parsed,
              pe,
            )
            refl,
    )
