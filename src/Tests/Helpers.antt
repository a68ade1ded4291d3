-- ===== src/Tests/Helpers.antt =====
-- The helpers of bhwi-ffi/src/helpers.rs on concrete descriptors and PSBTs.
use bhwi_ffi.Prelude.{
  ℕ, ◌+◌, ◌^◌, ◌≤◌, ◌<◌, true, false, Option, none, some, List, [], ◌∷◌, length, get_elem?, ◌≡◌,
  ◌↔◌, refl, arith,
}
use bhwi_ffi.Text.{Text, chars, trim, trim_start_by, trim_end_by, is_whitespace}
use bhwi_ffi.Error.{ok}
use bhwi_ffi.Network.{Network, native_segwit, to_core_network}
use bhwi_ffi.Core.Result.{success}
use bhwi_ffi.Core.Bitcoin.{Psbt, Xpub, main, hardened}
use bhwi_ffi.Core.Library.{Library, AmountLaws, DescriptorLaws}
use bhwi_ffi.Types.Codec.{decode_psbt}
use bhwi_ffi.Helpers.{
  AddressEntry, PsbtSummary, build_singlesig_descriptor, derive_addresses, derive_from,
  checked_add_u32, normalize_origin, key_text, wrap_key, psbt_summary, summarize, scan_inputs,
  scan_outputs, utxo_at, utxo_of, add_input, add_output, fee_of,
}
use bhwi_ffi.Helpers.Addresses.{
  HasBranch, EntryAt, Derived, derive_addresses_iff, derive_addresses_bounds,
}
use bhwi_ffi.Helpers.Origin.{starts_by}
use bhwi_ffi.Helpers.Described.{Describes}
use bhwi_ffi.Helpers.Descriptor.{build_singlesig_descriptor-prefix, build-derive_addresses}
use bhwi_ffi.Helpers.Fee.{sum, total_of, input_amounts, output_amounts, psbt_summary-fee_sat}
use bhwi_ffi.Tests.{sample_primitives, sample_library, unsigned_input}

-- a descriptor is the second `char` of its text
abbrev second : Text → Option ℕ
second [] = none
second (c ∷ []) = none
second (c ∷ d ∷ s) = some d

abbrev account_xpub : Xpub
account_xpub = record {
  network = main;
  depth = 3;
  child_number = hardened 0;
  encoded = chars "xpub";
}

-- one input of 500 satoshis and two outputs of 400 and 80
abbrev paying : Psbt
paying = record {
  unsigned_tx = record {
    input = record { txid = 4; vout = 1 } ∷ [];
    output =
        record { value = 400; script_pubkey = 1 } ∷ record { value = 80; script_pubkey = 2 } ∷ [];
  };
  inputs =
      record unsigned_input { witness_utxo = some (record { value = 500; script_pubkey = 3 }) }
      ∷ [];
}

abbrev wallet_library : Library
wallet_library = record sample_library {
  psbt_deserialize = λ b. some paying;
  parse_xpub = λ t. some account_xpub;
  parse_fingerprint = λ t. some 9;
  parse_descriptor = second;
  show_descriptor = λ d. b'(' ∷ d ∷ b')' ∷ [];
}

wallet_add_iff :
    (a b c : ℕ) → (wallet_library.checked_add a b ≡ some c) ↔ ((a + b ≡ c) × (c ≤ 1000))
wallet_add_iff a b c = ground arith

wallet_sub_iff : (a b c : ℕ) → (wallet_library.checked_sub a b ≡ some c) ↔ (b + c ≡ a)
wallet_sub_iff a b c = ground arith

abbrev wallet_amounts : AmountLaws wallet_library
wallet_amounts = record { max = 1000; add_iff = wallet_add_iff; sub_iff = wallet_sub_iff }

wallet-DescriptorLaws : DescriptorLaws wallet_library
unfolding trim trim_start_by trim_end_by is_whitespace
wallet-DescriptorLaws = record { parse_show = λ d. refl; trim_show = λ d. refl }

abbrev two_addresses : List AddressEntry
two_addresses =
    record { index = 7; address = b'p' ∷ 7 ∷ [] }
    ∷ record { index = 8; address = b'p' ∷ 8 ∷ [] }
    ∷ []

derives :
    derive_addresses ⦃L = wallet_library⦄ (chars "(p)") Network.bitcoin true 7 2 ≡ ok two_addresses
unfolding derive_addresses derive_from checked_add_u32 trim trim_start_by trim_end_by is_whitespace
derives = refl

abbrev built : Text
built = chars "(p)"

builds :
    build_singlesig_descriptor ⦃L = wallet_library⦄
      (chars "xpub")
      (chars "9")
      (chars "84'/0'/0'")
      native_segwit
      Network.bitcoin
    ≡ ok built
unfolding build_singlesig_descriptor normalize_origin key_text wrap_key trim trim_start_by
    trim_end_by is_whitespace
builds = refl

abbrev paying_summary : PsbtSummary
paying_summary = summarize ⦃L = wallet_library⦄ (to_core_network Network.bitcoin) paying

summarizes : psbt_summary ⦃L = wallet_library⦄ [] Network.bitcoin ≡ ok paying_summary
unfolding psbt_summary decode_psbt trim trim_start_by trim_end_by
summarizes = refl

pays : paying_summary.fee_sat ≡ some 20
unfolding summarize scan_inputs scan_outputs utxo_at utxo_of add_input add_output fee_of
pays = refl

derive_addresses_iff_example :
    (derive_addresses ⦃L = wallet_library⦄ (chars "(p)") Network.bitcoin true 7 2
      ≡ ok two_addresses)
    ↔ ((2 ≤ 1000)
        × (7 + 2 < 2 ^ 32)
        × ((branch : ℕ) × HasBranch ⦃L = wallet_library⦄ (chars "(p)") true branch
            × Derived ⦃L = wallet_library⦄ branch
                (to_core_network Network.bitcoin)
                2
                7
                two_addresses))
derive_addresses_iff_example =
    derive_addresses_iff ⦃L = wallet_library⦄ (chars "(p)") Network.bitcoin true 7 2 two_addresses

derive_addresses_bounds_example :
    (length two_addresses ≡ 2)
    × (2 ≤ 1000)
    × (7 + 1 < 2 ^ 32)
    × ((branch : ℕ) × HasBranch ⦃L = wallet_library⦄ (chars "(p)") true branch
        × EntryAt ⦃L = wallet_library⦄ branch
            (to_core_network Network.bitcoin)
            8
            (get_elem? two_addresses 1))
derive_addresses_bounds_example =
    derive_addresses_bounds ⦃L = wallet_library⦄ (chars "(p)") Network.bitcoin true 7 2 1
      two_addresses derives (omega arith)

visible : starts_by is_whitespace (chars "84'/0'/0'") ≡ false
unfolding is_whitespace
visible = refl

build_singlesig_descriptor-prefix_example :
    build_singlesig_descriptor ⦃L = wallet_library⦄
      (chars "xpub")
      (chars "9")
      (chars "m/84'/0'/0'")
      native_segwit
      Network.bitcoin
    ≡ build_singlesig_descriptor ⦃L = wallet_library⦄
        (chars "xpub")
        (chars "9")
        (chars "84'/0'/0'")
        native_segwit
        Network.bitcoin
build_singlesig_descriptor-prefix_example =
    build_singlesig_descriptor-prefix ⦃L = wallet_library⦄ (chars "xpub") (chars "9")
      (chars "84'/0'/0'") native_segwit Network.bitcoin visible refl

build-derive_addresses_example :
    ((d : ℕ) × Describes ⦃L = wallet_library⦄
        (chars "xpub")
        (chars "9")
        (chars "84'/0'/0'")
        native_segwit
        Network.bitcoin
        d
      × (built ≡ wallet_library.show_descriptor d))
    × ((derive_addresses ⦃L = wallet_library⦄ built Network.bitcoin true 7 2 ≡ ok two_addresses) ↔ (
        (2 ≤ 1000)
        × (7 + 2 < 2 ^ 32)
        × ((branches : List ℕ) × (branch : ℕ) × (wallet_library.into_single_descriptors b'p'
              ≡ success branches)
            × (get_elem? branches 1 ≡ some branch)
            × Derived ⦃L = wallet_library⦄ branch
                (to_core_network Network.bitcoin)
                2
                7
                two_addresses)))
build-derive_addresses_example =
    let both =
      build-derive_addresses ⦃L = wallet_library⦄ wallet-DescriptorLaws (chars "xpub") (chars "9")
        (chars "84'/0'/0'") native_segwit Network.bitcoin built true 7 2 two_addresses in
    (both.0.0 builds, both.1 b'p' refl)

psbt_summary-fee_sat_example : (paying_summary.fee_sat ≡ some 20) ↔ (
    (spent : ℕ) × (total_of (input_amounts paying_summary) ≡ some spent)
    × (spent ≤ 1000)
    × (sum (output_amounts paying_summary) + 20 ≡ spent))
psbt_summary-fee_sat_example =
    psbt_summary-fee_sat ⦃L = wallet_library⦄ wallet_amounts [] Network.bitcoin paying_summary 20
      summarizes
