-- ===== src/Helpers.antt =====
-- bhwi-ffi/src/helpers.rs: the helpers that need no device.
pub mod Origin
pub mod Steps
pub mod Described
pub mod Descriptor
pub mod Addresses
pub mod Fee
use bhwi_ffi.Prelude.{
  ℕ, zero, suc, ◌+◌, ◌-◌, ◌^◌, Bool, true, false, Option, none, some, List, [], ◌∷◌, ◌++◌, ltb, leb,
  eqb, is_empty, get_elem?, if◌then◌else◌, ◌!=◌,
}
use bhwi_ffi.Text.{Text, chars, trim, trim_start_by, trim_end_by}
use bhwi_ffi.Error.{Outcome, ok, err, invalid_input, or_err, reject_if, ◌>>=◌, ◌>>◌}
use bhwi_ffi.Network.{
  Network, to_core_network, AddressFormat, legacy, nested_segwit, native_segwit, taproot,
}
use bhwi_ffi.Core.Primitives.{Primitives}
use bhwi_ffi.Core.Result.{CoreResult, success, failure}
use bhwi_ffi.Core.Bitcoin.{
  CoreNetwork, network_kind_eq, Xpub, TxOut, OutPoint, Transaction, Input, Psbt,
}
use bhwi_ffi.Core.Library.{Library}
use bhwi_ffi.Types.Codec.{decode_psbt}

-- `MAX_DERIVE_COUNT`
abbrev pub max_derive_count : ℕ
max_derive_count = 1000

pub record AddressEntry : Type 0 where
  pub index : ℕ
  pub address : Text

pub record InputSummary : Type 0 where
  pub prev_txid : Text
  pub vout : ℕ
  pub amount_sat : Option ℕ

pub record OutputSummary : Type 0 where
  pub address : Option Text
  pub amount_sat : ℕ

pub record PsbtSummary : Type 0 where
  pub inputs : List InputSummary
  pub outputs : List OutputSummary
  pub fee_sat : Option ℕ

abbrev pub slash : ℕ
slash = b'/'

-- The origin path, with or without a leading `m/`.
unfoldable pub normalize_origin : Text → Text
normalize_origin origin_path =
    trim_end_by (λ c. eqb c slash)
      (trim_start_by (λ c. eqb c slash) (trim_start_by (λ c. eqb c b'm') (trim origin_path)))

-- the match on `kind`
unfoldable pub wrap_key : AddressFormat → Text → Text
wrap_key legacy key = chars "pkh(" ++ (key ++ chars ")")
wrap_key nested_segwit key = chars "sh(wpkh(" ++ (key ++ chars "))")
wrap_key native_segwit key = chars "wpkh(" ++ (key ++ chars ")")
wrap_key taproot key = chars "tr(" ++ (key ++ chars ")")

-- `start.checked_add(count)` at `u32`
unfoldable pub checked_add_u32 : ℕ → ℕ → Option ℕ
checked_add_u32 start count = if ltb (start + count) (2 ^ 32) then some (start + count) else none

-- `map_err(|e| HwiError::invalid(e.to_string()))`
abbrev pub or_message {ℓ} : {A : Type ℓ} → CoreResult Prim.Native.String.String A → Outcome A
or_message (success a) = ok a
or_message (failure msg) = err (invalid_input msg)

abbrev pub branch_index : Bool → ℕ
branch_index false = 0
branch_index true = 1

module _ ⦃P : Primitives⦄ ⦃L : Library⦄ where
  -- The key expression, from the texts that the source formats.
  unfoldable pub key_text : Text → Text → Text → Text
  key_text fingerprint origin xpub =
      if is_empty origin
      then chars "[" ++ (fingerprint ++ (chars "]" ++ (xpub ++ chars "/<0;1>/*")))
      else chars "["
        ++ (fingerprint ++ (chars "/" ++ (origin ++ (chars "]" ++ (xpub ++ chars "/<0;1>/*")))))

  unfoldable pub build_singlesig_descriptor :
      Text → Text → Text → AddressFormat → Network → Outcome Text
  unfolding key_text normalize_origin wrap_key
  build_singlesig_descriptor xpub fingerprint origin_path kind network = do
    parsed_xpub ← or_err (L.parse_xpub (trim xpub)) (invalid_input "invalid extended public key")
    reject_if (parsed_xpub.network != L.network_kind (to_core_network network))
        (invalid_input "extended public key does not match the requested network")
    parsed ←
        or_err (L.parse_fingerprint (trim fingerprint)) (invalid_input "invalid master fingerprint")
    let origin = normalize_origin origin_path
    let key = key_text (L.show_fingerprint parsed) origin (L.show_xpub parsed_xpub)
    descriptor ←
        or_err (L.parse_descriptor (wrap_key kind key)) (invalid_input "invalid descriptor")
    ok (L.show_descriptor descriptor)

  -- the loop over `start..end`, with `end - start` rounds to go
  unfoldable pub derive_from :
      P.SingleDescriptor → CoreNetwork → ℕ → ℕ → Outcome (List AddressEntry)
  derive_from branch network zero index = ok []
  derive_from branch network (suc rounds) index = do
    address ← or_message (L.derive_address branch index network)
    entries ← derive_from branch network rounds (index + 1)
    ok (record { index = index; address = address } ∷ entries)

  unfoldable pub derive_addresses : Text → Network → Bool → ℕ → ℕ → Outcome (List AddressEntry)
  unfolding checked_add_u32
  derive_addresses descriptor network change start count = do
    reject_if (ltb max_derive_count count) (invalid_input "count must be at most 1000")
    end ← or_err (checked_add_u32 start count) (invalid_input "derivation index range overflows")
    parsed ← or_err (L.parse_descriptor (trim descriptor)) (invalid_input "invalid descriptor")
    branches ← or_message (L.into_single_descriptors parsed)
    branch ←
        or_err (get_elem? branches (branch_index change))
          (invalid_input "descriptor has no change branch")
    derive_from branch (to_core_network network) (end - start) start

  -- `input.witness_utxo.as_ref().or_else(…)`
  unfoldable pub utxo_of : OutPoint → Input → Option TxOut
  utxo_of out_point input = elim input.witness_utxo [
    | some utxo ↦ some utxo
    | none ↦ elim input.non_witness_utxo [
      | some tx ↦ get_elem? tx.output out_point.vout
      | none ↦ none
    ]
  ]

  -- `psbt.inputs.get(index).and_then(…)`
  unfoldable pub utxo_at : List Input → ℕ → OutPoint → Option TxOut
  unfolding utxo_of
  utxo_at inputs index out_point = elim (get_elem? inputs index) [
    | some input ↦ utxo_of out_point input
    | none ↦ none
  ]

  -- the match on `(total_in, utxo)`
  unfoldable pub add_input : Option ℕ → Option TxOut → Option ℕ
  add_input (some sum) (some utxo) = L.checked_add sum utxo.value
  add_input _ _ = none

  -- `utxo.map(|utxo| utxo.value.to_sat())`
  abbrev pub value_of : Option TxOut → Option ℕ
  value_of none = none
  value_of (some utxo) = some utxo.value

  unfoldable pub summarize_input : List Input → ℕ → OutPoint → InputSummary
  summarize_input inputs index out_point = record {
    prev_txid = L.show_txid out_point.txid;
    vout = out_point.vout;
    amount_sat = value_of (utxo_at inputs index out_point);
  }

  -- the loop over the inputs of the transaction, from `index`
  unfoldable pub scan_inputs :
      List Input → List OutPoint → ℕ → Option ℕ → Option ℕ × List InputSummary
  scan_inputs inputs [] index total_in = (total_in, [])
  scan_inputs inputs (out_point ∷ rest) index total_in =
      let (total, summaries) =
        scan_inputs inputs rest (index + 1) (add_input total_in (utxo_at inputs index out_point)) in
      (total, summarize_input inputs index out_point ∷ summaries)

  -- `total_out.and_then(|sum| sum.checked_add(txout.value))`
  unfoldable pub add_output : Option ℕ → TxOut → Option ℕ
  add_output none txout = none
  add_output (some sum) txout = L.checked_add sum txout.value

  unfoldable pub summarize_output : CoreNetwork → TxOut → OutputSummary
  summarize_output network txout = record {
    address = L.address_from_script txout.script_pubkey network;
    amount_sat = txout.value;
  }

  -- the closure that maps the outputs of the transaction
  unfoldable pub scan_outputs : CoreNetwork → List TxOut → Option ℕ → Option ℕ × List OutputSummary
  scan_outputs network [] total_out = (total_out, [])
  scan_outputs network (txout ∷ rest) total_out =
      let (total, summaries) = scan_outputs network rest (add_output total_out txout) in
      (total, summarize_output network txout ∷ summaries)

  -- the match on `(total_in, total_out)`
  unfoldable pub fee_of : Option ℕ → Option ℕ → Option ℕ
  fee_of (some input) (some output) = L.checked_sub input output
  fee_of _ _ = none

  -- the part of `psbt_summary` after decoding
  unfoldable pub summarize : CoreNetwork → Psbt → PsbtSummary
  unfolding fee_of
  summarize network psbt =
      let (total_in, inputs) = scan_inputs psbt.inputs psbt.unsigned_tx.input 0 (some 0) in
      let (total_out, outputs) = scan_outputs network psbt.unsigned_tx.output (some 0) in
      record { inputs = inputs; outputs = outputs; fee_sat = fee_of total_in total_out }

  unfoldable pub psbt_summary : Text → Network → Outcome PsbtSummary
  unfolding summarize
  psbt_summary psbt_base64 network = do
    psbt ← decode_psbt psbt_base64
    ok (summarize (to_core_network network) psbt)
