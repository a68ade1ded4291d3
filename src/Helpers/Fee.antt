-- ===== src/Helpers/Fee.antt =====
-- bhwi-ffi/src/helpers.rs: the fee and the amounts of `psbt_summary`.
use bhwi_ffi.Prelude.{
  ℕ, ◌+◌, ◌≤◌, Option, none, some, List, [], ◌∷◌, map, ◌≡◌, ◌↔◌, refl, ap, arith, Option-cases, inl,
  inr, subst,
}
use bhwi_ffi.Text.{Text}
use bhwi_ffi.Error.{ok, >>=-eq-ok}
use bhwi_ffi.Types.Codec.{decode_psbt}
use bhwi_ffi.Network.{Network, to_core_network}
use bhwi_ffi.Core.Primitives.{Primitives}
use bhwi_ffi.Core.Bitcoin.{CoreNetwork, TxOut, OutPoint, Input, Psbt}
use bhwi_ffi.Core.Library.{Library, AmountLaws}
use bhwi_ffi.Helpers.{
  InputSummary, OutputSummary, PsbtSummary, utxo_at, add_input, scan_inputs, summarize_input,
  add_output, scan_outputs, summarize_output, fee_of, summarize, psbt_summary,
}

abbrev pub sum : List ℕ → ℕ
sum [] = 0
sum (x ∷ xs) = x + sum xs

-- The sum of a list of amounts, if all of them are known.
abbrev pub total_of : List (Option ℕ) → Option ℕ
total_of [] = some 0
total_of (none ∷ rest) = none
total_of (some a ∷ rest) = elim (total_of rest) [ none ↦ none | some t ↦ some (a + t) ]

-- the amounts that a summary shows
abbrev pub input_amounts : PsbtSummary → List (Option ℕ)
input_amounts s = map (λ (i : InputSummary). i.amount_sat) s.inputs

abbrev pub output_amounts : PsbtSummary → List ℕ
output_amounts s = map (λ (o : OutputSummary). o.amount_sat) s.outputs

module _ ⦃P : Primitives⦄ ⦃L : Library⦄ where
  scan_inputs-none :
      (inputs : List Input) (points : List OutPoint) (index : ℕ)
      → (scan_inputs inputs points index none).0 ≡ none
  unfolding scan_inputs add_input
  scan_inputs-none inputs [] index = refl
  scan_inputs-none inputs (p ∷ points) index = scan_inputs-none inputs points (index + 1)

  scan_outputs-none :
      (network : CoreNetwork) (outputs : List TxOut) → (scan_outputs network outputs none).0 ≡ none
  unfolding scan_outputs add_output
  scan_outputs-none network [] = refl
  scan_outputs-none network (o ∷ outputs) = scan_outputs-none network outputs

  abbrev pub shown : List InputSummary → List (Option ℕ)
  shown = map (λ (i : InputSummary). i.amount_sat)

  total_of-known :
      (a total : ℕ) (rest : List (Option ℕ))
      → (total_of (some a ∷ rest) ≡ some total)
        ↔ ((t : ℕ) × (total_of rest ≡ some t) × (a + t ≡ total))
  total_of-known a total rest = elim (Option-cases (total_of rest)) [
    | inl e ↦ rw e (λ h. cc h, λ (t, h, same). cc h)
    | inr (t, e) ↦ rw e (λ h. (t, refl, ground arith), λ (u, h, same). ground arith)
  ]

  module _ (laws : AmountLaws L) where
    -- One amount `v` more at the front of those that are shown.
    one_more_iff :
        (acc v c total : ℕ) (rest : List (Option ℕ))
        → acc + v ≡ c
        → ((spent : ℕ) × (total_of rest ≡ some spent) × (c + spent ≡ total) × (total ≤ laws.max))
          ↔ ((spent : ℕ) × (total_of (some v ∷ rest) ≡ some spent)
              × (acc + spent ≡ total)
              × (total ≤ laws.max))
    one_more_iff acc v c total rest same = (
      λ (r, t, a, b). (v + r, (total_of-known v (v + r) rest).1 (r, t, refl), omega arith, b),
      λ (spent, t, a, b).
          let (r, tr, sr) = (total_of-known v spent rest).0 t in (r, tr, omega arith, b),
    )

    scan_inputs_iff :
        (inputs : List Input) (points : List OutPoint) (index acc total : ℕ)
        → acc ≤ laws.max
        → ((scan_inputs inputs points index (some acc)).0 ≡ some total) ↔ (
            (spent : ℕ) × (total_of (shown (scan_inputs inputs points index (some acc)).1)
              ≡ some spent)
            × (acc + spent ≡ total)
            × (total ≤ laws.max))
    unfolding scan_inputs add_input summarize_input
    scan_inputs_iff inputs [] index acc total low =
        (λ h. (0, refl, ground arith, ground arith), λ (spent, e, t, b). ground arith)
    scan_inputs_iff inputs (p ∷ points) index acc total low =
        elim (Option-cases (utxo_at inputs index p)) [
          | inl e ↦ rw e (
            λ h. ground (arith, scan_inputs-none inputs points (index + 1)),
            λ (spent, t, a, b). cc t,
          )
          | inr (u, e) ↦ rw e (elim (Option-cases (L.checked_add acc u.value)) [
            | inl over ↦ rw over (
              λ h. ground (arith, scan_inputs-none inputs points (index + 1)),
              λ (spent, t, a, b).
                  let (r, _, same) =
                    (total_of-known u.value spent
                        (shown (scan_inputs inputs points (index + 1) none).1)).0
                      t in
                  ground (arith, laws.add_iff acc u.value (acc + u.value)),
            )
            | inr (c, fits) ↦ rw fits (
                let (same, low') = (laws.add_iff acc u.value c).0 fits in
                let rest = shown (scan_inputs inputs points (index + 1) (some c)).1 in
                let onward = scan_inputs_iff inputs points (index + 1) c total low' in
                let more = one_more_iff acc u.value c total rest same in
                (λ h. more.0 (onward.0 h), λ h. onward.1 (more.1 h)))
          ])
        ]

    scan_outputs_iff :
        (network : CoreNetwork) (outputs : List TxOut) (acc total : ℕ)
        → acc ≤ laws.max
        → ((scan_outputs network outputs (some acc)).0 ≡ some total)
          ↔ ((acc + sum (map (λ (o : TxOut). o.value) outputs) ≡ total) × (total ≤ laws.max))
    unfolding scan_outputs add_output
    scan_outputs_iff network [] acc total low = ground arith
    scan_outputs_iff network (o ∷ outputs) acc total low =
        elim (Option-cases (L.checked_add acc o.value)) [
          | inl over ↦ rw over (
              ground (
                arith,
                scan_outputs-none network outputs,
                laws.add_iff acc o.value (acc + o.value),
              ))
          | inr (c, fits) ↦
              rw fits (
                ground
                  (arith, scan_outputs_iff network outputs c total, laws.add_iff acc o.value c))
        ]

    map-scan_outputs :
        (network : CoreNetwork) (outputs : List TxOut) (acc : Option ℕ)
        → map (λ (o : OutputSummary). o.amount_sat) (scan_outputs network outputs acc).1
          ≡ map (λ (o : TxOut). o.value) outputs
    unfolding scan_outputs summarize_output
    map-scan_outputs network [] acc = refl
    map-scan_outputs network (o ∷ outputs) acc =
        ap (λ rest. o.value ∷ rest) (map-scan_outputs network outputs (add_output acc o))

    fee_of_iff :
        (input output : Option ℕ) (fee : ℕ)
        → (fee_of input output ≡ some fee)
          ↔ ((i : ℕ) × (o : ℕ) × (input ≡ some i) × (output ≡ some o) × (o + fee ≡ i))
    unfolding fee_of
    fee_of_iff none output fee = (λ h. cc h, λ (i, o, ie, oe, e). cc ie)
    fee_of_iff (some i) none fee = (λ h. cc h, λ (j, o, ie, oe, e). cc oe)
    fee_of_iff (some i) (some o) fee = (
      λ h. (i, o, refl, refl, (laws.sub_iff i o fee).0 h),
      λ (j, p, ie, oe, e). (laws.sub_iff i o fee).1 (ground arith),
    )

    summarize_iff :
        (network : CoreNetwork) (psbt : Psbt) (fee : ℕ)
        → let s = summarize network psbt in
          (s.fee_sat ≡ some fee) ↔ (
            (spent : ℕ) × (total_of (input_amounts s) ≡ some spent)
            × (spent ≤ laws.max)
            × (sum (output_amounts s) + fee ≡ spent))
    unfolding summarize
    summarize_iff network psbt fee =
        let points = psbt.unsigned_tx.input in
        let total_in = (scan_inputs psbt.inputs points 0 (some 0)).0 in
        let total_out = (scan_outputs network psbt.unsigned_tx.output (some 0)).0 in
        let ins = scan_inputs_iff psbt.inputs psbt.unsigned_tx.input 0 0 in
        let outs = scan_outputs_iff network psbt.unsigned_tx.output 0 in
        let same = map-scan_outputs network psbt.unsigned_tx.output (some 0) in
        (
          λ h.
              let (i, o, ie, oe, e) = (fee_of_iff total_in total_out fee).0 h in
              let (spent, t, a, b) = (ins i (omega arith)).0 ie in
              let (so, low) = (outs o (omega arith)).0 oe in
              (spent, t, omega arith, rw same (omega arith)),
          λ (spent, t, low, e).
              let e' : sum (map (λ (o : TxOut). o.value) psbt.unsigned_tx.output) + fee ≡ spent =
                rw same at e in
              (fee_of_iff total_in total_out fee).1 (
                spent,
                sum (map (λ (o : TxOut). o.value) psbt.unsigned_tx.output),
                (ins spent (omega arith)).1 (spent, t, omega arith, low),
                (outs _ (omega arith)).1 (omega arith, omega arith),
                e',
              ),
        )

    -- Where `psbt_summary` succeeds, and checked amounts behave as documented, the fee that it shows and
    -- the amounts that it shows agree: there is a fee exactly when every input has a known amount, their
    -- sum is a legal amount, and the outputs cost no more; the outputs and the fee then sum up to the
    -- inputs.
    pub psbt_summary-fee_sat :
        (psbt_base64 : Text) (network : Network) (s : PsbtSummary) (fee : ℕ)
        → psbt_summary psbt_base64 network ≡ ok s
        → (s.fee_sat ≡ some fee) ↔ (
            (spent : ℕ) × (total_of (input_amounts s) ≡ some spent)
            × (spent ≤ laws.max)
            × (sum (output_amounts s) + fee ≡ spent))
    unfolding psbt_summary
    psbt_summary-fee_sat psbt_base64 network s fee h =
        let (psbt, _, h1) = >>=-eq-ok (decode_psbt psbt_base64) _ h in
        let same : summarize (to_core_network network) psbt ≡ s = ground arith in
        subst
          (λ (t : PsbtSummary). (t.fee_sat ≡ some fee) ↔ (
            (spent : ℕ) × (total_of (input_amounts t) ≡ some spent)
            × (spent ≤ laws.max)
            × (sum (output_amounts t) + fee ≡ spent)))
          same (summarize_iff (to_core_network network) psbt fee)
