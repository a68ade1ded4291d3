-- ===== src/Types/Codec.antt =====
-- bhwi-ffi/src/types.rs: `decode_psbt`, `encode_psbt` and `encode_signature`.
use bhwi_ffi.Prelude.{ℕ, ◌∷◌, ◌≡◌, ◌↔◌, some, refl}
use bhwi_ffi.Text.{Text, Bytes, trim}
use bhwi_ffi.Error.{Outcome, ok, invalid_input, or_err, ◌>>=◌, >>=-eq-ok, or_err-eq-ok}
use bhwi_ffi.Core.Primitives.{Primitives}
use bhwi_ffi.Core.Bitcoin.{Psbt}
use bhwi_ffi.Core.Library.{Library}

module _ ⦃P : Primitives⦄ ⦃L : Library⦄ where
  open L use {base64_decode, base64_encode, psbt_deserialize, psbt_serialize, compact_signature}

  unfoldable pub decode_psbt : Text → Outcome Psbt
  decode_psbt psbt_base64 = do
    raw ← or_err (base64_decode (trim psbt_base64)) (invalid_input "PSBT is not valid base64")
    or_err (psbt_deserialize raw) (invalid_input "invalid PSBT")

  unfoldable pub encode_psbt : Psbt → Text
  encode_psbt psbt = base64_encode (psbt_serialize psbt)

  unfoldable pub encode_signature : ℕ → P.MessageSignature → Text
  encode_signature header signature = base64_encode (header ∷ compact_signature signature)

  -- The text is the base64 of the bytes of the PSBT, perhaps within white space.
  abbrev pub IsPsbtText : Text → Psbt → Type 0
  IsPsbtText text psbt =
      (raw : Bytes) × (base64_decode (trim text) ≡ some raw) × (psbt_deserialize raw ≡ some psbt)

  pub decode_psbt_iff :
      (text : Text) (psbt : Psbt) → (decode_psbt text ≡ ok psbt) ↔ IsPsbtText text psbt
  unfolding decode_psbt
  decode_psbt_iff text psbt = (
    λ h.
        let (raw, re, h1) = >>=-eq-ok (or_err (base64_decode (trim text)) _) _ h in
        (raw, or_err-eq-ok _ _ re, or_err-eq-ok _ _ h1),
    λ (raw, re, pe). rw (re, pe) refl,
  )
