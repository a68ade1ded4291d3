-- ===== src/State/Specter.antt =====
-- bhwi-ffi/src/state.rs: `SpecterFrameDecoder`, one serial reply.
use bhwi_ffi.Prelude.{
  ℕ, ◌+◌, ◌≤◌, ◌≢◌, Bool, true, false, Option, none, some, List, [], ◌∷◌, ◌++◌, ◌≡◌, ◌⊎◌, inl, inr,
  refl, if◌then◌else◌, arith,
}
use bhwi_ffi.Text.{Bytes}
use bhwi_ffi.Error.{Outcome, ok, err, bad_state, internal}
use bhwi_ffi.Core.Primitives.{Primitives}
use bhwi_ffi.Core.Result.{CoreResult, success, failure}
use bhwi_ffi.Core.Protocol.{Error}
use bhwi_ffi.Core.Device.{Device}
use bhwi_ffi.Types.Device.{specter}
use bhwi_ffi.Types.Errors.{map_error}
use bhwi_ffi.State.Leased.{Mutex, mutex}

-- b"ACK\r\n" and b"\r\n"
abbrev ack : Bytes
ack = 65 ∷ 67 ∷ 75 ∷ 13 ∷ 10 ∷ []

abbrev crlf : Bytes
crlf = 13 ∷ 10 ∷ []

module _ ⦃P : Primitives⦄ where
  pub record SpecterFrameDecoder : Type 0 where
    pub decoder : Mutex (Option P.ResponseDecoder)

  -- the match on `decoder.push(&bytes)`
  settle_push :
      SpecterFrameDecoder
      → P.ResponseDecoder × CoreResult Error (Option Bytes)
      → Outcome (Option Bytes) × SpecterFrameDecoder
  settle_push s (next, success none) =
      (ok none, record s { decoder = record (s.decoder) { value = some next } })
  settle_push s (next, success (some payload)) = (
    ok (some (ack ++ (payload ++ crlf))),
    record s { decoder = record (s.decoder) { value = none } },
  )
  settle_push s (next, failure error) =
      (err (map_error error specter), record s { decoder = record (s.decoder) { value = none } })

  module _ ⦃D : Device⦄ where
    -- `SpecterFrameDecoder::new`
    unfoldable pub new_decoder : SpecterFrameDecoder
    new_decoder = record { decoder = mutex (some D.decoder_default) }

    -- `SpecterFrameDecoder::push`
    unfoldable pub push : Bytes → SpecterFrameDecoder → Outcome (Option Bytes) × SpecterFrameDecoder
    unfolding settle_push
    push bytes s =
        if s.decoder.poisoned
        then (err (internal "Specter decoder lock poisoned"), s)
        else elim s.decoder.value [
          | none ↦ (err (bad_state "Specter decoder is retired"), s)
          | some decoder ↦ settle_push s (D.decoder_push decoder bytes)
        ]

    -- Consecutive pushes, with their outcomes.
    unfoldable pub feed : List Bytes → SpecterFrameDecoder → List (Outcome (Option Bytes))
    feed [] s = []
    feed (bytes ∷ rest) s = let (r, s') = push bytes s in r ∷ feed rest s'

    abbrev pub is_frame : Outcome (Option Bytes) → Bool
    is_frame (ok (some frame)) = true
    is_frame _ = false

    abbrev pub frames : List (Outcome (Option Bytes)) → ℕ
    frames [] = 0
    frames (r ∷ rs) = (if is_frame r then 1 else 0) + frames rs

    abbrev IsRetired : SpecterFrameDecoder → Type 0
    IsRetired s = (s.decoder.poisoned ≡ false) × (s.decoder.value ≡ none)

    push-retired :
        (bytes : Bytes) (s : SpecterFrameDecoder)
        → IsRetired s
        → push bytes s ≡ (err (bad_state "Specter decoder is retired"), s)
    unfolding push
    push-retired bytes s h = ground arith

    feed-retired :
        (chunks : List Bytes) (s : SpecterFrameDecoder) → IsRetired s → frames (feed chunks s) ≡ 0
    unfolding feed
    feed-retired [] s h = refl
    feed-retired (bytes ∷ rest) s h =
        rw (push-retired bytes s h) (omega (arith, feed-retired rest s h))

    -- What one push of a live decoder gives: it asks for more and lives on, or it returns a frame or
    -- an error and is retired.
    push_cases :
        (bytes : Bytes) (s : SpecterFrameDecoder)
        → s.decoder.poisoned ≡ false
        → ((push bytes s).1.decoder.poisoned ≡ false)
          × (((push bytes s).0 ≡ ok none) ⊎ IsRetired (push bytes s).1)
    unfolding push
    push_cases bytes s h = ground arith

    -- Whatever arrives, a decoder returns at most one frame in its life.
    pub frames_once :
        (chunks : List Bytes) (s : SpecterFrameDecoder)
        → s.decoder.poisoned ≡ false
        → frames (feed chunks s) ≤ 1
    unfolding feed
    frames_once [] s h = omega arith
    frames_once (bytes ∷ rest) s h =
        let (sound, cases) = push_cases bytes s h in
        elim cases [
          | inl e ↦ rw e (omega (arith, frames_once rest (push bytes s).1 sound))
          | inr r ↦ ground (arith, feed-retired rest (push bytes s).1 r)
        ]

    -- After a frame or an error, a push reports the bad state and changes nothing.
    pub push_retires :
        (bytes later : Bytes) (s : SpecterFrameDecoder)
        → s.decoder.poisoned ≡ false
        → (push bytes s).0 ≢ ok none
        → push later (push bytes s).1
          ≡ (err (bad_state "Specter decoder is retired"), (push bytes s).1)
    push_retires bytes later s h n = elim (push_cases bytes s h).1 [
      | inl e ↦ absurd (n e)
      | inr r ↦ push-retired later _ r
    ]
