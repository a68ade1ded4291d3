-- ===== src/Tests/Handles.antt =====
-- Handles and replies on the concrete core, with the theorems about them.
use bhwi_ffi.Prelude.{
  ℕ, ◌+◌, true, false, Option, none, some, [], ◌∷◌, ◌≡◌, ◌≢◌, ◌↔◌, refl, arith, ◌^◌, ◌*◌, ◌++◌, ◌≤◌,
  eqb, replicate,
}
use bhwi_ffi.Text.{Bytes}
use bhwi_ffi.Error.{ok, panicked}
use bhwi_ffi.State.Leased.{Leased, mutex, acquire, release, with_cell, new, acquire_excludes}
use bhwi_ffi.State.Noise.{NoiseHandle, fire_hook, take_pairing_code}
use bhwi_ffi.State.Noise.Laws.{take_pairing_code_once}
use bhwi_ffi.Interp.Replies.{malformed_frame, bad_registration}
use bhwi_ffi.Interp.Replies.Framing.{IsFrame, malformed_frame_iff}
use bhwi_ffi.Interp.Fidelity.{check_psbt}
use bhwi_ffi.Interp.Fidelity.Faithful.{IsFaithful}
use bhwi_ffi.Interp.Fidelity.Keeps.{Pairwise, check_psbt_iff}
use bhwi_ffi.Interp.Replies.Registration.{IsBound, bad_registration_iff}
use bhwi_ffi.State.Specter.{SpecterFrameDecoder, push, feed, frames, frames_once}
use bhwi_ffi.Tests.{sample_primitives, sample_library, sample_device, unsigned_input, answered_psbt}

abbrev cell : Leased ℕ
cell = record { cell = 4; leased = false }

abbrev held_cell : Leased ℕ
held_cell = record { cell = 4; leased = true }

abbrev bump : ℕ → ℕ × ℕ
bump n = (n, n + 1)

cell_acquired : acquire cell ≡ some held_cell
unfolding acquire
cell_acquired = refl

acquire_excludes_example :
    (acquire held_cell ≡ none)
    × (with_cell bump held_cell ≡ (none, held_cell))
    × (held_cell.cell ≡ cell.cell)
    × (with_cell bump (release held_cell) ≡ (some 4, new 5))
acquire_excludes_example = acquire_excludes cell held_cell bump cell_acquired

abbrev handle : NoiseHandle
handle = record { state = record { cell = 0; leased = true }; pairing_code = mutex none }

take_pairing_code_once_example :
    let fired = fire_hook (2 ∷ []) (fire_hook (1 ∷ []) handle.pairing_code) in
    let (r, after) = take_pairing_code (record handle { pairing_code = fired }) in
    (r ≡ some (2 ∷ [])) × ((take_pairing_code after).0 ≡ none) × (after.state ≡ handle.state)
take_pairing_code_once_example = take_pairing_code_once handle (1 ∷ []) (2 ∷ []) refl

-- the frame of message type 17 without a payload
abbrev empty_frame : Bytes
empty_frame = 35 ∷ 35 ∷ 0 ∷ 17 ∷ 0 ∷ 0 ∷ 0 ∷ 0 ∷ []

malformed_frame_iff_example :
    ((malformed_frame 65535 empty_frame ≡ ok false) ↔ IsFrame empty_frame)
    × (malformed_frame 65535 empty_frame ≢ panicked)
malformed_frame_iff_example = malformed_frame_iff 65535 empty_frame (ground arith) (omega arith)

check_psbt_iff_example : (check_psbt (unsigned_input ∷ []) (some 3) answered_psbt ≡ ok tt) ↔ (
    (◌≡◌ {A = Option ℕ} (some 3) (some 3))
    × Pairwise IsFaithful (unsigned_input ∷ []) answered_psbt.inputs)
check_psbt_iff_example = check_psbt_iff (unsigned_input ∷ []) (some 3) answered_psbt

-- the success of a registration: an identity and an HMAC of zeros, and the status word 0x9000
abbrev zeros : Bytes
zeros = replicate 32 0

bad_registration_iff_example :
    (bad_registration (λ w. eqb w 36864) zeros (replicate 64 0 ++ 144 ∷ 0 ∷ []) ≡ ok false)
    ↔ (eqb (144 * 2 ^ 8 + 0) 36864 ≡ true → IsBound (λ w. eqb w 36864) zeros (replicate 64 0))
bad_registration_iff_example =
    bad_registration_iff (λ w. eqb w 36864) zeros (replicate 64 0) 144 0 refl

abbrev live_decoder : SpecterFrameDecoder
live_decoder = record { decoder = mutex (some 0) }

frames_once_example : frames (feed ((1 ∷ []) ∷ (2 ∷ []) ∷ []) live_decoder) ≤ 1
frames_once_example = frames_once ((1 ∷ []) ∷ (2 ∷ []) ∷ []) live_decoder refl

gives_frame : (push (1 ∷ []) live_decoder).0 ≢ ok none
unfolding push
gives_frame = ground arith
