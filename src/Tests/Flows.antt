-- ===== src/Tests/Flows.antt =====
-- Whole schedules on the concrete core, with the theorems about all of them.
use bhwi_ffi.Prelude.{ℕ, false, none, List, [], ◌∷◌, ◌≡◌, ◌≢◌, ◌⊎◌, refl}
use bhwi_ffi.Text.{Bytes}
use bhwi_ffi.Error.{ok, panicked}
use bhwi_ffi.Network.{Network}
use bhwi_ffi.Core.Bitcoin.{Psbt}
use bhwi_ffi.Core.Library.{SighashLaws}
use bhwi_ffi.Types.Command.{HwiCommand}
use bhwi_ffi.Types.Response
use bhwi_ffi.Types.Codec.{decode_psbt, encode_psbt, IsPsbtText}
use bhwi_ffi.Types.Transmit.{to_transmit}
use bhwi_ffi.Types.Plan.{plan, signing_context}
use bhwi_ffi.Types.Expect.{matches}
use bhwi_ffi.Types.Response.{to_response}
use bhwi_ffi.Interp.Session
use bhwi_ffi.Interp.Session.{
  start_session, start_with, armed, prior, prior_input, exchange_inner, end_inner,
}
use bhwi_ffi.Interp.Replies.{
  require_running, advance, check_reply, check_frame, check_registration, deliver,
}
use bhwi_ffi.Interp.Fidelity.{
  get_key, pushes, final_contains, partial_preserved, leaf_preserved, key_preserved,
  script_preserved, witness_preserved, preserved, ecdsa_mode, taproot_mode, partial_modes,
  leaf_modes, key_modes, modes_match, check_inputs, check_psbt,
}
use bhwi_ffi.Interp.Fidelity.Faithful.{IsFaithful}
use bhwi_ffi.Interp.Fidelity.Keeps.{Pairwise}
use bhwi_ffi.Interp.World.{
  World, start, exchange, end, new_specter, new_bitbox, check_signed, drop_interp,
}
use bhwi_ffi.Interp.World.Calls.{Call, builds_specter, starts, exchanges, run, step}
use bhwi_ffi.Interp.World.Flow.{run-signed_psbt}
use bhwi_ffi.Interp.World.Sound.{run_sound}
use bhwi_ffi.Interp.World.Phases.{phase, Moves}
use bhwi_ffi.Interp.World.Machine.{run-Moves}
use bhwi_ffi.Interp.World.Reuse.{run-reuse}
use bhwi_ffi.Interp.World.Starts.{AfterStart, start-ends}
use bhwi_ffi.Interp.World.Lifecycle.{IsLive}
use bhwi_ffi.Types.Device
use bhwi_ffi.Types.Expect
use bhwi_ffi.Tests.{sample_primitives, sample_library, sample_device, sample_families, hello}
use bhwi_ffi.Tests.Runs.{fresh, fresh-IsFresh, sign, bitbox_calls}

abbrev pub specter_calls : List Call
specter_calls = builds_specter Network.bitcoin ∷ []

abbrev pub begun : World
begun = (start 0 sign (run specter_calls fresh)).1

abbrev pub reply_calls : List Call
reply_calls = exchanges 0 (1 ∷ []) ∷ []

pub begins : (start 0 sign (run specter_calls fresh)).0 ≡ ok (to_transmit hello)
unfolding run step new_specter start plan decode_psbt signing_context start_session start_with armed
    prior Session.launch to_transmit
begins = refl

pub hands_over : (end 0 (run reply_calls begun)).0 ≡ ok (Response.signed_psbt (1 ∷ []))
unfolding run step new_specter start plan decode_psbt signing_context start_session start_with armed
    prior Session.launch exchange require_running advance check_reply check_frame check_registration
    deliver exchange_inner end end_inner matches check_signed encode_psbt to_response get_key pushes
    final_contains partial_preserved leaf_preserved key_preserved script_preserved witness_preserved
    preserved ecdsa_mode taproot_mode partial_modes leaf_modes key_modes modes_match check_inputs
    check_psbt
hands_over = refl

abbrev sample-SighashLaws : SighashLaws sample_library
sample-SighashLaws = record { ecdsa = λ i j h. refl; taproot = λ i j h. refl }

run-signed_psbt_example :
    (sent psbt : Psbt) × IsPsbtText [] sent
    × ((1 ∷ []) ≡ sample_library.base64_encode (sample_library.psbt_serialize psbt))
    × (sample_library.compute_wtxid psbt.unsigned_tx
        ≡ sample_library.compute_wtxid sent.unsigned_tx)
    × Pairwise IsFaithful sent.inputs psbt.inputs
run-signed_psbt_example =
    run-signed_psbt sample-SighashLaws specter_calls reply_calls fresh fresh-IsFresh 0 [] none
      (to_transmit hello) (1 ∷ []) begins hands_over

run_sound_example :
    (((run bitbox_calls fresh).interps 0).poisoned ≡ false)
    × ((command : HwiCommand) → (start 0 command (run bitbox_calls fresh)).0 ≢ panicked)
    × ((reply : Bytes) → (exchange 0 reply (run bitbox_calls fresh)).0 ≢ panicked)
    × ((end 0 (run bitbox_calls fresh)).0 ≢ panicked)
run_sound_example = run_sound bitbox_calls fresh fresh-IsFresh 0

run-Moves_example :
    Moves
      (starts 0 sign)
      0
      (phase (run specter_calls fresh) 0)
      (phase (step (starts 0 sign) (run specter_calls fresh)) 0)
run-Moves_example = run-Moves specter_calls fresh fresh-IsFresh (starts 0 sign) 0

run-reuse_example :
    ((new_bitbox 3 Network.testnet (run bitbox_calls fresh)).0 ≡ ok (run bitbox_calls fresh).next)
    ⊎ ((i : ℕ) × ((new_bitbox 3 Network.testnet (drop_interp i (run bitbox_calls fresh))).0
          ≡ ok (drop_interp i (run bitbox_calls fresh)).next)
        × ((new_bitbox 3 Network.testnet (end i (run bitbox_calls fresh)).1).0
            ≡ ok (end i (run bitbox_calls fresh)).1.next))
run-reuse_example = run-reuse bitbox_calls fresh fresh-IsFresh 3 Network.testnet

abbrev specter_session : Session.Session
specter_session = record {
  inner = Session.specter 0;
  lease = Session.unleased;
  kind = Device.specter;
  started = false;
  finished = false;
  expect = Expect.anything;
  prior_inputs = [];
  prior_unsigned_tx = none;
  ledger_registration_id = none;
}

specter-IsLive : IsLive (run specter_calls fresh) 0 specter_session
unfolding run step new_specter
specter-IsLive = (refl, refl)

start-ends_example :
    AfterStart
      (run specter_calls fresh)
      (start 0 sign (run specter_calls fresh)).1
      0
      specter_session
      sign
      (start 0 sign (run specter_calls fresh)).0
start-ends_example = start-ends 0 sign (run specter_calls fresh) specter_session specter-IsLive refl
