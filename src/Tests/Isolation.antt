-- ===== src/Tests/Isolation.antt =====
-- Schedules in which the calls of several interpreters stand among each other, on the concrete core.
use bhwi_ffi.Error.{ok}
use bhwi_ffi.Prelude.{false, List, [], ◌∷◌, ◌≡◌, leb, refl, some, none, true}
use bhwi_ffi.Network.{Network}
use bhwi_ffi.Types.Command
use bhwi_ffi.Types.Transmit.{to_transmit}
use bhwi_ffi.Types.Response
use bhwi_ffi.State.Leased.{acquire, get_leased}
use bhwi_ffi.Interp.World.{new_bitbox, new_coldcard, start, exchange, end}
use bhwi_ffi.Interp.World.Calls.{
  Call, builds_bitbox, builds_coldcard, starts, exchanges, ends, exports, takes_code, run, step,
}
use bhwi_ffi.Interp.World.Isolation.{answers, only, run-isolated}
use bhwi_ffi.Interp.World.Typed.{IsTyped, run-IsTyped}
use bhwi_ffi.State.Noise.{export_config, from_data}
use bhwi_ffi.Types.Device
use bhwi_ffi.Types.Expect
use bhwi_ffi.Types.Plan.{plan}
use bhwi_ffi.Interp.Session
use bhwi_ffi.Interp.Session.{start_session, start_with, armed, prior, exchange_inner}
use bhwi_ffi.Interp.Replies.{
  require_running, advance, check_reply, check_frame, check_registration, deliver,
}
use bhwi_ffi.Interp.World.Exclusive.{session_at}
use bhwi_ffi.Interp.World.Persistence.{run-exports}
use bhwi_ffi.Tests.{sample_primitives, sample_library, sample_device, sample_families, hello}
use bhwi_ffi.Tests.Runs.{fresh, fresh-IsFresh, sign}
use bhwi_ffi.Tests.Flows.{specter_calls, reply_calls, begins, hands_over, begun}

-- a BitBox02 and a Coldcard
abbrev two_calls : List Call
two_calls = builds_bitbox 3 Network.testnet ∷ builds_coldcard 5 ∷ []

abbrev mixed_calls : List Call
mixed_calls =
    starts 1 (Command.unlock Network.testnet)
    ∷ starts 0 Command.get_master_fingerprint
    ∷ exports 3
    ∷ exchanges 1 (1 ∷ [])
    ∷ builds_coldcard 5
    ∷ exchanges 0 (2 ∷ [])
    ∷ takes_code 3
    ∷ ends 1
    ∷ ends 0
    ∷ []

built : leb (run two_calls fresh).next 0 ≡ false
unfolding run step new_bitbox new_coldcard acquire
built = refl

run-isolated_example :
    answers 0 mixed_calls (run two_calls fresh)
    ≡ answers 0 (only 0 mixed_calls) (run two_calls fresh)
run-isolated_example = run-isolated two_calls mixed_calls fresh fresh-IsFresh 0 built

run-IsTyped_example : IsTyped sign (run reply_calls begun) 0 (Response.signed_psbt (1 ∷ []))
run-IsTyped_example =
    run-IsTyped specter_calls reply_calls fresh fresh-IsFresh 0 sign (to_transmit hello)
      (Response.signed_psbt (1 ∷ [])) begins hands_over

-- a BitBox02 that has unlocked
abbrev unlock_calls : List Call
unlock_calls =
    builds_bitbox 3 Network.bitcoin
    ∷ starts 0 (Command.unlock Network.bitcoin)
    ∷ exchanges 0 (1 ∷ [])
    ∷ []

abbrev unlocked_session : Session.Session
unlocked_session = record {
  inner = Session.bitbox 3 2;
  lease = Session.noise 3;
  kind = Device.bitbox;
  started = true;
  finished = true;
  expect = Expect.anything;
  prior_inputs = [];
  prior_unsigned_tx = none;
  ledger_registration_id = none;
}

unlocked_at : session_at (run unlock_calls fresh) 0 ≡ some unlocked_session
unfolding run step new_bitbox acquire start plan start_session start_with armed prior Session.launch
    exchange require_running advance check_reply check_frame check_registration deliver
    exchange_inner
unlocked_at = refl

abbrev later_calls : List Call
later_calls = builds_bitbox 4 Network.bitcoin ∷ exports 3 ∷ builds_coldcard 5 ∷ takes_code 3 ∷ []

run-exports_example :
    (export_config ((run later_calls (end 0 (run unlock_calls fresh)).1).devices.noises 3)).0
    ≡ ok (
        from_data
          (sample_device.noise_data (get_leased ((run unlock_calls fresh).devices.noises 3).state)))
run-exports_example =
    run-exports unlock_calls later_calls fresh fresh-IsFresh 0 3 unlocked_session 2 unlocked_at refl
      refl refl
