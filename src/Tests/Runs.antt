-- ===== src/Tests/Runs.antt =====
-- Whole commands on the concrete core, with the theorems about them.
use bhwi_ffi.Prelude.{ℕ, true, false, none, some, List, [], ◌∷◌, ◌≡◌, ◌≢◌, refl, arith}
use bhwi_ffi.Error.{ok, err, bad_state}
use bhwi_ffi.Network.{Network}
use bhwi_ffi.State.Leased
use bhwi_ffi.State.Leased.{mutex}
use bhwi_ffi.State.Noise.{export_config}
use bhwi_ffi.Types.Device
use bhwi_ffi.Types.Expect
use bhwi_ffi.Types.Command
use bhwi_ffi.Types.Response
use bhwi_ffi.Types.Codec.{encode_psbt, decode_psbt}
use bhwi_ffi.Interp.Session
use bhwi_ffi.Interp.Session.{
  Devices, Session, StateLease, noise, unleased, start_session, start_with, armed, prior,
  exchange_inner, end_inner,
}
use bhwi_ffi.Interp.World.{World, start, exchange, end, new_bitbox, new_specter, check_signed}
use bhwi_ffi.Interp.World.Frame.{is_out}
use bhwi_ffi.Interp.World.Calls.{
  Call, builds_bitbox, builds_specter, starts, exchanges, run, step, IsFresh,
}
use bhwi_ffi.Interp.World.Exclusive.{session_at}
use bhwi_ffi.Interp.World.Runs.{run-exclusive, run-borrowed, run-no_leak}
use bhwi_ffi.Interp.World.Lifecycle.{IsLive, IsGone, IsUntouched, end-consumes}
use bhwi_ffi.Interp.World.Refusals.{AfterExchange, start-once, exchange-order, exchange-ends}
use bhwi_ffi.Interp.World.Ending.{IsAnswer, end-IsAnswer}
use bhwi_ffi.Types.Plan.{plan, signing_context}
use bhwi_ffi.Interp.Fidelity.{
  get_key, pushes, final_contains, partial_preserved, leaf_preserved, key_preserved,
  script_preserved, witness_preserved, preserved, ecdsa_mode, taproot_mode, partial_modes,
  leaf_modes, key_modes, modes_match, check_inputs, check_psbt,
}
use bhwi_ffi.Interp.Replies.{
  require_running, advance, check_reply, check_frame, check_registration, deliver,
}
use bhwi_ffi.Types.Expect.{matches}
use bhwi_ffi.Types.Response.{to_response}
use bhwi_ffi.Tests.{
  sample_primitives, sample_library, sample_device, sample_families, unsigned_input,
}

abbrev pub host : Devices
host = record {
  noises = λ h. record { state = record { cell = 0; leased = false }; pairing_code = mutex none };
  engines = λ h. record { engine = record { cell = 0; leased = false } };
  passphrases = λ h. record { passphrase = mutex none };
}

abbrev pub fresh : World
fresh = record { devices = host; interps = λ i. mutex none; next = 0 }

pub fresh-IsFresh : IsFresh fresh
fresh-IsFresh = record {
  nothing_out = λ l. elim l as (λ l. is_out host l ≡ false) [
    | unleased ↦ refl
    | noise h ↦ refl
    | StateLease.coldcard h ↦ refl
  ];
  nothing_built = λ i. refl;
  nothing_poisoned = λ i. refl;
}

-- a BitBox02 interpreter on noise handle 3
abbrev pub bitbox_calls : List Call
bitbox_calls = builds_bitbox 3 Network.bitcoin ∷ []

abbrev bitbox_session : Session
bitbox_session = record {
  inner = Session.bitbox 3 0;
  lease = noise 3;
  kind = Device.bitbox;
  started = false;
  finished = false;
  expect = Expect.anything;
  prior_inputs = [];
  prior_unsigned_tx = none;
  ledger_registration_id = none;
}

bitbox_session_at : session_at (run bitbox_calls fresh) 0 ≡ some bitbox_session
unfolding run step new_bitbox Leased.acquire
bitbox_session_at = refl

bitbox_leased : is_out (run bitbox_calls fresh).devices (noise 3) ≡ true
unfolding run step new_bitbox Leased.acquire
bitbox_leased = refl

borrows_noise : noise 3 ≢ unleased
borrows_noise = ground arith

run-exclusive_example : ◌≡◌ {A = ℕ} 0 0
run-exclusive_example =
    run-exclusive bitbox_calls fresh fresh-IsFresh 0 0 bitbox_session bitbox_session
      bitbox_session_at bitbox_session_at refl borrows_noise

run-borrowed_example :
    ((export_config ((run bitbox_calls fresh).devices.noises 3)).0
      ≡ err (bad_state "noise handle is in use by an interpreter"))
    × ((new_bitbox 3 Network.testnet (run bitbox_calls fresh)).0
        ≡ err (bad_state "noise handle is already leased"))
run-borrowed_example =
    run-borrowed bitbox_calls fresh fresh-IsFresh 0 3 bitbox_session Network.testnet
      bitbox_session_at refl

run-no_leak_example :
    (i : ℕ) × (s : Session) × (session_at (run bitbox_calls fresh) i ≡ some s) × (s.lease ≡ noise 3)
run-no_leak_example = run-no_leak bitbox_calls fresh fresh-IsFresh (noise 3) bitbox_leased

-- a Specter interpreter that signs
abbrev pub sign : Command.HwiCommand
sign = Command.sign_psbt [] none

abbrev pub running : World
running = run (builds_specter Network.bitcoin ∷ starts 0 sign ∷ []) fresh

abbrev pub running_session : Session
running_session = record {
  inner = Session.specter 1;
  lease = unleased;
  kind = Device.specter;
  started = true;
  finished = false;
  expect = Expect.psbt;
  prior_inputs = unsigned_input ∷ [];
  prior_unsigned_tx = some 3;
  ledger_registration_id = none;
}

pub running-IsLive : IsLive running 0 running_session
unfolding run step new_specter start plan decode_psbt signing_context start_session start_with armed
    prior Session.launch
running-IsLive = (refl, refl)

abbrev finished_world : World
finished_world =
    run (builds_specter Network.bitcoin ∷ starts 0 sign ∷ exchanges 0 (1 ∷ []) ∷ []) fresh

abbrev finished_session : Session
finished_session = record running_session { inner = Session.specter 2; finished = true }

finished-IsLive : IsLive finished_world 0 finished_session
unfolding run step new_specter start plan decode_psbt signing_context start_session start_with armed
    prior Session.launch exchange require_running advance check_reply check_frame check_registration
    deliver exchange_inner
finished-IsLive = (refl, refl)

hands_over : (end 0 finished_world).0 ≡ ok (Response.signed_psbt (1 ∷ []))
unfolding run step new_specter start plan decode_psbt signing_context start_session start_with armed
    prior Session.launch exchange require_running advance check_reply check_frame check_registration
    deliver exchange_inner end end_inner matches check_signed encode_psbt to_response get_key pushes
    final_contains partial_preserved leaf_preserved key_preserved script_preserved witness_preserved
    preserved ecdsa_mode taproot_mode partial_modes leaf_modes key_modes modes_match check_inputs
    check_psbt
hands_over = refl

bitbox-IsLive : IsLive (run bitbox_calls fresh) 0 bitbox_session
unfolding run step new_bitbox Leased.acquire
bitbox-IsLive = (refl, refl)

end-consumes_example :
    (is_out (end 0 (run bitbox_calls fresh)).1.devices (noise 3) ≡ false)
    × (session_at (end 0 (run bitbox_calls fresh)).1 0 ≡ none)
    × IsGone (end 0 (run bitbox_calls fresh)).1 0
end-consumes_example = end-consumes 0 (run bitbox_calls fresh) bitbox_session bitbox-IsLive

exchange-ends_example :
    AfterExchange running
      (exchange 0 (1 ∷ []) running).1
      0
      running_session
      (exchange 0 (1 ∷ []) running).0
exchange-ends_example = exchange-ends 0 (1 ∷ []) running running_session running-IsLive refl refl

start-once_example :
    ((start 0 sign running).0 ≡ err (bad_state "start was already called"))
    × IsUntouched running (start 0 sign running).1 0 running_session
start-once_example = start-once 0 sign running running_session running-IsLive refl

exchange-order_example :
    ((msg : Prim.Native.String.String) × ((exchange 0 (1 ∷ []) (run bitbox_calls fresh)).0
        ≡ err (bad_state msg)))
    × IsUntouched
        (run bitbox_calls fresh)
        (exchange 0 (1 ∷ []) (run bitbox_calls fresh)).1
        0
        bitbox_session
exchange-order_example =
    exchange-order 0 (1 ∷ []) (run bitbox_calls fresh) bitbox_session bitbox-IsLive refl

end-IsAnswer_example :
    (true ≡ true) × IsAnswer finished_session finished_world.devices (Response.signed_psbt (1 ∷ []))
end-IsAnswer_example =
    end-IsAnswer 0 finished_world finished_session (Response.signed_psbt (1 ∷ [])) finished-IsLive
      hands_over
