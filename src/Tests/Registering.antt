-- ===== src/Tests/Registering.antt =====
-- A registration on a Ledger, on the concrete core.
use bhwi_ffi.Prelude.{false, none, some, List, [], ◌∷◌, ◌++◌, length, replicate, subst, ◌≡◌, refl}
use bhwi_ffi.Text.{Bytes, Text, bytes}
use bhwi_ffi.Error.{ok}
use bhwi_ffi.Core.Protocol
use bhwi_ffi.Core.Protocol.{LedgerWalletPolicy}
use bhwi_ffi.Core.Library.{Library}
use bhwi_ffi.Core.Family.{Families}
use bhwi_ffi.Types.Device
use bhwi_ffi.Types.Expect
use bhwi_ffi.Types.Command
use bhwi_ffi.Types.Command.{HwiCommand}
use bhwi_ffi.Types.Names.{validate_policy_name}
use bhwi_ffi.Types.Descriptors.{parse_public_policy, unfit_account_key}
use bhwi_ffi.Types.Plan.{Plan, plan}
use bhwi_ffi.Types.Transmit.{to_transmit}
use bhwi_ffi.Interp.Session
use bhwi_ffi.Interp.Session.{
  start_session, start_with, armed, prior, launch_ledger, registration_id, exchange_inner,
}
use bhwi_ffi.Interp.Replies.{
  require_running, advance, check_reply, check_frame, check_registration, bad_registration, be16,
  deliver,
}
use bhwi_ffi.Interp.Replies.Registration.{IsBound}
use bhwi_ffi.Interp.World.{World, start, exchange, new_ledger}
use bhwi_ffi.Interp.World.Exclusive.{session_at}
use bhwi_ffi.Interp.World.Calls.{Call, IsFresh, builds_ledger, run, step}
use bhwi_ffi.Interp.World.Frame.{is_out}
use bhwi_ffi.Interp.World.Registers.{run-IsBound}
use bhwi_ffi.State.Leased.{mutex}
use bhwi_ffi.Tests.{sample_primitives, sample_library, sample_device, sample_families, hello}
use bhwi_ffi.Tests.Runs.{host}

abbrev vault : Text
vault = b'v' ∷ []

abbrev vault_policy : LedgerWalletPolicy
vault_policy = record { name = vault; policy = 1 }

abbrev vault_id : Bytes
vault_id = replicate 32 4

abbrev registering : Families
registering = record sample_families { registered_policy = λ c. some vault_policy }

abbrev naming : Library
naming = record sample_library { policy_id = λ p. some vault_id }

abbrev bare : World ⦃F = registering⦄
bare = record { devices = host; interps = λ i. mutex none; next = 0 }

bare-IsFresh : IsFresh ⦃F = registering⦄ bare
bare-IsFresh = record {
  nothing_out = λ l. elim l as (λ l. is_out host l ≡ false) [
    | Session.unleased ↦ refl
    | Session.noise h ↦ refl
    | Session.Leases.coldcard h ↦ refl
  ];
  nothing_built = λ i. refl;
  nothing_poisoned = λ i. refl;
}

abbrev register : HwiCommand
register = Command.register_wallet vault (b'd' ∷ [])

abbrev ledger_calls : List Call
ledger_calls = builds_ledger ∷ []

abbrev built_world : World ⦃F = registering⦄
built_world = run ⦃F = registering⦄ ⦃L = naming⦄ ledger_calls bare

abbrev sent_world : World ⦃F = registering⦄
sent_world = (start ⦃F = registering⦄ ⦃L = naming⦄ 0 register built_world).1

abbrev ledger_session : Session.Session ⦃F = registering⦄
ledger_session = record {
  inner = Session.ledger 0;
  lease = Session.unleased;
  kind = Device.ledger;
  started = false;
  finished = false;
  expect = Expect.anything;
  prior_inputs = [];
  prior_unsigned_tx = none;
  ledger_registration_id = none;
}

abbrev register_plan : Plan
register_plan = record { command = Protocol.register_wallet vault 1; expect = Expect.registration }

session_built : session_at ⦃F = registering⦄ built_world 0 ≡ some ledger_session
unfolding run step new_ledger
session_built = refl

plans : plan ⦃L = naming⦄ register Device.ledger ≡ ok register_plan
unfolding plan validate_policy_name parse_public_policy unfit_account_key bytes
plans = refl

begins : (start ⦃F = registering⦄ ⦃L = naming⦄ 0 register built_world).0 ≡ ok (to_transmit hello)
unfolding run step new_ledger start plan validate_policy_name parse_public_policy unfit_account_key
    bytes start_session start_with launch_ledger registration_id armed prior to_transmit
begins = refl

abbrev bound_body : Bytes
bound_body = vault_id ++ replicate 32 5

abbrev replied : World ⦃F = registering⦄
replied = run ⦃F = registering⦄ ⦃L = naming⦄ [] sent_world

accepts :
    (exchange ⦃F = registering⦄ ⦃L = naming⦄ 0 (bound_body ++ 144 ∷ 0 ∷ []) replied).0 ≡ ok none
unfolding run step new_ledger start plan validate_policy_name parse_public_policy unfit_account_key
    bytes start_session start_with launch_ledger registration_id armed prior exchange
    require_running advance check_reply check_frame check_registration bad_registration be16 deliver
    exchange_inner
accepts = refl

ids_sized :
    (policy : LedgerWalletPolicy) (id : Bytes) → naming.policy_id policy ≡ some id → length id ≡ 32
ids_sized policy id e = let same : vault_id ≡ id = cc e in subst (λ id. length id ≡ 32) same refl

run-IsBound_example :
    (id : Bytes) × (naming.policy_id vault_policy ≡ some id)
    × IsBound (λ w. registering.status_ok w) id bound_body
run-IsBound_example =
    run-IsBound ⦃F = registering⦄ ⦃L = naming⦄ ids_sized ledger_calls [] bare bare-IsFresh 0
      register ledger_session 0 register_plan (Protocol.register_wallet vault 1) vault_policy
      (to_transmit hello) session_built refl plans refl refl begins bound_body 144 0 none accepts
      refl
