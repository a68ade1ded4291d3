-- ===== src/Interp/Session.antt =====
-- bhwi-ffi/src/interp.rs: `Inner`, `Session` and `Session::start`.
pub mod Leases
unfoldable pub use Leases.*
use bhwi_ffi.Prelude.{ℕ, Bool, true, Option, none, some, List, [], ◌∷◌, map, update}
use bhwi_ffi.Text.{Bytes, Text}
use bhwi_ffi.Error.{Outcome, ok, err, panicked, invalid_input, or_err, ◌>>=◌}
use bhwi_ffi.Core.Primitives.{Primitives}
use bhwi_ffi.Core.Result.{CoreResult, success, failure}
use bhwi_ffi.Core.Bitcoin.{Input}
use bhwi_ffi.Core.Protocol
use bhwi_ffi.Core.Protocol.{Response, Error, LedgerWalletPolicy, sign_tx}
use bhwi_ffi.Core.Library.{Library}
use bhwi_ffi.Core.Family.{Families, Stepped}
use bhwi_ffi.State.Leased.{get_leased, put_leased, release, Mutex}
use bhwi_ffi.State.Noise.{NoiseHandle, fire_hook}
use bhwi_ffi.State.Coldcard.{ColdcardEncryption}
use bhwi_ffi.State.Passphrase.{HostPassphraseHandle}
use bhwi_ffi.Types.Device.{DeviceKind}
use bhwi_ffi.Types.Errors.{map_error}
use bhwi_ffi.Types.Expect.{Expect}
use bhwi_ffi.Types.Plan.{Plan}
use bhwi_ffi.Types.Transmit.{Transmit, to_transmit}

module _ ⦃P : Primitives⦄ where
  module _ ⦃F : Families⦄ where
    -- `Inner`; the two borrowing interpreters carry the reference into their handle.
    pub data Inner : Type 0 where
      bitbox : ℕ → F.bitbox.Interpreter → Inner
      coldcard : ℕ → F.coldcard.Interpreter → Inner
      jade : F.jade.Interpreter → Inner
      ledger : F.ledger.Interpreter → Inner
      trezor : F.trezor.Interpreter → Inner
      keepkey : F.keepkey.Interpreter → Inner
      specter : F.specter.Interpreter → Inner

    -- The result of a call into an interpreter, and what it leaves behind.
    pub record Ran (A : Type 0) : Type 0 where
      pub result : CoreResult Error A
      pub inner : Inner
      pub devices : Devices

    -- A step of an interpreter that borrows the noise state, the engine, or nothing.
    abbrev noise_step :
        {A : Type 0} → ℕ → Devices → Stepped F.bitbox.Interpreter P.NoiseState (List Text) A → Ran A
    noise_step h d r = record {
      result = r.result;
      inner = bitbox h r.interpreter;
      devices = write_noise h r.cell r.effect d;
    }

    abbrev engine_step :
        {A : Type 0} → ℕ → Devices → Stepped F.coldcard.Interpreter P.Engine (Unit {0}) A → Ran A
    engine_step h d r = record {
      result = r.result;
      inner = coldcard h r.interpreter;
      devices = write_engine h r.cell d;
    }

    abbrev own_step :
        {A I : Type 0} → (I → Inner) → Devices → Stepped I (Unit {0}) (Unit {0}) A → Ran A
    own_step wrap d r = record { result = r.result; inner = wrap r.interpreter; devices = d }

    abbrev noise_cell : ℕ → Devices → P.NoiseState
    noise_cell h d = get_leased (d.noises h).state

    abbrev engine_cell : ℕ → Devices → P.Engine
    engine_cell h d = get_leased (d.engines h).engine

    -- `Inner::exchange`
    unfoldable pub exchange_inner : Inner → Bytes → Devices → Ran (Option Protocol.Transmit)
    exchange_inner (bitbox h i) data' d =
        noise_step h d (F.bitbox.exchange_step i (noise_cell h d) data')
    exchange_inner (coldcard h i) data' d =
        engine_step h d (F.coldcard.exchange_step i (engine_cell h d) data')
    exchange_inner (jade i) data' d = own_step jade d (F.jade.exchange_step i tt data')
    exchange_inner (ledger i) data' d = own_step ledger d (F.ledger.exchange_step i tt data')
    exchange_inner (trezor i) data' d = own_step trezor d (F.trezor.exchange_step i tt data')
    exchange_inner (keepkey i) data' d = own_step keepkey d (F.keepkey.exchange_step i tt data')
    exchange_inner (specter i) data' d = own_step specter d (F.specter.exchange_step i tt data')

    -- `Inner::end`
    unfoldable pub end_inner : Inner → Devices → CoreResult Error Response × Devices
    end_inner (bitbox h i) d =
        let (r, cell) = F.bitbox.finish i (noise_cell h d) in (r, write_noise h cell [] d)
    end_inner (coldcard h i) d =
        let (r, cell) = F.coldcard.finish i (engine_cell h d) in (r, write_engine h cell d)
    end_inner (jade i) d = ((F.jade.finish i tt).0, d)
    end_inner (ledger i) d = ((F.ledger.finish i tt).0, d)
    end_inner (trezor i) d = ((F.trezor.finish i tt).0, d)
    end_inner (keepkey i) d = ((F.keepkey.finish i tt).0, d)
    end_inner (specter i) d = ((F.specter.finish i tt).0, d)

    pub record Session : Type 0 where
      pub inner : Inner
      pub lease : StateLease
      pub kind : DeviceKind
      pub started : Bool
      pub finished : Bool
      pub expect : Expect
      pub prior_inputs : List Input
      pub prior_unsigned_tx : Option P.Wtxid
      pub ledger_registration_id : Option Bytes

    -- What a call on a session returns, and the session and the devices that it leaves.
    pub record Called (A : Type 0) : Type 0 where
      pub outcome : Outcome A
      pub session : Session
      pub devices : Devices

    -- The part of an input that `Session::start` keeps.
    unfoldable pub prior_input : Input → Input
    prior_input input = record input {
      witness_utxo = none;
      non_witness_utxo = none;
      witness_script = none;
      redeem_script = none;
    }

    abbrev pub answer : CoreResult Error Protocol.Transmit → DeviceKind → Outcome Transmit
    answer (success transmit) kind = ok (to_transmit transmit)
    answer (failure error) kind = err (map_error error kind)

    -- A result of the interpreter as the result of the call, with the session that it leaves.
    abbrev pub returned : Session → Ran Protocol.Transmit → Called Transmit
    returned s r = record {
      outcome = answer r.result s.kind;
      session = record s { inner = r.inner };
      devices = r.devices;
    }

    module _ ⦃L : Library⦄ where
      unfoldable pub prior : Protocol.Command → List Input × Option P.Wtxid
      unfolding prior_input
      prior (sign_tx psbt context) =
          (map prior_input psbt.inputs, some (L.compute_wtxid psbt.unsigned_tx))
      prior _ = ([], none)

      -- The session with what `start` records of the plan.
      unfoldable pub armed : Plan → Session → Session
      unfolding prior
      armed plan s = record s {
        started = true;
        expect = plan.expect;
        prior_inputs = (prior plan.command).0;
        prior_unsigned_tx = (prior plan.command).1;
      }

      -- `start!`: lower the command, record the plan, then start the interpreter.
      unfoldable pub launch :
          {C : Type 0}
          → CoreResult Error C
          → (C → Ran Protocol.Transmit)
          → Plan
          → Session
          → Devices
          → Called Transmit
      unfolding armed
      launch (failure error) run plan s d = record {
        outcome = err (map_error error s.kind);
        session = s;
        devices = d;
      }
      launch (success command) run plan s d = returned (armed plan s) (run command)

      -- the `registration_id` of the Ledger branch
      unfoldable pub registration_id : Option LedgerWalletPolicy → Outcome (Option Bytes)
      registration_id none = ok none
      registration_id (some policy) = do
        id ← or_err (L.policy_id policy) (invalid_input "invalid Ledger wallet policy")
        ok (some id)

      -- the Ledger branch
      unfoldable pub launch_ledger :
          CoreResult Error F.ledger.FamilyCommand
          → (F.ledger.FamilyCommand → Ran Protocol.Transmit)
          → Plan
          → Session
          → Devices
          → Called Transmit
      unfolding armed registration_id
      launch_ledger (failure error) run plan s d = record {
        outcome = err (map_error error s.kind);
        session = s;
        devices = d;
      }
      launch_ledger (success command) run plan s d =
          elim (registration_id (F.registered_policy command)) [
            | err e ↦ record { outcome = err e; session = s; devices = d }
            | panicked ↦ record { outcome = panicked; session = s; devices = d }
            | ok id ↦ returned (record (armed plan s) { ledger_registration_id = id }) (run command)
          ]

      unfoldable pub start_with : Inner → Plan → Session → Devices → Called Transmit
      start_with (bitbox h i) plan s d =
          launch (F.bitbox.lower plan.command)
            (λ c. noise_step h d (F.bitbox.start_step i (noise_cell h d) c)) plan s d
      start_with (coldcard h i) plan s d =
          launch (F.coldcard.lower plan.command)
            (λ c. engine_step h d (F.coldcard.start_step i (engine_cell h d) c)) plan s d
      start_with (jade i) plan s d =
          launch (F.jade.lower plan.command) (λ c. own_step jade d (F.jade.start_step i tt c)) plan
            s d
      start_with (trezor i) plan s d =
          launch (F.trezor.lower plan.command) (λ c. own_step trezor d (F.trezor.start_step i tt c))
            plan s d
      start_with (keepkey i) plan s d =
          launch (F.keepkey.lower plan.command)
            (λ c. own_step keepkey d (F.keepkey.start_step i tt c)) plan s d
      start_with (specter i) plan s d =
          launch (F.specter.lower plan.command)
            (λ c. own_step specter d (F.specter.start_step i tt c)) plan s d
      start_with (ledger i) plan s d =
          launch_ledger (F.ledger.lower plan.command)
            (λ c. own_step ledger d (F.ledger.start_step i tt c)) plan s d

      -- `Session::start`
      unfoldable pub start_session : Plan → Session → Devices → Called Transmit
      unfolding start_with
      start_session plan s d = start_with s.inner plan s d
