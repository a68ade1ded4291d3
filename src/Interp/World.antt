-- ===== src/Interp/World.antt =====
-- bhwi-ffi/src/interp.rs: `Interp`, its constructors and its calls, over all the handles and
-- interpreters that a host has. Every call holds the interpreter's lock from its beginning to its
-- end, so a schedule of calls is a sequence of these steps.
pub mod Build
unfoldable pub use Build.*
pub mod Ownership
pub mod Calls
pub mod Frame
pub mod Exclusive
pub mod Steps
pub mod Runs
pub mod Lifecycle
pub mod Refusals
pub mod Ending
pub mod Signed
pub mod Slots
pub mod Sound
pub mod Kept
pub mod Recorded
pub mod Flow
pub mod Phases
pub mod Machine
pub mod Reuse
pub mod Starts
pub mod Registers
pub mod Cells
pub mod Locality
pub mod Isolation
pub mod Typed
pub mod Persistence
pub mod Conversation
use bhwi_ffi.Prelude.{
  ℕ, suc, ◌+◌, Bool, true, false, not, ◌&&◌, Option, none, some, List, [], ◌∷◌, update,
  if◌then◌else◌,
}
use bhwi_ffi.Text.{Bytes}
use bhwi_ffi.Error.{
  HwiError, Outcome, ok, err, panicked, device, bad_state, internal, invalid_input, is_bad_state,
  ◌>>=◌, ◌>>◌, reject_if,
}
use bhwi_ffi.Network.{Network, to_core_network}
use bhwi_ffi.Core.Primitives.{Primitives}
use bhwi_ffi.Core.Result.{CoreResult, success, failure}
use bhwi_ffi.Core.Protocol
use bhwi_ffi.Core.Protocol.{Response, encryption_key, signed_psbt, no_error_or_result}
use bhwi_ffi.Core.Library.{Library}
use bhwi_ffi.Core.Device.{Device}
use bhwi_ffi.Core.Family.{Families}
use bhwi_ffi.State.Leased.{Mutex, mutex, acquire, get_leased}
use bhwi_ffi.State.Passphrase.{clone_passphrase}
use bhwi_ffi.Types.Device.{DeviceKind}
use bhwi_ffi.Types.Device
use bhwi_ffi.Types.Errors.{map_error}
use bhwi_ffi.Types.Expect.{matches}
use bhwi_ffi.Types.Expect
use bhwi_ffi.Types.Command.{HwiCommand}
use bhwi_ffi.Types.Plan.{Plan, plan}
use bhwi_ffi.Types.Transmit.{Transmit}
use bhwi_ffi.Types.Response.{HwiResponse, task_done, to_response}
use bhwi_ffi.Interp.Session.Leases.{coldcard}
use bhwi_ffi.Interp.Session.{
  StateLease, unleased, noise, Inner, Session, Called, Devices, drop_lease, write_engine, end_inner,
  start_session,
}
use bhwi_ffi.Interp.Session
use bhwi_ffi.Interp.Replies.{require_running, advance}
use bhwi_ffi.Interp.Fidelity.{check_psbt}

module _ ⦃P : Primitives⦄ ⦃F : Families⦄ where
  -- The world after a call on the session of interpreter `i`: the session `s` is kept, or it is
  -- dropped, which drops its lease.
  abbrev pub keep : ℕ → Session → Devices → World → World
  keep i s d w = record w { devices = d; interps = update w.interps i (mutex (some s)) }

  abbrev pub retire : ℕ → StateLease → Devices → World → World
  retire i lease d w = record w {
    devices = drop_lease lease d;
    interps = update w.interps i (mutex none);
  }

  -- a panic while the lock is held poisons it, and leaves the session where it is
  abbrev pub poison : ℕ → Session → Devices → World → World
  poison i s d w = record w {
    devices = d;
    interps = update w.interps i (record { value = some s; poisoned = true });
  }

  -- What `with_session` does with what its function returns.
  unfoldable pub settle : {R : Type 0} → ℕ → Called R → World → Outcome R × World
  settle i c w = (
    c.outcome,
    elim c.outcome [
      | ok r ↦ keep i c.session c.devices w
      | err e ↦
          if c.session.started && not (is_bad_state e)
          then retire i c.session.lease c.devices w
          else keep i c.session c.devices w
      | panicked ↦ poison i c.session c.devices w
    ],
  )

  -- `Interp::with_session`
  unfoldable pub with_session :
      {R : Type 0} → ℕ → (Session → Devices → Called R) → World → Outcome R × World
  unfolding settle
  with_session i f w =
      if (w.interps i).poisoned
      then (err (internal "interpreter lock poisoned"), w)
      else elim (w.interps i).value [
        | none ↦ (err (bad_state "interpreter is finished"), w)
        | some s ↦ settle i (f s w.devices) w
      ]

  -- a call that returns an error and leaves the session and the devices alone
  abbrev refused : {R : Type 0} → HwiError → Session → Devices → Called R
  refused e s d = record { outcome = err e; session = s; devices = d }

  module _ ⦃L : Library⦄ where
    -- the closure of `Interp::start`
    unfoldable pub start_call : HwiCommand → Session → Devices → Called Transmit
    start_call command s d =
        if s.started
        then refused (bad_state "start was already called") s d
        else elim (plan command s.kind) [
          | ok p ↦ start_session p s d
          | err e ↦ refused e s d
          | panicked ↦ record { outcome = panicked; session = s; devices = d }
        ]

    -- `Interp::start`
    unfoldable pub start : ℕ → HwiCommand → World → Outcome Transmit × World
    unfolding with_session start_call
    start i command w = with_session i (start_call command) w

    -- the closure of `Interp::exchange`
    unfoldable pub exchange_call : Bytes → Session → Devices → Called (Option Transmit)
    exchange_call reply s d = elim (require_running s) [
      | ok u ↦ advance reply s d
      | err e ↦ refused e s d
      | panicked ↦ record { outcome = panicked; session = s; devices = d }
    ]

    -- `Interp::exchange`
    unfoldable pub exchange : ℕ → Bytes → World → Outcome (Option Transmit) × World
    unfolding with_session exchange_call
    exchange i reply w = with_session i (exchange_call reply) w

    -- The key that an unlocked Coldcard returns, if this is one.
    abbrev pub unlocked_key :
        StateLease → CoreResult Protocol.Error Response → Option (ℕ × P.EncryptionKey)
    unlocked_key (coldcard h) (success (encryption_key key)) = some (h, key)
    unlocked_key (coldcard h) _ = none
    unlocked_key _ response = none

    -- the checks of a signed PSBT, where the response is one
    unfoldable pub check_signed : Session → Response → Outcome (Unit {0})
    check_signed s (signed_psbt psbt) = check_psbt s.prior_inputs s.prior_unsigned_tx psbt
    check_signed s _ = ok tt

    -- the checks of the response, after the lease is dropped
    unfoldable pub accept : Session → CoreResult Protocol.Error Response → Outcome HwiResponse
    accept s (failure error) = err (map_error error s.kind)
    accept s (success response) = do
      reject_if (not (matches s.expect response)) (map_error no_error_or_result s.kind)
      check_signed s response
      ok (to_response response)

    module _ ⦃D : Device⦄ where
      -- `engine.ready(*key)`, through the lease that is still held
      unfoldable pub install_key : ℕ → P.EncryptionKey → Devices → Outcome HwiResponse × Devices
      install_key h key d =
          let (engine, error) = D.engine_ready (get_leased (d.engines h).engine) key in
          (
            elim error [ none ↦ ok task_done | some msg ↦ err (device msg) ],
            write_engine h engine d,
          )

      -- What `Interp::end` does with the session that it took out of the lock. The lease is dropped at
      -- the end of every branch.
      unfoldable pub end_session : Session → Devices → Outcome HwiResponse × Devices
      unfolding install_key accept
      end_session s d =
          if s.finished
          then (let (response, d') = end_inner s.inner d in
              elim (unlocked_key s.lease response) [
                | some (h, key) ↦ let (r, d'') = install_key h key d' in (r, drop_lease s.lease d'')
                | none ↦ (accept s response, drop_lease s.lease d')
              ])
          else (err (bad_state "end called before the machine finished"), drop_lease s.lease d)

      -- `Interp::end`
      unfoldable pub end : ℕ → World → Outcome HwiResponse × World
      unfolding end_session
      end i w =
          if (w.interps i).poisoned
          then (err (internal "interpreter lock poisoned"), w)
          else elim (w.interps i).value [
            | none ↦ (err (bad_state "interpreter is finished"), w)
            | some s ↦
                let (r, d) = end_session s w.devices in
                (r, record w { devices = d; interps = update w.interps i (mutex none) })
          ]

  -- The host drops its last reference to an interpreter, which drops a session that is still there.
  unfoldable pub drop_interp : ℕ → World → World
  drop_interp i w = elim (w.interps i).value [ none ↦ w | some s ↦ retire i s.lease w.devices w ]
