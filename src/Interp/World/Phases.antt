-- ===== src/Interp/World/Phases.antt =====
-- bhwi-ffi/src/interp.rs: the protocol of an interpreter as a state machine, and the phase that a
-- session is in.
use bhwi_ffi.Prelude.{
  ℕ, leb, Bool, true, false, Option, none, some, ◌≡◌, ◌⊎◌, if◌then◌else◌, arith, refl, inl, inr,
  Bool-cases,
}
use bhwi_ffi.Text.{Bytes}
use bhwi_ffi.Error.{Outcome, ok, err, panicked}
use bhwi_ffi.Core.Primitives.{Primitives}
use bhwi_ffi.Core.Library.{Library}
use bhwi_ffi.Core.Result.{CoreResult, success, failure}
use bhwi_ffi.Core.Protocol
use bhwi_ffi.Core.Family.{Families}
use bhwi_ffi.Types.Command.{HwiCommand}
use bhwi_ffi.Types.Plan.{Plan, plan}
use bhwi_ffi.Interp.Session
use bhwi_ffi.Interp.Session.{
  Inner, Session, Called, Devices, Ran, launch, launch_ledger, start_with, start_session, armed,
}
use bhwi_ffi.Interp.Replies.{require_running}
use bhwi_ffi.Interp.World.{World, start_call, exchange_call}
use bhwi_ffi.Interp.World.Exclusive.{session_at}
use bhwi_ffi.Interp.World.Kept.{exchange_call-IsSame}
use bhwi_ffi.Interp.World.Slots.{slot_of, is_build}
use bhwi_ffi.Interp.World.Calls.{Call, starts, exchanges, ends, drops, run}

pub data Phase : Type 0 where
  unbuilt ready running finished gone : Phase

abbrev pub is_alive : Phase → Bool
is_alive unbuilt = false
is_alive gone = false
is_alive _ = true

-- The machine: what the call `c` may do to interpreter `i`.
pub data Moves (c : Call) (i : ℕ) : Phase → Phase → Type 0 where
  stays : (p : Phase) → Moves c i p p
  builds : is_build c ≡ true → Moves c i unbuilt ready
  launches : (command : HwiCommand) → c ≡ starts i command → Moves c i ready running
  aborts : (command : HwiCommand) → c ≡ starts i command → Moves c i ready gone
  finishes : (reply : Bytes) → c ≡ exchanges i reply → Moves c i running finished
  fails : (reply : Bytes) → c ≡ exchanges i reply → Moves c i running gone
  consumes : (p : Phase) → is_alive p ≡ true → (c ≡ ends i) ⊎ (c ≡ drops i) → Moves c i p gone

abbrev pub rank : Phase → ℕ
rank unbuilt = 0
rank ready = 1
rank running = 2
rank finished = 3
rank gone = 4

module _ ⦃P : Primitives⦄ ⦃F : Families⦄ where
  abbrev pub phase_of : Option Session → Phase
  phase_of none = gone
  phase_of (some s) = if s.started then (if s.finished then finished else running) else ready

  abbrev pub phase : World → ℕ → Phase
  phase w i = if leb w.next i then unbuilt else phase_of (session_at w i)

  pub slot_of-phase :
      {R : Type 0} (c : Called R)
      → (phase_of (slot_of c).value ≡ gone)
        ⊎ (phase_of (slot_of c).value ≡ phase_of (some c.session))
  slot_of-phase c = ground arith

  -- A command that has not started has not finished.
  abbrev pub IsOrdered : World → Type 0
  IsOrdered w =
      (i : ℕ) (s : Session) → session_at w i ≡ some s → s.started ≡ false → s.finished ≡ false

  module _ ⦃L : Library⦄ where
    launch-finished :
        {C : Type 0} (o : CoreResult Protocol.Error C) (run : C → Ran Protocol.Transmit) (p : Plan)
        (s : Session) (d : Devices)
        → (launch o run p s d).session.finished ≡ s.finished
    unfolding launch armed
    launch-finished (failure e) run p s d = refl
    launch-finished (success c) run p s d = refl

    launch_ledger-finished :
        (o : CoreResult Protocol.Error F.ledger.FamilyCommand)
        (run : F.ledger.FamilyCommand → Ran Protocol.Transmit) (p : Plan) (s : Session)
        (d : Devices)
        → (launch_ledger o run p s d).session.finished ≡ s.finished
    unfolding launch_ledger armed
    launch_ledger-finished (failure e) run p s d = refl
    launch_ledger-finished (success c) run p s d = ground arith

    start_with-finished :
        (inner : Inner) (p : Plan) (s : Session) (d : Devices)
        → (start_with inner p s d).session.finished ≡ s.finished
    unfolding start_with
    start_with-finished (Session.ledger i) p s d = launch_ledger-finished _ _ p s d
    start_with-finished _ p s d = launch-finished _ _ p s d

    pub start_call-finished :
        (command : HwiCommand) (s : Session) (d : Devices)
        → (start_call command s d).session.finished ≡ s.finished
    unfolding start_call start_session
    start_call-finished command s d = elim (Bool-cases s.started) [
      | inl on ↦ ground arith
      | inr off ↦ by_plan (plan command s.kind) refl
    ]
      where
        by_plan :
            (o : Outcome Plan)
            → plan command s.kind ≡ o
            → (start_call command s d).session.finished ≡ s.finished
        by_plan (ok p) e = ground (arith, start_with-finished s.inner p s d)
        by_plan (err h) e = ground arith
        by_plan panicked e = ground arith

    pub start_call_again :
        (command : HwiCommand) (s : Session) (d : Devices)
        → s.started ≡ true
        → (slot_of (start_call command s d)).value ≡ some s
    unfolding start_call
    start_call_again command s d on = ground arith

    pub exchange_call_early :
        (reply : Bytes) (s : Session) (d : Devices)
        → (s.started ≡ false) ⊎ (s.finished ≡ true)
        → (slot_of (exchange_call reply s d)).value ≡ some s
    unfolding exchange_call require_running
    exchange_call_early reply s d early = ground arith

    pub exchange_call-started :
        (reply : Bytes) (s : Session) (d : Devices)
        → s.started ≡ true
        → (exchange_call reply s d).session.started ≡ true
    exchange_call-started reply s d on =
        (exchange_call-IsSame reply s d s (record {
          is_started = on;
          same_inputs = refl;
          same_tx = refl;
          same_id = refl;
          same_expect = refl;
        })).is_started
