-- ===== src/Interp/World/Starts.antt =====
-- bhwi-ffi/src/interp.rs: the ways in which the first `start` of an interpreter ends.
use bhwi_ffi.Prelude.{ℕ, false, ◌≡◌, arith, refl, inl, inr, Bool-cases}
use bhwi_ffi.Error.{HwiError, Outcome, ok, err, is_bad_state}
use bhwi_ffi.Core.Primitives.{Primitives}
use bhwi_ffi.Core.Device.{Device}
use bhwi_ffi.Core.Library.{Library}
use bhwi_ffi.Core.Result.{CoreResult, success, failure}
use bhwi_ffi.Core.Protocol
use bhwi_ffi.Core.Family.{Families}
use bhwi_ffi.Types.Command.{HwiCommand}
use bhwi_ffi.Types.Plan.{Plan, plan}
use bhwi_ffi.Types.Plan.Preflight.{plan-Preflight}
use bhwi_ffi.Types.Transmit.{Transmit}
use bhwi_ffi.Interp.Session
use bhwi_ffi.Interp.Session.{
  Inner, Session, Called, Devices, Ran, prior, armed, launch, launch_ledger, registration_id,
  start_with, start_session,
}
use bhwi_ffi.Interp.Replies.Answers.{
  Answered, answers, fails, Answered-Preflight, start_session-Answered,
}
use bhwi_ffi.Interp.World.{World, start, start_call, settle}
use bhwi_ffi.Interp.World.Frame.{start_call-IsFrame}
use bhwi_ffi.Interp.World.Lifecycle.{IsLive, IsRetired, IsUntouched, live_eq, settle-IsRetired}
use bhwi_ffi.Interp.World.Phases.{start_call-finished}
use bhwi_ffi.Interp.World.Refusals.{settle_outcome}
use bhwi_ffi.Interp.World.Recorded.{IsRecorded, start_call_eq, start_call-ok}

module _ ⦃P : Primitives⦄ ⦃F : Families⦄ ⦃L : Library⦄ where
  -- A call that leaves the command unstarted leaves all as it was.
  abbrev IsSafe : {A : Type 0} → Session → Devices → Called A → Type 0
  IsSafe s d c = c.session.started ≡ false → (c.session ≡ s) × (c.devices ≡ d)

  launch-IsSafe :
      {C : Type 0} (o : CoreResult Protocol.Error C) (run : C → Ran Protocol.Transmit) (p : Plan)
      (s : Session) (d : Devices)
      → IsSafe s d (launch o run p s d)
  unfolding launch armed
  launch-IsSafe (failure e) run p s d off = (refl, refl)
  launch-IsSafe (success c) run p s d off = absurd (ground arith)

  launch_ledger-IsSafe :
      (o : CoreResult Protocol.Error F.ledger.FamilyCommand)
      (run : F.ledger.FamilyCommand → Ran Protocol.Transmit) (p : Plan) (s : Session) (d : Devices)
      → IsSafe s d (launch_ledger o run p s d)
  unfolding launch_ledger armed
  launch_ledger-IsSafe (failure e) run p s d off = (refl, refl)
  launch_ledger-IsSafe (success c) run p s d off = (ground arith, ground arith)

  start_with-IsSafe :
      (inner : Inner) (p : Plan) (s : Session) (d : Devices) → IsSafe s d (start_with inner p s d)
  unfolding start_with
  start_with-IsSafe (Session.ledger i) p s d = launch_ledger-IsSafe _ _ p s d
  start_with-IsSafe _ p s d = launch-IsSafe _ _ p s d

  start_call_err :
      (command : HwiCommand) (s : Session) (d : Devices) (e : HwiError)
      → s.started ≡ false
      → plan command s.kind ≡ err e
      → start_call command s d ≡ record { outcome = err e; session = s; devices = d }
  unfolding start_call
  start_call_err command s d e off planned = ground arith

  -- the first `start`, seen from the session
  start_call-first :
      (command : HwiCommand) (s : Session) (d : Devices)
      → s.started ≡ false
      → Answered (start_call command s d).outcome × IsSafe s d (start_call command s d)
  unfolding start_session
  start_call-first command s d off =
      by_plan (plan command s.kind) refl (Answered-Preflight _ (plan-Preflight command s.kind))
    where
      by_plan :
          (o : Outcome Plan)
          → plan command s.kind ≡ o
          → Answered o
          → Answered (start_call command s d).outcome × IsSafe s d (start_call command s d)
      by_plan o e (answers p) =
          rw (start_call_eq command s d p off e)
            (start_session-Answered p s d, start_with-IsSafe s.inner p s d)
      by_plan o e (fails x n) =
          rw (start_call_err command s d x off e) (fails x n, λ _. (refl, refl))

  module _ ⦃D : Device⦄ where
    settle_safe :
        {R : Type 0} (i : ℕ) (c : Called R) (w : World) (s : Session) (e : HwiError)
        → c.outcome ≡ err e
        → c.session.started ≡ false
        → (c.session ≡ s) × (c.devices ≡ w.devices)
        → IsUntouched w (settle i c w).1 i s
    unfolding settle
    settle_safe i c w s e failed off (mine, alone) = (ground arith, (ground arith, ground arith))

    -- How the first `start` ends: nothing has happened, the command is under way, or the interpreter is
    -- gone.
    pub data AfterStart (w w' : World) (i : ℕ) (s : Session) (command : HwiCommand)
        : Outcome Transmit → Type 0 where
      declines :
          (e : HwiError)
          → is_bad_state e ≡ false
          → IsUntouched w w' i s
          → AfterStart w w' i s command (err e)
      launches :
          (t : Transmit) (s' : Session) (p : Plan)
          → IsLive w' i s'
          → s'.lease ≡ s.lease
          → s'.finished ≡ s.finished
          → plan command s.kind ≡ ok p
          → IsRecorded s' p
          → AfterStart w w' i s command (ok t)
      retires :
          (e : HwiError)
          → is_bad_state e ≡ false
          → IsRetired w w' i s
          → AfterStart w w' i s command (err e)

    -- The first `start` of an interpreter ends in one of three ways. An error leaves the session and every
    -- handle as they were, or it retires the interpreter, whose lease is then free; neither error is a
    -- `BadState`. Or the planned command is under way, with the response kind that it expects and its
    -- PSBT, if it has one, recorded, and the lease kept.
    pub start-ends :
        (i : ℕ) (command : HwiCommand) (w : World) (s : Session)
        → IsLive w i s
        → s.started ≡ false
        → AfterStart w (start i command w).1 i s command (start i command w).0
    unfolding start
    start-ends i command w s live off =
        let (answered, safe) = start_call-first command s w.devices off in
        rw (live_eq i (start_call command) w s live) (by_outcome c.outcome refl answered safe)
      where
        c : Called Transmit
        c = start_call command s w.devices

        by_outcome :
            (o : Outcome Transmit)
            → c.outcome ≡ o
            → Answered o
            → IsSafe s w.devices c
            → AfterStart w (settle i c w).1 i s command (settle i c w).0
        by_outcome o e (answers t) safe =
            let (p, planned, r) = start_call-ok command s w.devices t e in
            rw (e, settle)
              (launches t c.session p (ground arith, ground arith)
                (start_call-IsFrame command s w.devices).lease
                (start_call-finished command s w.devices) planned r)
        by_outcome o e (fails x n) safe = elim (Bool-cases c.session.started) [
          | inl on ↦
              rw (settle_outcome i c w, e)
                (retires x n (
                  settle-IsRetired i c w s x e on n (start_call-IsFrame command s w.devices).lease))
          | inr off ↦
              rw (settle_outcome i c w, e) (declines x n (settle_safe i c w s x e off (safe off)))
        ]
