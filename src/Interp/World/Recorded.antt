-- ===== src/Interp/World/Recorded.antt =====
-- bhwi-ffi/src/interp.rs: what a `start` that succeeds records of its command.
use bhwi_ffi.Prelude.{
  ℕ, true, false, some, ◌≡◌, arith, refl, ap, sym, subst, ◌∙◌, inl, inr, Bool-cases, Option-cases,
}
use bhwi_ffi.Error.{Outcome, ok, err, panicked}
use bhwi_ffi.Core.Primitives.{Primitives}
use bhwi_ffi.Core.Device.{Device}
use bhwi_ffi.Core.Library.{Library}
use bhwi_ffi.Core.Result.{CoreResult, success, failure}
use bhwi_ffi.Core.Protocol
use bhwi_ffi.Core.Family.{Families}
use bhwi_ffi.Types.Command.{HwiCommand}
use bhwi_ffi.Types.Plan.{Plan, plan}
use bhwi_ffi.Types.Transmit.{Transmit}
use bhwi_ffi.Interp.Session
use bhwi_ffi.Interp.Session.{
  Inner, Session, Called, Devices, Ran, prior, armed, launch, launch_ledger, registration_id,
  start_with, start_session, exchange_inner,
}
use bhwi_ffi.Interp.World.{World, start, start_call, with_session, settle}
use bhwi_ffi.Interp.World.Exclusive.{Inv, session_at}
use bhwi_ffi.Interp.World.Kept.{IsSame, IsKept, step-old}
use bhwi_ffi.Interp.World.Calls.{starts, run, step}

module _ ⦃P : Primitives⦄ ⦃F : Families⦄ where
  module _ ⦃L : Library⦄ where
    -- The session of a started command has what the plan of the command says to compare with.
    pub record IsRecorded (s : Session) (p : Plan) : Type 0 where
      pub is_started : s.started ≡ true
      pub has_expect : s.expect ≡ p.expect
      pub has_inputs : s.prior_inputs ≡ (prior p.command).0
      pub has_tx : s.prior_unsigned_tx ≡ (prior p.command).1

    -- A `start` that succeeds records the command.
    launch-IsRecorded :
        {C : Type 0} (o : CoreResult Protocol.Error C) (run : C → Ran Protocol.Transmit) (p : Plan)
        (s : Session) (d : Devices) (t : Transmit)
        → (launch o run p s d).outcome ≡ ok t
        → IsRecorded (launch o run p s d).session p
    unfolding launch armed
    launch-IsRecorded (failure e) run p s d t h = absurd (ground arith)
    launch-IsRecorded (success c) run p s d t h = record {
      is_started = refl;
      has_expect = refl;
      has_inputs = refl;
      has_tx = refl;
    }

    launch_ledger-IsRecorded :
        (o : CoreResult Protocol.Error F.ledger.FamilyCommand)
        (run : F.ledger.FamilyCommand → Ran Protocol.Transmit) (p : Plan) (s : Session)
        (d : Devices) (t : Transmit)
        → (launch_ledger o run p s d).outcome ≡ ok t
        → IsRecorded (launch_ledger o run p s d).session p
    unfolding launch_ledger armed
    launch_ledger-IsRecorded (failure e) run p s d t h = absurd (ground arith)
    launch_ledger-IsRecorded (success c) run p s d t h = record {
      is_started = ground arith;
      has_expect = ground arith;
      has_inputs = ground arith;
      has_tx = ground arith;
    }

    start_with-IsRecorded :
        (inner : Inner) (p : Plan) (s : Session) (d : Devices) (t : Transmit)
        → (start_with inner p s d).outcome ≡ ok t
        → IsRecorded (start_with inner p s d).session p
    unfolding start_with
    start_with-IsRecorded (Session.ledger i) p s d t h = launch_ledger-IsRecorded _ _ p s d t h
    start_with-IsRecorded _ p s d t h = launch-IsRecorded _ _ p s d t h

    pub start_call_eq :
        (command : HwiCommand) (s : Session) (d : Devices) (p : Plan)
        → s.started ≡ false
        → plan command s.kind ≡ ok p
        → start_call command s d ≡ start_session p s d
    unfolding start_call
    start_call_eq command s d p off planned = ground arith

    pub start_call-ok :
        (command : HwiCommand) (s : Session) (d : Devices) (t : Transmit)
        → (start_call command s d).outcome ≡ ok t
        → (p : Plan) × (plan command s.kind ≡ ok p) × IsRecorded (start_call command s d).session p
    unfolding start_call start_session
    start_call-ok command s d t h = elim (Bool-cases s.started) [
      | inl on ↦ absurd (ground arith)
      | inr off ↦ by_plan off (plan command s.kind) refl
    ]
      where
        by_plan :
            s.started ≡ false
            → (o : Outcome Plan) → plan command s.kind ≡ o
            → (p : Plan) × (plan command s.kind ≡ ok p)
              × IsRecorded (start_call command s d).session p
        by_plan off (err e) planned = absurd (ground arith)
        by_plan off panicked planned = absurd (ground arith)
        by_plan off (ok p) planned =
            let ran = start_call_eq command s d p off planned in
            (
              p,
              planned,
              subst (λ c. IsRecorded c.session p) (sym ran)
                  (start_with-IsRecorded s.inner p s d t (sym (ap (λ c. c.outcome) ran) ∙ h)),
            )

    module _ ⦃D : Device⦄ where
      -- After a `start` that succeeds, the session is the one that `start` left.
      pub start-IsKept :
          (i : ℕ) (command : HwiCommand) (w : World) (t : Transmit)
          → Inv w
          → (start i command w).0 ≡ ok t
          → (s : Session) × (session_at w i ≡ some s)
            × ((start_call command s w.devices).outcome ≡ ok t)
            × IsKept (start i command w).1 i (start_call command s w.devices).session
      unfolding start with_session settle step
      start-IsKept i command w t v h = elim (Option-cases (session_at w i)) [
        | inl gone ↦ absurd (ground arith)
        | inr (s, live) ↦
            let r = start_call command s w.devices in
            let began : r.outcome ≡ ok t = ground arith in
            let (p, planned, recorded) = start_call-ok command s w.devices t began in
            let itself : IsSame r.session r.session = record {
              is_started = recorded.is_started;
              same_expect = refl;
              same_inputs = refl;
              same_tx = refl;
              same_id = refl;
            } in
            (
              s,
              live,
              began,
              (
                step-old (starts i command) w i (ground (arith, v.fresh i)),
                λ s' live'.
                    let mine : r.session ≡ s' = ground arith in
                    subst (λ s. IsSame s r.session) mine itself,
              ),
            )
      ]
