-- ===== src/Interp/World/Sound.antt =====
-- bhwi-ffi/src/interp.rs: panics, and the locks that they would poison.
use bhwi_ffi.Prelude.{
  ℕ, false, Option, List, [], ◌∷◌, ◌≡◌, ◌≢◌, arith, refl, ap, ◌∙◌, inl, inr, Bool-cases,
  Option-cases,
}
use bhwi_ffi.Text.{Bytes}
use bhwi_ffi.Error.{Outcome, panicked}
use bhwi_ffi.Core.Primitives.{Primitives}
use bhwi_ffi.Core.Device.{Device}
use bhwi_ffi.Core.Library.{Library}
use bhwi_ffi.Core.Bitcoin.{Input, Psbt}
use bhwi_ffi.Core.Result.{CoreResult, success, failure}
use bhwi_ffi.Core.Protocol
use bhwi_ffi.Core.Family.{Families}
use bhwi_ffi.Types.Command.{HwiCommand}
use bhwi_ffi.Types.Plan.{Plan, plan}
use bhwi_ffi.Types.Plan.Preflight.{plan-Preflight}
use bhwi_ffi.Interp.Session.{Session, Called, Devices, end_inner}
use bhwi_ffi.Interp.Replies.{require_running}
use bhwi_ffi.Interp.Replies.Answers.{
  Answered, answers, fails, Answered-Preflight, advance-Answered, start_session-Answered,
}
use bhwi_ffi.Interp.Fidelity.{check_psbt, check_inputs}
use bhwi_ffi.Interp.World.{
  World, start, exchange, end, start_call, exchange_call, with_session, settle, end_session,
  unlocked_key, accept, check_signed, install_key,
}
use bhwi_ffi.Interp.World.Exclusive.{session_at}
use bhwi_ffi.Interp.World.Slots.{
  Slot, same, built, started, exchanged, consumed, slot_of, step-Slot,
}
use bhwi_ffi.Interp.World.Calls.{Call, run, step, IsFresh}

abbrev Returns : {A : Type 0} → Outcome A → Type 0
Returns o = o ≢ panicked

Returns-Answered : {A : Type 0} (o : Outcome A) → Answered o → Returns o
Returns-Answered o (answers a) = ground arith
Returns-Answered o (fails e n) = ground arith

module _ ⦃P : Primitives⦄ ⦃F : Families⦄ where
  slot_of_sound : {R : Type 0} (c : Called R) → Returns c.outcome → (slot_of c).poisoned ≡ false
  slot_of_sound c r = ground arith

  module _ ⦃L : Library⦄ where
    start_call-Returns :
        (command : HwiCommand) (s : Session) (d : Devices)
        → Returns (start_call command s d).outcome
    unfolding start_call
    start_call-Returns command s d = elim (Bool-cases s.started) [
      | inl on ↦ ground arith
      | inr off ↦
          by_plan (plan command s.kind) refl (Answered-Preflight _ (plan-Preflight command s.kind))
    ]
      where
        by_plan :
            (o : Outcome Plan)
            → plan command s.kind ≡ o
            → Answered o
            → Returns (start_call command s d).outcome
        by_plan o e (answers p) = ground (arith, Returns-Answered _ (start_session-Answered p s d))
        by_plan o e (fails h n) = ground arith

    exchange_call-Returns :
        (reply : Bytes) (s : Session) (d : Devices) → Returns (exchange_call reply s d).outcome
    unfolding exchange_call require_running
    exchange_call-Returns reply s d =
        ground (arith, Returns-Answered _ (advance-Answered reply s d))

    check_inputs-Returns : (as' bs : List Input) → Returns (check_inputs as' bs)
    unfolding check_inputs
    check_inputs-Returns [] bs = ground arith
    check_inputs-Returns (a ∷ as') [] = ground arith
    check_inputs-Returns (a ∷ as') (b ∷ bs) = ground (arith, check_inputs-Returns as' bs)

    check_psbt-Returns :
        (inputs : List Input) (tx : Option P.Wtxid) (psbt : Psbt)
        → Returns (check_psbt inputs tx psbt)
    unfolding check_psbt
    check_psbt-Returns inputs tx psbt = ground (arith, check_inputs-Returns inputs psbt.inputs)

    check_signed-Returns : (s : Session) (r : Protocol.Response) → Returns (check_signed s r)
    unfolding check_signed
    check_signed-Returns s (Protocol.signed_psbt psbt) =
        check_psbt-Returns s.prior_inputs s.prior_unsigned_tx psbt
    check_signed-Returns s _ = ground arith

    accept-Returns :
        (s : Session) (o : CoreResult Protocol.Error Protocol.Response) → Returns (accept s o)
    unfolding accept
    accept-Returns s (failure e) = ground arith
    accept-Returns s (success r) = ground (arith, check_signed-Returns s r)

    module _ ⦃D : Device⦄ where
      end_session-Returns : (s : Session) (d : Devices) → Returns (end_session s d).0
      unfolding end_session install_key
      end_session-Returns s d = elim (Bool-cases s.finished) [
        | inr unfinished ↦ ground arith
        | inl finished ↦ elim (Option-cases (unlocked_key s.lease (end_inner s.inner d).0)) [
          | inl other ↦ ground (arith, accept-Returns s (end_inner s.inner d).0)
          | inr ((h, key), unlocked) ↦ ground arith
        ]
      ]

      step_sound :
          (c : Call) (w : World)
          → ((i : ℕ) → (w.interps i).poisoned ≡ false)
          → (i : ℕ) → ((step c w).interps i).poisoned ≡ false
      step_sound c w sound i = by_slot (step c w) (step-Slot c w i)
        where
          by_slot : (w' : World) → Slot w c i w' → (w'.interps i).poisoned ≡ false
          by_slot w' (same e n) = ground (arith, sound i)
          by_slot w' (built s b here n u f e) = ground arith
          by_slot w' (started command s k live e n) =
              ap (λ m. m.poisoned) e
              ∙ slot_of_sound (start_call command s w.devices)
                  (start_call-Returns command s w.devices)
          by_slot w' (exchanged reply s k live e n) =
              ap (λ m. m.poisoned) e
              ∙ slot_of_sound (exchange_call reply s w.devices)
                  (exchange_call-Returns reply s w.devices)
          by_slot w' (consumed s k live e n) = ground arith

      pub run-unpoisoned :
          (calls : List Call) (w : World)
          → ((i : ℕ) → (w.interps i).poisoned ≡ false)
          → (i : ℕ) → ((run calls w).interps i).poisoned ≡ false
      unfolding run
      run-unpoisoned [] w sound i = sound i
      run-unpoisoned (c ∷ cs) w sound i = run-unpoisoned cs (step c w) (step_sound c w sound) i

      start-Returns : (i : ℕ) (command : HwiCommand) (w : World) → Returns (start i command w).0
      unfolding start with_session settle
      start-Returns i command w = elim (Option-cases (session_at w i)) [
        | inl gone ↦ ground arith
        | inr (s, live) ↦ ground (arith, start_call-Returns command s w.devices)
      ]

      exchange-Returns : (i : ℕ) (reply : Bytes) (w : World) → Returns (exchange i reply w).0
      unfolding exchange with_session settle
      exchange-Returns i reply w = elim (Option-cases (session_at w i)) [
        | inl gone ↦ ground arith
        | inr (s, live) ↦ ground (arith, exchange_call-Returns reply s w.devices)
      ]

      end-Returns : (i : ℕ) (w : World) → Returns (end i w).0
      unfolding end
      end-Returns i w = elim (Option-cases (session_at w i)) [
        | inl gone ↦ ground arith
        | inr (s, live) ↦ ground (arith, end_session-Returns s w.devices)
      ]

      -- After every schedule of calls from fresh handles, no interpreter's lock is poisoned, and `start`,
      -- `exchange` and `end` on any interpreter return: they give a value or an error, and never panic,
      -- whatever the command and the reply.
      pub run_sound :
          (calls : List Call) (w : World)
          → IsFresh w
          → (i : ℕ)
          → (((run calls w).interps i).poisoned ≡ false)
            × ((command : HwiCommand) → (start i command (run calls w)).0 ≢ panicked)
            × ((reply : Bytes) → (exchange i reply (run calls w)).0 ≢ panicked)
            × ((end i (run calls w)).0 ≢ panicked)
      run_sound calls w f i = (
        run-unpoisoned calls w f.nothing_poisoned i,
        λ command. start-Returns i command _,
        λ reply. exchange-Returns i reply _,
        end-Returns i _,
      )
