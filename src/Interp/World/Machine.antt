-- ===== src/Interp/World/Machine.antt =====
-- bhwi-ffi/src/interp.rs: the calls of a host against the state machine of an interpreter.
use bhwi_ffi.Prelude.{
  ℕ, ◌≤◌, leb, true, false, Option, none, some, List, [], ◌∷◌, ◌≡◌, ◌⊎◌, arith, refl, ap, sym, ◌∙◌,
  inl, inr, Bool-cases,
}
use bhwi_ffi.Core.Primitives.{Primitives}
use bhwi_ffi.Core.Device.{Device}
use bhwi_ffi.Core.Library.{Library}
use bhwi_ffi.Core.Family.{Families}
use bhwi_ffi.Text.{Bytes}
use bhwi_ffi.Types.Command.{HwiCommand}
use bhwi_ffi.Interp.Session.{Session, Called}
use bhwi_ffi.Interp.World.{World, start_call, exchange_call}
use bhwi_ffi.Interp.World.Exclusive.{Inv, session_at}
use bhwi_ffi.Interp.World.Runs.{fresh-Inv, step-Inv, run-Inv}
use bhwi_ffi.Interp.World.Slots.{
  Slot, same, built, started, exchanged, consumed, slot_of, step-Slot,
}
use bhwi_ffi.Interp.World.Phases.{
  Phase, unbuilt, ready, running, finished, Moves, stays, builds, launches, aborts, finishes, fails,
  consumes, rank, is_alive, phase_of, phase, IsOrdered, slot_of-phase, start_call-finished,
  start_call_again, exchange_call_early, exchange_call-started,
}
use bhwi_ffi.Interp.World.Calls.{Call, starts, exchanges, run, step, IsFresh}

module _ ⦃P : Primitives⦄ ⦃F : Families⦄ ⦃L : Library⦄ where
  Moves-at :
      (c : Call) (i : ℕ) (p p' q q' : Phase) → p ≡ p' → q ≡ q' → Moves c i p' q' → Moves c i p q
  Moves-at c i p p' q q' e f m = rw (e, f) m

  -- `start` on a live interpreter
  start-Moves :
      (c : Call) (i : ℕ) (w : World) (s : Session) (command : HwiCommand)
      → c ≡ starts i command
      → (s.started ≡ false → s.finished ≡ false)
      → Moves c i (phase_of (some s)) (phase_of (slot_of (start_call command s w.devices)).value)
  start-Moves c i w s command e ordered =
      let r = start_call command s w.devices in
      elim (Bool-cases s.started) [
        | inl on ↦
            Moves-at c i _ _ _ _ refl (ap phase_of (start_call_again command s w.devices on))
              (stays _)
        | inr off ↦
            let from : phase_of (some s) ≡ ready = ground arith in
            let unfinished = start_call-finished command s w.devices ∙ ordered off in
            elim (slot_of-phase r) [
              | inl lost ↦ Moves-at c i _ _ _ _ from lost (aborts command e)
              | inr held ↦ elim (Bool-cases r.session.started) [
                | inl on ↦
                    let to : phase_of (some r.session) ≡ running = rw (on, unfinished) refl in
                    Moves-at c i _ _ _ _ from (held ∙ to) (launches command e)
                | inr off' ↦
                    let to : phase_of (some r.session) ≡ ready = rw off' refl in
                    Moves-at c i _ _ _ _ from (held ∙ to) (stays ready)
              ]
            ]
      ]

  -- `exchange` on a live interpreter
  exchange-Moves :
      (c : Call) (i : ℕ) (w : World) (s : Session) (reply : Bytes)
      → c ≡ exchanges i reply
      → Moves c i (phase_of (some s)) (phase_of (slot_of (exchange_call reply s w.devices)).value)
  exchange-Moves c i w s reply e =
      let r = exchange_call reply s w.devices in
      let early = (λ (h : (s.started ≡ false) ⊎ (s.finished ≡ true)).
        Moves-at c i (phase_of (some s)) (phase_of (some s)) (phase_of (slot_of r).value) _ refl
          (ap phase_of (exchange_call_early reply s w.devices h)) (stays (phase_of (some s)))) in
      elim (Bool-cases s.started) [
        | inr off ↦ early (inl off)
        | inl on ↦ elim (Bool-cases s.finished) [
          | inl over ↦ early (inr over)
          | inr more ↦
              let from : phase_of (some s) ≡ running = ground arith in
              let still = exchange_call-started reply s w.devices on in
              elim (slot_of-phase r) [
                | inl lost ↦ Moves-at c i _ _ _ _ from lost (fails reply e)
                | inr held ↦ elim (Bool-cases r.session.finished) [
                  | inl over ↦
                      let to : phase_of (some r.session) ≡ finished = rw (still, over) refl in
                      Moves-at c i _ _ _ _ from (held ∙ to) (finishes reply e)
                  | inr more' ↦
                      let to : phase_of (some r.session) ≡ running = rw (still, more') refl in
                      Moves-at c i _ _ _ _ from (held ∙ to) (stays running)
                ]
              ]
        ]
      ]

  slot_of-session :
      {R : Type 0} (c : Called R) (t : Session) → (slot_of c).value ≡ some t → c.session ≡ t
  slot_of-session c t e = ground arith

  phase_alive :
      (w : World) (i : ℕ) (o : Option Session)
      → leb w.next i ≡ false
      → session_at w i ≡ o
      → phase w i ≡ phase_of o
  phase_alive w i o old e = rw (old, e) refl

  module _ ⦃D : Device⦄ where
    -- Each call refines the machine at each interpreter.
    step-Moves :
        (c : Call) (w : World) (i : ℕ)
        → Inv w
        → IsOrdered w
        → Moves c i (phase w i) (phase (step c w) i)
    step-Moves c w i v ordered = by_slot (step c w) (step-Slot c w i)
      where
        old : (s : Session) → session_at w i ≡ some s → leb w.next i ≡ false
        old s live = ground (arith, v.fresh i)

        alive : (s : Session) → is_alive (phase_of (some s)) ≡ true
        alive s = ground arith

        by_slot : (w' : World) → Slot w c i w' → Moves c i (phase w i) (phase w' i)
        by_slot w' (same e n) =
            let held : phase w' i ≡ phase w i = rw (n, ap (λ m. m.value) e) refl in
            Moves-at c i _ _ _ _ refl held (stays (phase w i))
        by_slot w' (built s b here n u f e) =
            let from : phase w i ≡ unbuilt = ground arith in
            let to : phase w' i ≡ ready = ground arith in Moves-at c i _ _ _ _ from to (builds b)
        by_slot w' (started command s k live e n) =
            Moves-at c i _ _ _ _ (phase_alive w i (some s) (old s live) live)
              (phase_alive w' i _ (ap (λ n. leb n i) n ∙ old s live) (ap (λ m. m.value) e))
              (start-Moves c i w s command k (ordered i s live))
        by_slot w' (exchanged reply s k live e n) =
            Moves-at c i _ _ _ _ (phase_alive w i (some s) (old s live) live)
              (phase_alive w' i _ (ap (λ n. leb n i) n ∙ old s live) (ap (λ m. m.value) e))
              (exchange-Moves c i w s reply k)
        by_slot w' (consumed s k live e n) =
            Moves-at c i _ _ _ _ (phase_alive w i (some s) (old s live) live)
              (phase_alive w' i none (ap (λ n. leb n i) n ∙ old s live) (ap (λ m. m.value) e))
              (consumes (phase_of (some s)) (alive s) k)

    step-IsOrdered : (c : Call) (w : World) → IsOrdered w → IsOrdered (step c w)
    step-IsOrdered c w ordered i = by_slot (step c w) (step-Slot c w i)
      where
        by_slot :
            (w' : World)
            → Slot w c i w'
            → (t : Session) → session_at w' i ≡ some t
            → t.started ≡ false
            → t.finished ≡ false
        by_slot w' (same e n) t live' off = ordered i t (sym (ap (λ m. m.value) e) ∙ live') off
        by_slot w' (built s b here n u f e) t live' off = ground arith
        by_slot w' (started command s k live e n) t live' off =
            let r = start_call command s w.devices in
            let mine = slot_of-session r t (sym (ap (λ m. m.value) e) ∙ live') in
            elim (Bool-cases s.started) [
              | inl on ↦ ground (arith, start_call_again command s w.devices on)
              | inr off' ↦
                  sym (ap (λ s. s.finished) mine)
                  ∙ (start_call-finished command s w.devices ∙ ordered i s live off')
            ]
        by_slot w' (exchanged reply s k live e n) t live' off =
            let r = exchange_call reply s w.devices in
            let mine = slot_of-session r t (sym (ap (λ m. m.value) e) ∙ live') in
            elim (Bool-cases s.started) [
              | inl on ↦ absurd (
                  ground
                    (arith, exchange_call-started reply s w.devices on, ap (λ s. s.started) mine))
              | inr off' ↦
                  ground (arith, exchange_call_early reply s w.devices (inl off'), ordered i s live)
            ]
        by_slot w' (consumed s k live e n) t live' off = absurd (ground arith)

    run-IsOrdered : (calls : List Call) (w : World) → IsOrdered w → IsOrdered (run calls w)
    unfolding run
    run-IsOrdered [] w o = o
    run-IsOrdered (c ∷ cs) w o = run-IsOrdered cs (step c w) (step-IsOrdered c w o)

    fresh-IsOrdered : (w : World) → IsFresh w → IsOrdered w
    fresh-IsOrdered w f i s live off = absurd (ground (arith, f.nothing_built i))

    Moves-rank : (c : Call) (i : ℕ) (p q : Phase) → Moves c i p q → rank p ≤ rank q
    Moves-rank c i p _ (stays _) = omega arith
    Moves-rank c i _ _ (builds b) = omega arith
    Moves-rank c i _ _ (launches command e) = omega arith
    Moves-rank c i _ _ (aborts command e) = omega arith
    Moves-rank c i _ _ (finishes reply e) = omega arith
    Moves-rank c i _ _ (fails reply e) = omega arith
    Moves-rank c i p _ (consumes _ a e) = ground arith

    step-rank :
        (calls : List Call) (w : World) (i : ℕ)
        → Inv w
        → IsOrdered w
        → rank (phase w i) ≤ rank (phase (run calls w) i)
    unfolding run
    step-rank [] w i v o = omega arith
    step-rank (c ∷ cs) w i v o =
        let now = Moves-rank c i _ _ (step-Moves c w i v o) in
        let later = step-rank cs (step c w) i (step-Inv c w v) (step-IsOrdered c w o) in omega arith

    module _ (calls : List Call) (w : World) (f : IsFresh w) where
      -- After every schedule of calls from fresh handles, each further call takes each interpreter along
      -- an edge of the machine or leaves it in its phase: only a constructor builds one, only `start`
      -- takes it from ready to running, only `exchange` from running to finished; a live one is gone only
      -- by `end`, by the drop of its last reference, or by a `start` from ready or an `exchange` from
      -- running.
      pub run-Moves :
          (c : Call) (i : ℕ) → Moves c i (phase (run calls w) i) (phase (step c (run calls w)) i)
      run-Moves c i =
          step-Moves c (run calls w) i (run-Inv calls w (fresh-Inv w f))
            (run-IsOrdered calls w (fresh-IsOrdered w f))

      -- After every schedule of calls from fresh handles, no further schedule takes an interpreter back
      -- to an earlier phase, in the order unbuilt, ready, running, finished, gone.
      pub run-rank :
          (more : List Call) (i : ℕ)
          → rank (phase (run calls w) i) ≤ rank (phase (run more (run calls w)) i)
      run-rank more i =
          step-rank more (run calls w) i (run-Inv calls w (fresh-Inv w f))
            (run-IsOrdered calls w (fresh-IsOrdered w f))
