-- ===== src/Interp/World/Kept.antt =====
-- bhwi-ffi/src/interp.rs: what a started session carries from call to call.
use bhwi_ffi.Prelude.{
  ℕ, leb, true, false, Option, some, List, [], ◌∷◌, ◌≡◌, arith, ap, sym, subst, ◌∙◌,
}
use bhwi_ffi.Text.{Bytes}
use bhwi_ffi.Core.Primitives.{Primitives}
use bhwi_ffi.Core.Device.{Device}
use bhwi_ffi.Core.Library.{Library}
use bhwi_ffi.Core.Protocol
use bhwi_ffi.Core.Family.{Families}
use bhwi_ffi.Types.Command.{HwiCommand}
use bhwi_ffi.Interp.Session.{Session, Called, Devices, Ran, exchange_inner}
use bhwi_ffi.Interp.Replies.{advance, deliver}
use bhwi_ffi.Interp.World.{World, start_call, exchange_call}
use bhwi_ffi.Interp.World.Exclusive.{session_at}
use bhwi_ffi.Interp.World.Slots.{
  Slot, same, built, started, exchanged, consumed, slot_of, step-Slot,
}
use bhwi_ffi.Interp.World.Calls.{Call, run, step}

module _ ⦃P : Primitives⦄ ⦃F : Families⦄ where
  -- The session `s` of a started command has what the session `r` has to check replies and results.
  pub record IsSame (s r : Session) : Type 0 where
    pub is_started : s.started ≡ true
    pub same_expect : s.expect ≡ r.expect
    pub same_inputs : s.prior_inputs ≡ r.prior_inputs
    pub same_tx : s.prior_unsigned_tx ≡ r.prior_unsigned_tx
    pub same_id : s.ledger_registration_id ≡ r.ledger_registration_id

  module _ ⦃L : Library⦄ where
    -- A second `start` leaves the session as it is.
    start_call-IsSame :
        (command : HwiCommand) (s : Session) (d : Devices) (r : Session)
        → IsSame s r
        → IsSame (start_call command s d).session r
    unfolding start_call
    start_call-IsSame command s d r h = record {
      is_started = ground (arith, h.is_started);
      same_expect = ground (arith, h.is_started, h.same_expect);
      same_inputs = ground (arith, h.is_started, h.same_inputs);
      same_tx = ground (arith, h.is_started, h.same_tx);
      same_id = ground (arith, h.is_started, h.same_id);
    }

    deliver-IsSame :
        (s : Session) (ran : Ran (Option Protocol.Transmit)) (r : Session)
        → IsSame s r
        → IsSame (deliver s ran).session r
    unfolding deliver
    deliver-IsSame s ran r h = record {
      is_started = ground (arith, h.is_started);
      same_expect = ground (arith, h.same_expect);
      same_inputs = ground (arith, h.same_inputs);
      same_tx = ground (arith, h.same_tx);
      same_id = ground (arith, h.same_id);
    }

    pub exchange_call-IsSame :
        (reply : Bytes) (s : Session) (d : Devices) (r : Session)
        → IsSame s r
        → IsSame (exchange_call reply s d).session r
    unfolding exchange_call advance
    exchange_call-IsSame reply s d r h =
        let ran = deliver-IsSame s (exchange_inner s.inner reply d) r h in
        record {
          is_started = ground (arith, h.is_started, ran.is_started);
          same_expect = ground (arith, h.same_expect, ran.same_expect);
          same_inputs = ground (arith, h.same_inputs, ran.same_inputs);
          same_tx = ground (arith, h.same_tx, ran.same_tx);
          same_id = ground (arith, h.same_id, ran.same_id);
        }

    slot_of-IsSame :
        {R : Type 0} (c : Called R) (r s : Session)
        → IsSame c.session r
        → (slot_of c).value ≡ some s
        → IsSame s r
    slot_of-IsSame c r s h e =
        let mine : c.session ≡ s = ground arith in subst (λ s. IsSame s r) mine h

    -- Interpreter `i` has been built, and if it is alive its session has what `r` has.
    abbrev pub IsKept : World → ℕ → Session → Type 0
    IsKept w i r = (leb w.next i ≡ false) × ((s : Session) → session_at w i ≡ some s → IsSame s r)

    module _ ⦃D : Device⦄ where
      step-IsKept :
          (c : Call) (w : World) (i : ℕ) (r : Session) → IsKept w i r → IsKept (step c w) i r
      step-IsKept c w i r (old, kept) = by_slot (step c w) (step-Slot c w i)
        where
          by_slot : (w' : World) → Slot w c i w' → IsKept w' i r
          by_slot w' (same e n) = (n ∙ old, λ s live. kept s (sym (ap (λ m. m.value) e) ∙ live))
          by_slot w' (built s b here n u f e) = absurd (ground arith)
          by_slot w' (started command s k live e n) = (
            ground arith,
            λ s' live'.
                slot_of-IsSame (start_call command s w.devices) r s'
                  (start_call-IsSame command s w.devices r (kept s live))
                  (sym (ap (λ m. m.value) e) ∙ live'),
          )
          by_slot w' (exchanged reply s k live e n) = (
            ground arith,
            λ s' live'.
                slot_of-IsSame (exchange_call reply s w.devices) r s'
                  (exchange_call-IsSame reply s w.devices r (kept s live))
                  (sym (ap (λ m. m.value) e) ∙ live'),
          )
          by_slot w' (consumed s k live e n) = (ground arith, λ s' live'. absurd (ground arith))

      pub run-IsKept :
          (calls : List Call) (w : World) (i : ℕ) (r : Session)
          → IsKept w i r
          → IsKept (run calls w) i r
      unfolding run
      run-IsKept [] w i r k = k
      run-IsKept (c ∷ cs) w i r k = run-IsKept cs (step c w) i r (step-IsKept c w i r k)

      -- An interpreter that has been built stays so.
      pub step-old :
          (c : Call) (w : World) (i : ℕ) → leb w.next i ≡ false → leb (step c w).next i ≡ false
      step-old c w i old = by_slot (step c w) (step-Slot c w i)
        where
          by_slot : (w' : World) → Slot w c i w' → leb w'.next i ≡ false
          by_slot w' (same e n) = n ∙ old
          by_slot w' (built s b here n u f e) = absurd (ground arith)
          by_slot w' (started command s k live e n) = ground arith
          by_slot w' (exchanged reply s k live e n) = ground arith
          by_slot w' (consumed s k live e n) = ground arith
