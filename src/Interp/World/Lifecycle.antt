-- ===== src/Interp/World/Lifecycle.antt =====
-- bhwi-ffi/src/interp.rs: the life of an interpreter, from `build` to the call that consumes it.
use bhwi_ffi.Prelude.{ℕ, true, false, none, some, ◌≡◌, update, arith}
use bhwi_ffi.Text.{Bytes}
use bhwi_ffi.Error.{HwiError, err, bad_state, is_bad_state}
use bhwi_ffi.Core.Primitives.{Primitives}
use bhwi_ffi.Core.Device.{Device}
use bhwi_ffi.Core.Library.{Library}
use bhwi_ffi.Core.Family.{Families}
use bhwi_ffi.State.Leased.{mutex}
use bhwi_ffi.Types.Command.{HwiCommand}
use bhwi_ffi.Interp.Session.{StateLease, Session, Called, Devices}
use bhwi_ffi.Interp.World.{World, start, exchange, end, settle, with_session, end_session, retire}
use bhwi_ffi.Interp.World.Ownership.{lease_beq_iff}
use bhwi_ffi.Interp.World.Frame.{is_out, is_out-drop_lease}
use bhwi_ffi.Interp.World.Exclusive.{session_at}
use bhwi_ffi.Interp.World.Steps.{end_session-drops}

module _ ⦃P : Primitives⦄ ⦃F : Families⦄ ⦃L : Library⦄ where
  -- Interpreter `i` is alive with session `s`, and its lock is sound.
  abbrev pub IsLive : World → ℕ → Session → Type 0
  IsLive w i s = (session_at w i ≡ some s) × ((w.interps i).poisoned ≡ false)

  -- Once an interpreter is gone, every call on it is refused and changes nothing.
  abbrev pub IsGone : ⦃D : Device⦄ → World → ℕ → Type 0
  IsGone w i =
      ((command : HwiCommand) → start i command w ≡ (err (bad_state "interpreter is finished"), w))
      × ((reply : Bytes) → exchange i reply w ≡ (err (bad_state "interpreter is finished"), w))
      × (end i w ≡ (err (bad_state "interpreter is finished"), w))

  module _ ⦃D : Device⦄ where
    gone : (w : World) (i : ℕ) → session_at w i ≡ none → (w.interps i).poisoned ≡ false → IsGone w i
    unfolding start exchange end with_session
    gone w i e p = (λ command. ground arith, λ reply. ground arith, ground arith)

    pub end_eq :
        (i : ℕ) (w : World) (s : Session)
        → session_at w i ≡ some s
        → (w.interps i).poisoned ≡ false
        → end i w ≡ (
          (end_session s w.devices).0,
          record w {
            devices = (end_session s w.devices).1;
            interps = update w.interps i (mutex none);
          },
        )
    unfolding end
    end_eq i w s live sound = ground arith

    -- `end` consumes the interpreter and frees its handle on every path, whether it succeeds, the
    -- command has not finished, the device failed or the checks refuse the response: afterwards the
    -- lease is not out and every call on the interpreter is refused.
    pub end-consumes :
        (i : ℕ) (w : World) (s : Session)
        → IsLive w i s
        → (is_out (end i w).1.devices s.lease ≡ false)
          × (session_at (end i w).1 i ≡ none)
          × IsGone (end i w).1 i
    end-consumes i w s (live, sound) =
        let (d', dropped, flags) = end_session-drops s w.devices in
        let at = end_eq i w s live sound in
        (
          rw (at, dropped)
              (ground (arith, is_out-drop_lease s.lease d' s.lease, lease_beq_iff s.lease s.lease)),
          rw at (ground arith),
          gone (end i w).1 i (rw at (ground arith)) (rw at (ground arith)),
        )

    -- What is left of an interpreter that a failed call has dropped.
    abbrev pub IsRetired : World → World → ℕ → Session → Type 0
    IsRetired w w' i s =
        (is_out w'.devices s.lease ≡ false) × (session_at w' i ≡ none) × IsGone w' i

    -- What is left of an interpreter that a refused call has not touched.
    abbrev pub IsUntouched : World → World → ℕ → Session → Type 0
    IsUntouched w w' i s = (w'.devices ≡ w.devices) × IsLive w' i s

    retire-IsRetired :
        (i : ℕ) (s : Session) (l : StateLease) (d : Devices) (w : World)
        → l ≡ s.lease
        → IsRetired w (retire i l d w) i s
    retire-IsRetired i s l d w e = (
      ground (arith, is_out-drop_lease l d s.lease, lease_beq_iff s.lease l),
      ground arith,
      gone _ i (ground arith) (ground arith),
    )

    pub live_eq :
        {R : Type 0} (i : ℕ) (f : Session → Devices → Called R) (w : World) (s : Session)
        → IsLive w i s
        → with_session i f w ≡ settle i (f s w.devices) w
    unfolding with_session
    live_eq i f w s (live, sound) = ground arith

    pub settle-IsRetired :
        {R : Type 0} (i : ℕ) (c : Called R) (w : World) (s : Session) (e : HwiError)
        → c.outcome ≡ err e
        → c.session.started ≡ true
        → is_bad_state e ≡ false
        → c.session.lease ≡ s.lease
        → IsRetired w (settle i c w).1 i s
    unfolding settle
    settle-IsRetired i c w s e failed begun other same =
        rw (failed, begun, other, settle) (retire-IsRetired i s c.session.lease c.devices w same)
