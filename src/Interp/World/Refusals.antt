-- ===== src/Interp/World/Refusals.antt =====
-- bhwi-ffi/src/interp.rs: `start` and `exchange` in and out of order.
use bhwi_ffi.Prelude.{
  ℕ, Bool, true, false, not, ◌&&◌, Option, none, some, ◌≡◌, update, arith, refl, inl, inr,
  Bool-cases, String, ◌∙◌,
}
use bhwi_ffi.Text.{Bytes}
use bhwi_ffi.Error.{HwiError, Outcome, ok, err, bad_state, is_bad_state}
use bhwi_ffi.Core.Primitives.{Primitives}
use bhwi_ffi.Core.Device.{Device}
use bhwi_ffi.Core.Library.{Library}
use bhwi_ffi.Core.Family.{Families}
use bhwi_ffi.State.Leased.{mutex}
use bhwi_ffi.Types.Command.{HwiCommand}
use bhwi_ffi.Interp.Session.{Session, Called, Devices, drop_lease}
use bhwi_ffi.Interp.World.{World, start, exchange, settle, with_session, start_call, exchange_call}
use bhwi_ffi.Types.Transmit.{Transmit}
use bhwi_ffi.Interp.Replies.{require_running, advance, deliver}
use bhwi_ffi.Interp.Replies.Answers.{Answered, answers, fails, advance-Answered}
use bhwi_ffi.Interp.World.Lifecycle.{IsLive, IsRetired, IsUntouched, settle-IsRetired, live_eq}

module _ ⦃P : Primitives⦄ ⦃F : Families⦄ ⦃L : Library⦄ ⦃D : Device⦄ where
  settle_bad_state :
      {R : Type 0} (i : ℕ) (s : Session) (d : Devices) (w : World) (msg : String)
      → settle {R = R} i (record { outcome = err (bad_state msg); session = s; devices = d }) w ≡ (
        err (bad_state msg),
        record w { devices = d; interps = update w.interps i (mutex (some s)) },
      )
  unfolding settle
  settle_bad_state i s d w msg = elim (Bool-cases s.started) [
    | inl begun ↦ ground arith
    | inr idle ↦ ground arith
  ]

  -- `start` when the command has started already, and `exchange` when it is not under way.
  refused_eq :
      {R : Type 0} (i : ℕ) (f : Session → Devices → Called R) (w : World) (s : Session)
      (msg : String)
      → IsLive w i s
      → f s w.devices ≡ record { outcome = err (bad_state msg); session = s; devices = w.devices }
      → with_session i f w ≡ (
        err (bad_state msg),
        record w { devices = w.devices; interps = update w.interps i (mutex (some s)) },
      )
  refused_eq i f w s msg live e =
      rw (live_eq i f w s live, e) (settle_bad_state i s w.devices w msg)

  -- A second `start` is refused with `BadState`, and the session and every handle are as before.
  pub start-once :
      (i : ℕ) (command : HwiCommand) (w : World) (s : Session)
      → IsLive w i s
      → s.started ≡ true
      → ((start i command w).0 ≡ err (bad_state "start was already called"))
        × IsUntouched w (start i command w).1 i s
  unfolding start start_call
  start-once i command w s live begun =
      let at =
        refused_eq i (start_call command) w s "start was already called" live
          (rw (begun, start_call) refl) in
      rw (at, start) (refl, (refl, (ground arith, ground arith)))

  not_running :
      (s : Session)
      → s.started && not s.finished ≡ false
      → (msg : String) × (require_running s ≡ err (bad_state msg))
  unfolding require_running
  not_running s h = elim (Bool-cases s.started) [
    | inl begun ↦ ("command is finished", ground arith)
    | inr idle ↦ ("command has not started", ground arith)
  ]

  -- `exchange` before `start` or after the command has finished is refused with `BadState`, and the
  -- session and every handle are as before.
  pub exchange-order :
      (i : ℕ) (reply : Bytes) (w : World) (s : Session)
      → IsLive w i s
      → s.started && not s.finished ≡ false
      → ((msg : String) × ((exchange i reply w).0 ≡ err (bad_state msg)))
        × IsUntouched w (exchange i reply w).1 i s
  unfolding exchange exchange_call
  exchange-order i reply w s live idle =
      let (msg, e) = not_running s idle in
      let at = refused_eq i (exchange_call reply) w s msg live (rw (e, exchange_call) refl) in
      rw (at, exchange) ((msg, refl), (refl, (ground arith, ground arith)))

  abbrev is_none {ℓ} : {A : Type ℓ} → Option A → Bool
  is_none none = true
  is_none (some a) = false

  -- How an `exchange` in order ends: the command goes on (with a result, it is finished when there is
  -- nothing more to send), or it fails and the interpreter is retired. It does not panic.
  pub data AfterExchange (w w' : World) (i : ℕ) (s : Session)
      : Outcome (Option Transmit) → Type 0 where
    continues :
        (t : Option Transmit) (s' : Session)
        → IsLive w' i s'
        → s'.finished ≡ is_none t
        → s'.started ≡ true
        → s'.expect ≡ s.expect
        → AfterExchange w w' i s (ok t)
    retires :
        (e : HwiError)
        → is_bad_state e ≡ false
        → IsRetired w w' i s
        → AfterExchange w w' i s (err e)

  advance-session :
      (reply : Bytes) (s : Session) (d : Devices)
      → s.finished ≡ false
      → ((advance reply s d).session.started ≡ s.started)
        × ((advance reply s d).session.expect ≡ s.expect)
        × ((t : Option Transmit)
            → (advance reply s d).outcome ≡ ok t
            → (advance reply s d).session.finished ≡ is_none t)
  unfolding advance deliver
  advance-session reply s d h = (ground arith, ground arith, λ t e. ground arith)

  pub settle_outcome :
      {R : Type 0} (i : ℕ) (c : Called R) (w : World) → (settle i c w).0 ≡ c.outcome
  unfolding settle
  settle_outcome i c w = refl

  running : (s : Session) → s.started ≡ true → s.finished ≡ false → require_running s ≡ ok tt
  unfolding require_running
  running s begun open' = ground arith

  advance-lease :
      (reply : Bytes) (s : Session) (d : Devices) → (advance reply s d).session.lease ≡ s.lease
  unfolding advance deliver
  advance-lease reply s d = ground arith

  -- An `exchange` while the command is under way ends in one of two ways. It succeeds: the session
  -- stays with the response kind that it expects, and it is finished exactly when there is nothing
  -- more to send. Or it fails with an error other than `BadState`: the interpreter is gone, every
  -- further call on it is refused, and its lease is free. It never panics.
  pub exchange-ends :
      (i : ℕ) (reply : Bytes) (w : World) (s : Session)
      → IsLive w i s
      → s.started ≡ true
      → s.finished ≡ false
      → AfterExchange w (exchange i reply w).1 i s (exchange i reply w).0
  unfolding exchange exchange_call advance drop_lease
  exchange-ends i reply w s live begun open' =
      rw (live_eq i (exchange_call reply) w s live, run_eq)
        (by_outcome c.outcome refl (advance-Answered reply s w.devices))
    where
      c : Called (Option Transmit)
      c = advance reply s w.devices

      run_eq : exchange_call reply s w.devices ≡ c
      run_eq = rw (running s begun open', exchange_call) refl

      by_outcome :
          (o : Outcome (Option Transmit))
          → c.outcome ≡ o
          → Answered o
          → AfterExchange w (settle i c w).1 i s (settle i c w).0
      by_outcome o e (answers t) =
          let (begins, expects, finishes) = advance-session reply s w.devices open' in
          rw (e, settle)
            (continues t c.session (ground arith, ground arith) (finishes t e) (begins ∙ begun)
              expects)
      by_outcome o e (fails x n) =
          let (begins, expects, finishes) = advance-session reply s w.devices open' in
          rw (settle_outcome i c w, e)
            (retires x n
              (settle-IsRetired i c w s x e (begins ∙ begun) n (advance-lease reply s w.devices)))
