-- ===== src/Interp/World/Isolation/Own.antt =====
-- bhwi-ffi/src/interp.rs: a call on an interpreter, in two worlds that agree on it.
use bhwi_ffi.Prelude.{
  ℕ, true, false, ◌≡◌, arith, refl, subst, ap, inl, inr, Bool-cases, none, some, Option-cases,
  if◌then◌else◌, ◌⊎◌,
}
use bhwi_ffi.Text.{Bytes}
use bhwi_ffi.Core.Primitives.{Primitives}
use bhwi_ffi.Core.Device.{Device}
use bhwi_ffi.Core.Library.{Library}
use bhwi_ffi.Core.Family.{Families}
use bhwi_ffi.Error.{Outcome, err, bad_state, internal}
use bhwi_ffi.Interp.Session.{Session, Called, Devices}
use bhwi_ffi.Interp.World.{
  World, start, exchange, end, drop_interp, start_call, exchange_call, with_session, settle,
}
use bhwi_ffi.Interp.World.Calls.{Call, starts, exchanges, ends, drops, step}
use bhwi_ffi.Interp.World.Exclusive.{session_at}
use bhwi_ffi.Types.Command.{HwiCommand}
use bhwi_ffi.Interp.World.Frame.{borrows, start_call-IsFrame, exchange_call-IsFrame}
use bhwi_ffi.Interp.World.Cells.{cell_at, cell_at-drop_lease}
use bhwi_ffi.Interp.World.Locality.Reads.{IsAlike}
use bhwi_ffi.Interp.World.Locality.{start_call-IsAlike, exchange_call-IsAlike, end_session_alike}
use bhwi_ffi.Interp.World.Isolation.Answers.{of_start, of_exchange, of_end, answer, is_on}

module _ ⦃P : Primitives⦄ ⦃F : Families⦄ where
  -- Interpreter `i` stands alike in two worlds: in its lock, and in the cell behind its lease.
  pub record Agree (i : ℕ) (w w' : World) : Type 0 where
    pub slot : w.interps i ≡ w'.interps i
    pub cell :
        (s : Session)
        → session_at w i ≡ some s
        → cell_at w.devices s.lease ≡ cell_at w'.devices s.lease

  abbrev poisoned_or_gone : {R : Type 0} → ℕ → World → Outcome R
  poisoned_or_gone i w =
      if (w.interps i).poisoned
      then err (internal "interpreter lock poisoned")
      else err (bad_state "interpreter is finished")

  with_session_refused :
      {R : Type 0} (i : ℕ) (f : Session → Devices → Called R) (w : World)
      → ((w.interps i).poisoned ≡ true) ⊎ (session_at w i ≡ none)
      → with_session i f w ≡ (poisoned_or_gone i w, w)
  unfolding with_session
  with_session_refused i f w h = ground arith

  with_session_ran :
      {R : Type 0} (i : ℕ) (f : Session → Devices → Called R) (w : World) (s : Session)
      → (w.interps i).poisoned ≡ false
      → session_at w i ≡ some s
      → with_session i f w ≡ settle i (f s w.devices) w
  unfolding with_session
  with_session_ran i f w s p live = ground arith

  lock-cases :
      (i : ℕ) (w : World)
      → (((w.interps i).poisoned ≡ true) ⊎ (session_at w i ≡ none))
        ⊎ (((w.interps i).poisoned ≡ false) × (s : Session) × (session_at w i ≡ some s))
  lock-cases i w = elim (Bool-cases (w.interps i).poisoned) [
    | inl p ↦ inl (inl p)
    | inr p ↦ elim (Option-cases (session_at w i)) [
      | inl gone ↦ inl (inr gone)
      | inr (s, live) ↦ inr (p, s, live)
    ]
  ]

  module _ (i : ℕ) (w w' : World) (g : Agree i w w') where
    settle-Agree :
        {R : Type 0} (s : Session) (a b : Called R)
        → IsAlike s.lease a b
        → a.session.lease ≡ s.lease
        → Agree i (settle i a w).1 (settle i b w').1
    unfolding settle
    settle-Agree s a b h l = record {
      slot = ground (arith, h.outcome, h.session);
      cell = λ s' live. ground (
        arith,
        h.outcome,
        h.session,
        h.cell,
        cell_at-drop_lease a.session.lease a.devices s'.lease,
        cell_at-drop_lease b.session.lease b.devices s'.lease,
      );
    }

    settle-outcome :
        {R : Type 0} (s : Session) (a b : Called R)
        → IsAlike s.lease a b
        → (settle i a w).0 ≡ (settle i b w').0
    unfolding settle
    settle-outcome s a b h = h.outcome

    pub with_session-Agree :
        {R : Type 0} (f : Session → Devices → Called R)
        → ((s : Session)
            → session_at w i ≡ some s
            → IsAlike s.lease (f s w.devices) (f s w'.devices)
              × ((f s w.devices).session.lease ≡ s.lease))
        → ((with_session i f w).0 ≡ (with_session i f w').0)
          × Agree i (with_session i f w).1 (with_session i f w').1
    with_session-Agree f h = elim (lock-cases i w) [
      | inl closed ↦
          rw
            (
              with_session_refused i f w closed,
              with_session_refused i f w' (ground (arith, g.slot)),
            )
            (ground (arith, g.slot), g)
      | inr (unlocked, s, live) ↦
          let (alike, same) = h s live in
          rw
            (
              with_session_ran i f w s unlocked live,
              with_session_ran i f w' s (ground (arith, g.slot)) (ground (arith, g.slot)),
            )
            (settle-outcome s _ _ alike, settle-Agree s _ _ alike same)
    ]

    drop_interp-Agree : Agree i (drop_interp i w) (drop_interp i w')
    unfolding drop_interp
    drop_interp-Agree = record {
      slot = ground (arith, g.slot);
      cell = λ s live. ground (arith, g.slot, g.cell s);
    }

    module _ ⦃L : Library⦄ ⦃D : Device⦄ where
      end-Agree :
          ((s : Session) → session_at w i ≡ some s → borrows s.inner ≡ s.lease)
          → ((end i w).0 ≡ (end i w').0) × Agree i (end i w).1 (end i w').1
      unfolding end
      end-Agree b = elim (lock-cases i w) [
        | inl closed ↦ (
          ground (arith, g.slot),
          record {
            slot = ground (arith, g.slot);
            cell = λ s live. ground (arith, g.slot, g.cell s);
          },
        )
        | inr (unlocked, s, live) ↦ (
          ground
              (arith, g.slot, end_session_alike w.devices w'.devices s (b s live) (g.cell s live)),
          record { slot = ground (arith, g.slot); cell = λ s live. ground (arith, g.slot) },
        )
      ]

      start-IsAlike :
          (command : HwiCommand)
          → ((s : Session) → session_at w i ≡ some s → borrows s.inner ≡ s.lease)
          → (s : Session) → session_at w i ≡ some s
          → IsAlike s.lease (start_call command s w.devices) (start_call command s w'.devices)
            × ((start_call command s w.devices).session.lease ≡ s.lease)
      start-IsAlike command b s live =
          let at = g.cell s live in
          let alike = start_call-IsAlike w.devices w'.devices command s in
          (
            subst
                (λ l.
                  cell_at w.devices l ≡ cell_at w'.devices l
                  → IsAlike l (start_call command s w.devices) (start_call command s w'.devices))
                (b s live) alike at,
            (start_call-IsFrame command s w.devices).lease,
          )

      exchange-IsAlike :
          (reply : Bytes)
          → ((s : Session) → session_at w i ≡ some s → borrows s.inner ≡ s.lease)
          → (s : Session) → session_at w i ≡ some s
          → IsAlike s.lease (exchange_call reply s w.devices) (exchange_call reply s w'.devices)
            × ((exchange_call reply s w.devices).session.lease ≡ s.lease)
      exchange-IsAlike reply b s live =
          let at = g.cell s live in
          let alike = exchange_call-IsAlike w.devices w'.devices reply s in
          (
            subst
                (λ l.
                  cell_at w.devices l ≡ cell_at w'.devices l
                  → IsAlike l (exchange_call reply s w.devices) (exchange_call reply s w'.devices))
                (b s live) alike at,
            (exchange_call-IsFrame reply s w.devices).lease,
          )

      abbrev pub DoesSame : Call → Type 0
      DoesSame c = (answer c w ≡ answer c w') × Agree i (step c w) (step c w')

      own_start :
          (command : HwiCommand)
          → ((s : Session) → session_at w i ≡ some s → borrows s.inner ≡ s.lease)
          → DoesSame (starts i command)
      unfolding step start
      own_start command b =
          let (result, g') = with_session-Agree (start_call command) (start-IsAlike command b) in
          (ap of_start result, g')

      own_exchange :
          (reply : Bytes)
          → ((s : Session) → session_at w i ≡ some s → borrows s.inner ≡ s.lease)
          → DoesSame (exchanges i reply)
      unfolding step exchange
      own_exchange reply b =
          let (result, g') = with_session-Agree (exchange_call reply) (exchange-IsAlike reply b) in
          (ap of_exchange result, g')

      own_end :
          ((s : Session) → session_at w i ≡ some s → borrows s.inner ≡ s.lease) → DoesSame (ends i)
      unfolding step
      own_end b = let (result, g') = end-Agree b in (ap of_end result, g')

      own_drop : DoesSame (drops i)
      unfolding step
      own_drop = (refl, drop_interp-Agree)

      -- A call on interpreter `i` does the same in both worlds.
      pub own-Agree :
          (c : Call)
          → ((s : Session) → session_at w i ≡ some s → borrows s.inner ≡ s.lease)
          → is_on i c ≡ true
          → DoesSame c
      own-Agree (starts j command) b here =
          subst (λ k. DoesSame (starts k command)) (ground arith) (own_start command b)
      own-Agree (exchanges j reply) b here =
          subst (λ k. DoesSame (exchanges k reply)) (ground arith) (own_exchange reply b)
      own-Agree (ends j) b here = subst (λ k. DoesSame (ends k)) (ground arith) (own_end b)
      own-Agree (drops j) b here = subst (λ k. DoesSame (drops k)) (ground arith) own_drop
      own-Agree _ b here = absurd (ground arith)
