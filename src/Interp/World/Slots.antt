-- ===== src/Interp/World/Slots.antt =====
-- bhwi-ffi/src/interp.rs: what each call of the host does to each interpreter.
use bhwi_ffi.Prelude.{
  ℕ, suc, leb, Bool, true, false, not, ◌&&◌, Option, none, some, [], ◌≡◌, ◌⊎◌, update,
  if◌then◌else◌, arith, refl, ap, eqb, inl, inr, Bool-cases, Option-cases,
}
use bhwi_ffi.Text.{Bytes}
use bhwi_ffi.Error.{Outcome, ok, err, panicked, is_bad_state}
use bhwi_ffi.Network.{to_core_network}
use bhwi_ffi.Core.Primitives.{Primitives}
use bhwi_ffi.Core.Device.{Device}
use bhwi_ffi.Core.Library.{Library}
use bhwi_ffi.Core.Family.{Families}
use bhwi_ffi.State.Leased.{Mutex, mutex, acquire}
use bhwi_ffi.Types.Device
use bhwi_ffi.Types.Device.{DeviceKind}
use bhwi_ffi.Types.Expect
use bhwi_ffi.Types.Command.{HwiCommand}
use bhwi_ffi.Interp.Session
use bhwi_ffi.Interp.Session.{StateLease, unleased, Inner, Session, Called, Devices}
use bhwi_ffi.Interp.World.{
  World, build, given, settle, with_session, new_bitbox, new_coldcard, new_jade, new_ledger,
  new_specter, new_trezor, new_keepkey, start, exchange, end, drop_interp, start_call,
  exchange_call,
}
use bhwi_ffi.Interp.World.Exclusive.{session_at}
use bhwi_ffi.Interp.World.Steps.{with_session-cases}
use bhwi_ffi.Interp.World.Calls.{
  Call, builds_bitbox, builds_coldcard, builds_jade, builds_specter, builds_ledger, builds_trezor,
  builds_keepkey, starts, exchanges, ends, drops, exports, takes_code, clears, step,
}

-- the calls of a constructor
abbrev pub is_build : Call → Bool
is_build (builds_bitbox h network) = true
is_build (builds_coldcard h) = true
is_build (builds_jade network) = true
is_build (builds_specter network) = true
is_build builds_ledger = true
is_build (builds_trezor network p on_device) = true
is_build (builds_keepkey network p) = true
is_build _ = false

module _ ⦃P : Primitives⦄ ⦃F : Families⦄ where
  -- what a call on a session leaves of the interpreter
  abbrev pub slot_of : {R : Type 0} → Called R → Mutex (Option Session)
  slot_of c = elim c.outcome [
    | ok r ↦ mutex (some c.session)
    | err e ↦
        if c.session.started && not (is_bad_state e) then mutex none else mutex (some c.session)
    | panicked ↦ record { value = some c.session; poisoned = true }
  ]

  module _ ⦃L : Library⦄ where
    -- What the call `c`, which turns `w` into `w'`, does to interpreter `i`.
    pub data Slot (w : World) (c : Call) (i : ℕ) (w' : World) : Type 0 where
      same : w'.interps i ≡ w.interps i → leb w'.next i ≡ leb w.next i → Slot w c i w'
      built :
          (s : Session)
          → is_build c ≡ true
          → i ≡ w.next
          → w'.next ≡ suc w.next
          → s.started ≡ false
          → s.finished ≡ false
          → w'.interps i ≡ mutex (some s)
          → Slot w c i w'
      started :
          (command : HwiCommand) (s : Session)
          → c ≡ starts i command
          → session_at w i ≡ some s
          → w'.interps i ≡ slot_of (start_call command s w.devices)
          → w'.next ≡ w.next
          → Slot w c i w'
      exchanged :
          (reply : Bytes) (s : Session)
          → c ≡ exchanges i reply
          → session_at w i ≡ some s
          → w'.interps i ≡ slot_of (exchange_call reply s w.devices)
          → w'.next ≡ w.next
          → Slot w c i w'
      consumed :
          (s : Session)
          → (c ≡ ends i) ⊎ (c ≡ drops i)
          → session_at w i ≡ some s
          → w'.interps i ≡ mutex none
          → w'.next ≡ w.next
          → Slot w c i w'

    build-Slot :
        (inner : Inner) (kind : DeviceKind) (l : StateLease) (d : Devices) (w : World) (c : Call)
        (i : ℕ)
        → is_build c ≡ true
        → Slot w c i (build inner kind l d w).1
    unfolding build
    build-Slot inner kind l d w c i b = elim (Bool-cases (eqb i w.next)) [
      | inl here ↦
          let s : Session = record {
            inner = inner;
            lease = l;
            kind = kind;
            started = false;
            finished = false;
            expect = Expect.anything;
            prior_inputs = [];
            prior_unsigned_tx = none;
            ledger_registration_id = none;
          } in
          built s b (ground arith) refl refl refl (ground arith)
      | inr other ↦ same (ground arith) (ground arith)
    ]

    settle-interps :
        {R : Type 0} (i : ℕ) (c : Called R) (w : World) (j : ℕ)
        → (settle i c w).1.interps j ≡ update w.interps i (slot_of c) j
    unfolding settle
    settle-interps i c w j = ground arith

    settle-next : {R : Type 0} (i : ℕ) (c : Called R) (w : World) → (settle i c w).1.next ≡ w.next
    unfolding settle
    settle-next i c w = ground arith

    -- A call that changes no interpreter.
    unchanged :
        (w w' : World) (c : Call) (i : ℕ)
        → w'.interps ≡ w.interps
        → w'.next ≡ w.next
        → Slot w c i w'
    unchanged w w' c i e n = same (ap (λ f. f i) e) (ap (λ n. leb n i) n)

    -- A call through the lock of interpreter `i`, seen from interpreter `j`.
    with_session-Slot :
        {R : Type 0} (i : ℕ) (f : Session → Devices → Called R) (w : World) (c : Call) (j : ℕ)
        → ((s : Session)
            → session_at w j ≡ some s
            → i ≡ j
            → (w' : World) → w'.interps j ≡ slot_of (f s w.devices)
            → w'.next ≡ w.next
            → Slot w c j w')
        → Slot w c j (with_session i f w).1
    with_session-Slot i f w c j mine = elim (with_session-cases i f w) [
      | inl untouched ↦ rw untouched (same refl refl)
      | inr (s, live, ran) ↦ rw ran (
          let slots = settle-interps i (f s w.devices) w j in
          let next = settle-next i (f s w.devices) w in
          elim (Bool-cases (eqb i j)) [
            | inl here ↦ mine s (ground arith) (ground arith) _ (ground (arith, slots)) next
            | inr other ↦ same (ground (arith, slots)) (ground (arith, next))
          ])
    ]

    given-Slot :
        {A : Type 0} (o : Outcome A) (f : A → World → Outcome ℕ × World) (w : World) (c : Call)
        (i : ℕ)
        → ((a : A) → Slot w c i (f a w).1)
        → Slot w c i (given o f w).1
    given-Slot (ok a) f w c i h = h a
    given-Slot (err e) f w c i h = same refl refl
    given-Slot panicked f w c i h = same refl refl

    module _ ⦃D : Device⦄ where
      end-Slot : (i : ℕ) (w : World) (j : ℕ) → Slot w (ends i) j (end i w).1
      unfolding end
      end-Slot i w j = elim (Option-cases (session_at w i)) [
        | inl gone ↦ unchanged w _ (ends i) j (ground arith) (ground arith)
        | inr (s, live) ↦ elim (Bool-cases (w.interps i).poisoned) [
          | inl p ↦ unchanged w _ (ends i) j (ground arith) (ground arith)
          | inr p ↦ elim (Bool-cases (eqb i j)) [
            | inl here ↦
                consumed s (inl (ground arith)) (ground arith) (ground arith) (ground arith)
            | inr other ↦ same (ground arith) (ground arith)
          ]
        ]
      ]

      drop_interp-Slot : (i : ℕ) (w : World) (j : ℕ) → Slot w (drops i) j (drop_interp i w)
      unfolding drop_interp
      drop_interp-Slot i w j = elim (Option-cases (session_at w i)) [
        | inl gone ↦ unchanged w _ (drops i) j (ground arith) (ground arith)
        | inr (s, live) ↦ elim (Bool-cases (eqb i j)) [
          | inl here ↦ consumed s (inr (ground arith)) (ground arith) (ground arith) (ground arith)
          | inr other ↦ same (ground arith) (ground arith)
        ]
      ]

      -- Every call does one of these to every interpreter.
      pub step-Slot : (c : Call) (w : World) (i : ℕ) → Slot w c i (step c w)
      unfolding step new_jade new_specter new_ledger new_trezor new_keepkey start exchange
          new_bitbox new_coldcard acquire
      step-Slot (builds_bitbox h network) w i =
          elim (Bool-cases (w.devices.noises h).state.leased) [
            | inl out ↦ rw (out, step, new_bitbox) (same refl refl)
            | inr free ↦ rw (free, step, new_bitbox) (build-Slot _ _ _ _ w _ i refl)
          ]
      step-Slot (builds_coldcard h) w i = elim (Bool-cases (w.devices.engines h).engine.leased) [
        | inl out ↦ rw (out, step, new_coldcard) (same refl refl)
        | inr free ↦ rw (free, step, new_coldcard) (build-Slot _ _ _ _ w _ i refl)
      ]
      step-Slot (builds_jade network) w i = build-Slot _ _ _ _ w _ i refl
      step-Slot (builds_specter network) w i = build-Slot _ _ _ _ w _ i refl
      step-Slot builds_ledger w i = build-Slot _ _ _ _ w _ i refl
      step-Slot (builds_trezor network p on_device) w i =
          given-Slot {A = Option P.HostPassphrase} _
            (λ q.
              build (Session.trezor (F.trezor_new (to_core_network network) q on_device))
                Device.trezor unleased w.devices)
            w _ i (λ q. build-Slot _ _ _ _ w _ i refl)
      step-Slot (builds_keepkey network p) w i =
          given-Slot {A = Option P.HostPassphrase} _
            (λ q.
              build (Session.keepkey (F.keepkey_new (to_core_network network) q)) Device.keepkey
                unleased w.devices)
            w _ i (λ q. build-Slot _ _ _ _ w _ i refl)
      step-Slot (starts j command) w i =
          with_session-Slot j (start_call command) w _ i λ s live here w' slot next.
            started command s (ap (λ k. starts k command) here) live slot next
      step-Slot (exchanges j reply) w i =
          with_session-Slot j (exchange_call reply) w _ i λ s live here w' slot next.
            exchanged reply s (ap (λ k. exchanges k reply) here) live slot next
      step-Slot (ends j) w i = end-Slot j w i
      step-Slot (drops j) w i = drop_interp-Slot j w i
      step-Slot (exports h) w i = same refl refl
      step-Slot (takes_code h) w i = same refl refl
      step-Slot (clears h) w i = same refl refl
