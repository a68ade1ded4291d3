-- ===== src/Interp/World/Isolation/Others.antt =====
-- bhwi-ffi/src/interp.rs: a call on another interpreter or on a handle.
use bhwi_ffi.Prelude.{
  ℕ, Bool, true, false, ◌≡◌, arith, refl, ap, inl, inr, Bool-cases, Option, some, Option-cases, eqb,
  update,
}
use bhwi_ffi.Core.Primitives.{Primitives}
use bhwi_ffi.Core.Device.{Device}
use bhwi_ffi.Core.Library.{Library}
use bhwi_ffi.Core.Family.{Families}
use bhwi_ffi.Network.{Network, to_core_network}
use bhwi_ffi.Error.{Outcome, ok, err, panicked}
use bhwi_ffi.State.Leased.{acquire, with_cell, get_leased, put_leased, release}
use bhwi_ffi.State.Noise.{NoiseHandle, export_config, take_pairing_code}
use bhwi_ffi.Types.Device
use bhwi_ffi.Interp.Session.Leases.{coldcard}
use bhwi_ffi.Interp.Session
use bhwi_ffi.Interp.Session.{StateLease, unleased, noise, Session, Called, Devices}
use bhwi_ffi.Interp.World.{
  World, build, given, new_bitbox, new_coldcard, new_jade, new_ledger, new_specter, new_trezor,
  new_keepkey, start, exchange, end, drop_interp, start_call, exchange_call, with_session, settle,
}
use bhwi_ffi.Interp.World.Calls.{
  Call, builds_bitbox, builds_coldcard, builds_jade, builds_specter, builds_ledger, builds_trezor,
  builds_keepkey, starts, exchanges, ends, drops, exports, takes_code, clears, step,
}
use bhwi_ffi.Interp.World.Exclusive.{Inv, session_at}
use bhwi_ffi.Interp.World.Frame.{borrows}
use bhwi_ffi.Interp.World.Ownership.{is_real, lease_beq, lease_beq_iff}
use bhwi_ffi.Interp.World.Cells.{
  cell_at, cell_at-drop_lease, IsOutside, start_call-IsOutside, exchange_call-IsOutside,
  end_session-IsOutside,
}
use bhwi_ffi.Interp.World.Steps.{with_session-cases}
use bhwi_ffi.Interp.World.Isolation.Answers.{is_on}

module _ ⦃P : Primitives⦄ ⦃F : Families⦄ where
  -- A handle whose cell is left as it is.
  noise_cell_same :
      (h : ℕ) (n : NoiseHandle) (d : Devices)
      → get_leased n.state ≡ get_leased (d.noises h).state
      → (k : StateLease) → cell_at (record d { noises = update d.noises h n }) k ≡ cell_at d k
  noise_cell_same h n d e unleased = refl
  noise_cell_same h n d e (noise j) = ground arith
  noise_cell_same h n d e (coldcard j) = refl

  take_pairing_code-cell :
      (n : NoiseHandle) → get_leased (take_pairing_code n).1.state ≡ get_leased n.state
  unfolding take_pairing_code
  take_pairing_code-cell n = ground arith

  new_bitbox-cell :
      (h : ℕ) (network : Network) (w : World) (k : StateLease)
      → cell_at (new_bitbox h network w).1.devices k ≡ cell_at w.devices k
  unfolding new_bitbox build acquire get_leased
  new_bitbox-cell h network w unleased = refl
  new_bitbox-cell h network w (noise j) = ground arith
  new_bitbox-cell h network w (coldcard j) = ground arith

  new_coldcard-cell :
      (h : ℕ) (w : World) (k : StateLease)
      → cell_at (new_coldcard h w).1.devices k ≡ cell_at w.devices k
  unfolding new_coldcard build acquire get_leased
  new_coldcard-cell h w unleased = refl
  new_coldcard-cell h w (noise j) = ground arith
  new_coldcard-cell h w (coldcard j) = ground arith

  given-devices :
      {A : Type 0} (o : Outcome A) (f : A → World → Outcome ℕ × World) (w : World)
      → ((a : A) → (f a w).1.devices ≡ w.devices)
      → (given o f w).1.devices ≡ w.devices
  given-devices (ok a) f w h = h a
  given-devices (err e) f w h = refl
  given-devices panicked f w h = refl

  new_trezor-devices :
      (network : Network) (p : Option ℕ) (on_device : Bool) (w : World)
      → (new_trezor network p on_device w).1.devices ≡ w.devices
  unfolding new_trezor build
  new_trezor-devices network p on_device w =
      given-devices {A = Option P.HostPassphrase} _
        (λ q.
          build (Session.trezor (F.trezor_new (to_core_network network) q on_device)) Device.trezor
            unleased w.devices)
        w λ q. refl

  new_keepkey-devices :
      (network : Network) (p : Option ℕ) (w : World)
      → (new_keepkey network p w).1.devices ≡ w.devices
  unfolding new_keepkey build
  new_keepkey-devices network p w =
      given-devices {A = Option P.HostPassphrase} _
        (λ q.
          build (Session.keepkey (F.keepkey_new (to_core_network network) q)) Device.keepkey
            unleased w.devices)
        w λ q. refl

  other_interp : (c : Call) (i j : ℕ) → is_on i c ≡ false → is_on j c ≡ true → eqb i j ≡ false
  other_interp c i j n on = ground arith

  -- Two live interpreters, of which the first borrows.
  apart :
      (w : World) (i j : ℕ) (s t : Session)
      → Inv w
      → eqb i j ≡ false
      → session_at w i ≡ some s
      → session_at w j ≡ some t
      → is_real s.lease ≡ true
      → lease_beq s.lease t.lease ≡ false
  apart w i j s t v n li lj r = elim (Bool-cases (lease_beq s.lease t.lease)) [
    | inl one ↦
        absurd (ground (arith, v.ownership.exclusive i j s.lease, lease_beq_iff s.lease t.lease))
    | inr two ↦ two
  ]

  settle-cell :
      {R : Type 0} (j : ℕ) (c : Called R) (w : World) (k : StateLease)
      → cell_at c.devices k ≡ cell_at w.devices k
      → cell_at (settle j c w).1.devices k ≡ cell_at w.devices k
  unfolding settle
  settle-cell j c w k e = ground (arith, cell_at-drop_lease c.session.lease c.devices k)

  -- The interpreters that a call is made on hold leases other than `l`.
  abbrev pub IsAway : StateLease → World → (ℕ → Bool) → Type 0
  IsAway l w on =
      (j : ℕ) (t : Session) → on j ≡ true → session_at w j ≡ some t → lease_beq l t.lease ≡ false

  module _ (w : World) (v : Inv w) (l : StateLease) where
    with_session-cell :
        {R : Type 0} (j : ℕ) (f : Session → Devices → Called R)
        → IsAway l w (λ k. eqb k j)
        → ((t : Session) → IsOutside (borrows t.inner) w.devices (f t w.devices).devices)
        → cell_at (with_session j f w).1.devices l ≡ cell_at w.devices l
    with_session-cell j f n out = elim (with_session-cases j f w) [
      | inl untouched ↦ rw untouched refl
      | inr (t, lives, ran) ↦
          let away = n j t (ground arith) lives in
          let same = v.borrowed j t lives in
          rw ran (settle-cell j (f t w.devices) w l (out t l (ground arith)))
    ]

    drop_interp-cell : (j : ℕ) → cell_at (drop_interp j w).devices l ≡ cell_at w.devices l
    unfolding drop_interp
    drop_interp-cell j = elim (Option-cases (session_at w j)) [
      | inl gone ↦ ground arith
      | inr (t, lives) ↦ ground (arith, cell_at-drop_lease t.lease w.devices l)
    ]

    module _ ⦃L : Library⦄ ⦃D : Device⦄ where
      export_config-cell :
          (n : NoiseHandle) → get_leased (export_config n).1.state ≡ get_leased n.state
      unfolding export_config with_cell acquire put_leased release get_leased
      export_config-cell n = ground arith

      end-cell :
          (j : ℕ) → IsAway l w (λ k. eqb k j) → cell_at (end j w).1.devices l ≡ cell_at w.devices l
      unfolding end
      end-cell j n = elim (Option-cases (session_at w j)) [
        | inl gone ↦ ground arith
        | inr (t, lives) ↦
            let away = n j t (ground arith) lives in
            ground (arith, end_session-IsOutside t w.devices (v.borrowed j t lives) l away)
      ]

      -- A call on interpreters that hold other leases leaves the cell behind `l`.
      pub step-cell :
          (c : Call)
          → IsAway l w (λ j. is_on j c)
          → cell_at (step c w).devices l ≡ cell_at w.devices l
      unfolding step start exchange new_jade new_specter new_ledger build
      step-cell (builds_bitbox h network) n = new_bitbox-cell h network w l
      step-cell (builds_coldcard h) n = new_coldcard-cell h w l
      step-cell (builds_jade network) n = refl
      step-cell (builds_specter network) n = refl
      step-cell builds_ledger n = refl
      step-cell (builds_trezor network p on_device) n =
          ap (λ d. cell_at d l) (new_trezor-devices network p on_device w)
      step-cell (builds_keepkey network p) n =
          ap (λ d. cell_at d l) (new_keepkey-devices network p w)
      step-cell (starts j command) n =
          with_session-cell j (start_call command) n λ t. start_call-IsOutside command t w.devices
      step-cell (exchanges j reply) n =
          with_session-cell j (exchange_call reply) n λ t. exchange_call-IsOutside reply t w.devices
      step-cell (ends j) n = end-cell j n
      step-cell (drops j) n = drop_interp-cell j
      step-cell (exports h) n =
          noise_cell_same h _ w.devices (export_config-cell (w.devices.noises h)) l
      step-cell (takes_code h) n =
          noise_cell_same h _ w.devices (take_pairing_code-cell (w.devices.noises h)) l
      step-cell (clears h) n = by_lease l
        where
          by_lease : (l : StateLease) → cell_at (step (clears h) w).devices l ≡ cell_at w.devices l
          by_lease unleased = refl
          by_lease (noise k) = refl
          by_lease (coldcard k) = refl

  module _ ⦃L : Library⦄ ⦃D : Device⦄ where
    unreal-cell : (d d' : Devices) (l : StateLease) → is_real l ≡ false → cell_at d l ≡ cell_at d' l
    unreal-cell d d' unleased r = refl
    unreal-cell d d' _ r = absurd (ground arith)

    away :
        (w : World) (i : ℕ) (s : Session)
        → Inv w
        → session_at w i ≡ some s
        → is_real s.lease ≡ true
        → (c : Call) → is_on i c ≡ false
        → IsAway s.lease w (λ j. is_on j c)
    away w i s v live real c n j t on lives =
        apart w i j s t v (other_interp c i j n on) live lives real

    -- A call that is not made on interpreter `i` leaves the cell that it borrows.
    pub other-cell :
        (c : Call) (w : World) (i : ℕ) (s : Session)
        → Inv w
        → session_at w i ≡ some s
        → is_on i c ≡ false
        → cell_at (step c w).devices s.lease ≡ cell_at w.devices s.lease
    other-cell c w i s v live n = elim (Bool-cases (is_real s.lease)) [
      | inl real ↦ step-cell w v s.lease c (away w i s v live real c n)
      | inr unreal ↦ unreal-cell (step c w).devices w.devices s.lease unreal
    ]
