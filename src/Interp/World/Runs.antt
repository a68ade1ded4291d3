-- ===== src/Interp/World/Runs.antt =====
-- bhwi-ffi/src/interp.rs and state.rs: the exclusion of the leases through every schedule of calls.
use bhwi_ffi.Prelude.{
  subst, ◌∙◌, ℕ, true, Option, some, List, [], ◌∷◌, ◌≡◌, ◌≢◌, update, arith, refl, sym, inl, inr,
  Bool-cases, Option-cases,
}
use bhwi_ffi.Error.{err, bad_state}
use bhwi_ffi.Network.{Network, to_core_network}
use bhwi_ffi.Interp.Session
use bhwi_ffi.Types.Device
use bhwi_ffi.Core.Primitives.{Primitives}
use bhwi_ffi.Core.Device.{Device}
use bhwi_ffi.Core.Library.{Library}
use bhwi_ffi.Core.Family.{Families}
use bhwi_ffi.State.Leased.{acquire, release, put_leased, with_cell}
use bhwi_ffi.State.Noise.{export_config, take_pairing_code, NoiseHandle}
use bhwi_ffi.Types.Device.{DeviceKind}
use bhwi_ffi.Interp.Session.Leases.{coldcard}
use bhwi_ffi.Interp.Session.{
  StateLease, unleased, noise, Inner, Session, Called, Devices, drop_lease, end_inner,
}
use bhwi_ffi.Interp.World.{
  World, build, new_bitbox, new_jade, new_ledger, new_specter, new_trezor, new_keepkey, start,
  exchange, end, start_call, exchange_call,
}
use bhwi_ffi.Interp.World.Ownership.{is_real}
use bhwi_ffi.Interp.World.Frame.{is_out, borrows, start_call-IsFrame, exchange_call-IsFrame}
use bhwi_ffi.Interp.World.Exclusive.{Inv, session_at, holds, retire-Inv}
use bhwi_ffi.Interp.World.Steps.{
  with_session-Inv, build_unleased-Inv, new_bitbox-Inv, new_coldcard-Inv, given-Inv, flags-Inv,
  drop_interp-Inv, end_session-drops,
}
use bhwi_ffi.Interp.World.Calls.{
  Call, builds_bitbox, builds_coldcard, builds_jade, builds_specter, builds_ledger, builds_trezor,
  builds_keepkey, starts, exchanges, ends, drops, exports, takes_code, clears, step, run, IsFresh,
  with_devices,
}

module _ ⦃P : Primitives⦄ ⦃F : Families⦄ where
  pub fresh-Inv : (w : World) → IsFresh w → Inv w
  fresh-Inv w f = record {
    ownership = record {
      held = λ i l h r. ground (arith, f.nothing_built i);
      exclusive = λ i j l h k r. ground (arith, f.nothing_built i);
      owned = λ l o. absurd (ground (arith, f.nothing_out l));
      real = λ l o. ground (arith, f.nothing_out l);
    };
    borrowed = λ i s e. ground (arith, f.nothing_built i);
    fresh = λ i h. f.nothing_built i;
  }

  -- A call on the noise handle `h` that leaves its flag as it is.
  noise_flag-Inv :
      (h : ℕ) (cell : NoiseHandle) (w : World)
      → Inv w
      → cell.state.leased ≡ (w.devices.noises h).state.leased
      → Inv (with_devices (record (w.devices) { noises = update w.devices.noises h cell }) w)
  noise_flag-Inv h cell w v same = flags-Inv _ w v flags
    where
      flags :
          (k : StateLease)
          → is_out (record (w.devices) { noises = update w.devices.noises h cell }) k
            ≡ is_out w.devices k
      flags unleased = refl
      flags (noise j) = ground arith
      flags (coldcard j) = refl

  take_pairing_code-flag : (n : NoiseHandle) → (take_pairing_code n).1.state.leased ≡ n.state.leased
  unfolding take_pairing_code
  take_pairing_code-flag n = ground arith

  module _ ⦃L : Library⦄ ⦃D : Device⦄ where
    export_config-flag : (n : NoiseHandle) → (export_config n).1.state.leased ≡ n.state.leased
    unfolding export_config with_cell acquire release put_leased
    export_config-flag n = ground arith

    is_real-borrows :
        (s : Session)
        → borrows s.inner ≡ s.lease
        → borrows s.inner ≢ unleased
        → is_real s.lease ≡ true
    is_real-borrows s e n = ground arith

    by_holder :
        (w : World) (l : StateLease)
        → (i : ℕ) × (holds w i ≡ some l)
        → (i : ℕ) × (s : Session) × (session_at w i ≡ some s) × (s.lease ≡ l)
    by_holder w l (i, h) = elim (Option-cases (session_at w i)) [
      | inl gone ↦ absurd (ground arith)
      | inr (s, live) ↦ (i, s, live, ground arith)
    ]

    pub end-Inv : (i : ℕ) (w : World) → Inv w → Inv (end i w).1
    unfolding end
    end-Inv i w v = elim (Option-cases (w.interps i).value) [
      | inl gone ↦ elim (Bool-cases (w.interps i).poisoned) [
        | inl p ↦ rw (p, end) v
        | inr p ↦ rw (p, gone, end) v
      ]
      | inr (s, live) ↦ elim (Bool-cases (w.interps i).poisoned) [
        | inl p ↦ rw (p, end) v
        | inr p ↦
            let (d', dropped, flags) = end_session-drops s w.devices in
            rw (p, live, end, dropped) (retire-Inv w v i s live s.lease d' refl flags)
      ]
    ]

    pub step-Inv : (c : Call) (w : World) → Inv w → Inv (step c w)
    unfolding step new_jade new_specter new_ledger new_trezor new_keepkey start exchange
    step-Inv (builds_bitbox h network) w v = new_bitbox-Inv h network w v
    step-Inv (builds_coldcard h) w v = new_coldcard-Inv h w v
    step-Inv (builds_jade network) w v = (build_unleased-Inv _ _ w v refl)
    step-Inv (builds_specter network) w v = (build_unleased-Inv _ _ w v refl)
    step-Inv builds_ledger w v = (build_unleased-Inv _ _ w v refl)
    step-Inv (builds_trezor network p on_device) w v =
        given-Inv {A = Option P.HostPassphrase} _
          (λ q.
            build (Session.trezor (F.trezor_new (to_core_network network) q on_device))
              Device.trezor unleased w.devices)
          w v
          λ q.
            build_unleased-Inv (Session.trezor (F.trezor_new (to_core_network network) q on_device))
              Device.trezor w v refl
    step-Inv (builds_keepkey network p) w v =
        given-Inv {A = Option P.HostPassphrase} _
          (λ q.
            build (Session.keepkey (F.keepkey_new (to_core_network network) q)) Device.keepkey
              unleased w.devices)
          w v
          λ q.
            build_unleased-Inv (Session.keepkey (F.keepkey_new (to_core_network network) q))
              Device.keepkey w v refl
    step-Inv (starts i command) w v =
        (with_session-Inv i (start_call command) w (λ s. start_call-IsFrame command s w.devices) v)
    step-Inv (exchanges i reply) w v =
        (with_session-Inv i (exchange_call reply) w (λ s. exchange_call-IsFrame reply s w.devices)
          v)
    step-Inv (ends i) w v = end-Inv i w v
    step-Inv (drops i) w v = drop_interp-Inv i w v
    step-Inv (exports h) w v = noise_flag-Inv h _ w v (export_config-flag (w.devices.noises h))
    step-Inv (takes_code h) w v =
        noise_flag-Inv h _ w v (take_pairing_code-flag (w.devices.noises h))
    step-Inv (clears h) w v =
        flags-Inv _ w v λ k. elim k [ unleased ↦ refl | noise j ↦ refl | coldcard j ↦ refl ]

    pub run-Inv : (calls : List Call) (w : World) → Inv w → Inv (run calls w)
    unfolding run
    run-Inv [] w v = v
    run-Inv (c ∷ cs) w v = run-Inv cs (step c w) (step-Inv c w v)

    export_refused :
        (n : NoiseHandle)
        → n.state.leased ≡ true
        → (export_config n).0 ≡ err (bad_state "noise handle is in use by an interpreter")
    unfolding export_config with_cell acquire
    export_refused n out = ground arith

    new_bitbox_refused :
        (h : ℕ) (network : Network) (w : World)
        → (w.devices.noises h).state.leased ≡ true
        → (new_bitbox h network w).0 ≡ err (bad_state "noise handle is already leased")
    unfolding new_bitbox acquire
    new_bitbox_refused h network w out = ground arith

    module _ (calls : List Call) (w : World) (f : IsFresh w) where
      -- After every schedule of calls from fresh handles, two live interpreters that borrow from the
      -- same noise handle or the same Coldcard engine are one interpreter.
      pub run-exclusive :
          (i j : ℕ) (s t : Session)
          → session_at (run calls w) i ≡ some s
          → session_at (run calls w) j ≡ some t
          → borrows s.inner ≡ borrows t.inner
          → borrows s.inner ≢ unleased
          → i ≡ j
      run-exclusive i j s t e1 e2 b n =
          let v = run-Inv calls w (fresh-Inv w f) in
          v.ownership.exclusive i j s.lease (ground arith)
            (ground (arith, v.borrowed i s, v.borrowed j t))
            (is_real-borrows s (v.borrowed i s e1) n)

      -- After every schedule of calls from fresh handles, the noise handle that a live interpreter
      -- borrows refuses an export with `BadState`, and no second interpreter can be built on it.
      pub run-borrowed :
          (i h : ℕ) (s : Session) (network : Network)
          → session_at (run calls w) i ≡ some s
          → borrows s.inner ≡ noise h
          → ((export_config ((run calls w).devices.noises h)).0
              ≡ err (bad_state "noise handle is in use by an interpreter"))
            × ((new_bitbox h network (run calls w)).0
                ≡ err (bad_state "noise handle is already leased"))
      run-borrowed i h s network e b =
          let v = run-Inv calls w (fresh-Inv w f) in
          let out = v.ownership.held i s.lease (ground arith) (ground (arith, v.borrowed i s)) in
          let flag : is_out (run calls w).devices (noise h) ≡ true =
            subst (λ l. is_out (run calls w).devices l ≡ true) (sym (v.borrowed i s e) ∙ b) out in
          (export_refused _ flag, new_bitbox_refused h network _ flag)

      -- After every schedule of calls from fresh handles, a lease that is out is the lease of a live
      -- interpreter.
      pub run-no_leak :
          (l : StateLease)
          → is_out (run calls w).devices l ≡ true
          → (i : ℕ) × (s : Session) × (session_at (run calls w) i ≡ some s) × (s.lease ≡ l)
      run-no_leak l o =
          let v = run-Inv calls w (fresh-Inv w f) in
          by_holder (run calls w) l (v.ownership.owned l o)
