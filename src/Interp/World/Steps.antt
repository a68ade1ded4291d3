-- ===== src/Interp/World/Steps.antt =====
-- bhwi-ffi/src/interp.rs and state.rs: the exclusion of the leases through each call of the host.
use bhwi_ffi.Prelude.{
  ℕ, true, false, some, ◌≡◌, ◌⊎◌, update, if◌then◌else◌, arith, refl, inl, inr, Bool-cases,
  Option-cases,
}
use bhwi_ffi.Error.{Outcome, ok, err, panicked}
use bhwi_ffi.Network.{Network}
use bhwi_ffi.Core.Primitives.{Primitives}
use bhwi_ffi.Core.Device.{Device}
use bhwi_ffi.Core.Library.{Library}
use bhwi_ffi.Core.Family.{Families}
use bhwi_ffi.State.Leased.{acquire}
use bhwi_ffi.State.Noise.{NoiseHandle}
use bhwi_ffi.State.Coldcard.{ColdcardEncryption}
use bhwi_ffi.Types.Device.{DeviceKind}
use bhwi_ffi.Interp.Session.Leases.{coldcard}
use bhwi_ffi.Interp.Session.{
  StateLease, unleased, noise, Inner, Session, Called, Devices, drop_lease, end_inner,
}
use bhwi_ffi.Interp.World.{
  World, build, new_bitbox, new_coldcard, given, drop_interp, settle, with_session, end_session,
  install_key, unlocked_key,
}
use bhwi_ffi.Interp.World.Ownership.{
  lease_beq, lease_beq_iff, is_real, IsExclusive-same, IsExclusive-take,
}
use bhwi_ffi.Interp.World.Frame.{is_out, is_out-write_engine, borrows, IsFrame, end_inner-flags}
use bhwi_ffi.Interp.World.Exclusive.{Inv, session_at, settle-Inv, retire-Inv}

module _ ⦃P : Primitives⦄ ⦃F : Families⦄ where
  -- A call does not reach the session, or it runs on it and its result is settled.
  pub with_session-cases :
      {R : Type 0} (i : ℕ) (f : Session → Devices → Called R) (w : World)
      → ((with_session i f w).1 ≡ w)
        ⊎ ((s : Session) × (session_at w i ≡ some s)
            × (with_session i f w ≡ settle i (f s w.devices) w))
  unfolding with_session
  with_session-cases i f w = elim (Option-cases (session_at w i)) [
    | inl gone ↦ inl (ground arith)
    | inr (s, live) ↦ elim (Bool-cases (w.interps i).poisoned) [
      | inl p ↦ inl (ground arith)
      | inr p ↦ inr (s, live, ground arith)
    ]
  ]

  pub with_session-Inv :
      {R : Type 0} (i : ℕ) (f : Session → Devices → Called R) (w : World)
      → ((s : Session) → IsFrame s w.devices (f s w.devices))
      → Inv w
      → Inv (with_session i f w).1
  with_session-Inv i f w frame v = elim (with_session-cases i f w) [
    | inl same ↦ rw same v
    | inr (s, live, ran) ↦ rw ran (settle-Inv w v i s live (f s w.devices) (frame s))
  ]

  -- `build` with a lease that was not out
  build-Inv :
      (inner : Inner) (kind : DeviceKind) (l : StateLease) (d : Devices) (w : World)
      → Inv w
      → borrows inner ≡ l
      → is_out w.devices l ≡ false
      → ((k : StateLease) → is_out d k ≡ (if lease_beq k l then is_real l else is_out w.devices k))
      → Inv (build inner kind l d w).1
  unfolding build
  build-Inv inner kind l d w v b free flags = record {
    ownership =
        IsExclusive-take v.ownership w.next l (ground (arith, v.fresh w.next)) free
          (λ j. ground arith) flags;
    borrowed = λ j t e. ground (arith, v.borrowed j t);
    fresh = λ j h. ground (arith, v.fresh j);
  }

  -- `build` without a lease
  pub build_unleased-Inv :
      (inner : Inner) (kind : DeviceKind) (w : World)
      → Inv w
      → borrows inner ≡ unleased
      → Inv (build inner kind unleased w.devices w).1
  build_unleased-Inv inner kind w v b =
      build-Inv inner kind unleased w.devices w v b refl
        λ k. ground (arith, lease_beq_iff k unleased)

  noise_taken :
      (h : ℕ) (cell : NoiseHandle) (d : Devices)
      → cell.state.leased ≡ true
      → (k : StateLease)
      → is_out (record d { noises = update d.noises h cell }) k
        ≡ (if lease_beq k (noise h) then true else is_out d k)
  noise_taken h cell d e unleased = refl
  noise_taken h cell d e (noise j) = ground arith
  noise_taken h cell d e (coldcard j) = refl

  engine_taken :
      (h : ℕ) (cell : ColdcardEncryption) (d : Devices)
      → cell.engine.leased ≡ true
      → (k : StateLease)
      → is_out (record d { engines = update d.engines h cell }) k
        ≡ (if lease_beq k (coldcard h) then true else is_out d k)
  engine_taken h cell d e unleased = refl
  engine_taken h cell d e (noise j) = refl
  engine_taken h cell d e (coldcard j) = ground arith

  pub new_bitbox-Inv :
      (h : ℕ) (network : Network) (w : World) → Inv w → Inv (new_bitbox h network w).1
  unfolding new_bitbox acquire
  new_bitbox-Inv h network w v = elim (Bool-cases (w.devices.noises h).state.leased) [
    | inl out ↦ rw (out, new_bitbox) v
    | inr free ↦
        rw (free, new_bitbox)
          (build-Inv _ _ (noise h) _ w v refl free λ k. noise_taken h _ w.devices refl k)
  ]

  pub new_coldcard-Inv : (h : ℕ) (w : World) → Inv w → Inv (new_coldcard h w).1
  unfolding new_coldcard acquire
  new_coldcard-Inv h w v = elim (Bool-cases (w.devices.engines h).engine.leased) [
    | inl out ↦ rw (out, new_coldcard) v
    | inr free ↦
        rw (free, new_coldcard)
          (build-Inv _ _ (coldcard h) _ w v refl free λ k. engine_taken h _ w.devices refl k)
  ]

  pub given-Inv :
      {A : Type 0} (o : Outcome A) (f : A → World → Outcome ℕ × World) (w : World)
      → Inv w
      → ((a : A) → Inv (f a w).1)
      → Inv (given o f w).1
  given-Inv (ok a) f w v h = h a
  given-Inv (err e) f w v h = v
  given-Inv panicked f w v h = v

  -- A call on a handle that changes no flag.
  pub flags-Inv :
      (d : Devices) (w : World)
      → Inv w
      → ((k : StateLease) → is_out d k ≡ is_out w.devices k)
      → Inv (record w { devices = d })
  flags-Inv d w v flags = record {
    ownership = IsExclusive-same v.ownership (λ j. refl) flags;
    borrowed = v.borrowed;
    fresh = v.fresh;
  }

  pub drop_interp-Inv : (i : ℕ) (w : World) → Inv w → Inv (drop_interp i w)
  unfolding drop_interp
  drop_interp-Inv i w v = elim (Option-cases (w.interps i).value) [
    | inl gone ↦ rw (gone, drop_interp) v
    | inr (s, live) ↦
        rw (live, drop_interp) (retire-Inv w v i s live s.lease w.devices refl λ k. refl)
  ]

  module _ ⦃L : Library⦄ ⦃D : Device⦄ where
    install_key-flags :
        (h : ℕ) (key : P.EncryptionKey) (d : Devices) (k : StateLease)
        → is_out (install_key h key d).1 k ≡ is_out d k
    unfolding install_key
    install_key-flags h key d k = is_out-write_engine h _ d k

    -- `end` drops the lease of the session that it took on every path, and changes no other flag.
    pub end_session-drops :
        (s : Session) (d : Devices)
        → (d' : Devices) × ((end_session s d).1 ≡ drop_lease s.lease d')
          × ((k : StateLease) → is_out d' k ≡ is_out d k)
    unfolding end_session
    end_session-drops s d = elim (Bool-cases s.finished) [
      | inr unfinished ↦ (d, rw (unfinished, end_session) refl, λ k. refl)
      | inl finished ↦ elim (Option-cases (unlocked_key s.lease (end_inner s.inner d).0)) [
        | inl other ↦ ((end_inner s.inner d).1, ground arith, end_inner-flags s.inner d)
        | inr ((h, key), unlocked) ↦ (
          (install_key h key (end_inner s.inner d).1).1,
          ground arith,
          λ k. ground (
            arith,
            install_key-flags h key (end_inner s.inner d).1 k,
            end_inner-flags s.inner d k,
          ),
        )
      ]
    ]
