-- ===== src/Interp/World/Reuse.antt =====
-- bhwi-ffi/src/interp.rs and state.rs: borrowed handles, and when they are free again.
use bhwi_ffi.Prelude.{ℕ, true, false, some, List, ◌≡◌, ◌⊎◌, arith, inl, inr, subst, Bool-cases}
use bhwi_ffi.Error.{ok}
use bhwi_ffi.Network.{Network}
use bhwi_ffi.Core.Primitives.{Primitives}
use bhwi_ffi.Core.Device.{Device}
use bhwi_ffi.Core.Library.{Library}
use bhwi_ffi.Core.Family.{Families}
use bhwi_ffi.State.Leased.{acquire}
use bhwi_ffi.Interp.Session.Leases.{coldcard}
use bhwi_ffi.Interp.Session.{StateLease, noise, Session}
use bhwi_ffi.Interp.World.{World, new_bitbox, new_coldcard, build, end, drop_interp}
use bhwi_ffi.Interp.World.Ownership.{lease_beq_iff}
use bhwi_ffi.Interp.World.Frame.{is_out, is_out-drop_lease}
use bhwi_ffi.Interp.World.Exclusive.{session_at}
use bhwi_ffi.Interp.World.Lifecycle.{end-consumes}
use bhwi_ffi.Interp.World.Runs.{run-no_leak}
use bhwi_ffi.Interp.World.Sound.{run-unpoisoned}
use bhwi_ffi.Interp.World.Calls.{Call, run, IsFresh}

module _ ⦃P : Primitives⦄ ⦃F : Families⦄ where
  new_bitbox-free :
      (h : ℕ) (network : Network) (w : World)
      → is_out w.devices (noise h) ≡ false
      → (new_bitbox h network w).0 ≡ ok w.next
  unfolding new_bitbox build acquire
  new_bitbox-free h network w free = ground arith

  new_coldcard-free :
      (h : ℕ) (w : World) → is_out w.devices (coldcard h) ≡ false → (new_coldcard h w).0 ≡ ok w.next
  unfolding new_coldcard build acquire
  new_coldcard-free h w free = ground arith

  drop_interp-frees :
      (i : ℕ) (w : World) (s : Session)
      → session_at w i ≡ some s
      → is_out (drop_interp i w).devices s.lease ≡ false
  unfolding drop_interp
  drop_interp-frees i w s live =
      ground (arith, is_out-drop_lease s.lease w.devices s.lease, lease_beq_iff s.lease s.lease)

  module _ ⦃L : Library⦄ ⦃D : Device⦄ (calls : List Call) (w : World) (f : IsFresh w) where
    -- The holder of a lease that is out gives it up by `end` and by being dropped.
    run-frees :
        (l : StateLease)
        → is_out (run calls w).devices l ≡ true
        → (i : ℕ) × (is_out (drop_interp i (run calls w)).devices l ≡ false)
          × (is_out (end i (run calls w)).1.devices l ≡ false)
    run-frees l out =
        let (i, s, live, mine) = run-no_leak calls w f l out in
        let sound = run-unpoisoned calls w f.nothing_poisoned i in
        let dropped = drop_interp-frees i (run calls w) s live in
        let ended = (end-consumes i (run calls w) s (live, sound)).0 in
        (
          i,
          subst (λ l. is_out (drop_interp i (run calls w)).devices l ≡ false) mine dropped,
          subst (λ l. is_out (end i (run calls w)).1.devices l ≡ false) mine ended,
        )

    -- After every schedule of calls from fresh handles, a BitBox02 interpreter can be built on a noise
    -- handle, or it can be once one interpreter, that of the handle, is dropped or ended: both free
    -- the handle at once, whatever the state of the command.
    pub run-reuse :
        (h : ℕ) (network : Network)
        → ((new_bitbox h network (run calls w)).0 ≡ ok (run calls w).next)
          ⊎ ((i : ℕ) × ((new_bitbox h network (drop_interp i (run calls w))).0
                ≡ ok (drop_interp i (run calls w)).next)
              × ((new_bitbox h network (end i (run calls w)).1).0
                  ≡ ok (end i (run calls w)).1.next))
    run-reuse h network = elim (Bool-cases (is_out (run calls w).devices (noise h))) [
      | inr free ↦ inl (new_bitbox-free h network _ free)
      | inl out ↦
          let (i, dropped, ended) = run-frees (noise h) out in
          inr (i, new_bitbox-free h network _ dropped, new_bitbox-free h network _ ended)
    ]

    -- The same of a Coldcard interpreter and its encryption handle.
    pub run-reuse_coldcard :
        (h : ℕ)
        → ((new_coldcard h (run calls w)).0 ≡ ok (run calls w).next)
          ⊎ ((i : ℕ) × ((new_coldcard h (drop_interp i (run calls w))).0
                ≡ ok (drop_interp i (run calls w)).next)
              × ((new_coldcard h (end i (run calls w)).1).0 ≡ ok (end i (run calls w)).1.next))
    run-reuse_coldcard h = elim (Bool-cases (is_out (run calls w).devices (coldcard h))) [
      | inr free ↦ inl (new_coldcard-free h _ free)
      | inl out ↦
          let (i, dropped, ended) = run-frees (coldcard h) out in
          inr (i, new_coldcard-free h _ dropped, new_coldcard-free h _ ended)
    ]
