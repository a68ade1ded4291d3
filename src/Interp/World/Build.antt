-- ===== src/Interp/World/Build.antt =====
-- bhwi-ffi/src/interp.rs: `Interp::build` and the constructors of `Interp`.
use bhwi_ffi.Prelude.{ℕ, suc, Bool, true, false, ◌&&◌, Option, none, some, [], update}
use bhwi_ffi.Error.{Outcome, ok, err, panicked, bad_state, invalid_input, ◌>>=◌, ◌>>◌, reject_if}
use bhwi_ffi.Network.{Network, to_core_network}
use bhwi_ffi.Core.Primitives.{Primitives}
use bhwi_ffi.Core.Family.{Families}
use bhwi_ffi.State.Leased.{Mutex, mutex, acquire}
use bhwi_ffi.State.Passphrase.{clone_passphrase}
use bhwi_ffi.Types.Device.{DeviceKind}
use bhwi_ffi.Types.Device
use bhwi_ffi.Types.Expect.{matches}
use bhwi_ffi.Types.Expect
use bhwi_ffi.Interp.Session.Leases.{coldcard}
use bhwi_ffi.Interp.Session.{
  StateLease, unleased, noise, Inner, Session, Called, Devices, drop_lease, write_engine, end_inner,
  start_session,
}
use bhwi_ffi.Interp.Session

module _ ⦃P : Primitives⦄ ⦃F : Families⦄ where
  -- The interpreters by identity; `next` is the first that has not been built.
  pub record World : Type 0 where
    pub devices : Devices
    pub interps : ℕ → Mutex (Option Session)
    pub next : ℕ

  -- `Interp::build`
  unfoldable pub build : Inner → DeviceKind → StateLease → Devices → World → Outcome ℕ × World
  build inner kind lease d w = (
    ok w.next,
    record {
      devices = d;
      interps = update w.interps w.next (
          mutex (
            some (record {
              inner = inner;
              lease = lease;
              kind = kind;
              started = false;
              finished = false;
              expect = Expect.anything;
              prior_inputs = [];
              prior_unsigned_tx = none;
              ledger_registration_id = none;
            })));
      next = suc w.next;
    },
  )

  -- `Interp::new_bitbox`
  unfoldable pub new_bitbox : ℕ → Network → World → Outcome ℕ × World
  unfolding build
  new_bitbox h network w = elim (acquire (w.devices.noises h).state) [
    | none ↦ (err (bad_state "noise handle is already leased"), w)
    | some held ↦
        build (Session.bitbox h (F.bitbox_new (to_core_network network))) Device.bitbox (noise h)
          (record (w.devices) {
            noises = update w.devices.noises h (record (w.devices.noises h) { state = held });
          })
          w
  ]

  -- `Interp::new_coldcard`
  unfoldable pub new_coldcard : ℕ → World → Outcome ℕ × World
  unfolding build
  new_coldcard h w = elim (acquire (w.devices.engines h).engine) [
    | none ↦ (err (bad_state "coldcard encryption is already leased"), w)
    | some held ↦
        build (Session.coldcard h F.coldcard_new) Device.coldcard (coldcard h)
          (record (w.devices) { engines = update w.devices.engines h (record { engine = held }) }) w
  ]

  -- `Interp::new_jade`, `new_ledger` and `new_specter`
  unfoldable pub new_jade : Network → World → Outcome ℕ × World
  unfolding build
  new_jade network w =
      build (Session.jade (F.jade_new (to_core_network network))) Device.jade unleased w.devices w

  unfoldable pub new_ledger : World → Outcome ℕ × World
  unfolding build
  new_ledger w = build (Session.ledger F.ledger_new) Device.ledger unleased w.devices w

  unfoldable pub new_specter : Network → World → Outcome ℕ × World
  unfolding build
  new_specter network w =
      build (Session.specter (F.specter_new (to_core_network network))) Device.specter unleased
        w.devices w

  -- `passphrase.as_ref().map(|handle| handle.clone_passphrase()).transpose()`
  unfoldable pub clone_handle : Option ℕ → Devices → Outcome (Option P.HostPassphrase)
  clone_handle none d = ok none
  clone_handle (some h) d = do passphrase ← clone_passphrase (d.passphrases h); ok (some passphrase)

  abbrev is_given : Option ℕ → Bool
  is_given none = false
  is_given (some h) = true

  -- the `?` of a fallible argument in a constructor
  abbrev pub given :
      {A : Type 0} → Outcome A → (A → World → Outcome ℕ × World) → World → Outcome ℕ × World
  given (ok a) f w = f a w
  given (err e) f w = (err e, w)
  given panicked f w = (panicked, w)

  -- `Interp::new_trezor`
  unfoldable pub new_trezor : Network → Option ℕ → Bool → World → Outcome ℕ × World
  unfolding build clone_handle
  new_trezor network passphrase on_device w =
      given
        (do
          reject_if (is_given passphrase && on_device)
              (invalid_input "host and on-device passphrases are mutually exclusive")
          clone_handle passphrase w.devices)
        (λ p.
          build (Session.trezor (F.trezor_new (to_core_network network) p on_device)) Device.trezor
            unleased w.devices)
        w

  -- `Interp::new_keepkey`
  unfoldable pub new_keepkey : Network → Option ℕ → World → Outcome ℕ × World
  unfolding build clone_handle
  new_keepkey network passphrase w =
      given (clone_handle passphrase w.devices)
        (λ p.
          build (Session.keepkey (F.keepkey_new (to_core_network network) p)) Device.keepkey
            unleased w.devices)
        w
