-- ===== src/Interp/World/Calls.antt =====
-- The calls that a host makes on its handles and interpreters, one after the other.
use bhwi_ffi.Prelude.{ℕ, Bool, false, Option, none, List, [], ◌∷◌, ◌≡◌, update}
use bhwi_ffi.Text.{Bytes}
use bhwi_ffi.Network.{Network}
use bhwi_ffi.Core.Primitives.{Primitives}
use bhwi_ffi.Core.Device.{Device}
use bhwi_ffi.Core.Library.{Library}
use bhwi_ffi.Core.Family.{Families}
use bhwi_ffi.State.Noise.{export_config, take_pairing_code}
use bhwi_ffi.State.Passphrase.{clear}
use bhwi_ffi.Types.Command.{HwiCommand}
use bhwi_ffi.Interp.World.{
  World, new_bitbox, new_coldcard, new_jade, new_ledger, new_specter, new_trezor, new_keepkey,
  start, exchange, end, drop_interp,
}
use bhwi_ffi.Interp.World.Frame.{is_out}
use bhwi_ffi.Interp.Session.{StateLease, Devices}

pub data Call : Type 0 where
  builds_bitbox : ℕ → Network → Call
  builds_coldcard : ℕ → Call
  builds_jade builds_specter : Network → Call
  builds_ledger : Call
  builds_trezor : Network → Option ℕ → Bool → Call
  builds_keepkey : Network → Option ℕ → Call
  starts : ℕ → HwiCommand → Call
  exchanges : ℕ → Bytes → Call
  ends drops : ℕ → Call
  exports takes_code clears : ℕ → Call

module _ ⦃P : Primitives⦄ ⦃F : Families⦄ where
  abbrev pub with_devices : Devices → World → World
  with_devices d w = record w { devices = d }

  -- No interpreter yet, and no lease out.
  pub record IsFresh (w : World) : Type 0 where
    pub nothing_out : (l : StateLease) → is_out w.devices l ≡ false
    pub nothing_built : (i : ℕ) → (w.interps i).value ≡ none
    pub nothing_poisoned : (i : ℕ) → (w.interps i).poisoned ≡ false

  module _ ⦃L : Library⦄ ⦃D : Device⦄ where
    unfoldable pub step : Call → World → World
    step (builds_bitbox h network) w = (new_bitbox h network w).1
    step (builds_coldcard h) w = (new_coldcard h w).1
    step (builds_jade network) w = (new_jade network w).1
    step (builds_specter network) w = (new_specter network w).1
    step builds_ledger w = (new_ledger w).1
    step (builds_trezor network p on_device) w = (new_trezor network p on_device w).1
    step (builds_keepkey network p) w = (new_keepkey network p w).1
    step (starts i command) w = (start i command w).1
    step (exchanges i reply) w = (exchange i reply w).1
    step (ends i) w = (end i w).1
    step (drops i) w = drop_interp i w
    step (exports h) w =
        with_devices
          (record (w.devices) {
            noises = update w.devices.noises h (export_config (w.devices.noises h)).1;
          })
          w
    step (takes_code h) w =
        with_devices
          (record (w.devices) {
            noises = update w.devices.noises h (take_pairing_code (w.devices.noises h)).1;
          })
          w
    step (clears h) w =
        with_devices
          (record (w.devices) {
            passphrases = update w.devices.passphrases h (clear (w.devices.passphrases h));
          })
          w

    unfoldable pub run : List Call → World → World
    run [] w = w
    run (c ∷ cs) w = run cs (step c w)
