-- ===== src/Tests/Units/State.antt =====
-- The unit tests of bhwi-ffi/src/state.rs that rest on its own code.
use mathlib.Core.List.{mem-singleton, not-mem-nil}
use bhwi_ffi.Prelude.{Bool, true, ◌&&◌, none, some, [], ◌∷◌, replicate, ◌≡◌, ◌≢◌, refl, ap, arith}
use bhwi_ffi.Text.{Text, chars}
use bhwi_ffi.Error.{ok}
use bhwi_ffi.Core.Primitives.{Primitives}
use bhwi_ffi.Core.Device.{Device, NoiseLaws}
use bhwi_ffi.State.Leased.{Leased, new, acquire, release, with_cell, mutex}
use bhwi_ffi.State.Noise.{
  NoiseConfig, NoiseHandle, to_data, to_data?, with_privkey, with_pubkeys, new_handle,
  export_config, fire_hook, take_pairing_code,
}
use bhwi_ffi.State.Noise.Laws.{IsFresh, export-new_handle, new_handle_iff}
use bhwi_ffi.Tests.Units.{is_ok, is_invalid_input, is_refused_state}

abbrev config : NoiseConfig
config = record {
  privkey = some (replicate 32 7);
  device_pubkeys = replicate 32 1 ∷ replicate 32 2 ∷ [];
}

abbrev pairing_code : Text
pairing_code = chars "AAAAA BBBBB\nCCCCC DDDDD"

keys_differ : ◌≢◌ {A = Text} (replicate 32 2) (replicate 32 1)
keys_differ e = ground arith

module _ ⦃P : Primitives⦄ ⦃D : Device⦄ where
  abbrev pub NoiseConfigRoundTrips : Type 0
  NoiseConfigRoundTrips =
      (handle : NoiseHandle) × (new_handle (some config) ≡ ok handle)
      × ((export_config handle).0 ≡ ok config)

  NoiseConfigRoundTrips_holds : NoiseLaws D → NoiseConfigRoundTrips
  NoiseConfigRoundTrips_holds laws =
      let (handle, built) =
        (new_handle_iff config).1 (record { privkey = refl; pubkeys = (refl, (refl, tt)) }) in
      let unseen : IsFresh [] config.device_pubkeys =
        (not-mem-nil, (λ m. keys_differ ((mem-singleton hlevel).0 m), tt)) in
      (handle, built, ap (λ r. r.0) (export-new_handle laws config handle unseen built))

  abbrev pub malformed_noise_config_is_rejected : Bool
  malformed_noise_config_is_rejected =
      is_invalid_input
        (new_handle (some (record { privkey = some (replicate 31 7); device_pubkeys = [] })))
      && is_invalid_input
          (new_handle (some (record { privkey = none; device_pubkeys = replicate 33 1 ∷ [] })))

  malformed_noise_config_is_rejected_holds : malformed_noise_config_is_rejected ≡ true
  unfolding new_handle to_data to_data? with_privkey with_pubkeys
  malformed_noise_config_is_rejected_holds = refl

  abbrev pub PairingCodeSlotTakesOnce : Type 0
  PairingCodeSlotTakesOnce =
      (handle : NoiseHandle) × (new_handle none ≡ ok handle)
      × ((take_pairing_code handle).0 ≡ none)
      × (let fired = record handle { pairing_code = fire_hook pairing_code handle.pairing_code } in
          ((take_pairing_code fired).0 ≡ some pairing_code)
          × ((take_pairing_code (take_pairing_code fired).1).0 ≡ none))

  abbrev fresh_handle : NoiseHandle
  fresh_handle = record { state = new (D.noise_new none); pairing_code = mutex none }

  PairingCodeSlotTakesOnce_holds : PairingCodeSlotTakesOnce
  unfolding new_handle to_data? take_pairing_code fire_hook
  PairingCodeSlotTakesOnce_holds = (fresh_handle, refl, refl, (refl, refl))

  abbrev pub ALeaseExcludesEveryOtherAccessor : Type 0
  ALeaseExcludesEveryOtherAccessor =
      (handle : NoiseHandle) × (lease : Leased P.NoiseState) × (new_handle none ≡ ok handle)
      × (acquire handle.state ≡ some lease)
      × (acquire lease ≡ none)
      × (is_refused_state (export_config (record handle { state = lease })).0 ≡ true)
      × ((take_pairing_code (record handle { state = lease })).0 ≡ none)
      × (is_ok (export_config (record handle { state = release lease })).0 ≡ true)

  ALeaseExcludesEveryOtherAccessor_holds : ALeaseExcludesEveryOtherAccessor
  unfolding new_handle to_data? new acquire release with_cell export_config take_pairing_code
  ALeaseExcludesEveryOtherAccessor_holds = (
    fresh_handle,
    record (fresh_handle.state) { leased = true },
    refl,
    refl,
    refl,
    refl,
    refl,
    refl,
  )
