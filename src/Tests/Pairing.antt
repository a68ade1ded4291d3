-- ===== src/Tests/Pairing.antt =====
-- Pairing material on a core whose noise state is the material that it was built from.
use mathlib.Core.List.{mem-singleton, not-mem-nil}
use bhwi_ffi.Prelude.{◌≢◌, Option, none, some, [], ◌∷◌, ◌++◌, ◌≡◌, refl, length, replicate, arith}
use bhwi_ffi.Text.{Bytes}
use bhwi_ffi.Error.{ok}
use bhwi_ffi.Core.Primitives.{Primitives}
use bhwi_ffi.Core.Result.{success}
use bhwi_ffi.Core.Device.{Device, NoiseConfigData, NoiseLaws}
use bhwi_ffi.State.Leased.{new, mutex}
use bhwi_ffi.State.Noise.{
  NoiseConfig, NoiseHandle, new_handle, export_config, to_data, to_data?, with_privkey,
  with_pubkeys,
}
use bhwi_ffi.State.Noise.Laws.{export-new_handle}
use bhwi_ffi.Tests.{sample_primitives}

abbrev pairing_primitives : Primitives
pairing_primitives = record sample_primitives { NoiseState = Option NoiseConfigData }

abbrev unpaired : NoiseConfigData
unpaired = record { app_static_privkey = none; device_static_pubkeys = [] }

abbrev data_of : Option NoiseConfigData → NoiseConfigData
data_of none = unpaired
data_of (some d) = d

abbrev pairing_device : Device ⦃P = pairing_primitives⦄
pairing_device = record {
  noise_default = unpaired;
  add_device_static_pubkey =
      λ d key. record d { device_static_pubkeys = d.device_static_pubkeys ++ key ∷ [] };
  noise_new = λ d. d;
  noise_data = data_of;
  engine_ready = λ e key. (key, none);
  host_passphrase = λ t. length t;
  byte_len = λ p. p;
  decoder_default = 0;
  decoder_push = λ d b. (d, success (some b));
}

abbrev pairing_laws : NoiseLaws ⦃P = pairing_primitives⦄ pairing_device
pairing_laws = record { default_empty = refl; add_new = λ d key h. refl; data_new = λ d. refl }

abbrev first_key : Bytes
first_key = replicate 32 9

abbrev second_key : Bytes
second_key = replicate 32 8

abbrev paired : NoiseConfig
paired = record { privkey = some (replicate 32 7); device_pubkeys = first_key ∷ second_key ∷ [] }

abbrev paired_handle : NoiseHandle ⦃P = pairing_primitives⦄
paired_handle = record {
  state = new (
      some (record {
        app_static_privkey = some (replicate 32 7);
        device_static_pubkeys = first_key ∷ second_key ∷ [];
      }));
  pairing_code = mutex none;
}

builds_paired :
    new_handle ⦃P = pairing_primitives⦄ ⦃D = pairing_device⦄ (some paired) ≡ ok paired_handle
unfolding new_handle to_data? to_data with_privkey with_pubkeys
builds_paired = refl

differ : second_key ≢ first_key
differ e = ground arith

export-new_handle_example :
    export_config ⦃P = pairing_primitives⦄ ⦃D = pairing_device⦄ paired_handle
    ≡ (ok paired, paired_handle)
export-new_handle_example =
    export-new_handle ⦃P = pairing_primitives⦄ ⦃D = pairing_device⦄ pairing_laws paired
      paired_handle (not-mem-nil, (λ m. differ ((mem-singleton hlevel).0 m), tt)) builds_paired
