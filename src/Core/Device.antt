-- ===== src/Core/Device.antt =====
-- bhwi: the functions on device state that the handles call.
use bhwi_ffi.Prelude.{ℕ, String, Option, none, some, List, [], ◌∷◌, ◌++◌, ◌≡◌, Mem}
use bhwi_ffi.Text.{Bytes, Text}
use bhwi_ffi.Core.Primitives.{Primitives}
use bhwi_ffi.Core.Result.{CoreResult}
use bhwi_ffi.Core.Protocol.{Error}

-- bitbox::noise::NoiseConfigData, its fields that the source reads
pub record NoiseConfigData : Type 0 where
  pub app_static_privkey : Option Bytes
  pub device_static_pubkeys : List Bytes

module _ ⦃P : Primitives⦄ where
  open P use {NoiseState, Engine, EncryptionKey, HostPassphrase, ResponseDecoder}

  pub record Device : Type 0 where
    pub noise_default : NoiseConfigData
    pub add_device_static_pubkey : NoiseConfigData → Bytes → NoiseConfigData
    pub noise_new : Option NoiseConfigData → NoiseState
    pub noise_data : NoiseState → NoiseConfigData
    -- `Engine::ready`: the engine that it leaves, and the message of its error if it fails
    pub engine_ready : Engine → EncryptionKey → Engine × Option String
    -- the normalising constructor, and the length of its result
    pub host_passphrase : Text → HostPassphrase
    pub byte_len : HostPassphrase → ℕ
    pub decoder_default : ResponseDecoder
    pub decoder_push : ResponseDecoder → Bytes → ResponseDecoder × CoreResult Error (Option Bytes)

  -- What the core documents of its pairing material: it starts empty, a key that is not yet listed
  -- is added at the end and nothing else changes, and a state keeps what it was built from.
  pub record NoiseLaws (D : Device) : Type 0 where
    pub default_empty :
        D.noise_default ≡ record { app_static_privkey = none; device_static_pubkeys = [] }
    pub add_new :
        (d : NoiseConfigData) (key : Bytes)
        → ¬ Mem key d.device_static_pubkeys
        → D.add_device_static_pubkey d key
          ≡ record d { device_static_pubkeys = d.device_static_pubkeys ++ key ∷ [] }
    pub data_new : (d : NoiseConfigData) → D.noise_data (D.noise_new (some d)) ≡ d
