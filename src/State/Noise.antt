-- ===== src/State/Noise.antt =====
-- bhwi-ffi/src/state.rs: `NoiseConfig` and `NoiseHandle`, the BitBox02 pairing.
pub mod Laws
use bhwi_ffi.Prelude.{
  Bool, true, false, Option, none, some, List, [], ◌∷◌, eqb, length, if◌then◌else◌,
}
use bhwi_ffi.Text.{Bytes, Text}
use bhwi_ffi.Error.{Outcome, ok, err, invalid_input, bad_state, or_err, reject_if, ◌>>=◌, ◌>>◌}
use bhwi_ffi.Core.Primitives.{Primitives}
use bhwi_ffi.Core.Device.{Device, NoiseConfigData}
use bhwi_ffi.State.Leased.{Leased, new, with_cell, Mutex, mutex}

pub record NoiseConfig : Type 0 where
  pub privkey : Option Bytes
  pub device_pubkeys : List Bytes

-- `From<&NoiseConfigData> for NoiseConfig`
unfoldable pub from_data : NoiseConfigData → NoiseConfig
from_data d = record { privkey = d.app_static_privkey; device_pubkeys = d.device_static_pubkeys }

-- `<[u8; 32]>::try_from`
abbrev to_array : Bytes → Option Bytes
to_array bytes = if eqb (length bytes) 32 then some bytes else none

module _ ⦃P : Primitives⦄ where
  pub record NoiseHandle : Type 0 where
    pub state : Leased P.NoiseState
    pub pairing_code : Mutex (Option Text)

  -- the closure of `pairing_hook`, called with a code
  unfoldable pub fire_hook : Text → Mutex (Option Text) → Mutex (Option Text)
  fire_hook code sink = if sink.poisoned then sink else record sink { value = some code }

  -- `NoiseHandle::take_pairing_code`
  unfoldable pub take_pairing_code : NoiseHandle → Option Text × NoiseHandle
  take_pairing_code h = if h.pairing_code.poisoned then (none, h) else (
    h.pairing_code.value,
    record h { pairing_code = record (h.pairing_code) { value = none } },
  )

  module _ ⦃D : Device⦄ where
    -- the private key of `TryFrom<NoiseConfig> for NoiseConfigData`
    unfoldable pub with_privkey : Option Bytes → Outcome NoiseConfigData
    with_privkey none = ok D.noise_default
    with_privkey (some privkey) = do
      key ← or_err (to_array privkey) (invalid_input "noise private key must be 32 bytes")
      ok (record (D.noise_default) { app_static_privkey = some key })

    -- its loop over the public keys
    unfoldable pub with_pubkeys : List Bytes → NoiseConfigData → Outcome NoiseConfigData
    with_pubkeys [] d = ok d
    with_pubkeys (pubkey ∷ rest) d = do
      reject_if (if eqb (length pubkey) 32 then false else true)
          (invalid_input "noise device pubkey must be 32 bytes")
      with_pubkeys rest (D.add_device_static_pubkey d pubkey)

    unfoldable pub to_data : NoiseConfig → Outcome NoiseConfigData
    to_data config = do d ← with_privkey config.privkey; with_pubkeys config.device_pubkeys d

    -- `config.map(NoiseConfigData::try_from).transpose()`
    unfoldable pub to_data? : Option NoiseConfig → Outcome (Option NoiseConfigData)
    to_data? none = ok none
    to_data? (some config) = do d ← to_data config; ok (some d)

    -- `NoiseHandle::new`
    unfoldable pub new_handle : Option NoiseConfig → Outcome NoiseHandle
    new_handle config = do
      d ← to_data? config
      ok (record { state = new (D.noise_new d); pairing_code = mutex none })

    -- `NoiseHandle::export`
    unfoldable pub export_config : NoiseHandle → Outcome NoiseConfig × NoiseHandle
    export_config h =
        let (r, state) = with_cell (λ s. (from_data (D.noise_data s), s)) h.state in
        (
          or_err r (bad_state "noise handle is in use by an interpreter"),
          record h { state = state },
        )
