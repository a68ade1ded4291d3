-- ===== src/Interp/Session/Leases.antt =====
-- bhwi-ffi/src/interp.rs: `StateLease`, and the handles that interpreters borrow from.
use bhwi_ffi.Prelude.{ℕ, Option, List, [], ◌∷◌, update}
use bhwi_ffi.Text.{Text}
use bhwi_ffi.Core.Primitives.{Primitives}
use bhwi_ffi.State.Leased.{put_leased, release, Mutex}
use bhwi_ffi.State.Noise.{NoiseHandle, fire_hook}
use bhwi_ffi.State.Coldcard.{ColdcardEncryption}
use bhwi_ffi.State.Passphrase.{HostPassphraseHandle}

-- `StateLease`, by the identity of the handle that it keeps alive.
pub data StateLease : Type 0 where
  unleased : StateLease
  noise coldcard : ℕ → StateLease

module _ ⦃P : Primitives⦄ where
  -- The handles that the host has built, by identity.
  pub record Devices : Type 0 where
    pub noises : ℕ → NoiseHandle
    pub engines : ℕ → ColdcardEncryption
    pub passphrases : ℕ → HostPassphraseHandle

  -- `Drop for StateLease`
  unfoldable pub drop_lease : StateLease → Devices → Devices
  unfolding release
  drop_lease unleased d = d
  drop_lease (noise h) d = record d {
    noises = update d.noises h (record (d.noises h) { state = release (d.noises h).state });
  }
  drop_lease (coldcard h) d = record d {
    engines = update d.engines h (record { engine = release (d.engines h).engine });
  }

  -- the calls of the pairing hook, in order
  unfoldable pub fire_hooks : List Text → Mutex (Option Text) → Mutex (Option Text)
  fire_hooks [] sink = sink
  fire_hooks (code ∷ rest) sink = fire_hooks rest (fire_hook code sink)

  -- A write to the noise state of a handle through the lease, with the hook calls made meanwhile.
  unfoldable pub write_noise : ℕ → P.NoiseState → List Text → Devices → Devices
  unfolding put_leased
  write_noise h state codes d = record d {
    noises = update d.noises h (record {
      state = put_leased state (d.noises h).state;
      pairing_code = fire_hooks codes (d.noises h).pairing_code;
    });
  }

  unfoldable pub write_engine : ℕ → P.Engine → Devices → Devices
  unfolding put_leased
  write_engine h engine d = record d {
    engines = update d.engines h (record { engine = put_leased engine (d.engines h).engine });
  }
