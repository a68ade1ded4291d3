-- ===== src/State/Passphrase.antt =====
-- bhwi-ffi/src/state.rs: `HostPassphraseHandle`.
use bhwi_ffi.Prelude.{◌≤◌, Option, none, some, ◌≡◌, ◌↔◌, ltb, if◌then◌else◌, arith}
use bhwi_ffi.Text.{Text}
use bhwi_ffi.Error.{
  Outcome, ok, err, invalid_input, bad_state, internal, or_err, reject_if, ◌>>=◌, ◌>>◌,
}
use bhwi_ffi.Core.Primitives.{Primitives}
use bhwi_ffi.Core.Device.{Device}
use bhwi_ffi.State.Leased.{Mutex, mutex}

module _ ⦃P : Primitives⦄ where
  pub record HostPassphraseHandle : Type 0 where
    pub passphrase : Mutex (Option P.HostPassphrase)

  -- `self.passphrase.lock().map_err(…)?`
  abbrev locked : HostPassphraseHandle → Outcome (Option P.HostPassphrase)
  locked h =
      if h.passphrase.poisoned
      then err (internal "passphrase lock poisoned")
      else ok h.passphrase.value

  -- `HostPassphraseHandle::clone_passphrase`
  unfoldable pub clone_passphrase : HostPassphraseHandle → Outcome P.HostPassphrase
  clone_passphrase h = do slot ← locked h; or_err slot (bad_state "passphrase handle is cleared")

  -- `HostPassphraseHandle::validate`
  unfoldable pub validate : HostPassphraseHandle → Outcome (Unit {0})
  validate h = do
    slot ← locked h
    passphrase ← or_err slot (bad_state "passphrase handle is cleared")
    ok tt

  -- `HostPassphraseHandle::clear`, which looks past a poisoned lock
  unfoldable pub clear : HostPassphraseHandle → HostPassphraseHandle
  clear h = record h { passphrase = record (h.passphrase) { value = none } }

  -- `HostPassphraseHandle::new`
  unfoldable pub new_passphrase : ⦃D : Device⦄ → Text → Outcome HostPassphraseHandle
  new_passphrase ⦃D⦄ text = do
    let passphrase = D.host_passphrase text
    reject_if (ltb 50 (D.byte_len passphrase))
        (invalid_input "passphrase exceeds 50 normalized UTF-8 bytes")
    ok (record { passphrase = mutex (some passphrase) })

  -- A handle is built exactly for the texts of at most 50 normalized bytes.
  pub new_passphrase_iff :
      ⦃D : Device⦄ (text : Text)
      → ((h : HostPassphraseHandle) × (new_passphrase text ≡ ok h))
        ↔ (D.byte_len (D.host_passphrase text) ≤ 50)
  unfolding new_passphrase
  new_passphrase_iff ⦃D⦄ text = (
    λ (h, e). ground arith,
    λ h. (record { passphrase = mutex (some (D.host_passphrase text)) }, ground arith),
  )

  -- A handle hands out clones of the passphrase that it was built from, and validates, until it is
  -- cleared; after that, however often, both report a bad state.
  pub new_passphrase-clone :
      ⦃D : Device⦄ (text : Text) (h : HostPassphraseHandle)
      → new_passphrase text ≡ ok h
      → (clone_passphrase h ≡ ok (D.host_passphrase text))
        × (validate h ≡ ok tt)
        × (clone_passphrase (clear h) ≡ err (bad_state "passphrase handle is cleared"))
        × (validate (clear h) ≡ err (bad_state "passphrase handle is cleared"))
        × (clear (clear h) ≡ clear h)
  unfolding new_passphrase clone_passphrase validate clear
  new_passphrase-clone ⦃D⦄ text h e = ground arith
