-- ===== src/State/Noise/Laws.antt =====
-- The pairing material: what a handle accepts, what it exports, and the pairing code.
use mathlib.Core.List.{append_assoc, append-nil}
use bhwi_ffi.Prelude.{
  true, false, Option, none, some, List, [], ◌∷◌, ◌++◌, Mem, All, ◌≡◌, refl, ap, sym, subst, ◌↔◌,
  ◌∙◌, eqb, length, if◌then◌else◌, arith,
}
use bhwi_ffi.Text.{Bytes, Text}
use bhwi_ffi.Error.{Outcome, ok, >>=-eq-ok}
use bhwi_ffi.Core.Primitives.{Primitives}
use bhwi_ffi.Core.Device.{Device, NoiseConfigData, NoiseLaws}
use bhwi_ffi.State.Leased.{new, with_cell, mutex}
use bhwi_ffi.State.Noise.{
  NoiseConfig, NoiseHandle, from_data, with_privkey, with_pubkeys, to_data, to_data?, new_handle,
  export_config, fire_hook, take_pairing_code,
}

abbrev pub IsKey : Bytes → Type 0
IsKey key = length key ≡ 32

abbrev pub IsPrivkey : Option Bytes → Type 0
IsPrivkey none = Unit
IsPrivkey (some key) = IsKey key

-- No key of the list is among those seen, or occurs twice.
abbrev pub IsFresh : List Bytes → List Bytes → Type 0
IsFresh seen [] = Unit
IsFresh seen (key ∷ keys) = (¬ Mem key seen) × IsFresh (seen ++ key ∷ []) keys

-- Every key has 32 bytes.
pub record IsValid (config : NoiseConfig) : Type 0 where
  pub privkey : IsPrivkey config.privkey
  pub pubkeys : All IsKey config.device_pubkeys

ok_inj {ℓ} : {A : Type ℓ} {a b : A} → ◌≡◌ {A = Outcome A} (ok a) (ok b) → a ≡ b
ok_inj e = cc e

module _ ⦃P : Primitives⦄ where
  -- The code that the interpreter reports is handed to the host once, also while the handle is
  -- leased, and a later code replaces one that was not taken.
  pub take_pairing_code_once :
      (h : NoiseHandle) (earlier code : Text)
      → h.pairing_code.poisoned ≡ false
      → (let fired = fire_hook code (fire_hook earlier h.pairing_code) in
          let (r, after) = take_pairing_code (record h { pairing_code = fired }) in
          (r ≡ some code) × ((take_pairing_code after).0 ≡ none) × (after.state ≡ h.state))
  unfolding take_pairing_code fire_hook
  take_pairing_code_once h earlier code sound = ground arith

  module _ ⦃D : Device⦄ where
    with_pubkeys_rejects :
        (keys : List Bytes) (d d' : NoiseConfigData) → with_pubkeys keys d ≡ ok d' → All IsKey keys
    unfolding with_pubkeys
    with_pubkeys_rejects [] d d' h = tt
    with_pubkeys_rejects (key ∷ keys) d d' h =
        ground (arith, with_pubkeys_rejects keys (D.add_device_static_pubkey d key) d')

    with_privkey_rejects :
        (key : Option Bytes) (d : NoiseConfigData) → with_privkey key ≡ ok d → IsPrivkey key
    unfolding with_privkey
    with_privkey_rejects none d h = tt
    with_privkey_rejects (some key) d h = ground arith

    with_pubkeys_accepts :
        (keys : List Bytes) (d : NoiseConfigData)
        → All IsKey keys
        → (d' : NoiseConfigData) × (with_pubkeys keys d ≡ ok d')
    unfolding with_pubkeys
    with_pubkeys_accepts [] d sized = (d, refl)
    with_pubkeys_accepts (key ∷ keys) d sized =
        let long : (if eqb (length key) 32 then false else true) ≡ false = ground arith in
        rw long (with_pubkeys_accepts keys (D.add_device_static_pubkey d key) sized.1)

    with_privkey_accepts :
        (key : Option Bytes) → IsPrivkey key → (d : NoiseConfigData) × (with_privkey key ≡ ok d)
    unfolding with_privkey
    with_privkey_accepts none h = (D.noise_default, refl)
    with_privkey_accepts (some key) h =
        let fits : eqb (length key) 32 ≡ true = ground arith in
        (record (D.noise_default) { app_static_privkey = some key }, rw fits refl)

    -- Pairing material is accepted exactly when each key has 32 bytes.
    pub new_handle_iff :
        (config : NoiseConfig)
        → ((h : NoiseHandle) × (new_handle (some config) ≡ ok h)) ↔ IsValid config
    unfolding new_handle to_data? to_data
    new_handle_iff config = (
      λ (h, e).
          let (o, oe, _) = >>=-eq-ok (to_data? (some config)) _ e in
          let (d, de, _) = >>=-eq-ok (to_data config) _ oe in
          let (k, ke, rest) = >>=-eq-ok (with_privkey config.privkey) _ de in
          record {
            privkey = with_privkey_rejects config.privkey k ke;
            pubkeys = with_pubkeys_rejects config.device_pubkeys k d rest;
          },
      λ v.
          let (k, ke) = with_privkey_accepts config.privkey v.privkey in
          let (d, de) = with_pubkeys_accepts config.device_pubkeys k v.pubkeys in
          (
            record { state = new (D.noise_new (some d)); pairing_code = mutex none },
            rw (ke, de) refl,
          ),
    )

    module _ (laws : NoiseLaws D) where
      with_pubkeys_adds :
          (keys : List Bytes) (d : NoiseConfigData)
          → All IsKey keys
          → IsFresh d.device_static_pubkeys keys
          → with_pubkeys keys d
            ≡ ok (record d { device_static_pubkeys = d.device_static_pubkeys ++ keys })
      unfolding with_pubkeys
      with_pubkeys_adds [] d sized fresh = rw (append-nil d.device_static_pubkeys) refl
      with_pubkeys_adds (key ∷ keys) d sized fresh =
          let d' = record d { device_static_pubkeys = d.device_static_pubkeys ++ key ∷ [] } in
          let long : (if eqb (length key) 32 then false else true) ≡ false = ground arith in
          rw (long, laws.add_new d key fresh.0)
            (with_pubkeys_adds keys d' sized.1 fresh.1
              ∙ ap (λ ks. ok (record d { device_static_pubkeys = ks }))
                  (append_assoc d.device_static_pubkeys (key ∷ []) keys))

      with_privkey_sets :
          (key : Option Bytes)
          → IsPrivkey key
          → with_privkey key ≡ ok (record { app_static_privkey = key; device_static_pubkeys = [] })
      unfolding with_privkey
      with_privkey_sets none h = ap ok laws.default_empty
      with_privkey_sets (some key) h = rw laws.default_empty (ground arith)

      -- What a fresh handle exports is the pairing material that it was built from, if no public key is
      -- listed twice and the core keeps pairing material as it documents; the export leaves the handle
      -- as it is.
      pub export-new_handle :
          (config : NoiseConfig) (h : NoiseHandle)
          → IsFresh [] config.device_pubkeys
          → new_handle (some config) ≡ ok h
          → export_config h ≡ (ok config, h)
      unfolding new_handle to_data? to_data export_config with_cell new from_data
      export-new_handle config h fresh built =
          let v = (new_handle_iff config).0 (h, built) in
          let d : NoiseConfigData = record {
            app_static_privkey = config.privkey;
            device_static_pubkeys = config.device_pubkeys;
          } in
          let handle : NoiseHandle = record {
            state = new (D.noise_new (some d));
            pairing_code = mutex none;
          } in
          let builds : new_handle (some config) ≡ ok handle =
            rw
              (
                with_privkey_sets config.privkey v.privkey,
                with_pubkeys_adds config.device_pubkeys
                    (record { app_static_privkey = config.privkey; device_static_pubkeys = [] })
                    v.pubkeys fresh,
              )
              refl in
          let same : handle ≡ h = ok_inj (sym builds ∙ built) in
          let exports : export_config handle ≡ (ok config, handle) = rw (laws.data_new d) refl in
          subst (λ h. export_config h ≡ (ok config, h)) same exports
