-- ===== src/Types/Device.antt =====
-- bhwi-ffi/src/types.rs: `DeviceKind`, with its derived `PartialEq` and `Debug`.
use bhwi_ffi.Prelude.{String, Bool, true, false, ◌≡◌, ◌↔◌, Eq, arith}

pub data DeviceKind : Type 0 where
  ledger coldcard bitbox jade trezor keepkey specter : DeviceKind

abbrev pub kind_beq : DeviceKind → DeviceKind → Bool
kind_beq ledger ledger = true
kind_beq coldcard coldcard = true
kind_beq bitbox bitbox = true
kind_beq jade jade = true
kind_beq trezor trezor = true
kind_beq keepkey keepkey = true
kind_beq specter specter = true
kind_beq _ _ = false

pub kind_beq_iff : (a b : DeviceKind) → (kind_beq a b ≡ true) ↔ (a ≡ b)
kind_beq_iff a b = ground arith

instance abbrev pub kind_eq : Eq DeviceKind
kind_eq = record { beq = kind_beq; beq_iff = kind_beq_iff }

-- `format!("{kind:?}")`
unfoldable pub debug_kind : DeviceKind → String
debug_kind ledger = "Ledger"
debug_kind coldcard = "Coldcard"
debug_kind bitbox = "BitBox"
debug_kind jade = "Jade"
debug_kind trezor = "Trezor"
debug_kind keepkey = "KeepKey"
debug_kind specter = "Specter"
