-- ===== src/Types/Names/Ascii.antt =====
-- What an accepted policy name looks like, for the families that restrict its bytes.
use bhwi_ffi.Prelude.{
  ℕ, suc, ◌≤◌, ◌≡◌, ◌≢◌, refl, ap, ◌⊎◌, Bool, true, false, [], ◌∷◌, ◌++◌, arith, length, all, All,
  all-All, All-map, ◌↔◌,
}
use bhwi_ffi.Text.{Text, Bytes, bytes, encode_utf8, len}
use bhwi_ffi.Error.{ok}
use bhwi_ffi.Types.Device.{DeviceKind, ledger, coldcard, bitbox, jade, trezor, keepkey, specter}
use bhwi_ffi.Types.Names.{
  validate_policy_name, printable_name, is_word_byte, is_graphic_or_space, in_range,
}

abbrev pub IsPrintable : ℕ → Type 0
IsPrintable c = (32 ≤ c) × (c ≤ 126)

-- What a `char` contributes to the bytes lies in the printable range only if the `char` does.
encode-IsPrintable :
    (c : ℕ) (rest : Bytes)
    → All IsPrintable (encode_utf8 c ++ rest)
    → (encode_utf8 c ≡ c ∷ []) × IsPrintable c × All IsPrintable rest
unfolding encode_utf8
encode-IsPrintable c rest h = ground arith

pub bytes-IsPrintable :
    (s : Text) → All IsPrintable (bytes s) → All IsPrintable s × (len s ≡ length s)
unfolding bytes
bytes-IsPrintable [] h = (tt, refl)
bytes-IsPrintable (c ∷ s) h =
    let here = encode-IsPrintable c (bytes s) h in
    let rest = bytes-IsPrintable s here.2 in ((here.1, rest.0), rw here.0 (ap suc rest.1))

range-IsPrintable : (b : ℕ) → in_range b' ' b'~' b ≡ true → IsPrintable b
unfolding in_range
range-IsPrintable b h = ground arith

word-IsPrintable : (b : ℕ) → is_word_byte b ≡ true → IsPrintable b
unfolding is_word_byte
word-IsPrintable b h = ground arith

graphic-IsPrintable : (b : ℕ) → is_graphic_or_space b ≡ true → IsPrintable b
unfolding is_graphic_or_space
graphic-IsPrintable b h = ground arith

module _ (p : ℕ → Bool) (sound : (b : ℕ) → p b ≡ true → IsPrintable b) where
  all-IsPrintable :
      (max : ℕ) (name : Text)
      → all p (bytes name) ≡ true
      → len name ≤ max
      → All IsPrintable name × (len name ≡ length name) × (length name ≤ max)
  all-IsPrintable max name h bound =
      let (printable, same) = bytes-IsPrintable name (All-map sound (bytes name) (all-All p _ h)) in
      (printable, same, omega arith)

-- The families that restrict the bytes of a name, with the greatest length.
abbrev pub max_name : DeviceKind → ℕ
max_name ledger = 64
max_name jade = 16
max_name coldcard = 20
max_name bitbox = 30
max_name _ = 0

abbrev pub RestrictsBytes : DeviceKind → Type 0
RestrictsBytes kind = max_name kind ≢ 0

printable_name-IsPrintable :
    (max : ℕ) (name : Text)
    → printable_name max name ≡ true
    → All IsPrintable name × (len name ≡ length name) × (length name ≤ max)
unfolding printable_name
printable_name-IsPrintable max name h =
    all-IsPrintable (in_range b' ' b'~') range-IsPrintable max name (ground arith) (ground arith)

-- Ledger, Jade, Coldcard and BitBox accept only names of printable ASCII characters, whose number
-- of bytes is their number of characters, and at most 64, 16, 20 and 30 of them.
pub validate_policy_name-IsPrintable :
    (name : Text) (kind : DeviceKind) (registration : Bool)
    → RestrictsBytes kind
    → validate_policy_name name kind registration ≡ ok tt
    → All IsPrintable name × (len name ≡ length name) × (length name ≤ max_name kind)
unfolding validate_policy_name bytes
validate_policy_name-IsPrintable [] ledger registration r h = (tt, refl, omega arith)
validate_policy_name-IsPrintable (c ∷ name) ledger registration r h =
    printable_name-IsPrintable 64 (c ∷ name) (ground arith)
validate_policy_name-IsPrintable name jade registration r h =
    all-IsPrintable is_word_byte word-IsPrintable 16 name (ground arith) (ground arith)
validate_policy_name-IsPrintable name coldcard registration r h =
    all-IsPrintable is_graphic_or_space graphic-IsPrintable 20 name (ground arith) (ground arith)
validate_policy_name-IsPrintable name bitbox registration r h =
    printable_name-IsPrintable 30 name (ground arith)
validate_policy_name-IsPrintable name specter registration r h = absurd (r refl)
validate_policy_name-IsPrintable name trezor registration r h = absurd (r refl)
validate_policy_name-IsPrintable name keepkey registration r h = absurd (r refl)

-- A policy may be used under exactly the names under which it may be registered, and on Ledger
-- also under the empty name, the one of a default policy.
pub validate_policy_name-registration :
    (name : Text) (kind : DeviceKind)
    → (validate_policy_name name kind false ≡ ok tt)
      ↔ ((validate_policy_name name kind true ≡ ok tt) ⊎ ((kind ≡ ledger) × (name ≡ [])))
unfolding validate_policy_name
validate_policy_name-registration [] ledger = ground arith
validate_policy_name-registration (c ∷ name) ledger = ground arith
validate_policy_name-registration name jade = ground arith
validate_policy_name-registration name coldcard = ground arith
validate_policy_name-registration name bitbox = ground arith
validate_policy_name-registration name specter = ground arith
validate_policy_name-registration name trezor = ground arith
validate_policy_name-registration name keepkey = ground arith
