-- ===== src/Types/Names/Exact.antt =====
-- Exactly which names each family accepts for a wallet policy.
use bhwi_ffi.Prelude.{
  ℕ, ◌≤◌, ◌≡◌, ◌≢◌, refl, ap, sym, subst, ◌&&◌, ◌⊎◌, inl, inr, Bool, true, false, not, [], ◌∷◌,
  ◌++◌, arith, length, all, any, is_empty, leb, All, all-All, All-map, ◌↔◌, all_iff, Bool-cases,
  eqb,
}
use bhwi_ffi.Text.{Text, bytes, encode_utf8, len, starts_with, ends_with, is_control}
use bhwi_ffi.Error.{ok}
use bhwi_ffi.Types.Device.{DeviceKind, ledger, coldcard, bitbox, jade, trezor, keepkey, specter}
use bhwi_ffi.Types.Names.{
  validate_policy_name, valid_name, printable_name, is_word_byte, is_graphic_or_space, in_range,
}
use bhwi_ffi.Types.Names.Ascii.{IsPrintable, bytes-IsPrintable}

-- an ASCII letter, a digit or an underscore
abbrev pub IsWord : ℕ → Type 0
IsWord c =
    ((b'0' ≤ c) × (c ≤ b'9')) ⊎ ((b'A' ≤ c) × (c ≤ b'Z')) ⊎ ((b'a' ≤ c) × (c ≤ b'z')) ⊎ (c ≡ b'_')

-- a control character of Unicode
abbrev pub IsControl : ℕ → Type 0
IsControl c = (c ≤ 31) ⊎ ((127 ≤ c) × (c ≤ 159))

-- No space stands at the beginning or at the end.
pub record IsTrimmed (s : Text) : Type 0 where
  pub front : (rest : Text) → s ≢ b' ' ∷ rest
  pub back : (rest : Text) → s ≢ rest ++ b' ' ∷ []

abbrev pub IsPlainName : ℕ → Text → Type 0
IsPlainName max name = (name ≢ []) × (length name ≤ max) × All IsPrintable name × IsTrimmed name

-- The names that a family takes, where `registration` tells a registration from a signature.
abbrev pub IsName : DeviceKind → Bool → Text → Type 0
IsName ledger registration name = ((registration ≡ false) × (name ≡ [])) ⊎ IsPlainName 64 name
IsName bitbox registration name = IsPlainName 30 name
IsName jade registration name = (name ≢ []) × (length name ≤ 16) × All IsWord name
IsName coldcard registration name = (2 ≤ length name) × (length name ≤ 20) × All IsPrintable name
IsName specter registration name = (name ≢ []) × All (λ c. (c ≢ b'&') × (¬ IsControl c)) name
IsName _ registration name = All (λ c. ¬ IsControl c) name

bytes-same : (s : Text) → All IsPrintable s → bytes s ≡ s
unfolding bytes encode_utf8
bytes-same [] h = refl
bytes-same (c ∷ s) h = ground (arith, bytes-same s h.1)

-- A test `p` of bytes that only printable ones pass, on the characters.
module _ (p : ℕ → Bool) (Q : ℕ → Type 0) (printable : (b : ℕ) → Q b → IsPrintable b)
    (same : (b : ℕ) → (p b ≡ true) ↔ Q b) where
  plain : (name : Text) → All Q name → bytes name ≡ name
  plain name h = bytes-same name (All-map printable name h)

  all-bytes_iff : (name : Text) → (all p (bytes name) ≡ true) ↔ All Q name
  all-bytes_iff name = (
    λ h.
        let fine = All-map (λ b. (same b).0) (bytes name) (all-All p _ h) in
        let ascii = (bytes-IsPrintable name (All-map printable (bytes name) fine)).0 in
        subst (λ bs. All Q bs) (bytes-same name ascii) fine,
    λ h. subst (λ bs. all p bs ≡ true) (sym (plain name h)) ((all_iff p Q same name).1 h),
  )

  -- With bounds on the length.
  sized_iff :
      (lo hi : ℕ) (name : Text)
      → ((in_range lo hi (len name) && all p (bytes name)) ≡ true)
        ↔ ((lo ≤ length name) × (length name ≤ hi) × All Q name)
  unfolding in_range
  sized_iff lo hi name = (
    λ h.
        let q = (all-bytes_iff name).0 (ground arith) in
        let long = ap (λ bs. length bs) (plain name q) in ground arith,
    λ (l, u, q).
        let long = ap (λ bs. length bs) (plain name q) in ground (arith, (all-bytes_iff name).1),
  )

range_iff : (b : ℕ) → (in_range b' ' b'~' b ≡ true) ↔ IsPrintable b
unfolding in_range
range_iff b = ground arith

IsWord-iff : (b : ℕ) → (is_word_byte b ≡ true) ↔ IsWord b
unfolding is_word_byte
IsWord-iff b = ground arith

graphic_iff : (b : ℕ) → (is_graphic_or_space b ≡ true) ↔ IsPrintable b
unfolding is_graphic_or_space
graphic_iff b = ground arith

IsControl-iff : (c : ℕ) → (is_control c ≡ false) ↔ (¬ IsControl c)
unfolding is_control
IsControl-iff c = ground arith

starts_with-false : (s : Text) → (starts_with b' ' s ≡ false) ↔ ((rest : Text) → s ≢ b' ' ∷ rest)
starts_with-false [] = (λ h rest e. ground arith, λ h. refl)
starts_with-false (c ∷ s) = (
  λ h rest e. ground arith,
  λ h. elim (Bool-cases (eqb c b' ')) [
    | inl space ↦ absurd (h s (ground arith))
    | inr other ↦ other
  ],
)

ends_with-true : (s : Text) → ends_with b' ' s ≡ true → (rest : Text) × (s ≡ rest ++ b' ' ∷ [])
ends_with-true [] h = absurd (ground arith)
ends_with-true (c ∷ []) h = ([], ground arith)
ends_with-true (c ∷ d ∷ s) h =
    let (rest, e) = ends_with-true (d ∷ s) h in (c ∷ rest, ap (λ t. c ∷ t) e)

ends_with-append : (rest : Text) → ends_with b' ' (rest ++ b' ' ∷ []) ≡ true
ends_with-append [] = refl
ends_with-append (c ∷ []) = refl
ends_with-append (c ∷ d ∷ rest) = ends_with-append (d ∷ rest)

IsTrimmed-iff :
    (s : Text) → ((starts_with b' ' s ≡ false) × (ends_with b' ' s ≡ false)) ↔ IsTrimmed s
IsTrimmed-iff s = (
  λ (f, b). record {
    front = (starts_with-false s).0 f;
    back = λ rest e. ground (arith, ends_with-append rest);
  },
  λ t. (
    (starts_with-false s).1 t.front,
    elim (Bool-cases (ends_with b' ' s)) [
      | inl space ↦ let (rest, e) = ends_with-true s space in absurd (t.back rest e)
      | inr other ↦ other
    ],
  ),
)

printable_name_iff :
    (max : ℕ) (name : Text) → (printable_name max name ≡ true) ↔ IsPlainName max name
unfolding printable_name in_range
printable_name_iff max name =
    let sized = sized_iff (in_range b' ' b'~') IsPrintable (λ b h. h) range_iff 1 max name in
    let trimmed = IsTrimmed-iff name in
    (
      λ h.
          let (l, u, q) = sized.0 (ground arith) in
          (λ e. ground arith, u, q, trimmed.0 (ground arith)),
      λ (n, u, q, t). let s = sized.1 (ground arith) in let (f, b) = trimmed.1 t in ground arith,
    )

word-IsPrintable : (b : ℕ) → IsWord b → IsPrintable b
word-IsPrintable b h = ground arith

jade_iff :
    (name : Text)
    → ((not (is_empty name) && leb (len name) 16 && all is_word_byte (bytes name)) ≡ true)
      ↔ ((name ≢ []) × (length name ≤ 16) × All IsWord name)
jade_iff name =
    let words = all-bytes_iff is_word_byte IsWord word-IsPrintable IsWord-iff name in
    (
      λ h.
          let q = words.0 (ground arith) in
          let long =
            ap (λ bs. length bs) (plain is_word_byte IsWord word-IsPrintable IsWord-iff name q) in
          (λ e. ground arith, ground arith, q),
      λ (n, u, q).
          let long =
            ap (λ bs. length bs) (plain is_word_byte IsWord word-IsPrintable IsWord-iff name q) in
          let h = words.1 q in ground arith,
    )

any-IsControl_iff : (name : Text) → (any is_control name ≡ false) ↔ All (λ c. ¬ IsControl c) name
any-IsControl_iff [] = (λ h. tt, λ h. refl)
any-IsControl_iff (c ∷ name) = ground (arith, IsControl-iff c, any-IsControl_iff name)

ampersand-IsControl_iff :
    (name : Text)
    → ((not (any (λ c. eqb c b'&') name) && not (any is_control name)) ≡ true)
      ↔ All (λ c. (c ≢ b'&') × (¬ IsControl c)) name
ampersand-IsControl_iff [] = (λ h. tt, λ h. refl)
ampersand-IsControl_iff (c ∷ name) = ground (arith, IsControl-iff c, ampersand-IsControl_iff name)

-- A name is accepted for a family exactly when it is one that the family takes: for Ledger and BitBox
-- 1 to 64 and 1 to 30 printable ASCII characters without a space at either end, and for a
-- Ledger signature also none; for Jade 1 to 16 ASCII letters, digits and underscores; for Coldcard
-- 2 to 20 printable ASCII characters; for Specter at least one character and neither `&` nor a
-- control character; for Trezor and KeepKey no control character.
pub validate_policy_name_iff :
    (name : Text) (kind : DeviceKind) (registration : Bool)
    → (validate_policy_name name kind registration ≡ ok tt) ↔ IsName kind registration name
unfolding validate_policy_name valid_name
validate_policy_name_iff name ledger registration = ground (arith, printable_name_iff 64 name)
validate_policy_name_iff name bitbox registration = ground (arith, printable_name_iff 30 name)
validate_policy_name_iff name jade registration = ground (arith, jade_iff name)
validate_policy_name_iff name coldcard registration =
    ground (arith, sized_iff is_graphic_or_space IsPrintable (λ b h. h) graphic_iff 2 20 name)
validate_policy_name_iff name specter registration = ground (arith, ampersand-IsControl_iff name)
validate_policy_name_iff name trezor registration = ground (arith, any-IsControl_iff name)
validate_policy_name_iff name keepkey registration = ground (arith, any-IsControl_iff name)
