-- ===== src/Interp/Replies/Framing.antt =====
-- The serial frames of Trezor and KeepKey: "##", a message type, the big-endian length, the payload.
use bhwi_ffi.Prelude.{
  ℕ, ◌+◌, ◌*◌, ◌/◌, ◌%◌, ◌^◌, ◌≤◌, ◌<◌, ◌≡◌, ◌≢◌, ◌↔◌, refl, true, false, ◌∷◌, length, All,
  option_eq, list_eq, nat_eq, arith, ap,
}
use bhwi_ffi.Text.{Bytes}
use bhwi_ffi.Error.{ok, panicked}
use bhwi_ffi.Interp.Replies.{malformed_frame}

-- A frame with the message type `t₁ t₀`.
abbrev pub frame : ℕ → ℕ → Bytes → Bytes
frame t₁ t₀ payload =
    let n = length payload in
    b'#'
    ∷ b'#'
    ∷ t₁
    ∷ t₀
    ∷ (n / 2 ^ 24)
    ∷ (n / 2 ^ 16 % 256)
    ∷ (n / 2 ^ 8 % 256)
    ∷ (n % 256)
    ∷ payload

abbrev pub IsByte : ℕ → Type 0
IsByte b = b < 256

-- What the eight bytes of a header decide.
header_iff :
    (max m₁ m₀ t₁ t₀ a b c d : ℕ) (payload : Bytes)
    → 8 + length payload ≤ max
    → (malformed_frame max (m₁ ∷ m₀ ∷ t₁ ∷ t₀ ∷ a ∷ b ∷ c ∷ d ∷ payload) ≡ ok false)
      ↔ ((m₁ ≡ b'#') × (m₀ ≡ b'#') × (a * 2 ^ 24 + b * 2 ^ 16 + c * 2 ^ 8 + d ≡ length payload))
unfolding malformed_frame
header_iff max m₁ m₀ t₁ t₀ a b c d payload fits = ground arith

header_total :
    (max m₁ m₀ t₁ t₀ a b c d : ℕ) (payload : Bytes)
    → malformed_frame max (m₁ ∷ m₀ ∷ t₁ ∷ t₀ ∷ a ∷ b ∷ c ∷ d ∷ payload) ≢ panicked
unfolding malformed_frame
header_total max m₁ m₀ t₁ t₀ a b c d payload = ground arith

short_frame : (max : ℕ) (reply : Bytes) → length reply < 8 → malformed_frame max reply ≡ ok true
unfolding malformed_frame
short_frame max reply h = ground arith

pub malformed_frame-total : (max : ℕ) (reply : Bytes) → malformed_frame max reply ≢ panicked
malformed_frame-total max (m₁ ∷ m₀ ∷ t₁ ∷ t₀ ∷ a ∷ b ∷ c ∷ d ∷ payload) =
    header_total max m₁ m₀ t₁ t₀ a b c d payload
malformed_frame-total max reply = λ e. cc (e, short_frame max reply (omega arith))

-- A complete frame, whose length field says how long its payload is.
abbrev pub IsFrame : Bytes → Type 0
IsFrame reply =
    (t₁ : ℕ) × (t₀ : ℕ) × (payload : Bytes) × (reply ≡ frame t₁ t₀ payload)
    × (length payload < 2 ^ 32)

abbrev Decides : ℕ → Bytes → Type 0
Decides max reply =
    ((malformed_frame max reply ≡ ok false) ↔ IsFrame reply)
    × (malformed_frame max reply ≢ panicked)

-- the four digits of a number in base 256
digits_eq :
    (a b c d n : ℕ)
    → a < 256
    → b < 256
    → c < 256
    → d < 256
    → a * 2 ^ 24 + b * 2 ^ 16 + c * 2 ^ 8 + d ≡ n
    → (a ≡ n / 2 ^ 24)
      × (b ≡ n / 2 ^ 16 % 256)
      × (c ≡ n / 2 ^ 8 % 256)
      × (d ≡ n % 256)
      × (n < 2 ^ 32)
digits_eq a b c d n ha hb hc hd h = omega arith

digits_sum :
    (n : ℕ)
    → n < 2 ^ 32
    → n / 2 ^ 24 * 2 ^ 24 + n / 2 ^ 16 % 256 * 2 ^ 16 + n / 2 ^ 8 % 256 * 2 ^ 8 + n % 256 ≡ n
digits_sum n h = omega arith

frame-well_formed :
    (max t₁ t₀ : ℕ) (payload : Bytes)
    → 8 + length payload ≤ max
    → length payload < 2 ^ 32
    → malformed_frame max (frame t₁ t₀ payload) ≡ ok false
frame-well_formed max t₁ t₀ payload fits h =
    (header_iff max b'#' b'#' t₁ t₀ _ _ _ _ payload fits).1 (refl, refl, digits_sum _ h)

short-Decides : (max : ℕ) (reply : Bytes) → length reply < 8 → Decides max reply
short-Decides max reply h = (
  (
    λ e. cc (e, short_frame max reply h),
    λ (t₁, t₀, payload, e, _). absurd (omega (arith, ap (length {0}) e)),
  ),
  λ e. cc (e, short_frame max reply h),
)

header-Decides :
    (max m₁ m₀ t₁ t₀ a b c d : ℕ) (payload : Bytes)
    → All IsByte (m₁ ∷ m₀ ∷ t₁ ∷ t₀ ∷ a ∷ b ∷ c ∷ d ∷ payload)
    → 8 + length payload ≤ max
    → Decides max (m₁ ∷ m₀ ∷ t₁ ∷ t₀ ∷ a ∷ b ∷ c ∷ d ∷ payload)
header-Decides max m₁ m₀ t₁ t₀ a b c d payload bytes fits = (
  (
    λ e.
        let (p, q, r) = (header_iff max m₁ m₀ t₁ t₀ a b c d payload fits).0 e in
        let (ea, eb, ec, ed, small) =
          digits_eq a b c d (length payload) (omega arith) (omega arith) (omega arith) (omega arith)
            r in
        (t₁, t₀, payload, rw (p, q, ← ea, ← eb, ← ec, ← ed) refl, small),
    λ (u₁, u₀, p, e, small).
        rw e (frame-well_formed max u₁ u₀ p (omega (arith, ap (length {0}) e)) small),
  ),
  header_total max m₁ m₀ t₁ t₀ a b c d payload,
)

-- A reply of bytes that fits into memory is let through to a Trezor or KeepKey interpreter exactly
-- when it is one complete frame: the mark "##", a message type, the length of the payload in four
-- bytes, high byte first, and that payload. On no reply does the check panic.
pub malformed_frame_iff :
    (max : ℕ) (reply : Bytes)
    → All IsByte reply
    → length reply ≤ max
    → ((malformed_frame max reply ≡ ok false) ↔ IsFrame reply)
      × (malformed_frame max reply ≢ panicked)
malformed_frame_iff max (m₁ ∷ m₀ ∷ t₁ ∷ t₀ ∷ a ∷ b ∷ c ∷ d ∷ payload) bytes fits =
    header-Decides max m₁ m₀ t₁ t₀ a b c d payload bytes (omega arith)
malformed_frame_iff max reply bytes fits = short-Decides max _ (omega arith)
