-- ===== src/Core/Result.antt =====
-- A `Result` that a call of a third-party crate returns.
pub data CoreResult {ℓ κ} (E : Type ℓ) (A : Type κ) : Type (ℓ ⊔ κ) where
  success : A → CoreResult E A
  failure : E → CoreResult E A
