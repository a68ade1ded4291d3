-- ===== src/State/Coldcard.antt =====
-- bhwi-ffi/src/state.rs: `ColdcardEncryption`. The randomness behind a fresh engine is an argument.
use bhwi_ffi.Core.Primitives.{Primitives}
use bhwi_ffi.State.Leased.{Leased, new}

module _ ⦃P : Primitives⦄ where
  pub record ColdcardEncryption : Type 0 where
    pub engine : Leased P.Engine

  -- `ColdcardEncryption::new`, given what `Engine::new` draws
  unfoldable pub new_encryption : P.Engine → ColdcardEncryption
  new_encryption engine = record { engine = new engine }
