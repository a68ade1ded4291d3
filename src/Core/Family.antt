-- ===== src/Core/Family.antt =====
-- The sans-I/O interpreter of one device family. `Cell` is the state that it borrows from a host
-- handle (`Unit` where it owns its state), and `Effect` what it reports through a hook.
use bhwi_ffi.Prelude.{ℕ, Bool, Option, List}
use bhwi_ffi.Text.{Bytes, Text}
use bhwi_ffi.Core.Bitcoin.{CoreNetwork}
use bhwi_ffi.Core.Primitives.{Primitives}
use bhwi_ffi.Core.Result.{CoreResult}
use bhwi_ffi.Core.Protocol.{Command, Response, Transmit, Error, LedgerWalletPolicy}

module _ ⦃P : Primitives⦄ where
  -- A call through `&mut self`: its result, and what it leaves behind.
  pub record Stepped (I C F A : Type 0) : Type 0 where
    pub result : CoreResult Error A
    pub interpreter : I
    pub cell : C
    pub effect : F

  pub record Family (Cell Effect : Type 0) : Type 1 where
    pub Interpreter : Type 0
    pub FamilyCommand : Type 0
    -- `TryFrom<common::Command>`, its error converted into `common::Error`
    pub lower : Command → CoreResult Error FamilyCommand
    -- `start` and `exchange`
    pub start_step : Interpreter → Cell → FamilyCommand → Stepped Interpreter Cell Effect Transmit
    pub exchange_step :
        Interpreter → Cell → Bytes → Stepped Interpreter Cell Effect (Option Transmit)
    -- `end(self)`, which consumes the interpreter and leaves the cell
    pub finish : Interpreter → Cell → CoreResult Error Response × Cell

  -- The seven families, with the constructors of their interpreters.
  pub record Families : Type 1 where
    pub bitbox : Family P.NoiseState (List Text)
    pub coldcard : Family P.Engine (Unit {0})
    pub jade : Family (Unit {0}) (Unit {0})
    pub ledger : Family (Unit {0}) (Unit {0})
    pub trezor : Family (Unit {0}) (Unit {0})
    pub keepkey : Family (Unit {0}) (Unit {0})
    pub specter : Family (Unit {0}) (Unit {0})
    pub bitbox_new : CoreNetwork → bitbox.Interpreter
    pub coldcard_new : coldcard.Interpreter
    pub jade_new : CoreNetwork → jade.Interpreter
    pub ledger_new : ledger.Interpreter
    pub trezor_new : CoreNetwork → Option P.HostPassphrase → Bool → trezor.Interpreter
    pub keepkey_new : CoreNetwork → Option P.HostPassphrase → keepkey.Interpreter
    pub specter_new : CoreNetwork → specter.Interpreter
    -- the policy of `LedgerCommand::RegisterWallet`
    pub registered_policy : ledger.FamilyCommand → Option LedgerWalletPolicy
    -- `StatusWord::try_from(word).ok() == Some(StatusWord::OK)`
    pub status_ok : ℕ → Bool
