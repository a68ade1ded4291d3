-- ===== src/Interp/World/Isolation/Answers.antt =====
-- bhwi-ffi/src/interp.rs: the calls on one interpreter, and what they return to the host.
use bhwi_ffi.Prelude.{ℕ, Bool, false, Option, eqb}
use bhwi_ffi.Core.Primitives.{Primitives}
use bhwi_ffi.Core.Device.{Device}
use bhwi_ffi.Core.Library.{Library}
use bhwi_ffi.Core.Family.{Families}
use bhwi_ffi.Error.{Outcome}
use bhwi_ffi.Types.Transmit.{Transmit}
use bhwi_ffi.Types.Response.{HwiResponse}
use bhwi_ffi.Interp.World.{World, start, exchange, end}
use bhwi_ffi.Interp.World.Calls.{Call, starts, exchanges, ends, drops}

-- whether a call is made on interpreter `i`
abbrev pub is_on : ℕ → Call → Bool
is_on i (starts j command) = eqb i j
is_on i (exchanges j reply) = eqb i j
is_on i (ends j) = eqb i j
is_on i (drops j) = eqb i j
is_on i _ = false

-- what a call on an interpreter returns to the host
pub data Answer : Type 0 where
  of_start : Outcome Transmit → Answer
  of_exchange : Outcome (Option Transmit) → Answer
  of_end : Outcome HwiResponse → Answer
  nothing : Answer

module _ ⦃P : Primitives⦄ ⦃F : Families⦄ where
  module _ ⦃L : Library⦄ ⦃D : Device⦄ where
    abbrev pub answer : Call → World → Answer
    answer (starts i command) w = of_start (start i command w).0
    answer (exchanges i reply) w = of_exchange (exchange i reply w).0
    answer (ends i) w = of_end (end i w).0
    answer _ w = nothing
