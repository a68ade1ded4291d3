-- ===== src/Interp/World/Cells.antt =====
-- bhwi-ffi/src/interp.rs: the cell behind a lease, and which calls write to it.
use bhwi_ffi.Prelude.{ℕ, false, List, ◌≡◌, arith, refl, inl, inr, Bool-cases, Option-cases}
use bhwi_ffi.Text.{Bytes, Text}
use bhwi_ffi.Core.Primitives.{Primitives}
use bhwi_ffi.Core.Device.{Device}
use bhwi_ffi.Core.Library.{Library}
use bhwi_ffi.Core.Family.{Families}
use bhwi_ffi.Core.Result.{CoreResult, success, failure}
use bhwi_ffi.Core.Protocol
use bhwi_ffi.Error.{Outcome, ok, err, panicked}
use bhwi_ffi.State.Leased.{get_leased}
use bhwi_ffi.Types.Command.{HwiCommand}
use bhwi_ffi.Types.Plan.{Plan, plan}
use bhwi_ffi.Interp.Session
use bhwi_ffi.Interp.Session.Leases.{coldcard}
use bhwi_ffi.Interp.Session.{
  StateLease, unleased, noise, Inner, Session, Devices, Ran, drop_lease, write_noise, write_engine,
  exchange_inner, end_inner, start_session, start_with, launch, launch_ledger,
}
use bhwi_ffi.Interp.Replies.{advance, deliver}
use bhwi_ffi.Interp.World.{start_call, exchange_call, end_session, install_key, unlocked_key}
use bhwi_ffi.Interp.World.Ownership.{lease_beq}
use bhwi_ffi.Interp.World.Frame.{borrows}

module _ ⦃P : Primitives⦄ where
  -- what a lease gives access to
  pub data Cell : Type 0 where
    no_cell : Cell
    noise_state : P.NoiseState → Cell
    engine_state : P.Engine → Cell

  abbrev pub cell_at : Devices → StateLease → Cell
  cell_at d unleased = no_cell
  cell_at d (noise h) = noise_state (get_leased (d.noises h).state)
  cell_at d (coldcard h) = engine_state (get_leased (d.engines h).engine)

  -- The cells of `d'` are those of `d`, but for the one behind `l`.
  abbrev pub IsOutside : StateLease → Devices → Devices → Type 0
  IsOutside l d d' = (k : StateLease) → lease_beq k l ≡ false → cell_at d' k ≡ cell_at d k

  pub write_noise-IsOutside :
      (h : ℕ) (state : P.NoiseState) (codes : List Text) (d : Devices)
      → IsOutside (noise h) d (write_noise h state codes d)
  unfolding write_noise get_leased
  write_noise-IsOutside h state codes d unleased n = refl
  write_noise-IsOutside h state codes d (noise k) n = ground arith
  write_noise-IsOutside h state codes d (coldcard k) n = refl

  pub write_engine-IsOutside :
      (h : ℕ) (engine : P.Engine) (d : Devices) → IsOutside (coldcard h) d (write_engine h engine d)
  unfolding write_engine get_leased
  write_engine-IsOutside h engine d unleased n = refl
  write_engine-IsOutside h engine d (noise k) n = refl
  write_engine-IsOutside h engine d (coldcard k) n = ground arith

  pub cell_at-write_noise :
      (h : ℕ) (state : P.NoiseState) (codes : List Text) (d : Devices)
      → cell_at (write_noise h state codes d) (noise h) ≡ noise_state state
  unfolding write_noise get_leased
  cell_at-write_noise h state codes d = ground arith

  pub cell_at-write_engine :
      (h : ℕ) (engine : P.Engine) (d : Devices)
      → cell_at (write_engine h engine d) (coldcard h) ≡ engine_state engine
  unfolding write_engine get_leased
  cell_at-write_engine h engine d = ground arith

  -- Dropping a lease changes no cell.
  pub cell_at-drop_lease :
      (l : StateLease) (d : Devices) (k : StateLease) → cell_at (drop_lease l d) k ≡ cell_at d k
  unfolding drop_lease get_leased
  cell_at-drop_lease unleased d k = refl
  cell_at-drop_lease (noise h) d unleased = refl
  cell_at-drop_lease (noise h) d (noise k) = ground arith
  cell_at-drop_lease (noise h) d (coldcard k) = refl
  cell_at-drop_lease (coldcard h) d unleased = refl
  cell_at-drop_lease (coldcard h) d (noise k) = refl
  cell_at-drop_lease (coldcard h) d (coldcard k) = ground arith

  module _ ⦃F : Families⦄ where
    exchange_inner-IsOutside :
        (inner : Inner) (reply : Bytes) (d : Devices)
        → IsOutside (borrows inner) d (exchange_inner inner reply d).devices
    unfolding exchange_inner
    exchange_inner-IsOutside (Session.bitbox h i) reply d = write_noise-IsOutside h _ _ d
    exchange_inner-IsOutside (Session.coldcard h i) reply d = write_engine-IsOutside h _ d
    exchange_inner-IsOutside _ reply d = λ k n. refl

    end_inner-IsOutside :
        (inner : Inner) (d : Devices) → IsOutside (borrows inner) d (end_inner inner d).1
    unfolding end_inner
    end_inner-IsOutside (Session.bitbox h i) d = write_noise-IsOutside h _ _ d
    end_inner-IsOutside (Session.coldcard h i) d = write_engine-IsOutside h _ d
    end_inner-IsOutside _ d = λ k n. refl

    module _ ⦃L : Library⦄ where
      pub exchange_call-IsOutside :
          (reply : Bytes) (s : Session) (d : Devices)
          → IsOutside (borrows s.inner) d (exchange_call reply s d).devices
      unfolding exchange_call advance deliver
      exchange_call-IsOutside reply s d k n =
          ground (arith, exchange_inner-IsOutside s.inner reply d k n)

      launch-IsOutside :
          {C : Type 0} (l : StateLease) (o : CoreResult Protocol.Error C)
          (run : C → Ran Protocol.Transmit) (p : Plan) (s : Session) (d : Devices)
          → ((c : C) → IsOutside l d (run c).devices)
          → IsOutside l d (launch o run p s d).devices
      unfolding launch
      launch-IsOutside l (failure e) run p s d f k n = refl
      launch-IsOutside l (success c) run p s d f k n = f c k n

      launch_ledger-IsOutside :
          (l : StateLease) (o : CoreResult Protocol.Error F.ledger.FamilyCommand)
          (run : F.ledger.FamilyCommand → Ran Protocol.Transmit) (p : Plan) (s : Session)
          (d : Devices)
          → ((c : F.ledger.FamilyCommand) → IsOutside l d (run c).devices)
          → IsOutside l d (launch_ledger o run p s d).devices
      unfolding launch_ledger
      launch_ledger-IsOutside l (failure e) run p s d f k n = refl
      launch_ledger-IsOutside l (success c) run p s d f k n = ground (arith, f c k n)

      start_with-IsOutside :
          (inner : Inner) (p : Plan) (s : Session) (d : Devices)
          → IsOutside (borrows inner) d (start_with inner p s d).devices
      unfolding start_with
      start_with-IsOutside (Session.bitbox h i) p s d =
          launch-IsOutside _ _ _ p s d λ c. write_noise-IsOutside h _ _ d
      start_with-IsOutside (Session.coldcard h i) p s d =
          launch-IsOutside _ _ _ p s d λ c. write_engine-IsOutside h _ d
      start_with-IsOutside (Session.ledger i) p s d =
          launch_ledger-IsOutside unleased _ _ p s d λ c k n. refl
      start_with-IsOutside _ p s d = launch-IsOutside unleased _ _ p s d λ c k n. refl

      pub start_call-IsOutside :
          (command : HwiCommand) (s : Session) (d : Devices)
          → IsOutside (borrows s.inner) d (start_call command s d).devices
      unfolding start_call start_session
      start_call-IsOutside command s d k n = by_plan (plan command s.kind) refl
        where
          by_plan :
              (o : Outcome Plan)
              → plan command s.kind ≡ o
              → cell_at (start_call command s d).devices k ≡ cell_at d k
          by_plan (ok p) planned = ground (arith, start_with-IsOutside s.inner p s d k n)
          by_plan (err e) planned = ground arith
          by_plan panicked planned = ground arith

      module _ ⦃D : Device⦄ where
        install_key-IsOutside :
            (h : ℕ) (key : P.EncryptionKey) (d : Devices)
            → IsOutside (coldcard h) d (install_key h key d).1
        unfolding install_key
        install_key-IsOutside h key d = write_engine-IsOutside h _ d

        -- What `end` does to the cells, where the session borrows from the handle of its lease.
        pub end_session-IsOutside :
            (s : Session) (d : Devices)
            → borrows s.inner ≡ s.lease
            → IsOutside s.lease d (end_session s d).1
        unfolding end_session
        end_session-IsOutside s d b k n =
            let ran = end_inner-IsOutside s.inner d k (ground arith) in
            elim (Bool-cases s.finished) [
              | inr unfinished ↦ ground (arith, cell_at-drop_lease s.lease d k)
              | inl finished ↦ elim (Option-cases (unlocked_key s.lease (end_inner s.inner d).0)) [
                | inl other ↦ ground (arith, cell_at-drop_lease s.lease (end_inner s.inner d).1 k)
                | inr ((h, key), unlocked) ↦ ground (
                  arith,
                  cell_at-drop_lease s.lease (install_key h key (end_inner s.inner d).1).1 k,
                  install_key-IsOutside h key (end_inner s.inner d).1 k,
                )
              ]
            ]
