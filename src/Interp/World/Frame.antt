-- ===== src/Interp/World/Frame.antt =====
-- bhwi-ffi/src/interp.rs: a call on a session, its lease, the handle that it borrows and the flags.
use bhwi_ffi.Prelude.{ℕ, Bool, true, false, Option, List, ◌≡◌, if◌then◌else◌, arith, refl, sym, ap}
use bhwi_ffi.Text.{Bytes}
use bhwi_ffi.Error.{Outcome, bad_state, ok, err, panicked}
use bhwi_ffi.Core.Primitives.{Primitives}
use bhwi_ffi.Core.Result.{CoreResult, success, failure}
use bhwi_ffi.Core.Protocol
use bhwi_ffi.Core.Family.{Families}
use bhwi_ffi.Core.Library.{Library}
use bhwi_ffi.Types.Command.{HwiCommand}
use bhwi_ffi.Types.Plan.{Plan, plan}
use bhwi_ffi.Interp.Session
use bhwi_ffi.Interp.Session.Leases.{coldcard}
use bhwi_ffi.Interp.Session.{
  StateLease, unleased, noise, Inner, Session, Called, Devices, Ran, drop_lease, write_noise,
  write_engine, exchange_inner, end_inner, start_session, start_with, launch, launch_ledger, armed,
  registration_id,
}
use bhwi_ffi.Interp.Replies.{require_running, advance, deliver, check_reply}
use bhwi_ffi.Interp.World.{start_call, exchange_call}
use bhwi_ffi.Interp.World.Ownership.{lease_beq}

module _ ⦃P : Primitives⦄ where
  -- whether a lease is out
  abbrev pub is_out : Devices → StateLease → Bool
  is_out d unleased = false
  is_out d (noise h) = (d.noises h).state.leased
  is_out d (coldcard h) = (d.engines h).engine.leased

  pub is_out-drop_lease :
      (l : StateLease) (d : Devices) (k : StateLease)
      → is_out (drop_lease l d) k ≡ (if lease_beq k l then false else is_out d k)
  unfolding drop_lease
  is_out-drop_lease unleased d unleased = refl
  is_out-drop_lease unleased d (noise k) = refl
  is_out-drop_lease unleased d (coldcard k) = refl
  is_out-drop_lease (noise h) d unleased = refl
  is_out-drop_lease (noise h) d (noise k) = ground arith
  is_out-drop_lease (noise h) d (coldcard k) = refl
  is_out-drop_lease (coldcard h) d unleased = refl
  is_out-drop_lease (coldcard h) d (noise k) = refl
  is_out-drop_lease (coldcard h) d (coldcard k) = ground arith

  is_out-write_noise :
      (h : ℕ) (state : P.NoiseState) (codes : List (List ℕ)) (d : Devices) (k : StateLease)
      → is_out (write_noise h state codes d) k ≡ is_out d k
  unfolding write_noise
  is_out-write_noise h state codes d unleased = refl
  is_out-write_noise h state codes d (noise k) = ground arith
  is_out-write_noise h state codes d (coldcard k) = refl

  pub is_out-write_engine :
      (h : ℕ) (engine : P.Engine) (d : Devices) (k : StateLease)
      → is_out (write_engine h engine d) k ≡ is_out d k
  unfolding write_engine
  is_out-write_engine h engine d unleased = refl
  is_out-write_engine h engine d (noise k) = refl
  is_out-write_engine h engine d (coldcard k) = ground arith

  module _ ⦃F : Families⦄ where
    -- the handle that an interpreter borrows from
    abbrev pub borrows : Inner → StateLease
    borrows (Session.bitbox h i) = noise h
    borrows (Session.coldcard h i) = coldcard h
    borrows _ = unleased

    pub record IsFrame {A : Type 0} (s : Session) (d : Devices) (c : Called A) : Type 0 where
      pub lease : c.session.lease ≡ s.lease
      pub borrow : borrows c.session.inner ≡ borrows s.inner
      pub flags : (k : StateLease) → is_out c.devices k ≡ is_out d k

    abbrev IsRanFrame : {A : Type 0} → Inner → Devices → Ran A → Type 0
    IsRanFrame inner d r =
        (borrows r.inner ≡ borrows inner) × ((k : StateLease) → is_out r.devices k ≡ is_out d k)

    exchange_inner-frame :
        (inner : Inner) (reply : Bytes) (d : Devices)
        → IsRanFrame inner d (exchange_inner inner reply d)
    unfolding exchange_inner
    exchange_inner-frame (Session.bitbox h i) reply d = (refl, λ k. is_out-write_noise h _ _ d k)
    exchange_inner-frame (Session.coldcard h i) reply d = (refl, λ k. is_out-write_engine h _ d k)
    exchange_inner-frame _ reply d = (refl, λ k. refl)

    pub end_inner-flags :
        (inner : Inner) (d : Devices) (k : StateLease) → is_out (end_inner inner d).1 k ≡ is_out d k
    unfolding end_inner
    end_inner-flags (Session.bitbox h i) d k = is_out-write_noise h _ _ d k
    end_inner-flags (Session.coldcard h i) d k = is_out-write_engine h _ d k
    end_inner-flags _ d k = refl

    deliver-IsFrame :
        (s : Session) (d : Devices) (r : Ran (Option Protocol.Transmit))
        → IsRanFrame s.inner d r
        → IsFrame s d (deliver s r)
    unfolding deliver
    deliver-IsFrame s d r (b, f) = record {
      lease = ground arith;
      borrow = ground arith;
      flags = λ k. ground (arith, f k);
    }

    kept-IsFrame :
        {A : Type 0} (o : Outcome A) (s : Session) (d : Devices)
        → IsFrame s d (record { outcome = o; session = s; devices = d })
    kept-IsFrame o s d = record { lease = refl; borrow = refl; flags = λ k. refl }

    module _ ⦃L : Library⦄ where
      advance-IsFrame :
          (reply : Bytes) (s : Session) (d : Devices) → IsFrame s d (advance reply s d)
      unfolding advance
      advance-IsFrame reply s d = by_check (check_reply s reply)
        where
          by_check :
              (o : Outcome (Unit {0}))
              → IsFrame s d (elim o [
                | ok u ↦ deliver s (exchange_inner s.inner reply d)
                | err e ↦ record { outcome = err e; session = s; devices = d }
                | panicked ↦ record { outcome = panicked; session = s; devices = d }
              ])
          by_check (ok u) = deliver-IsFrame s d _ (exchange_inner-frame s.inner reply d)
          by_check (err e) = kept-IsFrame _ s d
          by_check panicked = kept-IsFrame _ s d

      pub exchange_call-IsFrame :
          (reply : Bytes) (s : Session) (d : Devices) → IsFrame s d (exchange_call reply s d)
      unfolding exchange_call
      exchange_call-IsFrame reply s d = by_check (require_running s)
        where
          by_check :
              (o : Outcome (Unit {0}))
              → IsFrame s d (elim o [
                | ok u ↦ advance reply s d
                | err e ↦ record { outcome = err e; session = s; devices = d }
                | panicked ↦ record { outcome = panicked; session = s; devices = d }
              ])
          by_check (ok u) = advance-IsFrame reply s d
          by_check (err e) = kept-IsFrame _ s d
          by_check panicked = kept-IsFrame _ s d

      launch-IsFrame :
          {C : Type 0} (o : CoreResult Protocol.Error C) (run : C → Ran Protocol.Transmit)
          (p : Plan) (s : Session) (d : Devices)
          → ((c : C) → IsRanFrame s.inner d (run c))
          → IsFrame s d (launch o run p s d)
      unfolding launch
      launch-IsFrame (failure e) run p s d f = kept-IsFrame _ s d
      launch-IsFrame (success c) run p s d f = record {
        lease = refl;
        borrow = (f c).0;
        flags = (f c).1;
      }

      launch_ledger-IsFrame :
          (o : CoreResult Protocol.Error F.ledger.FamilyCommand)
          (run : F.ledger.FamilyCommand → Ran Protocol.Transmit) (p : Plan) (s : Session)
          (d : Devices)
          → ((c : F.ledger.FamilyCommand) → IsRanFrame s.inner d (run c))
          → IsFrame s d (launch_ledger o run p s d)
      unfolding launch_ledger
      launch_ledger-IsFrame (failure e) run p s d f = kept-IsFrame _ s d
      launch_ledger-IsFrame (success c) run p s d f = record {
        lease = ground arith;
        borrow = ground (arith, (f c).0);
        flags = λ k. ground (arith, (f c).1 k);
      }

      start_with-IsFrame :
          (inner : Inner) (p : Plan) (s : Session) (d : Devices)
          → s.inner ≡ inner
          → IsFrame s d (start_with inner p s d)
      unfolding start_with
      start_with-IsFrame (Session.bitbox h i) p s d e =
          launch-IsFrame _ _ p s d λ c. (sym (ap borrows e), λ k. is_out-write_noise h _ _ d k)
      start_with-IsFrame (Session.coldcard h i) p s d e =
          launch-IsFrame _ _ p s d λ c. (sym (ap borrows e), λ k. is_out-write_engine h _ d k)
      start_with-IsFrame (Session.ledger i) p s d e =
          launch_ledger-IsFrame _ _ p s d λ c. (sym (ap borrows e), λ k. refl)
      start_with-IsFrame _ p s d e = launch-IsFrame _ _ p s d λ c. (sym (ap borrows e), λ k. refl)

      start_session-IsFrame :
          (p : Plan) (s : Session) (d : Devices) → IsFrame s d (start_session p s d)
      unfolding start_session
      start_session-IsFrame p s d = start_with-IsFrame s.inner p s d refl

      pub start_call-IsFrame :
          (command : HwiCommand) (s : Session) (d : Devices) → IsFrame s d (start_call command s d)
      unfolding start_call
      start_call-IsFrame command s d = by_test s.started (plan command s.kind)
        where
          by_plan :
              (o : Outcome Plan)
              → IsFrame s d (elim o [
                | ok p ↦ start_session p s d
                | err e ↦ record { outcome = err e; session = s; devices = d }
                | panicked ↦ record { outcome = panicked; session = s; devices = d }
              ])
          by_plan (ok p) = start_session-IsFrame p s d
          by_plan (err e) = kept-IsFrame _ s d
          by_plan panicked = kept-IsFrame _ s d

          by_test :
              (b : Bool) (o : Outcome Plan)
              → IsFrame s d (
                  if b
                  then record {
                    outcome = err (bad_state "start was already called");
                    session = s;
                    devices = d;
                  }
                  else elim o [
                    | ok p ↦ start_session p s d
                    | err e ↦ record { outcome = err e; session = s; devices = d }
                    | panicked ↦ record { outcome = panicked; session = s; devices = d }
                  ])
          by_test true o = kept-IsFrame _ s d
          by_test false o = by_plan o
