-- ===== src/Interp/World/Locality.antt =====
-- bhwi-ffi/src/interp.rs: what the calls of an interpreter read of the handles.
pub mod Reads
use bhwi_ffi.Prelude.{ℕ, ◌≡◌, arith, refl, sym, subst, ◌∙◌, ap, inl, inr, none, some, Option-cases}
use bhwi_ffi.Text.{Bytes}
use bhwi_ffi.Core.Primitives.{Primitives}
use bhwi_ffi.Core.Device.{Device}
use bhwi_ffi.Core.Library.{Library}
use bhwi_ffi.Core.Family.{Families}
use bhwi_ffi.Core.Result.{CoreResult, success, failure}
use bhwi_ffi.Core.Protocol
use bhwi_ffi.Error.{Outcome, ok, err, panicked, device}
use bhwi_ffi.Types.Response.{task_done}
use bhwi_ffi.State.Leased.{get_leased}
use bhwi_ffi.Types.Command.{HwiCommand}
use bhwi_ffi.Types.Plan.{Plan, plan}
use bhwi_ffi.Interp.Session
use bhwi_ffi.Interp.Session.Leases.{coldcard}
use bhwi_ffi.Interp.Session.{
  StateLease, unleased, Inner, Session, Devices, Ran, end_inner, start_session, start_with, launch,
  launch_ledger,
}
use bhwi_ffi.Interp.Replies.{advance, deliver}
use bhwi_ffi.Interp.World.{start_call, exchange_call, end_session, install_key, unlocked_key}
use bhwi_ffi.Interp.World.Frame.{borrows}
use bhwi_ffi.Interp.World.Cells.{
  noise_state, engine_state, cell_at, cell_at-write_noise, cell_at-write_engine,
}
use bhwi_ffi.Interp.World.Locality.Reads.{
  IsAlike, IsAlikeRan, exchange_inner-IsAlike, end_inner_alike, kept-IsAlike,
}

module _ ⦃P : Primitives⦄ ⦃F : Families⦄ where
  module _ (d e : Devices) where
    module _ ⦃L : Library⦄ where
      -- An exchange reads and writes nothing but the session and the cell that it borrows.
      pub exchange_call-IsAlike :
          (reply : Bytes) (s : Session)
          → cell_at d (borrows s.inner) ≡ cell_at e (borrows s.inner)
          → IsAlike (borrows s.inner) (exchange_call reply s d) (exchange_call reply s e)
      unfolding exchange_call advance deliver
      exchange_call-IsAlike reply s at =
          let ran = exchange_inner-IsAlike d e s.inner reply at in
          record {
            outcome = ground (arith, ran.result);
            session = ground (arith, ran.result, ran.inner);
            cell = ground (arith, ran.cell);
          }

      launch-IsAlike :
          {C : Type 0} (l : StateLease) (o : CoreResult Protocol.Error C)
          (run again : C → Ran Protocol.Transmit) (p : Plan) (s : Session)
          → cell_at d l ≡ cell_at e l
          → ((c : C) → IsAlikeRan l (run c) (again c))
          → IsAlike l (launch o run p s d) (launch o again p s e)
      unfolding launch
      launch-IsAlike l (failure x) run again p s at f = kept-IsAlike d e l _ s at
      launch-IsAlike l (success c) run again p s at f =
          let ran = f c in
          record {
            outcome = ground (arith, ran.result);
            session = ground (arith, ran.inner);
            cell = ground (arith, ran.cell);
          }

      -- The Ledger borrows nothing.
      launch_ledger-IsAlike :
          (o : CoreResult Protocol.Error F.ledger.FamilyCommand)
          (run again : F.ledger.FamilyCommand → Ran Protocol.Transmit) (p : Plan) (s : Session)
          → ((c : F.ledger.FamilyCommand) → IsAlikeRan unleased (run c) (again c))
          → IsAlike unleased (launch_ledger o run p s d) (launch_ledger o again p s e)
      unfolding launch_ledger
      launch_ledger-IsAlike (failure x) run again p s f = kept-IsAlike d e unleased _ s refl
      launch_ledger-IsAlike (success c) run again p s f =
          let ran = f c in
          record {
            outcome = ground (arith, ran.result);
            session = ground (arith, ran.inner);
            cell = refl;
          }

      start_with-IsAlike :
          (inner : Inner) (p : Plan) (s : Session)
          → cell_at d (borrows inner) ≡ cell_at e (borrows inner)
          → IsAlike (borrows inner) (start_with inner p s d) (start_with inner p s e)
      unfolding start_with
      start_with-IsAlike (Session.bitbox h i) p s at =
          let read : get_leased (d.noises h).state ≡ get_leased (e.noises h).state = cc at in
          launch-IsAlike _ _ _ _ p s at λ c. record {
            result = ap (λ n. (F.bitbox.start_step i n c).result) read;
            inner = ap (λ n. Session.bitbox h (F.bitbox.start_step i n c).interpreter) read;
            cell =
                cell_at-write_noise h _ _ d
                ∙ (ap (λ n. noise_state (F.bitbox.start_step i n c).cell) read
                    ∙ sym (cell_at-write_noise h _ _ e));
          }
      start_with-IsAlike (Session.coldcard h i) p s at =
          let read : get_leased (d.engines h).engine ≡ get_leased (e.engines h).engine = cc at in
          launch-IsAlike _ _ _ _ p s at λ c. record {
            result = ap (λ n. (F.coldcard.start_step i n c).result) read;
            inner = ap (λ n. Session.coldcard h (F.coldcard.start_step i n c).interpreter) read;
            cell =
                cell_at-write_engine h _ d
                ∙ (ap (λ n. engine_state (F.coldcard.start_step i n c).cell) read
                    ∙ sym (cell_at-write_engine h _ e));
          }
      start_with-IsAlike (Session.ledger i) p s at =
          launch_ledger-IsAlike _ _ _ p s λ c. record { result = refl; inner = refl; cell = refl }
      start_with-IsAlike _ p s at =
          launch-IsAlike _ _ _ _ p s at λ c. record { result = refl; inner = refl; cell = refl }

      pub start_call-IsAlike :
          (command : HwiCommand) (s : Session)
          → cell_at d (borrows s.inner) ≡ cell_at e (borrows s.inner)
          → IsAlike (borrows s.inner) (start_call command s d) (start_call command s e)
      unfolding start_call start_session
      start_call-IsAlike command s at = by_plan (plan command s.kind) refl
        where
          by_plan :
              (o : Outcome Plan)
              → plan command s.kind ≡ o
              → IsAlike (borrows s.inner) (start_call command s d) (start_call command s e)
          by_plan (ok p) planned =
              let ran = start_with-IsAlike s.inner p s at in
              record {
                outcome = ground (arith, ran.outcome);
                session = ground (arith, ran.session);
                cell = ground (arith, ran.cell);
              }
          by_plan (err x) planned = record {
            outcome = ground arith;
            session = ground arith;
            cell = ground arith;
          }
          by_plan panicked planned = record {
            outcome = ground arith;
            session = ground arith;
            cell = ground arith;
          }

      module _ ⦃D : Device⦄ where
        install_key_alike :
            (h : ℕ) (key : P.EncryptionKey) (d' e' : Devices)
            → cell_at d' (coldcard h) ≡ cell_at e' (coldcard h)
            → (install_key h key d').0 ≡ (install_key h key e').0
        unfolding install_key
        install_key_alike h key d' e' at =
            let read : get_leased (d'.engines h).engine ≡ get_leased (e'.engines h).engine =
              cc at in
            ap
              (λ c. elim (D.engine_ready c key).1 [
                | none ↦ ok task_done
                | some msg ↦ err (device msg)
              ])
              read

        -- The result of `end` depends on nothing but the session and the cell that it borrows.
        pub end_session_alike :
            (s : Session)
            → borrows s.inner ≡ s.lease
            → cell_at d s.lease ≡ cell_at e s.lease
            → (end_session s d).0 ≡ (end_session s e).0
        unfolding end_session
        end_session_alike s b at =
            let (result, left) = end_inner_alike d e s.inner (ground arith) in
            elim (Option-cases (unlocked_key s.lease (end_inner s.inner d).0)) [
              | inl other ↦ ground arith
              | inr ((h, key), unlocked) ↦
                  let held : s.lease ≡ coldcard h = ground arith in
                  let d' = (end_inner s.inner d).1 in
                  let e' = (end_inner s.inner e).1 in
                  let still = subst (λ l. cell_at d' l ≡ cell_at e' l) (b ∙ held) left in
                  ground (arith, install_key_alike h key d' e' still)
            ]
