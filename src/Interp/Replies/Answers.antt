-- ===== src/Interp/Replies/Answers.antt =====
-- bhwi-ffi/src/interp.rs: what a session answers when it is called in order.
use bhwi_ffi.Prelude.{
  ℕ, Bool, true, false, ◌||◌, ◌≡◌, ◌≢◌, refl, Option, none, some, if◌then◌else◌, ◌==◌, arith,
}
use bhwi_ffi.Text.{Bytes}
use bhwi_ffi.Error.{
  HwiError, Outcome, ok, err, panicked, is_bad_state, invalid_input, device, reject_if, or_err,
  ◌>>=◌,
}
use bhwi_ffi.Core.Primitives.{Primitives}
use bhwi_ffi.Core.Result.{CoreResult, success, failure}
use bhwi_ffi.Core.Library.{Library}
use bhwi_ffi.Core.Protocol
use bhwi_ffi.Core.Protocol.{Error, LedgerWalletPolicy}
use bhwi_ffi.Core.Family.{Families}
use bhwi_ffi.Types.Device.{DeviceKind, trezor, keepkey, kind_eq}
use bhwi_ffi.Types.Errors.{map_error}
use bhwi_ffi.Types.Plan.{Plan}
use bhwi_ffi.Types.Plan.Preflight.{Preflight, passes, refuses}
use bhwi_ffi.Types.Transmit.{Transmit}
use bhwi_ffi.Interp.Session
use bhwi_ffi.Interp.Session.{
  Inner, Session, Called, Devices, Ran, exchange_inner, launch, launch_ledger, start_with,
  start_session, registration_id, armed,
}
use bhwi_ffi.Interp.Replies.{
  unwrap, malformed_frame, bad_registration, check_frame, check_registration, check_reply, deliver,
  advance,
}
use bhwi_ffi.Interp.Replies.Framing.{malformed_frame-total}
use bhwi_ffi.Interp.Replies.Registration.{bad_registration-total}

pub data Answered {ℓ} {A : Type ℓ} : Outcome A → Type ℓ where
  answers : (a : A) → Answered (ok a)
  fails : (e : HwiError) → is_bad_state e ≡ false → Answered (err e)

module _ {ℓ κ} {A : Type ℓ} {B : Type κ} where
  pub Answered-bind :
      (m : Outcome A) (f : A → Outcome B)
      → Answered m
      → ((a : A) → Answered (f a))
      → Answered (m >>= f)
  Answered-bind m f (answers a) h = h a
  Answered-bind m f (fails e n) h = fails e n

pub Answered-reject_if :
    (b : Bool) (e : HwiError) → is_bad_state e ≡ false → Answered (reject_if b e)
Answered-reject_if true e n = fails e n
Answered-reject_if false e n = answers tt

pub Answered-Preflight {ℓ} : {A : Type ℓ} (o : Outcome A) → Preflight o → Answered o
Answered-Preflight o (passes a) = answers a
Answered-Preflight o (refuses msg) = fails (invalid_input msg) refl

-- A test of a reply has no error of its own.
data Tested {ℓ} {A : Type ℓ} : Outcome A → Type ℓ where
  tests : (a : A) → Tested (ok a)
  panics : Tested panicked

Tested-unwrap {ℓ} : {A : Type ℓ} (o : Option A) → Tested (unwrap o)
Tested-unwrap none = panics
Tested-unwrap (some a) = tests a

module _ {ℓ κ} {A : Type ℓ} {B : Type κ} where
  Tested-bind :
      (m : Outcome A) (f : A → Outcome B) → Tested m → ((a : A) → Tested (f a)) → Tested (m >>= f)
  Tested-bind m f (tests a) h = h a
  Tested-bind m f panics h = panics

Tested-if {ℓ} :
    {A : Type ℓ} (b : Bool) (m n : Outcome A) → Tested m → Tested n → Tested (if b then m else n)
Tested-if true m n p q = p
Tested-if false m n p q = q

Answered-Tested {ℓ} : {A : Type ℓ} (o : Outcome A) → Tested o → o ≢ panicked → Answered o
Answered-Tested o (tests a) n = answers a
Answered-Tested o panics n = absurd (n refl)

ruleset parts = (tests, panics, Tested-unwrap, Tested-bind, Tested-if)

malformed_frame-Answered : (max : ℕ) (reply : Bytes) → Answered (malformed_frame max reply)
unfolding malformed_frame
malformed_frame-Answered max reply =
    Answered-Tested _ (search parts depth 12) (malformed_frame-total max reply)

bad_registration-Answered :
    (status_ok : ℕ → Bool) (id reply : Bytes) → Answered (bad_registration status_ok id reply)
unfolding bad_registration
bad_registration-Answered status_ok id reply =
    Answered-Tested _ (search parts depth 12) (bad_registration-total status_ok id reply)

module _ ⦃P : Primitives⦄ where
  map_error-answer : (e : Error) (kind : DeviceKind) → is_bad_state (map_error e kind) ≡ false
  unfolding map_error
  map_error-answer e kind = ground arith

  module _ ⦃F : Families⦄ where
    deliver-Answered :
        (s : Session) (r : Ran (Option Protocol.Transmit)) → Answered (deliver s r).outcome
    unfolding deliver
    deliver-Answered s r = by_result r.result
      where
        by_result :
            (o : CoreResult Error (Option Protocol.Transmit))
            → Answered
                (deliver s (record { result = o; inner = r.inner; devices = r.devices })).outcome
        by_result (success none) = answers none
        by_result (success (some t)) = answers _
        by_result (failure e) = fails _ (map_error-answer e s.kind)

    check_registration-Answered :
        (id : Option Bytes) (reply : Bytes) → Answered (check_registration id reply)
    unfolding check_registration
    check_registration-Answered none reply = answers tt
    check_registration-Answered (some id) reply =
        Answered-bind _ _ (bad_registration-Answered F.status_ok id reply)
          λ bad. Answered-reject_if bad _ refl

    check_frame-Answered :
        (max : ℕ) (kind : DeviceKind) (reply : Bytes) → Answered (check_frame max kind reply)
    unfolding check_frame
    check_frame-Answered max kind reply = by_kind (kind == trezor || kind == keepkey)
      where
        by_kind :
            (b : Bool)
            → Answered (
                if b
                then (do
                  bad ← malformed_frame max reply
                  reject_if bad (device "malformed device protocol reply"))
                else ok tt)
        by_kind true =
            Answered-bind _ _ (malformed_frame-Answered max reply)
              λ bad. Answered-reject_if bad _ refl
        by_kind false = answers tt

    module _ ⦃L : Library⦄ where
      check_reply-Answered : (s : Session) (reply : Bytes) → Answered (check_reply s reply)
      unfolding check_reply
      check_reply-Answered s reply =
          Answered-bind _ _ (check_frame-Answered L.usize_max s.kind reply)
            λ u. check_registration-Answered s.ledger_registration_id reply

      pub advance-Answered :
          (reply : Bytes) (s : Session) (d : Devices) → Answered (advance reply s d).outcome
      unfolding advance
      advance-Answered reply s d = by_check (check_reply s reply) (check_reply-Answered s reply)
        where
          by_check :
              (o : Outcome (Unit {0}))
              → Answered o
              → let c : Called (Option Transmit) = elim o [
                | ok u ↦ deliver s (exchange_inner s.inner reply d)
                | err e ↦ record { outcome = err e; session = s; devices = d }
                | panicked ↦ record { outcome = panicked; session = s; devices = d }
              ] in
                Answered c.outcome
          by_check o (answers u) = deliver-Answered s _
          by_check o (fails e n) = fails e n

      by_answer :
          (o : CoreResult Error Protocol.Transmit) (kind : DeviceKind)
          → Answered (Session.answer o kind)
      by_answer (success t) kind = answers _
      by_answer (failure e) kind = fails _ (map_error-answer e kind)

      launch-Answered :
          {C : Type 0} (o : CoreResult Error C) (run : C → Ran Protocol.Transmit) (p : Plan)
          (s : Session) (d : Devices)
          → Answered (launch o run p s d).outcome
      unfolding launch armed
      launch-Answered (failure e) run p s d = fails _ (map_error-answer e s.kind)
      launch-Answered (success c) run p s d = by_answer (run c).result s.kind

      registration_id-Answered :
          (policy : Option LedgerWalletPolicy) → Answered (registration_id policy)
      unfolding registration_id
      registration_id-Answered none = answers none
      registration_id-Answered (some policy) = by_id (L.policy_id policy)
        where
          by_id :
              (o : Option Bytes)
              → Answered
                  (do id ← or_err o (invalid_input "invalid Ledger wallet policy"); ok (some id))
          by_id none = fails _ refl
          by_id (some id) = answers (some id)

      launch_ledger-Answered :
          (o : CoreResult Error F.ledger.FamilyCommand)
          (run : F.ledger.FamilyCommand → Ran Protocol.Transmit) (p : Plan) (s : Session)
          (d : Devices)
          → Answered (launch_ledger o run p s d).outcome
      unfolding launch_ledger armed
      launch_ledger-Answered (failure e) run p s d = fails _ (map_error-answer e s.kind)
      launch_ledger-Answered (success c) run p s d =
          by_id (registration_id (F.registered_policy c))
            (registration_id-Answered (F.registered_policy c))
        where
          by_id :
              (o : Outcome (Option Bytes))
              → Answered o
              → let called : Called Transmit = elim o [
                | err e ↦ record { outcome = err e; session = s; devices = d }
                | panicked ↦ record { outcome = panicked; session = s; devices = d }
                | ok id ↦
                    Session.returned (record (armed p s) { ledger_registration_id = id }) (run c)
              ] in
                Answered called.outcome
          by_id o (answers id) = by_answer (run c).result s.kind
          by_id o (fails e n) = fails e n

      start_with-Answered :
          (inner : Inner) (p : Plan) (s : Session) (d : Devices)
          → Answered (start_with inner p s d).outcome
      unfolding start_with
      start_with-Answered (Session.ledger i) p s d = launch_ledger-Answered _ _ p s d
      start_with-Answered _ p s d = launch-Answered _ _ p s d

      pub start_session-Answered :
          (p : Plan) (s : Session) (d : Devices) → Answered (start_session p s d).outcome
      unfolding start_session
      start_session-Answered p s d = start_with-Answered s.inner p s d
