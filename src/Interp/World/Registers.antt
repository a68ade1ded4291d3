-- ===== src/Interp/World/Registers.antt =====
-- bhwi-ffi/src/interp.rs: the replies to a Ledger's registration command, from `Interp::start` on.
use bhwi_ffi.Prelude.{
  ℕ, ◌+◌, ◌*◌, ◌^◌, true, false, Option, some, List, [], ◌∷◌, ◌++◌, length, ◌≡◌, arith, refl, ap,
  sym, subst, ◌∙◌, inl, inr, Option-cases,
}
use bhwi_ffi.Text.{Bytes}
use bhwi_ffi.Error.{Outcome, ok, err, panicked, or_err, or_err-eq-ok, >>=-eq-ok, reject_if-eq-ok}
use bhwi_ffi.Core.Primitives.{Primitives}
use bhwi_ffi.Core.Device.{Device}
use bhwi_ffi.Core.Library.{Library}
use bhwi_ffi.Core.Result.{CoreResult, success}
use bhwi_ffi.Core.Protocol
use bhwi_ffi.Core.Protocol.{LedgerWalletPolicy}
use bhwi_ffi.Core.Family.{Families}
use bhwi_ffi.Types.Command.{HwiCommand}
use bhwi_ffi.Types.Plan.{Plan, plan}
use bhwi_ffi.Types.Transmit.{Transmit}
use bhwi_ffi.Interp.Session
use bhwi_ffi.Interp.Session.{
  Session, Called, Devices, Ran, armed, launch_ledger, registration_id, start_with, start_session,
}
use bhwi_ffi.Interp.Replies.{
  advance, check_reply, check_frame, check_registration, bad_registration,
}
use bhwi_ffi.Interp.Replies.Registration.{IsBound, bad_registration_iff}
use bhwi_ffi.Interp.World.{World, start, start_call, exchange, exchange_call, with_session, settle}
use bhwi_ffi.Interp.World.Exclusive.{session_at}
use bhwi_ffi.Interp.World.Runs.{fresh-Inv, run-Inv}
use bhwi_ffi.Interp.World.Kept.{run-IsKept}
use bhwi_ffi.Interp.World.Recorded.{start_call_eq, start-IsKept}
use bhwi_ffi.Interp.World.Calls.{Call, run, IsFresh}

some_inj {ℓ} : {A : Type ℓ} {a b : A} → ◌≡◌ {A = Option A} (some a) (some b) → a ≡ b
some_inj e = cc e

module _ ⦃P : Primitives⦄ ⦃F : Families⦄ ⦃L : Library⦄ where
  registration_id-some :
      (policy : LedgerWalletPolicy) (o : Option Bytes)
      → registration_id (some policy) ≡ ok o
      → (id : Bytes) × (L.policy_id policy ≡ some id) × (o ≡ some id)
  unfolding registration_id
  registration_id-some policy o h =
      let (id, ie, rest) = >>=-eq-ok (or_err (L.policy_id policy) _) _ h in
      (id, or_err-eq-ok _ _ ie, ground arith)

  launch_ledger-id :
      (c : F.ledger.FamilyCommand) (go : F.ledger.FamilyCommand → Ran Protocol.Transmit) (p : Plan)
      (s : Session) (d : Devices) (policy : LedgerWalletPolicy) (t : Transmit)
      → F.registered_policy c ≡ some policy
      → (launch_ledger (success c) go p s d).outcome ≡ ok t
      → (id : Bytes) × (L.policy_id policy ≡ some id)
        × ((launch_ledger (success c) go p s d).session.ledger_registration_id ≡ some id)
  unfolding launch_ledger
  launch_ledger-id c go p s d policy t is_policy h =
      by_id (registration_id (F.registered_policy c)) refl
    where
      by_id :
          (o : Outcome (Option Bytes))
          → registration_id (F.registered_policy c) ≡ o
          → (id : Bytes) × (L.policy_id policy ≡ some id)
            × ((launch_ledger (success c) go p s d).session.ledger_registration_id ≡ some id)
      by_id (err e) same = absurd (ground arith)
      by_id panicked same = absurd (ground arith)
      by_id (ok o) same =
          let (id, ie, oe) =
            registration_id-some policy o (ap registration_id (sym is_policy) ∙ same) in
          (id, ie, ground arith)

  launch_ledger_at :
      (o : CoreResult Protocol.Error F.ledger.FamilyCommand) (c : F.ledger.FamilyCommand)
      (go : F.ledger.FamilyCommand → Ran Protocol.Transmit) (p : Plan) (s : Session) (d : Devices)
      (policy : LedgerWalletPolicy) (t : Transmit)
      → o ≡ success c
      → F.registered_policy c ≡ some policy
      → (launch_ledger o go p s d).outcome ≡ ok t
      → (id : Bytes) × (L.policy_id policy ≡ some id)
        × ((launch_ledger o go p s d).session.ledger_registration_id ≡ some id)
  launch_ledger_at o c go p s d policy t e is_policy =
      subst
        (λ o.
          (launch_ledger o go p s d).outcome ≡ ok t
          → (id : Bytes) × (L.policy_id policy ≡ some id)
            × ((launch_ledger o go p s d).session.ledger_registration_id ≡ some id))
        (sym e) (launch_ledger-id c go p s d policy t is_policy)

  check_reply-registration :
      (s : Session) (reply : Bytes)
      → check_reply s reply ≡ ok tt
      → check_registration s.ledger_registration_id reply ≡ ok tt
  unfolding check_reply
  check_reply-registration s reply h =
      let (_, _, rest) = >>=-eq-ok (check_frame L.usize_max s.kind reply) _ h in rest

  exchange_call-checked :
      (reply : Bytes) (s : Session) (d : Devices) (t : Option Transmit)
      → (exchange_call reply s d).outcome ≡ ok t
      → check_reply s reply ≡ ok tt
  unfolding exchange_call advance
  exchange_call-checked reply s d t h = ground arith

  -- A reply that `exchange` accepts has passed the check of a registration.
  exchange-checked :
      (i : ℕ) (reply : Bytes) (w : World) (t : Option Transmit)
      → (exchange i reply w).0 ≡ ok t
      → (s : Session) × (session_at w i ≡ some s)
        × (check_registration s.ledger_registration_id reply ≡ ok tt)
  unfolding exchange with_session settle
  exchange-checked i reply w t h = elim (Option-cases (session_at w i)) [
    | inl gone ↦ absurd (ground arith)
    | inr (s, live) ↦ (
      s,
      live,
      check_reply-registration s reply (exchange_call-checked reply s w.devices t (ground arith)),
    )
  ]

  check_registration-some :
      (id reply : Bytes)
      → check_registration (some id) reply ≡ ok tt
      → bad_registration F.status_ok id reply ≡ ok false
  unfolding check_registration
  check_registration-some id reply h =
      let (bad, be, rest) = >>=-eq-ok (bad_registration F.status_ok id reply) _ h in
      let good : bad ≡ false = reject_if-eq-ok bad _ rest in be ∙ ap ok good

  start_with_ledger :
      (inner : Session.Inner) (k : F.ledger.Interpreter) (p : Plan) (c : F.ledger.FamilyCommand)
      (s : Session) (d : Devices) (policy : LedgerWalletPolicy) (t : Transmit)
      → inner ≡ Session.ledger k
      → F.ledger.lower p.command ≡ success c
      → F.registered_policy c ≡ some policy
      → (start_with inner p s d).outcome ≡ ok t
      → (id : Bytes) × (L.policy_id policy ≡ some id)
        × ((start_with inner p s d).session.ledger_registration_id ≡ some id)
  unfolding start_with
  start_with_ledger (Session.ledger j) k p c s d policy t e lowered is_policy h =
      launch_ledger_at (F.ledger.lower p.command) c _ p s d policy t lowered is_policy h
  start_with_ledger _ k p c s d policy t e lowered is_policy h = absurd (ground arith)

  start_call-off :
      (command : HwiCommand) (s : Session) (d : Devices) (t : Transmit)
      → (start_call command s d).outcome ≡ ok t
      → s.started ≡ false
  unfolding start_call
  start_call-off command s d t h = ground arith

  -- the identity that `start` records of a registration
  start_call-id :
      (command : HwiCommand) (s : Session) (d : Devices) (k : F.ledger.Interpreter) (p : Plan)
      (c : F.ledger.FamilyCommand) (policy : LedgerWalletPolicy) (t : Transmit)
      → s.inner ≡ Session.ledger k
      → plan command s.kind ≡ ok p
      → F.ledger.lower p.command ≡ success c
      → F.registered_policy c ≡ some policy
      → (start_call command s d).outcome ≡ ok t
      → (id : Bytes) × (L.policy_id policy ≡ some id)
        × ((start_call command s d).session.ledger_registration_id ≡ some id)
  unfolding start_session
  start_call-id command s d k p c policy t is_ledger planned lowered is_policy h =
      let ran = start_call_eq command s d p (start_call-off command s d t h) planned in
      let (id, ie, recorded) =
        start_with_ledger s.inner k p c s d policy t is_ledger lowered is_policy
          (sym (ap (λ r. r.outcome) ran) ∙ h) in
      (id, ie, ap (λ r. r.session.ledger_registration_id) ran ∙ recorded)

  module _ ⦃D : Device⦄ where
    -- After every schedule of calls from fresh handles: once `start` has succeeded on a Ledger with a
    -- command that registers a wallet policy, then whatever else the host calls in between, a reply
    -- with the status word of success that `exchange` accepts for that interpreter holds the identity
    -- of that policy followed by an HMAC of 32 bytes, given that identities have 32 bytes.
    pub run-IsBound :
        (ids : (policy : LedgerWalletPolicy) (id : Bytes)
          → L.policy_id policy ≡ some id
          → length id ≡ 32)
        (before after : List Call) (w : World)
        → IsFresh w
        → (i : ℕ) (command : HwiCommand) (s : Session) (k : F.ledger.Interpreter) (p : Plan)
          (c : F.ledger.FamilyCommand) (policy : LedgerWalletPolicy) (t : Transmit)
        → session_at (run before w) i ≡ some s
        → s.inner ≡ Session.ledger k
        → plan command s.kind ≡ ok p
        → F.ledger.lower p.command ≡ success c
        → F.registered_policy c ≡ some policy
        → (start i command (run before w)).0 ≡ ok t
        → (body : Bytes) (a b : ℕ) (answer : Option Transmit)
        → (exchange i (body ++ a ∷ b ∷ []) (run after (start i command (run before w)).1)).0
          ≡ ok answer
        → F.status_ok (a * 2 ^ 8 + b) ≡ true
        → (id : Bytes) × (L.policy_id policy ≡ some id) × IsBound F.status_ok id body
    run-IsBound ids before after w f i command s k p c policy t live is_ledger planned lowered
          is_policy began body a b answer accepted success_word =
        let w1 = run before w in
        let w2 = run after (start i command w1).1 in
        let (s1, live1, began1, kept) =
          start-IsKept i command w1 t (run-Inv before w (fresh-Inv w f)) began in
        let same : s1 ≡ s = some_inj (sym live1 ∙ live) in
        let r = start_call command s w1.devices in
        let began2 : r.outcome ≡ ok t =
          subst (λ s. (start_call command s w1.devices).outcome ≡ ok t) same began1 in
        let (id, ie, recorded) =
          start_call-id command s w1.devices k p c policy t is_ledger planned lowered is_policy
            began2 in
        let reply = body ++ a ∷ b ∷ [] in
        let (s2, live2, checked) = exchange-checked i reply w2 answer accepted in
        let still = (run-IsKept after (start i command w1).1 i _ kept).1 s2 live2 in
        let bound : s2.ledger_registration_id ≡ some id =
          still.same_id
          ∙ (ap (λ s. (start_call command s w1.devices).session.ledger_registration_id) same
              ∙ recorded) in
        let passed =
          check_registration-some id reply
            (subst (λ o. check_registration o reply ≡ ok tt) bound checked) in
        (
          id,
          ie,
          (bad_registration_iff F.status_ok id body a b (ids policy id ie)).0 passed success_word,
        )
