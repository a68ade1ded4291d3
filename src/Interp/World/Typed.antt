-- ===== src/Interp/World/Typed.antt =====
-- bhwi-ffi/src/interp.rs and types.rs: the kind of result that a command ends with.
use bhwi_ffi.Prelude.{ℕ, ◌≡◌, some, ◌⊎◌, inl, inr, true, List, subst, ◌∙◌, refl}
use bhwi_ffi.Error.{ok}
use bhwi_ffi.Core.Primitives.{Primitives}
use bhwi_ffi.Core.Device.{Device}
use bhwi_ffi.Core.Library.{Library}
use bhwi_ffi.Core.Family.{Families}
use bhwi_ffi.Types.Command.{HwiCommand}
use bhwi_ffi.Types.Expect.{matches}
use bhwi_ffi.Types.Plan.{Plan, plan}
use bhwi_ffi.Types.Plan.Kinds.{fits, plan-fits}
use bhwi_ffi.Types.Response.{HwiResponse, task_done}
use bhwi_ffi.Types.Transmit.{Transmit}
use bhwi_ffi.Interp.Session.{Session, end_inner}
use bhwi_ffi.Interp.Session.Leases.{coldcard}
use bhwi_ffi.Core.Result.{success}
use bhwi_ffi.Core.Protocol.{encryption_key}
use bhwi_ffi.Types.Device.{DeviceKind}
use bhwi_ffi.Interp.World.Exclusive.{session_at}
use bhwi_ffi.Interp.World.{World, start, end}
use bhwi_ffi.Interp.World.Calls.{Call, run, IsFresh}
use bhwi_ffi.Interp.World.Ending.{IsAnswer, response, key_installed, end-IsAnswer}
use bhwi_ffi.Interp.World.Flow.{end-IsLive}
use bhwi_ffi.Interp.World.Kept.{run-IsKept}
use bhwi_ffi.Interp.World.Recorded.{start_call-ok, start-IsKept}
use bhwi_ffi.Interp.World.Runs.{fresh-Inv, run-Inv}

module _ ⦃P : Primitives⦄ ⦃F : Families⦄ ⦃L : Library⦄ ⦃D : Device⦄ where
  -- A result of the command, or the `TaskDone` of a Coldcard that answered with its key.
  abbrev pub IsTyped : HwiCommand → World → ℕ → HwiResponse → Type 0
  IsTyped c w i r =
      (fits c r ≡ true)
      ⊎ ((r ≡ task_done)
          × (s : Session) × (h : ℕ) × (key : P.EncryptionKey) × (session_at w i ≡ some s)
          × (s.lease ≡ coldcard h)
          × ((end_inner s.inner w.devices).0 ≡ success (encryption_key key)))

  IsAnswer-IsTyped :
      (c : HwiCommand) (kind : DeviceKind) (p : Plan) (w : World) (i : ℕ) (s : Session)
      (r : HwiResponse)
      → plan c kind ≡ ok p
      → s.expect ≡ p.expect
      → session_at w i ≡ some s
      → IsAnswer s w.devices r
      → IsTyped c w i r
  IsAnswer-IsTyped c kind p w i s _ planned e live (response x at of_kind signed) =
      inl (plan-fits c kind p x planned (subst (λ y. matches y x ≡ true) e of_kind))
  IsAnswer-IsTyped c kind p w i s _ planned e live (key_installed h key l at took) =
      inr (refl, s, h, key, live, l, at)

  -- What a host that starts a command is handed by `end` later, with any calls on any handles and
  -- interpreters before and in between, is of the kind that belongs to the command: the info of a
  -- version, the fingerprint, the xpub, an address, the signature of a message, a signed PSBT, the
  -- registration of a wallet, or the outcome of an action. After an unlock it may be of any kind, and a
  -- Coldcard that answers with its key ends with `TaskDone`.
  pub run-IsTyped :
      (before after : List Call) (w : World)
      → IsFresh w
      → (i : ℕ) (c : HwiCommand) (t : Transmit) (r : HwiResponse)
      → (start i c (run before w)).0 ≡ ok t
      → (end i (run after (start i c (run before w)).1)).0 ≡ ok r
      → IsTyped c (run after (start i c (run before w)).1) i r
  run-IsTyped before after w f i c t r began ended =
      let w1 = run before w in
      let w2 = run after (start i c w1).1 in
      let (s0, _, began', kept) = start-IsKept i c w1 t (run-Inv before w (fresh-Inv w f)) began in
      let (p, planned, first) = start_call-ok c s0 w1.devices t began' in
      let (s, live) = end-IsLive i w2 r ended in
      let still = (run-IsKept after (start i c w1).1 i _ kept).1 s live.0 in
      let (_, answer) = end-IsAnswer i w2 s r live ended in
      IsAnswer-IsTyped c s0.kind p w2 i s r planned (still.same_expect ∙ first.has_expect) live.0
        answer
