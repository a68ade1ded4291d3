-- ===== src/Interp/World/Conversation.antt =====
-- bhwi-ffi/src/interp.rs: a whole conversation with a device, from the core's interpreter to the
-- host.
pub mod Steps
pub mod Talk
pub mod Handed
pub mod Told
use bhwi_ffi.Prelude.{ℕ, leb, true, false, some, List, ◌≡◌, ◌↔◌, arith, ◌∙◌, sym, ap}
use bhwi_ffi.Text.{Bytes}
use bhwi_ffi.Core.Primitives.{Primitives}
use bhwi_ffi.Core.Device.{Device}
use bhwi_ffi.Core.Library.{Library}
use bhwi_ffi.Core.Family.{Families}
use bhwi_ffi.Types.Response.{HwiResponse}
use bhwi_ffi.Types.Transmit.{Transmit}
use bhwi_ffi.Interp.Session.{Session}
use bhwi_ffi.Interp.World.{World}
use bhwi_ffi.Interp.World.Calls.{Call, run, IsFresh}
use bhwi_ffi.Interp.World.Exclusive.{session_at}
use bhwi_ffi.Interp.World.Isolation.{answers, only, run-isolated}
use bhwi_ffi.Interp.World.Runs.{fresh-Inv, run-Inv}
use bhwi_ffi.Interp.World.Sound.{run-unpoisoned}
use bhwi_ffi.Interp.World.Conversation.Talk.{talk}
use bhwi_ffi.Interp.World.Conversation.Told.{told, Completes, told_iff}

module _ ⦃P : Primitives⦄ ⦃F : Families⦄ ⦃L : Library⦄ ⦃D : Device⦄ where
  -- A command is under way on an interpreter, after any schedule of calls from fresh handles, and the
  -- host delivers replies to it and then calls `end`, with any calls on other interpreters and on any
  -- handles in between. The host is given some messages, is told that the command is done and is
  -- handed a result, exactly when on the side of the core every reply passes the checks of a reply,
  -- the interpreter takes the replies, asks in between for messages that are the host's, in order,
  -- with the payload, the encryption mark and the recipient, and is done, and ends with a response
  -- that the result shows, of the expected kind and no Coldcard key, where a signed PSBT is of the
  -- recorded transaction and faithful to the recorded inputs; or it ends with the key of a Coldcard,
  -- whose engine takes it, and the result is that the task is done.
  pub run-Converses :
      (before calls : List Call) (w : World)
      → IsFresh w
      → (i : ℕ) (replies : List Bytes) (s : Session) (messages : List Transmit)
        (result : HwiResponse)
      → session_at (run before w) i ≡ some s
      → s.started ≡ true
      → s.finished ≡ false
      → only i calls ≡ talk i replies
      → (answers i calls (run before w) ≡ told messages result)
        ↔ Completes s (run before w).devices replies messages result
  run-Converses before calls w f i replies s messages result at on off mine =
      let w1 = run before w in
      let v = run-Inv before w (fresh-Inv w f) in
      let old : leb w1.next i ≡ false = ground (arith, v.fresh i) in
      let alone = run-isolated before calls w f i old ∙ ap (λ cs. answers i cs w1) mine in
      let poisoned = run-unpoisoned before w f.nothing_poisoned i in
      let same = told_iff i replies messages result w1 s (at, poisoned) on off in
      (λ h. same.0 (sym alone ∙ h), λ c. alone ∙ same.1 c)
