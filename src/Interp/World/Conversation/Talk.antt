-- ===== src/Interp/World/Conversation/Talk.antt =====
-- The calls of a conversation with a device, and what each returns.
use bhwi_ffi.Prelude.{
  ℕ, true, false, none, some, List, [], ◌∷◌, ◌++◌, ◌≡◌, All, map, arith, ◌∙◌, ap,
}
use bhwi_ffi.Text.{Bytes}
use bhwi_ffi.Error.{ok}
use bhwi_ffi.Core.Primitives.{Primitives}
use bhwi_ffi.Core.Device.{Device}
use bhwi_ffi.Core.Library.{Library}
use bhwi_ffi.Core.Family.{Families}
use bhwi_ffi.Core.Protocol
use bhwi_ffi.Core.Protocol.{Response}
use bhwi_ffi.Types.Transmit.{to_transmit}
use bhwi_ffi.Interp.Session.{Session, exchange_inner}
use bhwi_ffi.Interp.Replies.{check_reply}
use bhwi_ffi.Interp.World.{World, keep, exchange, end, end_session}
use bhwi_ffi.Interp.World.Calls.{Call, exchanges, ends, step}
use bhwi_ffi.Interp.World.Isolation.{answers}
use bhwi_ffi.Interp.World.Isolation.Answers.{of_exchange, of_end}
use bhwi_ffi.Interp.World.Lifecycle.{IsLive, end_eq}
use bhwi_ffi.Interp.World.Conversation.Steps.{
  Converses, after, done, sent, exchange_continues, exchange_finishes,
}

module _ ⦃P : Primitives⦄ ⦃F : Families⦄ ⦃L : Library⦄ ⦃D : Device⦄ where
  pub answers-exchanges :
      (i : ℕ) (reply : Bytes) (cs : List Call) (w : World)
      → answers i (exchanges i reply ∷ cs) w
        ≡ of_exchange (exchange i reply w).0 ∷ answers i cs (exchange i reply w).1
  unfolding answers step
  answers-exchanges i reply cs w = ground arith

  pub answers-ends : (i : ℕ) (w : World) → answers i (ends i ∷ []) w ≡ of_end (end i w).0 ∷ []
  unfolding answers
  answers-ends i w = ground arith

  -- the calls of a conversation
  abbrev pub talk : ℕ → List Bytes → List Call
  talk i replies = map (λ reply. exchanges i reply) replies ++ ends i ∷ []

  pub talk-answers :
      (i : ℕ) (replies : List Bytes) (ts : List Protocol.Transmit) (w : World) (s : Session)
      → IsLive w i s
      → s.started ≡ true
      → s.finished ≡ false
      → All (λ reply. check_reply s reply ≡ ok tt) replies
      → Converses s.inner w.devices replies ts
      → (let (inner, d) = after s.inner w.devices replies in
          answers i (talk i replies) w
          ≡ sent ts ++ of_exchange (ok none) ∷ of_end (end_session (done s inner) d).0 ∷ [])
  unfolding Converses check_reply
  talk-answers i (reply ∷ []) [] w s live on off (fits, _) c =
      let ran = exchange_finishes i reply w s live on off fits c in
      let r = exchange_inner s.inner reply w.devices in
      let w' = keep i (done s r.inner) r.devices w in
      let ended = end_eq i w' (done s r.inner) (ground arith) (ground arith) in
      answers-exchanges i reply (ends i ∷ []) w
      ∙ (ap (λ x. of_exchange x.0 ∷ answers i (ends i ∷ []) x.1) ran
          ∙ ap (λ l. of_exchange (ok none) ∷ l)
              (answers-ends i w' ∙ ap (λ x. of_end x.0 ∷ []) ended))
  talk-answers i (reply ∷ next ∷ replies) (t ∷ ts) w s live on off (fits, all) (asks, c) =
      let ran = exchange_continues i reply w s t live on off fits asks in
      let r = exchange_inner s.inner reply w.devices in
      let s' = record s { inner = r.inner } in
      let w' = keep i s' r.devices w in
      let rest =
        talk-answers i (next ∷ replies) ts w' s' (ground arith, ground arith) on off all c in
      answers-exchanges i reply (talk i (next ∷ replies)) w
      ∙ (ap (λ x. of_exchange x.0 ∷ answers i (talk i (next ∷ replies)) x.1) ran
          ∙ ap (λ l. of_exchange (ok (some (to_transmit t))) ∷ l) rest)
  talk-answers i [] ts w s live on off all c = absurd c
  talk-answers i (reply ∷ []) (t ∷ ts) w s live on off all c = absurd c
  talk-answers i (reply ∷ next ∷ replies) [] w s live on off all c = absurd c
