-- ===== src/Interp/World/Conversation/Told.antt =====
-- bhwi-ffi/src/interp.rs: what the host is told of a conversation, and what the core did.
use bhwi_ffi.Prelude.{
  ℕ, true, false, Option, none, some, List, [], ◌∷◌, ◌++◌, ◌≡◌, ◌↔◌, All, map, arith, refl, ◌∙◌, ap,
  sym,
}
use bhwi_ffi.Text.{Bytes}
use bhwi_ffi.Error.{Outcome, ok}
use bhwi_ffi.Core.Primitives.{Primitives}
use bhwi_ffi.Core.Device.{Device}
use bhwi_ffi.Core.Library.{Library}
use bhwi_ffi.Core.Family.{Families}
use bhwi_ffi.Core.Result.{success}
use bhwi_ffi.Core.Protocol
use bhwi_ffi.Types.Relayed.{Related, IsRelayed, to_transmit_iff}
use bhwi_ffi.Types.Response.{HwiResponse}
use bhwi_ffi.Types.Transmit.{Transmit, to_transmit}
use bhwi_ffi.Interp.Session.{Session, Devices, exchange_inner}
use bhwi_ffi.Interp.Replies.{require_running, advance, check_reply, deliver}
use bhwi_ffi.Interp.World.{World, keep, settle, exchange, exchange_call}
use bhwi_ffi.Interp.World.Isolation.{answers}
use bhwi_ffi.Interp.World.Isolation.Answers.{Answer, of_exchange, of_end}
use bhwi_ffi.Interp.World.Lifecycle.{IsLive, live_eq, end_eq}
use bhwi_ffi.Interp.World.Calls.{ends}
use bhwi_ffi.Interp.World.Conversation.Steps.{
  Converses, after, done, sent, exchange_continues, exchange_finishes,
}
use bhwi_ffi.Interp.World.Conversation.Talk.{talk, talk-answers, answers-exchanges, answers-ends}
use bhwi_ffi.Interp.World.Conversation.Handed.{Hands, end_session_iff}

-- The host is told these messages, then that the command is done, then this result.
abbrev pub told : List Transmit → HwiResponse → List Answer
told messages result =
    map (λ u. of_exchange (ok (some u))) messages ++ of_exchange (ok none) ∷ of_end (ok result) ∷ []

cons-same {ℓ} :
    {A : Type ℓ} {a b : A} {as' bs : List A} → (a ∷ as') ≡ (b ∷ bs) → (a ≡ b) × (as' ≡ bs)
cons-same h = (cc h, cc h)

of_end-same : {a b : Outcome HwiResponse} → of_end a ≡ of_end b → a ≡ b
of_end-same h = cc h

ended-told :
    (messages : List Transmit) {o : Outcome HwiResponse} (result : HwiResponse)
    → of_end o ∷ [] ≡ told messages result
    → ⊥
ended-told [] result h = cc h
ended-told (u ∷ us) result h = cc h

module _ ⦃P : Primitives⦄ ⦃F : Families⦄ where
  Related-sent :
      (ts : List Protocol.Transmit) (messages : List Transmit)
      → Related IsRelayed ts messages
      → map (λ u. of_exchange (ok (some u))) messages ≡ sent ts
  Related-sent [] [] h = refl
  Related-sent [] (u ∷ us) h = absurd h
  Related-sent (t ∷ ts) [] h = absurd h
  Related-sent (t ∷ ts) (u ∷ us) (h, all) = cc ((to_transmit_iff t u).0 h, Related-sent ts us all)

  module _ ⦃L : Library⦄ ⦃D : Device⦄ where
    exchange_call_asked :
        (reply : Bytes) (s : Session) (d : Devices) (u : Transmit)
        → s.started ≡ true
        → s.finished ≡ false
        → (exchange_call reply s d).outcome ≡ ok (some u)
        → (check_reply s reply ≡ ok tt)
          × (t : Protocol.Transmit) × ((exchange_inner s.inner reply d).result ≡ success (some t))
          × (u ≡ to_transmit t)
    unfolding exchange_call require_running advance deliver
    exchange_call_asked reply s d u on off h = ground arith

    exchange_call_over :
        (reply : Bytes) (s : Session) (d : Devices)
        → s.started ≡ true
        → s.finished ≡ false
        → (exchange_call reply s d).outcome ≡ ok none
        → (check_reply s reply ≡ ok tt) × ((exchange_inner s.inner reply d).result ≡ success none)
    unfolding exchange_call require_running advance deliver
    exchange_call_over reply s d on off h = ground arith

    -- what an `exchange` returns is what its closure returns
    exchange-outcome :
        (i : ℕ) (reply : Bytes) (w : World) (s : Session) (o : Option Transmit)
        → IsLive w i s
        → (exchange i reply w).0 ≡ ok o
        → (exchange_call reply s w.devices).outcome ≡ ok o
    unfolding exchange settle
    exchange-outcome i reply w s o live h =
        sym (ap (λ x. x.0) (live_eq i (exchange_call reply) w s live)) ∙ h

    -- On the side of the core: every reply passes the checks of a reply, the interpreter takes the
    -- replies, asks in between for messages of which these are the host's, and is done, and it hands
    -- over the result.
    abbrev pub Completes : Session → Devices → List Bytes → List Transmit → HwiResponse → Type 0
    Completes s d replies messages result =
        All (λ reply. check_reply s reply ≡ ok tt) replies
        × (ts : List Protocol.Transmit) × Converses s.inner d replies ts
        × Related IsRelayed ts messages
        × Hands (done s (after s.inner d replies).0) (after s.inner d replies).1 result

    -- the last reply, after which the command is done
    told-Completes_last :
        (i : ℕ) (reply : Bytes) (result : HwiResponse) (w : World) (s : Session)
        → IsLive w i s
        → s.started ≡ true
        → s.finished ≡ false
        → answers i (talk i (reply ∷ [])) w ≡ told [] result
        → Completes s w.devices (reply ∷ []) [] result
    unfolding Converses
    told-Completes_last i reply result w s live on off h =
        let (first, rest) = cons-same (sym (answers-exchanges i reply (ends i ∷ []) w) ∙ h) in
        let over = exchange-outcome i reply w s none live (ground arith) in
        let (fits, is_over) = exchange_call_over reply s w.devices on off over in
        let r = exchange_inner s.inner reply w.devices in
        let w' = keep i (done s r.inner) r.devices w in
        let ran = exchange_finishes i reply w s live on off fits is_over in
        let ended = end_eq i w' (done s r.inner) (ground arith) (ground arith) in
        let last = sym (ap (λ x. answers i (ends i ∷ []) x.1) ran ∙ answers-ends i w') ∙ rest in
        let handed = sym (ap (λ x. x.0) ended) ∙ of_end-same (cons-same last).0 in
        let hands = (end_session_iff (done s r.inner) r.devices result refl).0 handed in
        ((fits, tt), [], is_over, tt, hands)

    told-Completes :
        (i : ℕ) (replies : List Bytes) (messages : List Transmit) (result : HwiResponse) (w : World)
        (s : Session)
        → IsLive w i s
        → s.started ≡ true
        → s.finished ≡ false
        → answers i (talk i replies) w ≡ told messages result
        → Completes s w.devices replies messages result
    unfolding Converses check_reply
    told-Completes i [] [] result w s live on off h =
        let shape = sym (answers-ends i w) ∙ h in absurd (ground arith)
    told-Completes i [] (u ∷ us) result w s live on off h =
        let shape = sym (answers-ends i w) ∙ h in absurd (ground arith)
    told-Completes i (reply ∷ []) [] result w s live on off h =
        told-Completes_last i reply result w s live on off h
    told-Completes i (reply ∷ []) (u ∷ us) result w s live on off h =
        let (_, rest) = cons-same (sym (answers-exchanges i reply (ends i ∷ []) w) ∙ h) in
        let last = sym (answers-ends i (exchange i reply w).1) ∙ rest in
        absurd (ended-told us result last)
    told-Completes i (reply ∷ next ∷ replies) [] result w s live on off h =
        let (_, rest) =
          cons-same (sym (answers-exchanges i reply (talk i (next ∷ replies)) w) ∙ h) in
        let more = sym (answers-exchanges i next (talk i replies) (exchange i reply w).1) ∙ rest in
        absurd (ground arith)
    told-Completes i (reply ∷ next ∷ replies) (u ∷ us) result w s live on off h =
        let cs = talk i (next ∷ replies) in
        let (first, rest) = cons-same (sym (answers-exchanges i reply cs w) ∙ h) in
        let asked = exchange-outcome i reply w s (some u) live (ground arith) in
        let (fits, t, asks, same) = exchange_call_asked reply s w.devices u on off asked in
        let r = exchange_inner s.inner reply w.devices in
        let s' = record s { inner = r.inner } in
        let w' = keep i s' r.devices w in
        let ran = exchange_continues i reply w s t live on off fits asks in
        let tail = sym (ap (λ x. answers i cs x.1) ran) ∙ rest in
        let (all, ts, core, related, hands) =
          told-Completes i (next ∷ replies) us result w' s' (ground arith, ground arith) on off
            tail in
        ((fits, all), t ∷ ts, (asks, core), ((to_transmit_iff t u).1 same, related), hands)

    -- What the host is told of a conversation that ends with a result is what the core did.
    pub told_iff :
        (i : ℕ) (replies : List Bytes) (messages : List Transmit) (result : HwiResponse) (w : World)
        (s : Session)
        → IsLive w i s
        → s.started ≡ true
        → s.finished ≡ false
        → (answers i (talk i replies) w ≡ told messages result)
          ↔ Completes s w.devices replies messages result
    told_iff i replies messages result w s live on off = (
      told-Completes i replies messages result w s live on off,
      λ (fits, ts, core, related, hands).
          let (inner, d) = after s.inner w.devices replies in
          let handed = (end_session_iff (done s inner) d result refl).1 hands in
          talk-answers i replies ts w s live on off fits core
          ∙ (ap (λ o. sent ts ++ of_exchange (ok none) ∷ of_end o ∷ []) handed
              ∙ ap (λ l. l ++ of_exchange (ok none) ∷ of_end (ok result) ∷ [])
                  (sym (Related-sent ts messages related))),
    )
