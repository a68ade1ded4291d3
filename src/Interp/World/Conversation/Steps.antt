-- ===== src/Interp/World/Conversation/Steps.antt =====
-- bhwi-ffi/src/interp.rs: a conversation of the core's interpreter with a device, and its calls.
use bhwi_ffi.Prelude.{ℕ, true, false, none, some, List, [], ◌∷◌, ◌≡◌, map, arith, ◌∙◌, ap}
use bhwi_ffi.Text.{Bytes}
use bhwi_ffi.Error.{ok}
use bhwi_ffi.Core.Primitives.{Primitives}
use bhwi_ffi.Core.Device.{Device}
use bhwi_ffi.Core.Library.{Library}
use bhwi_ffi.Core.Family.{Families}
use bhwi_ffi.Core.Result.{success}
use bhwi_ffi.Core.Protocol
use bhwi_ffi.Core.Protocol.{Response}
use bhwi_ffi.Types.Expect.{matches}
use bhwi_ffi.Types.Response.{to_response}
use bhwi_ffi.Types.Transmit.{to_transmit}
use bhwi_ffi.Interp.Session.{Inner, Session, Devices, exchange_inner, end_inner}
use bhwi_ffi.Interp.Replies.{require_running, advance, check_reply, deliver}
use bhwi_ffi.Interp.World.{
  World, keep, settle, exchange, exchange_call, end_session, accept, check_signed, unlocked_key,
}
use bhwi_ffi.Interp.World.Isolation.Answers.{Answer, of_exchange}
use bhwi_ffi.Interp.World.Lifecycle.{IsLive, live_eq}

module _ ⦃P : Primitives⦄ ⦃F : Families⦄ where
  -- The core's interpreter takes these replies, asks for these messages in between, and is done.
  unfoldable pub Converses : Inner → Devices → List Bytes → List Protocol.Transmit → Type 0
  Converses inner d (reply ∷ []) [] = (exchange_inner inner reply d).result ≡ success none
  Converses inner d (reply ∷ next ∷ replies) (t ∷ ts) =
      ((exchange_inner inner reply d).result ≡ success (some t))
      × Converses (exchange_inner inner reply d).inner (exchange_inner inner reply d).devices
          (next ∷ replies) ts
  Converses inner d _ _ = ⊥

  -- what the replies leave of the interpreter and the handles
  abbrev pub after : Inner → Devices → List Bytes → Inner × Devices
  after inner d [] = (inner, d)
  after inner d (reply ∷ replies) =
      after (exchange_inner inner reply d).inner (exchange_inner inner reply d).devices replies

  -- the session of a command that is done
  abbrev pub done : Session → Inner → Session
  done s inner = record s { inner = inner; finished = true }

  abbrev pub sent : List Protocol.Transmit → List Answer
  sent ts = map (λ t. of_exchange (ok (some (to_transmit t)))) ts

  module _ ⦃L : Library⦄ where
    exchange_call_continues :
        (reply : Bytes) (s : Session) (d : Devices) (t : Protocol.Transmit)
        → s.started ≡ true
        → s.finished ≡ false
        → check_reply s reply ≡ ok tt
        → (exchange_inner s.inner reply d).result ≡ success (some t)
        → exchange_call reply s d ≡ record {
          outcome = ok (some (to_transmit t));
          session = record s { inner = (exchange_inner s.inner reply d).inner };
          devices = (exchange_inner s.inner reply d).devices;
        }
    unfolding exchange_call require_running advance deliver
    exchange_call_continues reply s d t on off fits asks = ground arith

    exchange_call_finishes :
        (reply : Bytes) (s : Session) (d : Devices)
        → s.started ≡ true
        → s.finished ≡ false
        → check_reply s reply ≡ ok tt
        → (exchange_inner s.inner reply d).result ≡ success none
        → exchange_call reply s d ≡ record {
          outcome = ok none;
          session = done s (exchange_inner s.inner reply d).inner;
          devices = (exchange_inner s.inner reply d).devices;
        }
    unfolding exchange_call require_running advance deliver
    exchange_call_finishes reply s d on off fits asks = ground arith

    module _ ⦃D : Device⦄ where
      pub end_session_accepts :
          (s : Session) (d : Devices) (r : Response)
          → s.finished ≡ true
          → (end_inner s.inner d).0 ≡ success r
          → unlocked_key s.lease (success r) ≡ none
          → matches s.expect r ≡ true
          → check_signed s r ≡ ok tt
          → (end_session s d).0 ≡ ok (to_response r)
      unfolding end_session accept
      end_session_accepts s d r finished at no_key kind signed = ground arith

      pub exchange_continues :
          (i : ℕ) (reply : Bytes) (w : World) (s : Session) (t : Protocol.Transmit)
          → IsLive w i s
          → s.started ≡ true
          → s.finished ≡ false
          → check_reply s reply ≡ ok tt
          → (exchange_inner s.inner reply w.devices).result ≡ success (some t)
          → exchange i reply w ≡ (
            ok (some (to_transmit t)),
            keep i
                (record s { inner = (exchange_inner s.inner reply w.devices).inner })
                (exchange_inner s.inner reply w.devices).devices
                w,
          )
      unfolding exchange settle
      exchange_continues i reply w s t live on off fits asks =
          live_eq i (exchange_call reply) w s live
          ∙ ap (λ c. settle i c w) (exchange_call_continues reply s w.devices t on off fits asks)

      pub exchange_finishes :
          (i : ℕ) (reply : Bytes) (w : World) (s : Session)
          → IsLive w i s
          → s.started ≡ true
          → s.finished ≡ false
          → check_reply s reply ≡ ok tt
          → (exchange_inner s.inner reply w.devices).result ≡ success none
          → exchange i reply w ≡ (
            ok none,
            keep i
                (done s (exchange_inner s.inner reply w.devices).inner)
                (exchange_inner s.inner reply w.devices).devices
                w,
          )
      unfolding exchange settle
      exchange_finishes i reply w s live on off fits over =
          live_eq i (exchange_call reply) w s live
          ∙ ap (λ c. settle i c w) (exchange_call_finishes reply s w.devices on off fits over)
