-- ===== src/Tests/Conversation.antt =====
-- A conversation of several messages among other calls, on the concrete core.
use bhwi_ffi.Prelude.{true, false, some, none, List, [], ◌∷◌, ◌≡◌, All, refl}
use bhwi_ffi.Text.{Bytes}
use bhwi_ffi.Error.{ok}
use bhwi_ffi.Network.{Network}
use bhwi_ffi.Core.Result.{success}
use bhwi_ffi.Core.Protocol
use bhwi_ffi.Types.Command
use bhwi_ffi.Types.Transmit
use bhwi_ffi.Types.Response
use bhwi_ffi.Types.Response.{to_response}
use bhwi_ffi.Types.Expect.{matches}
use bhwi_ffi.Interp.Session.{exchange_inner, end_inner}
use bhwi_ffi.Interp.Replies.{check_reply, check_frame, check_registration}
use bhwi_ffi.Interp.Fidelity.{
  get_key, pushes, final_contains, partial_preserved, leaf_preserved, key_preserved,
  script_preserved, witness_preserved, preserved, ecdsa_mode, taproot_mode, partial_modes,
  leaf_modes, key_modes, modes_match, check_inputs, check_psbt,
}
use bhwi_ffi.Interp.World.{check_signed}
use bhwi_ffi.Interp.World.Calls.{
  Call, builds_coldcard, builds_specter, starts, exchanges, ends, drops,
}
use bhwi_ffi.Interp.World.Isolation.{answers}
use bhwi_ffi.Interp.World.Isolation.Answers.{of_exchange, of_end}
use bhwi_ffi.Interp.World.Conversation.Steps.{Converses, after}
use bhwi_ffi.Interp.World.Conversation.Handed.{IsForHost, shows, check_signed_iff}
use bhwi_ffi.Interp.World.Conversation.{run-Converses}
use bhwi_ffi.Tests.{
  sample_primitives, sample_library, sample_device, sample_families, hello, answered_psbt,
}
use bhwi_ffi.Tests.Runs.{fresh, fresh-IsFresh, sign, running, running_session, running-IsLive}

-- a Specter interpreter asks once more, beside a Coldcard
abbrev talk_calls : List Call
talk_calls =
    builds_coldcard 5
    ∷ exchanges 0 (7 ∷ 7 ∷ [])
    ∷ starts 1 (Command.unlock Network.testnet)
    ∷ exchanges 0 (1 ∷ [])
    ∷ drops 1
    ∷ ends 0
    ∷ []

abbrev talk_replies : List Bytes
talk_replies = (7 ∷ 7 ∷ []) ∷ (1 ∷ []) ∷ []

talk_fits : All (λ reply. check_reply running_session reply ≡ ok tt) talk_replies
unfolding check_reply check_frame check_registration
talk_fits = (refl, (refl, tt))

talk-Converses : Converses running_session.inner running.devices talk_replies (hello ∷ [])
unfolding Converses exchange_inner
talk-Converses = (refl, refl)

talk_ends :
    (end_inner
      (after running_session.inner running.devices talk_replies).0
      (after running_session.inner running.devices talk_replies).1).0
    ≡ success (Protocol.signed_psbt answered_psbt)
unfolding exchange_inner end_inner
talk_ends = refl

signed_passes : check_signed running_session (Protocol.signed_psbt answered_psbt) ≡ ok tt
unfolding check_signed get_key pushes final_contains partial_preserved leaf_preserved key_preserved
    script_preserved witness_preserved preserved ecdsa_mode taproot_mode partial_modes leaf_modes
    key_modes modes_match check_inputs check_psbt
signed_passes = refl

kind_passes : matches running_session.expect (Protocol.signed_psbt answered_psbt) ≡ true
unfolding matches
kind_passes = refl

no_key : IsForHost running_session (Protocol.signed_psbt answered_psbt)
no_key h key l e = cc e

run-Converses_example :
    answers 0 talk_calls running
    ≡ of_exchange (
        ok (some (record { payload = 1 ∷ 2 ∷ []; encrypted = false; recipient = Transmit.device })))
      ∷ of_exchange (ok none)
      ∷ of_end (ok (Response.signed_psbt (1 ∷ [])))
      ∷ []
run-Converses_example =
    (run-Converses (builds_specter Network.bitcoin ∷ starts 0 sign ∷ []) talk_calls fresh
        fresh-IsFresh 0 talk_replies running_session
        (record { payload = 1 ∷ 2 ∷ []; encrypted = false; recipient = Transmit.device } ∷ [])
        (Response.signed_psbt (1 ∷ [])) running-IsLive.0 refl refl refl).1
      (
        talk_fits,
        hello ∷ [],
        talk-Converses,
        (record { same_payload = refl; same_encrypted = refl; to_its_side = refl }, tt),
        shows (Protocol.signed_psbt answered_psbt) talk_ends no_key kind_passes
            ((check_signed_iff running_session (Protocol.signed_psbt answered_psbt)).0
              signed_passes)
            refl,
      )
