-- ===== src/Types/Relayed.antt =====
-- bhwi-ffi/src/types.rs: how a payload and a result of the core appear to the host, written out as
-- relations between the two sides.
use bhwi_ffi.Prelude.{List, [], ◌∷◌, map, ◌≡◌, ◌↔◌, ◌∙◌, ap, refl, arith}
use bhwi_ffi.Network.{Network, from_core_network}
use bhwi_ffi.Core.Primitives.{Primitives}
use bhwi_ffi.Core.Bitcoin.{CoreNetwork}
use bhwi_ffi.Core.Library.{Library}
use bhwi_ffi.Core.Protocol
use bhwi_ffi.Types.Codec.{encode_psbt, encode_signature}
use bhwi_ffi.Types.Transmit
use bhwi_ffi.Types.Transmit.{
  Recipient, Transmit, HostRequest, to_pin_kind, to_host_request, to_recipient, to_transmit,
}
use bhwi_ffi.Types.Response.{HwiResponse, WalletRegistration, Info, to_registration, to_response}
use bhwi_ffi.Types.Response

-- Member by member, over lists of one length.
abbrev pub Related : {A B : Type 0} → (A → B → Type 0) → List A → List B → Type 0
Related R [] [] = Unit
Related R [] (b ∷ bs) = ⊥
Related R (a ∷ as') [] = ⊥
Related R (a ∷ as') (b ∷ bs) = R a b × Related R as' bs

-- A request to the host asks for the same matrix, or for the same character of the same word.
abbrev pub IsRequest : Protocol.HostRequest → HostRequest → Type 0
IsRequest (Protocol.pin_matrix Protocol.current) r = r ≡ Transmit.pin_matrix Transmit.current
IsRequest (Protocol.pin_matrix Protocol.new_first) r = r ≡ Transmit.pin_matrix Transmit.new_first
IsRequest (Protocol.pin_matrix Protocol.new_second) r = r ≡ Transmit.pin_matrix Transmit.new_second
IsRequest (Protocol.pin_matrix (Protocol.unknown value)) r =
    r ≡ Transmit.pin_matrix (Transmit.unknown value)
IsRequest (Protocol.recovery_character word character) r =
    r ≡ Transmit.recovery_character word character

-- A payload goes to the side that it is for.
abbrev pub IsRecipient : Protocol.Recipient → Recipient → Type 0
IsRecipient Protocol.to_device r = r ≡ Transmit.device
IsRecipient (Protocol.to_pin_server url) r = r ≡ Transmit.pin_server url
IsRecipient (Protocol.to_host asked) r =
    (request : HostRequest) × (r ≡ Transmit.host request) × IsRequest asked request

pub record IsRelayed (t : Protocol.Transmit) (u : Transmit) : Type 0 where
  pub same_payload : u.payload ≡ t.payload
  pub same_encrypted : u.encrypted ≡ t.encrypted
  pub to_its_side : IsRecipient t.recipient u.recipient

-- A network that the binding has no name for appears as a test network.
abbrev pub IsNetwork : CoreNetwork → Network → Type 0
IsNetwork CoreNetwork.bitcoin n = n ≡ Network.bitcoin
IsNetwork CoreNetwork.testnet n = n ≡ Network.testnet
IsNetwork CoreNetwork.signet n = n ≡ Network.signet
IsNetwork CoreNetwork.regtest n = n ≡ Network.regtest
IsNetwork (CoreNetwork.other_network k) n = n ≡ Network.testnet

pub record IsInfo (i : Protocol.Info) (j : Info) : Type 0 where
  pub same_version : j.version ≡ i.version
  pub same_firmware : j.firmware ≡ i.firmware
  pub same_initialized : j.initialized ≡ i.initialized
  pub same_networks : Related IsNetwork i.networks j.networks
  pub same_label : j.label ≡ i.label
  pub same_passphrase_entry : j.on_device_passphrase_entry ≡ i.on_device_passphrase_entry
  pub same_pin_sent : j.needs_pin_sent ≡ i.needs_pin_sent
  pub same_passphrase_sent : j.needs_passphrase_sent ≡ i.needs_passphrase_sent

abbrev pub IsRegistered : Protocol.WalletRegistration → WalletRegistration → Type 0
IsRegistered (Protocol.complete hmac) r = r ≡ Response.complete hmac
IsRegistered Protocol.pending_user_confirmation r = r ≡ Response.pending_user_confirmation

module _ ⦃P : Primitives⦄ ⦃L : Library⦄ where
  -- A result is of the kind of the core's response, with its content: a fingerprint and a key as
  -- their texts, a signed PSBT and a signature behind its header byte as base64. What has no kind of
  -- its own appears as `other`, without its content.
  abbrev pub IsResult : Protocol.Response → HwiResponse → Type 0
  IsResult Protocol.task_done x = x ≡ Response.task_done
  IsResult (Protocol.device_action done) x = x ≡ Response.device_action done
  IsResult (Protocol.info i) x = (j : Info) × (x ≡ Response.info j) × IsInfo i j
  IsResult (Protocol.master_fingerprint f) x = x ≡ Response.fingerprint (L.show_fingerprint f)
  IsResult (Protocol.xpub_response key) x = x ≡ Response.xpub (L.show_xpub key)
  IsResult (Protocol.address a) x = x ≡ Response.address a
  IsResult (Protocol.signature header s) x =
      x ≡ Response.message_signature (L.base64_encode (header ∷ L.compact_signature s))
  IsResult (Protocol.signed_psbt psbt) x =
      x ≡ Response.signed_psbt (L.base64_encode (L.psbt_serialize psbt))
  IsResult (Protocol.wallet_registration r) x =
      (q : WalletRegistration) × (x ≡ Response.wallet_registration q) × IsRegistered r q
  IsResult (Protocol.encryption_key key) x = x ≡ Response.other
  IsResult (Protocol.other_response r) x = x ≡ Response.other

to_host_request_iff :
    (t : Protocol.HostRequest) (r : HostRequest) → IsRequest t r ↔ (r ≡ to_host_request t)
unfolding to_host_request to_pin_kind
to_host_request_iff (Protocol.pin_matrix Protocol.current) r = (λ h. h, λ h. h)
to_host_request_iff (Protocol.pin_matrix Protocol.new_first) r = (λ h. h, λ h. h)
to_host_request_iff (Protocol.pin_matrix Protocol.new_second) r = (λ h. h, λ h. h)
to_host_request_iff (Protocol.pin_matrix (Protocol.unknown value)) r = (λ h. h, λ h. h)
to_host_request_iff (Protocol.recovery_character word character) r = (λ h. h, λ h. h)

to_recipient_iff : (t : Protocol.Recipient) (r : Recipient) → IsRecipient t r ↔ (r ≡ to_recipient t)
unfolding to_recipient
to_recipient_iff Protocol.to_device r = (λ h. h, λ h. h)
to_recipient_iff (Protocol.to_pin_server url) r = (λ h. h, λ h. h)
to_recipient_iff (Protocol.to_host asked) r = (
  λ (request, e, a). e ∙ ap Transmit.host ((to_host_request_iff asked request).0 a),
  λ e. (to_host_request asked, e, (to_host_request_iff asked _).1 refl),
)

pub to_transmit_iff : (t : Protocol.Transmit) (u : Transmit) → IsRelayed t u ↔ (u ≡ to_transmit t)
unfolding to_transmit
to_transmit_iff t u = (
  λ h.
      let side = (to_recipient_iff t.recipient u.recipient).0 h.to_its_side in
      ground (arith, side, h.same_payload, h.same_encrypted),
  λ e. record {
    same_payload = ap (λ x. x.payload) e;
    same_encrypted = ap (λ x. x.encrypted) e;
    to_its_side = (to_recipient_iff t.recipient u.recipient).1 (ap (λ x. x.recipient) e);
  },
)

from_core_networks_iff :
    (cs : List CoreNetwork) (ns : List Network)
    → Related IsNetwork cs ns ↔ (ns ≡ map from_core_network cs)
unfolding from_core_network
from_core_networks_iff [] [] = (λ h. refl, λ h. tt)
from_core_networks_iff [] (n ∷ ns) = (λ h. absurd h, λ h. cc h)
from_core_networks_iff (c ∷ cs) [] = (λ h. absurd h, λ h. cc h)
from_core_networks_iff (c ∷ cs) (n ∷ ns) = (
  λ (h, all). cc ((same c).0 h, (from_core_networks_iff cs ns).0 all),
  λ h. ((same c).1 (ground arith), (from_core_networks_iff cs ns).1 (ground arith)),
)
  where
    same : (c : CoreNetwork) → IsNetwork c n ↔ (n ≡ from_core_network c)
    same CoreNetwork.bitcoin = (λ h. h, λ h. h)
    same CoreNetwork.testnet = (λ h. h, λ h. h)
    same CoreNetwork.signet = (λ h. h, λ h. h)
    same CoreNetwork.regtest = (λ h. h, λ h. h)
    same (CoreNetwork.other_network k) = (λ h. h, λ h. h)

to_registration_iff :
    (r : Protocol.WalletRegistration) (q : WalletRegistration)
    → IsRegistered r q ↔ (q ≡ to_registration r)
unfolding to_registration
to_registration_iff (Protocol.complete hmac) q = (λ h. h, λ h. h)
to_registration_iff Protocol.pending_user_confirmation q = (λ h. h, λ h. h)

module _ ⦃P : Primitives⦄ ⦃L : Library⦄ where
  pub to_response_iff :
      (r : Protocol.Response) (x : HwiResponse) → IsResult r x ↔ (x ≡ to_response r)
  unfolding to_response encode_psbt encode_signature
  to_response_iff (Protocol.info i) x = (
    λ (j, e, h).
        let networks = (from_core_networks_iff i.networks j.networks).0 h.same_networks in
        e
        ∙ ap Response.info (
            ground (
              arith, networks, h.same_version, h.same_firmware, h.same_initialized, h.same_label,
              h.same_passphrase_entry, h.same_pin_sent, h.same_passphrase_sent,
            )),
    λ e. (
      _,
      e,
      record {
        same_version = refl;
        same_firmware = refl;
        same_initialized = refl;
        same_networks = (from_core_networks_iff i.networks _).1 refl;
        same_label = refl;
        same_passphrase_entry = refl;
        same_pin_sent = refl;
        same_passphrase_sent = refl;
      },
    ),
  )
  to_response_iff (Protocol.wallet_registration r) x = (
    λ (q, e, h). e ∙ ap Response.wallet_registration ((to_registration_iff r q).0 h),
    λ e. (to_registration r, e, (to_registration_iff r _).1 refl),
  )
  to_response_iff Protocol.task_done x = (λ h. h, λ h. h)
  to_response_iff (Protocol.device_action done) x = (λ h. h, λ h. h)
  to_response_iff (Protocol.master_fingerprint f) x = (λ h. h, λ h. h)
  to_response_iff (Protocol.xpub_response key) x = (λ h. h, λ h. h)
  to_response_iff (Protocol.address a) x = (λ h. h, λ h. h)
  to_response_iff (Protocol.signature header s) x = (λ h. h, λ h. h)
  to_response_iff (Protocol.signed_psbt psbt) x = (λ h. h, λ h. h)
  to_response_iff (Protocol.encryption_key key) x = (λ h. h, λ h. h)
  to_response_iff (Protocol.other_response r) x = (λ h. h, λ h. h)
