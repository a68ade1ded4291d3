-- ===== src/Types/Response.antt =====
-- bhwi-ffi/src/types.rs: `HwiResponse` and `WalletRegistration`, what the host gets back.
use bhwi_ffi.Prelude.{Bool, Option, List, map}
use bhwi_ffi.Text.{Text, Bytes}
use bhwi_ffi.Core.Primitives.{Primitives}
use bhwi_ffi.Core.Protocol
use bhwi_ffi.Core.Protocol.{
  Response, xpub_response, master_fingerprint, encryption_key, other_response,
}
use bhwi_ffi.Core.Library.{Library}
use bhwi_ffi.Network.{Network, from_core_network}
use bhwi_ffi.Types.Codec.{encode_psbt, encode_signature}

pub data WalletRegistration : Type 0 where
  complete : Option Bytes → WalletRegistration
  pending_user_confirmation : WalletRegistration

-- `From<bc::WalletRegistration> for WalletRegistration`
unfoldable pub to_registration : Protocol.WalletRegistration → WalletRegistration
to_registration (Protocol.complete hmac) = complete hmac
to_registration Protocol.pending_user_confirmation = pending_user_confirmation

pub record Info : Type 0 where
  pub version : Text
  pub firmware : Option Text
  pub initialized : Option Bool
  pub networks : List Network
  pub label : Option Text
  pub on_device_passphrase_entry : Option Bool
  pub needs_pin_sent : Option Bool
  pub needs_passphrase_sent : Option Bool

pub data HwiResponse : Type 0 where
  task_done other : HwiResponse
  device_action : Bool → HwiResponse
  info : Info → HwiResponse
  fingerprint xpub address message_signature signed_psbt : Text → HwiResponse
  wallet_registration : WalletRegistration → HwiResponse

module _ ⦃P : Primitives⦄ ⦃L : Library⦄ where
  open L use {show_fingerprint, show_xpub}

  -- `From<bc::Response> for HwiResponse`
  unfoldable pub to_response : Response → HwiResponse
  unfolding to_registration
  to_response Protocol.task_done = task_done
  to_response (Protocol.device_action success) = device_action success
  to_response (Protocol.info i) = info (record {
    version = i.version;
    firmware = i.firmware;
    initialized = i.initialized;
    networks = map from_core_network i.networks;
    label = i.label;
    on_device_passphrase_entry = i.on_device_passphrase_entry;
    needs_pin_sent = i.needs_pin_sent;
    needs_passphrase_sent = i.needs_passphrase_sent;
  })
  to_response (master_fingerprint f) = fingerprint (show_fingerprint f)
  to_response (xpub_response x) = xpub (show_xpub x)
  to_response (Protocol.address a) = address a
  to_response (Protocol.signature header signature) =
      message_signature (encode_signature header signature)
  to_response (Protocol.signed_psbt psbt) = signed_psbt (encode_psbt psbt)
  to_response (Protocol.wallet_registration r) = wallet_registration (to_registration r)
  to_response (encryption_key key) = other
  to_response (other_response r) = other
